-- ===== src/Skill.antt =====
-- The installation of the bundled skill into the directories of agent harnesses:
-- crates/bsk-cli/src/skill_install.
pub mod Harness
pub mod Sync
pub mod Select
