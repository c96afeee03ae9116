-- ===== src/Skill/Harness.antt =====
-- The harnesses, their names and directories: crates/bsk-cli/src/skill_install/harness.rs, on Unix.
-- Environment variables are a parameter.
use Prim.Native.String.{◌++◌ as ◌<>◌}
use browser_skill.Prelude.{
  ℕ, ◌≡◌, refl, Bool, true, false, Option, none, some, List, [], ◌∷◌, String, codes, map,
  if◌then◌else◌,
}
use browser_skill.Files.{FilePath}
use browser_skill.Cli.Targets.{Text, trim, is_whitespace}
use browser_skill.Cli.Durations.{same}
use browser_skill.Cli.Update.Install.{to_ascii_lowercase}
use browser_skill.Digits.{is_empty}

pub data HarnessId : Type 0 where
  codex codex_internal claude_code claude_code_internal cursor openclaw : HarnessId
  openclaw_internal codebuddy workbuddy pi_agent hermes kimi_code : HarnessId

abbrev pub all : List HarnessId
all =
    codex ∷ codex_internal ∷ claude_code ∷ claude_code_internal ∷ cursor ∷ openclaw
    ∷ openclaw_internal ∷ codebuddy ∷ workbuddy ∷ pi_agent ∷ hermes ∷ kimi_code ∷ []

-- The position in `all`.
unfoldable pub index : HarnessId → ℕ
index codex = 0
index codex_internal = 1
index claude_code = 2
index claude_code_internal = 3
index cursor = 4
index openclaw = 5
index openclaw_internal = 6
index codebuddy = 7
index workbuddy = 8
index pi_agent = 9
index hermes = 10
index kimi_code = 11

unfoldable pub cli_name : HarnessId → String
cli_name codex = "codex"
cli_name codex_internal = "codex-internal"
cli_name claude_code = "claude-code"
cli_name claude_code_internal = "claudecode-internal"
cli_name cursor = "cursor"
cli_name openclaw = "openclaw"
cli_name openclaw_internal = "openclaw-internal"
cli_name codebuddy = "codebuddy"
cli_name workbuddy = "workbuddy"
cli_name pi_agent = "pi"
cli_name hermes = "hermes"
cli_name kimi_code = "kimi-code"

join : String → String → String
join dir name = dir <> ("/" <> name)

non_blank : String → Bool
unfolding trim is_empty
non_blank text = elim (is_empty (trim (codes text))) [ true ↦ false | false ↦ true ]

-- An override from the environment, unless it is blank; `trimmed` is `str::trim` on a text.
module _ (env : String → Option String) (trimmed : String → String) where
  home_or : String → String → String
  unfolding non_blank
  home_or variable default = elim (env variable) [
    | none ↦ default
    | some text ↦ if non_blank text then trimmed text else default
  ]

  hermes_home_for_user_home : String → String
  unfolding home_or join
  hermes_home_for_user_home home = home_or "HERMES_HOME" (join home ".hermes")

  kimi_code_home_for_user_home : String → String
  unfolding home_or join
  kimi_code_home_for_user_home home = home_or "KIMI_CODE_HOME" (join home ".kimi-code")

  skills_dir_for_home : HarnessId → String → String
  unfolding join hermes_home_for_user_home kimi_code_home_for_user_home
  skills_dir_for_home codex home = join (join home ".agents") "skills"
  skills_dir_for_home codex_internal home = join (join home ".codex-internal") "skills"
  skills_dir_for_home claude_code home = join (join home ".claude") "skills"
  skills_dir_for_home claude_code_internal home = join (join home ".claude-internal") "skills"
  skills_dir_for_home cursor home = join (join home ".cursor") "skills"
  skills_dir_for_home openclaw home = join (join home ".openclaw") "skills"
  skills_dir_for_home openclaw_internal home = join (join home ".openclaw-internal") "skills"
  skills_dir_for_home codebuddy home = join (join home ".codebuddy") "skills"
  skills_dir_for_home workbuddy home = join (join home ".workbuddy") "skills"
  skills_dir_for_home pi_agent home = join (join (join home ".pi") "agent") "skills"
  skills_dir_for_home hermes home = join (hermes_home_for_user_home home) "skills"
  skills_dir_for_home kimi_code home = join (kimi_code_home_for_user_home home) "skills"

  skill_dest_dir_for_home : HarnessId → String → String
  unfolding skills_dir_for_home join
  skill_dest_dir_for_home h home = join (skills_dir_for_home h home) "browser-skill"

  -- `SKILL.md` in that directory.
  unfoldable pub dest_file : String → HarnessId → FilePath
  unfolding skill_dest_dir_for_home
  dest_file home h = record {
    parent = some (skill_dest_dir_for_home h home);
    file_name = some (codes "SKILL.md");
  }

abbrev aliases : List (String × HarnessId)
aliases =
    ("codex", codex)
    ∷ ("codex-internal", codex_internal)
    ∷ ("codex_internal", codex_internal)
    ∷ ("codexinternal", codex_internal)
    ∷ ("claude-code", claude_code)
    ∷ ("claude_code", claude_code)
    ∷ ("claude", claude_code)
    ∷ ("claudecode", claude_code)
    ∷ ("cc", claude_code)
    ∷ ("claudecode-internal", claude_code_internal)
    ∷ ("claude-code-internal", claude_code_internal)
    ∷ ("claude_code_internal", claude_code_internal)
    ∷ ("claude-internal", claude_code_internal)
    ∷ ("claude_internal", claude_code_internal)
    ∷ ("cursor", cursor)
    ∷ ("openclaw", openclaw)
    ∷ ("open-claw", openclaw)
    ∷ ("openclaw-internal", openclaw_internal)
    ∷ ("openclaw_internal", openclaw_internal)
    ∷ ("open-claw-internal", openclaw_internal)
    ∷ ("codebuddy", codebuddy)
    ∷ ("code-body", codebuddy)
    ∷ ("codebody", codebuddy)
    ∷ ("code-buddy", codebuddy)
    ∷ ("workbuddy", workbuddy)
    ∷ ("work-buddy", workbuddy)
    ∷ ("pi", pi_agent)
    ∷ ("pi-agent", pi_agent)
    ∷ ("pi_agent", pi_agent)
    ∷ ("piagent", pi_agent)
    ∷ ("hermes", hermes)
    ∷ ("hermes-agent", hermes)
    ∷ ("hermes_agent", hermes)
    ∷ ("hermesagent", hermes)
    ∷ ("kimi-code", kimi_code)
    ∷ ("kimi", kimi_code)
    ∷ ("kimicode", kimi_code)
    ∷ ("kimi-cli", kimi_code)
    ∷ ("kimi_cli", kimi_code)
    ∷ []

find : List (String × HarnessId) → Text → Option HarnessId
unfolding same
find [] name = none
find ((alias, h) ∷ rest) name =
    let found = find rest name in if same name (codes alias) then some h else found

unfoldable pub parse_harness_id : Text → Option HarnessId
unfolding find to_ascii_lowercase
parse_harness_id raw = find aliases (map to_ascii_lowercase (trim raw))

parse_harness_id-cli_name : (h : HarnessId) → parse_harness_id (codes (cli_name h)) ≡ some h
unfolding parse_harness_id cli_name trim is_whitespace
parse_harness_id-cli_name codex = refl
parse_harness_id-cli_name codex_internal = refl
parse_harness_id-cli_name claude_code = refl
parse_harness_id-cli_name claude_code_internal = refl
parse_harness_id-cli_name cursor = refl
parse_harness_id-cli_name openclaw = refl
parse_harness_id-cli_name openclaw_internal = refl
parse_harness_id-cli_name codebuddy = refl
parse_harness_id-cli_name workbuddy = refl
parse_harness_id-cli_name pi_agent = refl
parse_harness_id-cli_name hermes = refl
parse_harness_id-cli_name kimi_code = refl
