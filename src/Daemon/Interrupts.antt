-- ===== src/Daemon/Interrupts.antt =====
-- The pending user interrupts: crates/bsk-cli/src/daemon/session_interrupt.rs. A `HashSet` is a map
-- to the unit type.
use browser_skill.Prelude.{Bool, String, is_some}
use browser_skill.Map.{Map, lookup, insert, remove}

abbrev pub Interrupts : Type 0
Interrupts = Map (Unit {0})

unfoldable pub mark : String → Interrupts → Interrupts
mark sid s = insert sid tt s

unfoldable pub is_pending : String → Interrupts → Bool
is_pending sid s = is_some (lookup sid s)

unfoldable pub try_consume : String → Interrupts → Interrupts × Bool
try_consume sid s = (remove sid s, is_some (lookup sid s))

unfoldable pub drop_session : String → Interrupts → Interrupts
drop_session sid s = remove sid s
