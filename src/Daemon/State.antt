-- ===== src/Daemon/State.antt =====
-- The daemon-wide state: `DaemonState` in crates/bsk-cli/src/daemon/state.rs, with the heap of the
-- clients' shared cells.
use browser_skill.Prelude.{ℕ, ◌==◌, if◌then◌else◌}
use browser_skill.Daemon.Browsers.{Cell, BrowserClient}
use browser_skill.Daemon.Browsers
use browser_skill.Daemon.Sessions.{Sessions}
use browser_skill.Daemon.Queues.{Queues}
use browser_skill.Daemon.Interrupts.{Interrupts}
use browser_skill.Daemon.Inflight
use browser_skill.Daemon.Abort

pub record Daemon : Type 0 where
  pub browsers : Browsers.Registry
  pub cell : ℕ → Cell
  pub next_generation : ℕ
  pub sessions : Sessions
  pub tool_queues : Queues
  pub abort_registry : Abort.Registry
  pub tool_inflight : Inflight.Registry
  pub session_interrupts : Interrupts

-- A change of the cell of one client.
abbrev pub with_cell : ℕ → (Cell → Cell) → Daemon → Daemon
with_cell g f d = record d { cell = λ j. if g == j then f (d.cell g) else d.cell j }
