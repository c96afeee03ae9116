-- ===== src/Daemon/Ws/Isolation.antt =====
-- What an extension's messages leave of the sessions of other extensions.
use browser_skill.Prelude.{ℕ, ◌≡◌, String}
use browser_skill.Map.{lookup}
use browser_skill.Protocol.Frame.{Frame}
use browser_skill.Daemon.Browsers
use browser_skill.Daemon.Interrupts.{is_pending}
use browser_skill.Daemon.State.{Daemon}

-- A session, its activity, its queue, its pending interrupt and one of its calls are as before.
pub record IsUntouched (sid k : String) (a : ℕ) (d d' : Daemon) : Type 0 where
  pub session : lookup sid d'.sessions.inner ≡ lookup sid d.sessions.inner
  pub activity : lookup sid d'.sessions.last_activity ≡ lookup sid d.sessions.last_activity
  pub queue : lookup sid d'.tool_queues.queues ≡ lookup sid d.tool_queues.queues
  pub interrupt : is_pending sid d'.session_interrupts ≡ is_pending sid d.session_interrupts
  pub call : lookup k d'.tool_inflight.table ≡ lookup k d.tool_inflight.table
  pub entry : d'.tool_inflight.entry a ≡ d.tool_inflight.entry a

-- Forwarding a cancel changes the cell of a client.
record IsForwarded (d d' : Daemon) : Type 0 where
  sessions : d'.sessions ≡ d.sessions
  queues : d'.tool_queues ≡ d.tool_queues
  interrupts : d'.session_interrupts ≡ d.session_interrupts
  inflight : d'.tool_inflight ≡ d.tool_inflight
