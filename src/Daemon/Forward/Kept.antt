-- ===== src/Daemon/Forward/Kept.antt =====
-- The state around a job that is forwarded.
use browser_skill.Prelude.{◌≡◌, String, arith}
use browser_skill.Daemon.Queues.{ToolJob}
use browser_skill.Daemon.State.{Daemon}
use browser_skill.Daemon.Forward.{begin_forward, resolve_and_send, promote_and_send, plain_send}

-- The registries that forwarding a job leaves alone; of the inflight registry, which
-- ids are in it and how many entries there are.
pub record IsKept (d d' : Daemon) : Type 0 where
  pub browsers : d'.browsers ≡ d.browsers
  pub next_generation : d'.next_generation ≡ d.next_generation
  pub sessions : d'.sessions ≡ d.sessions
  pub tool_queues : d'.tool_queues ≡ d.tool_queues
  pub abort_registry : d'.abort_registry ≡ d.abort_registry
  pub session_interrupts : d'.session_interrupts ≡ d.session_interrupts
  pub table : d'.tool_inflight.table ≡ d.tool_inflight.table
  pub next : d'.tool_inflight.next ≡ d.tool_inflight.next

pub begin_forward-IsKept :
    (sid rpc_id : String) (job : ToolJob) (d : Daemon) → IsKept d (begin_forward sid rpc_id job d).0
unfolding begin_forward resolve_and_send promote_and_send plain_send
begin_forward-IsKept sid rpc_id job d = record {
  browsers = ground arith;
  next_generation = ground arith;
  sessions = ground arith;
  tool_queues = ground arith;
  abort_registry = ground arith;
  session_interrupts = ground arith;
  table = ground arith;
  next = ground arith;
}
