-- ===== src/Daemon/System/Reachable.antt =====
-- The states that the daemon can come to.
use browser_skill.Daemon.Browsers.{select}
use browser_skill.Daemon.Inflight
use browser_skill.Daemon.Inflight.{cancel_session}
use browser_skill.Daemon.Inflight.Cancels
use browser_skill.Daemon.Inflight.Cancels.{cancel_session-IsSound, cancel-IsSound}
use browser_skill.Daemon.Abort
use browser_skill.Daemon.Abort.Laws
use browser_skill.Daemon.Queues.Exclusive.{
  new-AllExclusive, end_send_at-AllExclusive, recv_at-AllExclusive, finish_at-AllExclusive,
}
use browser_skill.Daemon.State.{Daemon}
use browser_skill.Daemon.Forward.Kept.{begin_forward-IsKept}
use browser_skill.Daemon.System.{Event, start, step, IsReachable, at_start, after}
use browser_skill.Daemon.System.Members.{new-IsMember}
use browser_skill.Daemon.System.Registries.{
  begin_connection-IsQuiet, reply_handshake-IsQuiet, disconnect-IsQuiet, reap-IsQuiet,
  begin_start-IsQuiet, forget_session-IsQuiet, end_stop-IsQuiet,
}
use browser_skill.Daemon.System.Cancelling.{pump_inbound-IsCancelling}
use browser_skill.Daemon.System.Peopled.{
  begin_connection-IsPeopled, reply_handshake-IsPeopled, disconnect-IsPeopled, reap-IsPeopled,
  calm-IsPeopled,
}
use browser_skill.Daemon.System.Lifecycles.{
  begin_start-IsPeopled, end_start-IsPeopled, forget_session-IsPeopled, begin_stop-IsCalm,
  end_stop-IsPeopled,
}
use browser_skill.Daemon.System.Messages.{pump_inbound-IsPeopled}
use browser_skill.Daemon.System.Calls.{
  IsWellFormed, kept-IsWellFormed, begin_tool_dispatch-IsWellFormed, end_tool_dispatch-IsWellFormed,
}
use browser_skill.Daemon.System.Turns.{
  quiet-IsWellFormed, cancelling-IsWellFormed, end_start-queues, end_start-registries,
  begin_stop-queues, begin_stop-registries, end_forward-IsWellFormed, begin_wait_ms-IsSound,
  end_wait_ms-IsSound, handle_cancel-IsWellFormed,
}

start-IsWellFormed : IsWellFormed start
unfolding start
start-IsWellFormed = record {
  people = new-IsMember;
  inflight = Inflight.Cancels.new-IsSound;
  aborts = Abort.Laws.new-IsSound;
  queues = new-AllExclusive;
}

step-IsWellFormed : (d : Daemon) (e : Event) → IsWellFormed d → IsWellFormed (step d e)
unfolding step
step-IsWellFormed d (Event.opens decode frame at now) w =
    quiet-IsWellFormed (begin_connection-IsQuiet decode frame at now d)
      (begin_connection-IsPeopled decode frame at now d w.people) w
step-IsWellFormed d (Event.answers written g) w =
    quiet-IsWellFormed (reply_handshake-IsQuiet written g d)
      (reply_handshake-IsPeopled written g d w.people) w
step-IsWellFormed d (Event.receives view sender g now m) w =
    cancelling-IsWellFormed (pump_inbound-IsCancelling view sender g now m d)
      (pump_inbound-IsPeopled view sender g now m d w.people) w
step-IsWellFormed d (Event.closes id g) w =
    quiet-IsWellFormed (disconnect-IsQuiet id g d) (disconnect-IsPeopled id g d w.people) w
step-IsWellFormed d (Event.reaps timeout now) w =
    quiet-IsWellFormed (reap-IsQuiet timeout now d) (reap-IsPeopled timeout now d w.people) w
step-IsWellFormed d (Event.starts encode window requested draws now_ms now rpc_id) w =
    quiet-IsWellFormed
      (begin_start-IsQuiet encode window (select requested d.browsers) draws now_ms now rpc_id d)
      (begin_start-IsPeopled encode window requested draws now_ms now rpc_id d w.people) w
step-IsWellFormed d (Event.started decode g sid rpc_id how) w =
    let (inflight, aborts) = end_start-registries decode g sid rpc_id how d in
    record {
      people = end_start-IsPeopled decode g sid rpc_id how d w.people;
      inflight = rw inflight w.inflight;
      aborts = rw aborts w.aborts;
      queues = end_start-queues decode g sid rpc_id how d w.queues;
    }
step-IsWellFormed d (Event.stops sid limit) w =
    let (inflight, aborts) = begin_stop-registries sid limit d in
    record {
      people = calm-IsPeopled (begin_stop-IsCalm sid limit d) w.people;
      inflight = rw inflight w.inflight;
      aborts = rw aborts w.aborts;
      queues = begin_stop-queues sid limit d w.queues;
    }
step-IsWellFormed d (Event.stopped decode sid r) w = record {
  people = end_stop-IsPeopled decode sid r d w.people;
  inflight = rw (end_stop-IsQuiet decode sid r d).inflight w.inflight;
  aborts = rw (end_stop-IsQuiet decode sid r d).aborts w.aborts;
  queues = rw (end_stop-IsQuiet decode sid r d).channels w.queues;
}
step-IsWellFormed d (Event.forgets sid) w =
    quiet-IsWellFormed (forget_session-IsQuiet sid d) (forget_session-IsPeopled sid d w.people) w
step-IsWellFormed d (Event.calls help_disabled rpc_id m p now ws_rpc_id) w =
    begin_tool_dispatch-IsWellFormed help_disabled rpc_id ws_rpc_id m p now d w
step-IsWellFormed d (Event.called rpc_id m sid a now body) w =
    end_tool_dispatch-IsWellFormed rpc_id sid m a now body d w
step-IsWellFormed d (Event.cancels rpc_id) w = handle_cancel-IsWellFormed rpc_id d w
step-IsWellFormed d (Event.waits rpc_id duration) w = record {
  people = w.people;
  inflight = w.inflight;
  aborts = begin_wait_ms-IsSound rpc_id duration d.abort_registry w.aborts;
  queues = w.queues;
}
step-IsWellFormed d (Event.waited rpc_id t duration how) w = record {
  people = w.people;
  inflight = w.inflight;
  aborts = end_wait_ms-IsSound rpc_id t duration how d.abort_registry w.aborts;
  queues = w.queues;
}
step-IsWellFormed d (Event.sends how a) w = record {
  people = w.people;
  inflight = w.inflight;
  aborts = w.aborts;
  queues = end_send_at-AllExclusive how a d.tool_queues w.queues;
}
step-IsWellFormed d (Event.takes a) w = record {
  people = w.people;
  inflight = w.inflight;
  aborts = w.aborts;
  queues = recv_at-AllExclusive a d.tool_queues w.queues;
}
step-IsWellFormed d (Event.finishes a) w = record {
  people = w.people;
  inflight = w.inflight;
  aborts = w.aborts;
  queues = finish_at-AllExclusive a d.tool_queues w.queues;
}
step-IsWellFormed d (Event.forwards sid rpc_id job) w =
    kept-IsWellFormed (begin_forward-IsKept sid rpc_id job d) w
step-IsWellFormed d (Event.forwarded g rpc_id job how) w =
    end_forward-IsWellFormed g rpc_id job how d w

-- Whatever frames, requests, answers and worker turns the daemon has seen since its start, in any
-- order: each connected client stands under its own id with a generation of its own, each session
-- is owned by a connected client, the registered tool calls and tokens are allocated and no two ids
-- share one, and on each channel the busy mark is set exactly while one command is unfinished.
pub reachable-IsWellFormed : {d : Daemon} → IsReachable d → IsWellFormed d
reachable-IsWellFormed at_start = start-IsWellFormed
reachable-IsWellFormed (after {d} r e) = step-IsWellFormed d e (reachable-IsWellFormed r)
