-- ===== src/Daemon/System/Calls.antt =====
-- The four invariants of the daemon's registries together, and a tool call.
use browser_skill.Prelude.{ℕ, ◌≡◌, refl, inl, inr, Bool, ite, String, Option-cases, Bool-cases}
use browser_skill.Map.{lookup}
use browser_skill.Protocol.Method.{Method, Method-discrete}
use browser_skill.Daemon.Forward.{Forwarding, failed, awaiting, begin_forward}
use browser_skill.Protocol.Frame.{ResponseBody}
use browser_skill.Daemon.Sessions.{touch}
use browser_skill.Daemon.Inflight
use browser_skill.Daemon.Inflight.Cancels
use browser_skill.Daemon.Inflight.Cancels.{register-IsSound, unregister-IsSound}
use browser_skill.Daemon.Abort
use browser_skill.Daemon.Interrupts.{Interrupts}
use browser_skill.Daemon.Queues.{ToolJob, Submitted, waiting, refused, DispatchError, submit}
use browser_skill.Daemon.Queues.Exclusive.{AllExclusive, submit-AllExclusive}
use browser_skill.Daemon.State.{Daemon}
use browser_skill.Daemon.Forward.Kept.{IsKept, begin_forward-IsKept}
use browser_skill.Daemon.Ipc.{
  ToolParams, admit, dispatch, dispatch_unlocked, begin_tool_dispatch, end_tool_dispatch,
  answered_or_forwarded,
}
use browser_skill.Daemon.Ipc.Course.{job_for, admit-cases, begin_tool_dispatch-Course}
use browser_skill.Daemon.System.Members.{touch-IsMember}
use browser_skill.Daemon.System.Peopled.{IsPeopled}

-- The clients and the sessions agree, the registered calls and tokens are allocated and no two ids
-- share one, and the busy mark of each channel is exclusive.
pub record IsWellFormed (d : Daemon) : Type 0 where
  pub people : IsPeopled d
  pub inflight : Inflight.Cancels.IsSound d.tool_inflight
  pub aborts : Abort.Laws.IsSound d.abort_registry
  pub queues : AllExclusive d.tool_queues

kept-inflight :
    {d d' : Daemon}
    → IsKept d d'
    → Inflight.Cancels.IsSound d.tool_inflight
    → Inflight.Cancels.IsSound d'.tool_inflight
kept-inflight k s = record {
  fresh = λ i a e. rw k.next (s.fresh i a (rw k.table at e));
  distinct = λ i j a e h. s.distinct i j a (rw k.table at e) (rw k.table at h);
}

pub kept-IsWellFormed : {d d' : Daemon} → IsKept d d' → IsWellFormed d → IsWellFormed d'
kept-IsWellFormed k w = record {
  people = rw (k.browsers, k.next_generation, k.sessions) w.people;
  inflight = kept-inflight k w.inflight;
  aborts = rw k.abort_registry w.aborts;
  queues = rw k.tool_queues w.queues;
}

touched-IsWellFormed :
    (sid : String) (now : ℕ) (d : Daemon)
    → IsWellFormed d
    → IsWellFormed (record d { sessions = (touch sid now d.sessions).0 })
touched-IsWellFormed sid now d w = record {
  people = touch-IsMember sid now d.browsers d.next_generation d.sessions w.people;
  inflight = w.inflight;
  aborts = w.aborts;
  queues = w.queues;
}

drop_guard-IsWellFormed :
    (rpc_id : String) (a : ℕ) (d : Daemon)
    → IsWellFormed d
    → IsWellFormed (record d { tool_inflight = Inflight.unregister rpc_id a d.tool_inflight })
drop_guard-IsWellFormed rpc_id a d w = record {
  people = w.people;
  inflight = unregister-IsSound rpc_id a d.tool_inflight w.inflight;
  aborts = w.aborts;
  queues = w.queues;
}

registered-IsWellFormed :
    (rpc_id sid : String) (d : Daemon)
    → IsWellFormed d
    → IsWellFormed (record d { tool_inflight = (Inflight.register rpc_id sid d.tool_inflight).0 })
registered-IsWellFormed rpc_id sid d w = record {
  people = w.people;
  inflight = register-IsSound rpc_id sid d.tool_inflight w.inflight;
  aborts = w.aborts;
  queues = w.queues;
}

marked-IsWellFormed :
    (marks : Interrupts) (d : Daemon)
    → IsWellFormed d
    → IsWellFormed (record d { session_interrupts = marks })
marked-IsWellFormed marks d w = record {
  people = w.people;
  inflight = w.inflight;
  aborts = w.aborts;
  queues = w.queues;
}

submitted-IsWellFormed :
    (sid : String) (job : ToolJob) (d : Daemon)
    → IsWellFormed d
    → IsWellFormed (record d { tool_queues = (submit sid job d.tool_queues).0 })
submitted-IsWellFormed sid job d w = record {
  people = w.people;
  inflight = w.inflight;
  aborts = w.aborts;
  queues = submit-AllExclusive sid job d.tool_queues w.queues;
}

dispatch-IsWellFormed :
    (rpc_id sid : String) (a now : ℕ) (job : ToolJob) (d : Daemon)
    → IsWellFormed d
    → IsWellFormed (dispatch rpc_id sid a now job d).0
unfolding dispatch
dispatch-IsWellFormed rpc_id sid a now job d w = from (submit sid job d.tool_queues).1 refl
  where
    d' : Daemon
    d' = record d { tool_queues = (submit sid job d.tool_queues).0 }

    w' : IsWellFormed d'
    w' = submitted-IsWellFormed sid job d w

    touched : IsWellFormed (record d' { sessions = (touch sid now d'.sessions).0 })
    touched = touched-IsWellFormed sid now d' w'

    touched_dropped : IsWellFormed (record d' {
      sessions = (touch sid now d'.sessions).0;
      tool_inflight = Inflight.unregister rpc_id a d.tool_inflight;
    })
    touched_dropped = drop_guard-IsWellFormed rpc_id a _ touched

    from :
        (s : Submitted)
        → (submit sid job d.tool_queues).1 ≡ s
        → IsWellFormed (dispatch rpc_id sid a now job d).0
    from (waiting c) e = rw (e, dispatch) touched
    from (refused DispatchError.queue_full) e = rw (e, dispatch) touched_dropped
    from (refused DispatchError.queue_closed) e = rw (e, dispatch) touched_dropped
    from (refused DispatchError.session_not_found) e =
        rw (e, dispatch) (drop_guard-IsWellFormed rpc_id a d' w')
    from (refused DispatchError.session_stopping) e =
        rw (e, dispatch) (drop_guard-IsWellFormed rpc_id a d' w')
    from (refused DispatchError.session_busy) e =
        rw (e, dispatch) (drop_guard-IsWellFormed rpc_id a d' w')
    from (refused DispatchError.timed_out) e =
        rw (e, dispatch) (drop_guard-IsWellFormed rpc_id a d' w')
    from (refused (DispatchError.rpc x)) e =
        rw (e, dispatch) (drop_guard-IsWellFormed rpc_id a d' w')

-- A forward that has failed is answered, and its guard dropped.
forwarded_or_dropped :
    (rpc_id : String) (a : ℕ) (d : Daemon) (f : Forwarding)
    → IsWellFormed d
    → IsWellFormed (answered_or_forwarded rpc_id a d f).0
unfolding answered_or_forwarded
forwarded_or_dropped rpc_id a d (failed e) w = drop_guard-IsWellFormed rpc_id a d w
forwarded_or_dropped rpc_id a d (awaiting g ws token) w = w

dispatch_unlocked-IsWellFormed :
    (rpc_id sid : String) (a : ℕ) (ws_rpc_id : String) (job : ToolJob) (d : Daemon)
    → IsWellFormed d
    → IsWellFormed (dispatch_unlocked rpc_id sid a ws_rpc_id job d).0
unfolding dispatch_unlocked
dispatch_unlocked-IsWellFormed rpc_id sid a ws_rpc_id job d w =
    elim (Option-cases (lookup sid d.tool_queues.queues)) [
      | inl absent ↦ rw (absent, dispatch_unlocked) (drop_guard-IsWellFormed rpc_id a d w)
      | inr (entry, present) ↦ elim (Bool-cases entry.accepting) [
        | inl accepts ↦
            let kept = kept-IsWellFormed (begin_forward-IsKept sid ws_rpc_id job d) w in
            rw (present, accepts, dispatch_unlocked)
              (forwarded_or_dropped rpc_id a (begin_forward sid ws_rpc_id job d).0
                (begin_forward sid ws_rpc_id job d).1 kept)
        | inr stops ↦ rw (present, stops, dispatch_unlocked) (drop_guard-IsWellFormed rpc_id a d w)
      ]
    ]

admit-IsWellFormed :
    (rpc_id ws_rpc_id sid : String) (m : Method) (limit now : ℕ) (p : ToolParams) (d : Daemon)
    → IsWellFormed d
    → IsWellFormed (admit rpc_id m sid limit p now ws_rpc_id d).0
unfolding admit
admit-IsWellFormed rpc_id ws_rpc_id sid m limit now p d w =
    let d' = record d { tool_inflight = (Inflight.register rpc_id sid d.tool_inflight).0 } in
    let w' : IsWellFormed d' = registered-IsWellFormed rpc_id sid d w in
    elim (Option-cases (Inflight.register rpc_id sid d.tool_inflight).1) [
      | inl duplicate ↦ rw (duplicate, admit) w'
      | inr (a, fresh) ↦ elim (admit-cases rpc_id ws_rpc_id sid m limit now p d a fresh) [
        | inl unlocked ↦
            rw unlocked (
              dispatch_unlocked-IsWellFormed rpc_id sid a ws_rpc_id (job_for m sid limit p a) d' w')
        | inr locked ↦
            rw locked (dispatch-IsWellFormed rpc_id sid a now (job_for m sid limit p a) d' w')
      ]
    ]

pub begin_tool_dispatch-IsWellFormed :
    (help_disabled : Bool) (rpc_id ws_rpc_id : String) (m : Method) (p : ToolParams) (now : ℕ)
    (d : Daemon)
    → IsWellFormed d
    → IsWellFormed (begin_tool_dispatch help_disabled rpc_id m p now ws_rpc_id d).0
begin_tool_dispatch-IsWellFormed help_disabled rpc_id ws_rpc_id m p now d w =
    let course = begin_tool_dispatch-Course help_disabled rpc_id ws_rpc_id m p now d in
    let w' = marked-IsWellFormed course.marks d w in
    elim course.end [
      | inl (body, answered) ↦ rw answered w'
      | inr (sid, limit, admitted) ↦
          rw admitted (admit-IsWellFormed rpc_id ws_rpc_id sid m limit now p _ w')
    ]

pub end_tool_dispatch-IsWellFormed :
    (rpc_id sid : String) (m : Method) (a now : ℕ) (body : ResponseBody) (d : Daemon)
    → IsWellFormed d
    → IsWellFormed (end_tool_dispatch rpc_id m sid a now body d).0
unfolding end_tool_dispatch
end_tool_dispatch-IsWellFormed rpc_id sid m a now body d w =
    let active = record d { sessions = (touch sid now d.sessions).0 } in
    drop_guard-IsWellFormed rpc_id a _
      (elim (Method-discrete m Method.tool_record_stop) as (λ x. IsWellFormed (ite x d active)) [
        | yes e ↦ w
        | no e ↦ touched-IsWellFormed sid now d w
      ])
