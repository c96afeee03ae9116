-- ===== src/Daemon/Stop/Outcomes.antt =====
-- How the stop of a session ends.
use browser_skill.Prelude.{
  ℕ, ◌≡◌, refl, ◌≢◌, inl, inr, true, false, Option, none, some, List, [], ◌∷◌, String, arith, ite,
  text_discrete, Option-cases,
}
use browser_skill.Map.{lookup, lookup-insert, lookup-remove}
use browser_skill.Protocol.Frame.{Value}
use browser_skill.Daemon.Sessions.{get, remove_session}
use browser_skill.Daemon.Queues.{
  ToolJob, QueueEntry, DispatchError, reopen, remove_queue, submit, submit_closing, is_accepting,
  refused, session_stopping,
}
use browser_skill.Daemon.Interrupts.{drop_session}
use browser_skill.Daemon.State.{Daemon}
use browser_skill.Daemon.Stop.{
  SessionStopResult, ReturnFailure, StopError, stopping, stop_failed, stop_waiting, stopped,
  not_stopped, Dispatched, answered, dispatch_failed, begin_stop, end_stop, forget_at, stop_result,
  stop_error, reopened,
}

-- Nothing of a session is left, and everything of the other sessions.
pub record IsGone (sid : String) (d d' : Daemon) : Type 0 where
  pub session :
      (k : String)
      → lookup k d'.sessions.inner ≡ ite (text_discrete sid k) none (lookup k d.sessions.inner)
  pub activity :
      (k : String)
      → lookup k d'.sessions.last_activity
        ≡ ite (text_discrete sid k) none (lookup k d.sessions.last_activity)
  pub queue :
      (k : String)
      → lookup k d'.tool_queues.queues
        ≡ ite (text_discrete sid k) none (lookup k d.tool_queues.queues)
  pub interrupt :
      (k : String)
      → lookup k d'.session_interrupts
        ≡ ite (text_discrete sid k) none (lookup k d.session_interrupts)

forget_at-IsGone : (sid : String) (d : Daemon) → IsGone sid d (forget_at sid d)
unfolding forget_at remove_session remove_queue drop_session
forget_at-IsGone sid d = record {
  session = λ k. lookup-remove k sid d.sessions.inner;
  activity = λ k. lookup-remove k sid d.sessions.last_activity;
  queue = λ k. lookup-remove k sid d.tool_queues.queues;
  interrupt = λ k. lookup-remove k sid d.session_interrupts;
}

stop_result-stopped :
    (sid : String) (r s : SessionStopResult) (fs : List ReturnFailure) (d : Daemon)
    → (stop_result sid r fs d).1 ≡ stopped s
    → ((stop_result sid r fs d).0 ≡ forget_at sid d) × (r ≡ s)
unfolding stop_result
stop_result-stopped sid r s [] d h = (refl, cc)
stop_result-stopped sid r s (f ∷ fs) d h = absurd (cc)

stop_error-stopped :
    (sid : String) (e : DispatchError) (s : SessionStopResult) (d : Daemon)
    → (stop_error sid e d).1 ≡ stopped s
    → (stop_error sid e d).0 ≡ forget_at sid d
unfolding stop_error
stop_error-stopped sid e s d h = ground arith

-- A stop that succeeds unregisters the session, its activity mark, its queue and its pending
-- interrupt, and leaves those of every other session.
pub end_stop-IsGone :
    (decode : Value → Option SessionStopResult) (sid : String) (r : Dispatched)
    (s : SessionStopResult) (d : Daemon)
    → (end_stop decode sid r d).1 ≡ stopped s
    → IsGone sid d (end_stop decode sid r d).0
unfolding end_stop
end_stop-IsGone decode sid (dispatch_failed e) s d h =
    rw (stop_error-stopped sid e s d h) (forget_at-IsGone sid d)
end_stop-IsGone decode sid (answered v) s d h = elim (Option-cases (decode v)) [
  | inl bad ↦ absurd (ground arith)
  | inr (r, good) ↦
      rw (good, end_stop)
        (rw (stop_result-stopped sid r s r.return_failures d (rw (good, end_stop) at h)).0
          (forget_at-IsGone sid d))
]

-- The answers that come after the stop request was queued: all but the three refusals of the queue,
-- and but a result that does not decode.
abbrev pub IsReadable : (Value → Option SessionStopResult) → Dispatched → Type 0
IsReadable decode (answered v) = decode v ≢ none
IsReadable decode (dispatch_failed DispatchError.session_not_found) = ⊥
IsReadable decode (dispatch_failed DispatchError.session_stopping) = ⊥
IsReadable decode (dispatch_failed DispatchError.session_busy) = ⊥
IsReadable decode (dispatch_failed _) = Unit

reopened-is_accepting :
    (sid : String) (x : StopError) (q : QueueEntry) (d : Daemon)
    → lookup sid d.tool_queues.queues ≡ some q
    → ((reopened sid x d).0.sessions ≡ d.sessions)
      × (is_accepting sid (reopened sid x d).0.tool_queues ≡ true)
unfolding reopened reopen is_accepting
reopened-is_accepting sid x q d has =
    let here = lookup-insert sid sid (record q { accepting = true }) d.tool_queues.queues in
    (refl, ground arith)

stop_result-not_stopped :
    (sid : String) (r : SessionStopResult) (fs : List ReturnFailure) (e : StopError)
    (q : QueueEntry) (d : Daemon)
    → lookup sid d.tool_queues.queues ≡ some q
    → (stop_result sid r fs d).1 ≡ not_stopped e
    → ((stop_result sid r fs d).0.sessions ≡ d.sessions)
      × (is_accepting sid (stop_result sid r fs d).0.tool_queues ≡ true)
unfolding stop_result
stop_result-not_stopped sid r [] e q d has h = absurd (cc)
stop_result-not_stopped sid r (f ∷ fs) e q d has h =
    reopened-is_accepting sid (StopError.failed_returns r) q d has

stop_error-not_stopped :
    (sid : String) (x : DispatchError) (e : StopError) (q : QueueEntry) (d : Daemon)
    (decode : Value → Option SessionStopResult)
    → IsReadable decode (dispatch_failed x)
    → lookup sid d.tool_queues.queues ≡ some q
    → (stop_error sid x d).1 ≡ not_stopped e
    → ((stop_error sid x d).0.sessions ≡ d.sessions)
      × (is_accepting sid (stop_error sid x d).0.tool_queues ≡ true)
unfolding stop_error
stop_error-not_stopped sid (DispatchError.rpc r) e q d decode h has k = (
  ground arith,
  ground (arith, reopened-is_accepting sid (StopError.stop_extension_error r) q d has),
)
stop_error-not_stopped sid DispatchError.session_not_found e q d decode h has k = absurd h
stop_error-not_stopped sid DispatchError.session_stopping e q d decode h has k = absurd h
stop_error-not_stopped sid DispatchError.session_busy e q d decode h has k = absurd h
stop_error-not_stopped sid DispatchError.timed_out e q d decode h has k =
    reopened-is_accepting sid StopError.stop_timeout q d has
stop_error-not_stopped sid DispatchError.queue_closed e q d decode h has k =
    reopened-is_accepting sid StopError.stop_closed q d has
stop_error-not_stopped sid DispatchError.queue_full e q d decode h has k =
    reopened-is_accepting sid StopError.stop_closed q d has

-- A queued stop that fails with an answer that can be read keeps every session, and the session's
-- queue, which the stop had closed, accepts commands again.
pub end_stop-is_accepting :
    (decode : Value → Option SessionStopResult) (sid : String) (r : Dispatched) (e : StopError)
    (q : QueueEntry) (d : Daemon)
    → IsReadable decode r
    → lookup sid d.tool_queues.queues ≡ some q
    → (end_stop decode sid r d).1 ≡ not_stopped e
    → ((end_stop decode sid r d).0.sessions ≡ d.sessions)
      × (is_accepting sid (end_stop decode sid r d).0.tool_queues ≡ true)
unfolding end_stop
end_stop-is_accepting decode sid (dispatch_failed x) e q d h has k =
    stop_error-not_stopped sid x e q d decode h has k
end_stop-is_accepting decode sid (answered v) e q d h has k = elim (Option-cases (decode v)) [
  | inl bad ↦ absurd (h bad)
  | inr (r, good) ↦
      rw (good, end_stop)
        (stop_result-not_stopped sid r r.return_failures e q d has (rw (good, end_stop) at k))
]

-- A queued stop whose result does not decode leaves the session registered and its queue closed: if
-- nothing else happens meanwhile, the next tool call for the session is refused as stopping, and so
-- is the next stop.
pub undecodable_stop_sticks :
    (decode : Value → Option SessionStopResult) (sid : String) (limit later a : ℕ) (v : Value)
    (job : ToolJob) (d : Daemon)
    → decode v ≡ none
    → (begin_stop sid limit d).1 ≡ stop_waiting a
    → let d' = (end_stop decode sid (answered v) (begin_stop sid limit d).0).0 in
      (d'.sessions ≡ d.sessions)
      × ((submit sid job d'.tool_queues).1 ≡ refused session_stopping)
      × ((begin_stop sid later d').1 ≡ stop_failed stopping)
unfolding end_stop begin_stop submit submit_closing
undecodable_stop_sticks decode sid limit later a v job d bad queued =
    elim (Option-cases (get sid d.sessions)) [
      | inl no_session ↦ absurd (ground arith)
      | inr (s, has_session) ↦ elim (Option-cases (lookup sid d.tool_queues.queues)) [
        | inl no_queue ↦ absurd (ground arith)
        | inr (q, has_queue) ↦
            let here =
              lookup-insert sid sid (record q { accepting = false }) d.tool_queues.queues in
            (ground arith, ground arith, ground arith)
      ]
    ]
