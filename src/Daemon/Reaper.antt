-- ===== src/Daemon/Reaper.antt =====
-- The reaper of idle sessions: spawn_session_idle_reaper in crates/bsk-cli/src/daemon/start.rs. A
-- tick stops each idle session in turn; each stop is cut at its await.
use browser_skill.Prelude.{
  ℕ, ◌≡◌, inl, inr, is_some, not, ◌&&◌, Bool-cases, Option-cases, Bool, true, false, Option, none,
  some, List, String, arith, ite, text_discrete, min, max, ◌/◌,
}
use browser_skill.Map.{lookup, lookup-remove}
use browser_skill.Protocol.Frame.{Value}
use browser_skill.Daemon.Queues.{submit_closing}
use browser_skill.Daemon.Sessions.{get, idle_ids_at, remove_session}
use browser_skill.Daemon.State.{Daemon}
use browser_skill.Daemon.Stop.{
  StopError, stop_not_found, stopping, stop_busy, browser_gone, stop_timeout, stop_closed,
  stop_extension_error, failed_returns, SessionStopResult, Dispatched, stop_failed, stop_waiting,
  Stopped, stopped, not_stopped, begin_stop, refusal_of, end_stop, forget_session,
}
use browser_skill.Daemon.System.Lifecycles.{end_stop-cases}

-- The period of the ticks.
unfoldable pub tick_of : ℕ → ℕ
tick_of session_idle = min (max (session_idle / 4) 100) 30000

-- The sessions of a tick.
unfoldable pub idle_sessions : ℕ → ℕ → Daemon → List String
unfolding idle_ids_at
idle_sessions session_idle now d = idle_ids_at session_idle now d.sessions

-- What follows a failed stop: a session without a browser is forgotten, any other is tried again.
after_failure : String → StopError → Daemon → Daemon
unfolding forget_session
after_failure sid stop_not_found d = (forget_session sid d).0
after_failure sid browser_gone d = (forget_session sid d).0
after_failure sid _ d = d

-- The stop of one session up to its await; `some` for the channel whose answer is awaited.
unfoldable pub begin_reap : String → Daemon → Daemon × Option ℕ
unfolding begin_stop after_failure
begin_reap sid d =
    let (d', s) = begin_stop sid 10000 d in
    elim s [ stop_waiting a ↦ (d', some a) | stop_failed e ↦ (after_failure sid e d', none) ]

unfoldable pub settle : String → Stopped → Daemon → Daemon
unfolding after_failure
settle sid (stopped r) d = d
settle sid (not_stopped e) d = after_failure sid e d

-- The rest of the stop.
unfoldable pub end_reap : (Value → Option SessionStopResult) → String → Dispatched → Daemon → Daemon
unfolding end_stop settle
end_reap decode sid r d = let (d', s) = end_stop decode sid r d in settle sid s d'

-- The session is gone after this end of a stop.
abbrev pub is_over : Stopped → Bool
is_over (stopped r) = true
is_over (not_stopped stop_not_found) = true
is_over (not_stopped browser_gone) = true
is_over (not_stopped _) = false

forget-sessions :
    (k sid : String) (d : Daemon)
    → lookup k (forget_session sid d).0.sessions.inner
      ≡ ite (text_discrete sid k) none (lookup k d.sessions.inner)
unfolding forget_session remove_session
forget-sessions k sid d = ground (arith, lookup-remove k sid d.sessions.inner)

kept_or_gone :
    (k sid : String) (s : Stopped) (d d' : Daemon)
    → d'.sessions
      ≡ elim s [ stopped r ↦ (remove_session sid d.sessions).0 | not_stopped e ↦ d.sessions ]
    → lookup k (settle sid s d').sessions.inner ≡ elim (is_over s) [
      | true ↦ ite (text_discrete sid k) none (lookup k d.sessions.inner)
      | false ↦ lookup k d.sessions.inner
    ]
unfolding settle remove_session
kept_or_gone k sid (stopped r) d d' e = ground (arith, lookup-remove k sid d.sessions.inner)
kept_or_gone k sid (not_stopped stop_not_found) d d' e = ground (arith, forget-sessions k sid d')
kept_or_gone k sid (not_stopped browser_gone) d d' e = ground (arith, forget-sessions k sid d')
kept_or_gone k sid (not_stopped stopping) d d' e = ground arith
kept_or_gone k sid (not_stopped stop_busy) d d' e = ground arith
kept_or_gone k sid (not_stopped stop_timeout) d d' e = ground arith
kept_or_gone k sid (not_stopped stop_closed) d d' e = ground arith
kept_or_gone k sid (not_stopped (stop_extension_error x)) d d' e = ground arith
kept_or_gone k sid (not_stopped (failed_returns x)) d d' e = ground arith

end_reap-is_over :
    (decode : Value → Option SessionStopResult) (sid k : String) (r : Dispatched) (d : Daemon)
    → lookup k (end_reap decode sid r d).sessions.inner
      ≡ elim (is_over (end_stop decode sid r d).1) [
        | true ↦ ite (text_discrete sid k) none (lookup k d.sessions.inner)
        | false ↦ lookup k d.sessions.inner
      ]
unfolding end_reap
end_reap-is_over decode sid k r d =
    kept_or_gone k sid (end_stop decode sid r d).1 d (end_stop decode sid r d).0
      (end_stop-cases decode sid r d)

-- A session that cannot be asked to stop: it has no connected browser, or no queue.
abbrev pub is_orphan : String → Daemon → Bool
is_orphan sid d = elim (lookup sid d.sessions.inner) [
  | none ↦ true
  | some s ↦
      not (is_some (lookup s.browser_id d.browsers) && is_some (lookup sid d.tool_queues.queues))
]

begin_reap-is_orphan :
    (sid k : String) (d : Daemon)
    → lookup k (begin_reap sid d).0.sessions.inner ≡ elim (is_orphan sid d) [
      | true ↦ ite (text_discrete sid k) none (lookup k d.sessions.inner)
      | false ↦ lookup k d.sessions.inner
    ]
unfolding begin_reap begin_stop submit_closing refusal_of after_failure get
begin_reap-is_orphan sid k d =
    let forgotten = forget-sessions k sid d in
    elim (Option-cases (lookup sid d.sessions.inner)) [
      | inl gone ↦ ground (arith, forgotten)
      | inr (s, there) ↦ elim (Bool-cases (is_some (lookup s.browser_id d.browsers))) [
        | inr offline ↦ ground (arith, forgotten)
        | inl online ↦ elim (Option-cases (lookup sid d.tool_queues.queues)) [
          | inl unqueued ↦
              ground (arith, forget-sessions k sid (record d { tool_queues = d.tool_queues }))
          | inr (e, queued) ↦ ground arith
        ]
      ]
    ]

-- The reaper unregisters an idle session exactly if it cannot be asked to stop, since it has no
-- connected browser or no queue, or if, once it was asked, the stop succeeds or finds that the
-- session or its browser is gone; and it never unregisters another. Otherwise every session is as it
-- was, to be tried again.
pub end_reap-begin_reap :
    (decode : Value → Option SessionStopResult) (sid k : String) (r : Dispatched) (d d' : Daemon)
    → (lookup k (begin_reap sid d).0.sessions.inner ≡ elim (is_orphan sid d) [
      | true ↦ ite (text_discrete sid k) none (lookup k d.sessions.inner)
      | false ↦ lookup k d.sessions.inner
    ])
      × (lookup k (end_reap decode sid r d').sessions.inner
          ≡ elim (is_over (end_stop decode sid r d').1) [
            | true ↦ ite (text_discrete sid k) none (lookup k d'.sessions.inner)
            | false ↦ lookup k d'.sessions.inner
          ])
end_reap-begin_reap decode sid k r d d' =
    (begin_reap-is_orphan sid k d, end_reap-is_over decode sid k r d')
