-- ===== src/Daemon/System/Lifecycles.antt =====
-- The same through the starts and stops of sessions.
use browser_skill.Prelude.{
  ℕ, ◌≡◌, refl, ◌⊎◌, inl, inr, Option, some, List, String, arith, Option-cases, Bool-cases,
}
use browser_skill.Map.{lookup}
use browser_skill.Protocol.Frame.{Value}
use browser_skill.Daemon.Browsers.{
  BrowserClient, Registry, Selected, SelectError, select, stale_browsers,
}
use browser_skill.Daemon.Browsers
use browser_skill.Daemon.Browsers.Select.{select-registered}
use browser_skill.Daemon.Sessions.{
  reserve_id, cancel_reservation, commit_reservation, remove_session,
}
use browser_skill.Daemon.State.{Daemon, with_cell}
use browser_skill.Daemon.Start.{
  AgentWindowOptions, SessionStartParams, Awaited, arrived, waiter_dropped, late, begin_start,
  end_start,
}
use browser_skill.Daemon.Start.Outcomes.{body-cases}
use browser_skill.Daemon.Stop.{
  SessionStopResult, Dispatched, Stopped, stopped, not_stopped, answered, dispatch_failed,
  begin_stop, end_stop, forget_session,
}
use browser_skill.Daemon.System.Members.{
  remove_session-IsMember, cancel_reservation-IsMember, commit_reservation-IsMember,
  reserve_id-IsMember,
}
use browser_skill.Daemon.System.Peopled.{IsPeopled, IsCalm, calm-IsPeopled}

-- What a start that has selected a client leaves of the registries: the reservation, or it undone.
start_with-cases :
    (encode : SessionStartParams → Value) (window : AgentWindowOptions) (c : BrowserClient)
    (draws : List String) (now_ms now : ℕ) (rpc_id : String) (d : Daemon)
    → let d' = (begin_start encode window (Selected.ok c) draws now_ms now rpc_id d).0 in
      let reserved = (reserve_id c.id 64 draws now_ms now d.sessions).0 in
      IsCalm (record d { sessions = reserved }) d'
      ⊎ ((sid : String) × IsCalm (record d { sessions = cancel_reservation sid reserved }) d')
unfolding begin_start
start_with-cases encode window c draws now_ms now rpc_id d =
    elim (Option-cases (reserve_id c.id 64 draws now_ms now d.sessions).1) [
      | inl taken ↦ inl (record {
        browsers = ground arith;
        next_generation = ground arith;
        sessions = ground arith;
      })
      | inr (sid, free) ↦
          elim (Bool-cases
            ((with_cell c.generation (Browsers.register rpc_id) d).cell c.generation).sink_open) [
              | inl live ↦ inl (record {
                browsers = ground arith;
                next_generation = ground arith;
                sessions = ground arith;
              })
              | inr closed ↦ inr (
                sid,
                record {
                  browsers = ground arith;
                  next_generation = ground arith;
                  sessions = ground arith;
                },
              )
            ]
    ]

-- A client that is selected is connected, so its id owns the reserved session.
start_with-IsPeopled :
    (encode : SessionStartParams → Value) (window : AgentWindowOptions) (c : BrowserClient)
    (draws : List String) (now_ms now : ℕ) (rpc_id : String) (d : Daemon)
    → lookup c.id d.browsers ≡ some c
    → IsPeopled d
    → IsPeopled (begin_start encode window (Selected.ok c) draws now_ms now rpc_id d).0
start_with-IsPeopled encode window c draws now_ms now rpc_id d connected m =
    let m' =
      reserve_id-IsMember c 64 draws now_ms now d.browsers d.next_generation d.sessions m
        connected in
    elim (start_with-cases encode window c draws now_ms now rpc_id d) [
      | inl calm ↦ calm-IsPeopled calm m'
      | inr (sid, calm) ↦
          calm-IsPeopled calm (cancel_reservation-IsMember sid d.browsers d.next_generation _ m')
    ]

failed-IsPeopled :
    (encode : SessionStartParams → Value) (window : AgentWindowOptions) (x : SelectError)
    (draws : List String) (now_ms now : ℕ) (rpc_id : String) (d : Daemon)
    → IsPeopled d
    → IsPeopled (begin_start encode window (Selected.err x) draws now_ms now rpc_id d).0
unfolding begin_start
failed-IsPeopled encode window x draws now_ms now rpc_id d m = m

pub begin_start-IsPeopled :
    (encode : SessionStartParams → Value) (window : AgentWindowOptions) (requested : Option String)
    (draws : List String) (now_ms now : ℕ) (rpc_id : String) (d : Daemon)
    → IsPeopled d
    → IsPeopled
        (begin_start encode window (select requested d.browsers) draws now_ms now rpc_id d).0
begin_start-IsPeopled encode window requested draws now_ms now rpc_id d m =
    from (select requested d.browsers) refl
  where
    from :
        (s : Selected)
        → select requested d.browsers ≡ s
        → IsPeopled (begin_start encode window s draws now_ms now rpc_id d).0
    from (Selected.ok c) e =
        start_with-IsPeopled encode window c draws now_ms now rpc_id d
          (select-registered requested d.browsers c m.clients e) m
    from (Selected.err x) e = failed-IsPeopled encode window x draws now_ms now rpc_id d m

-- What the end of a start leaves of the sessions: the reservation undone, or committed.
end_start-cases :
    (decode : Value → Option (Option ℕ)) (g : ℕ) (sid rpc_id : String) (how : Awaited) (d : Daemon)
    → let d' = (end_start decode g sid rpc_id how d).0 in
      IsCalm (record d { sessions = cancel_reservation sid d.sessions }) d'
      ⊎ ((window : Option ℕ) × IsCalm
            (record d { sessions = (commit_reservation sid window d.sessions).0 })
            d')
unfolding end_start
end_start-cases decode g sid rpc_id (arrived f) d = elim (body-cases f.body) [
  | inl (v, ok) ↦ elim (Option-cases (decode v)) [
    | inl bad ↦ inl (record {
      browsers = ground arith;
      next_generation = ground arith;
      sessions = ground arith;
    })
    | inr (window, good) ↦ inr (
      window,
      record { browsers = ground arith; next_generation = ground arith; sessions = ground arith },
    )
  ]
  | inr (e, err) ↦
      inl (record {
        browsers = ground arith;
        next_generation = ground arith;
        sessions = ground arith;
      })
]
end_start-cases decode g sid rpc_id waiter_dropped d =
    inl (record { browsers = refl; next_generation = refl; sessions = refl })
end_start-cases decode g sid rpc_id late d =
    inl (record { browsers = refl; next_generation = refl; sessions = refl })

pub end_start-IsPeopled :
    (decode : Value → Option (Option ℕ)) (g : ℕ) (sid rpc_id : String) (how : Awaited) (d : Daemon)
    → IsPeopled d
    → IsPeopled (end_start decode g sid rpc_id how d).0
end_start-IsPeopled decode g sid rpc_id how d m = elim (end_start-cases decode g sid rpc_id how d) [
  | inl calm ↦
      calm-IsPeopled calm
        (cancel_reservation-IsMember sid d.browsers d.next_generation d.sessions m)
  | inr (window, calm) ↦
      calm-IsPeopled calm
        (commit_reservation-IsMember sid window d.browsers d.next_generation d.sessions m)
]

forget_session-IsCalm :
    (sid : String) (d : Daemon)
    → IsCalm (record d { sessions = (remove_session sid d.sessions).0 }) (forget_session sid d).0
unfolding forget_session
forget_session-IsCalm sid d = record {
  browsers = ground arith;
  next_generation = ground arith;
  sessions = ground arith;
}

pub forget_session-IsPeopled :
    (sid : String) (d : Daemon) → IsPeopled d → IsPeopled (forget_session sid d).0
forget_session-IsPeopled sid d m =
    calm-IsPeopled (forget_session-IsCalm sid d)
      (remove_session-IsMember sid d.browsers d.next_generation d.sessions m)

pub begin_stop-IsCalm :
    (sid : String) (limit : ℕ) (d : Daemon) → IsCalm d (begin_stop sid limit d).0
unfolding begin_stop
begin_stop-IsCalm sid limit d = record {
  browsers = ground arith;
  next_generation = ground arith;
  sessions = ground arith;
}

-- A stop that succeeds forgets its session, one that fails keeps the registry.
pub end_stop-cases :
    (decode : Value → Option SessionStopResult) (sid : String) (r : Dispatched) (d : Daemon)
    → (end_stop decode sid r d).0.sessions ≡ elim (end_stop decode sid r d).1 [
      | stopped s ↦ (remove_session sid d.sessions).0
      | not_stopped e ↦ d.sessions
    ]
unfolding end_stop
end_stop-cases decode sid (answered v) d = ground arith
end_stop-cases decode sid (dispatch_failed e) d = ground arith

end_stop-keeps :
    (decode : Value → Option SessionStopResult) (sid : String) (r : Dispatched) (d : Daemon)
    → ((end_stop decode sid r d).0.browsers ≡ d.browsers)
      × ((end_stop decode sid r d).0.next_generation ≡ d.next_generation)
unfolding end_stop
end_stop-keeps decode sid r d = (ground arith, ground arith)

pub end_stop-IsPeopled :
    (decode : Value → Option SessionStopResult) (sid : String) (r : Dispatched) (d : Daemon)
    → IsPeopled d
    → IsPeopled (end_stop decode sid r d).0
end_stop-IsPeopled decode sid r d m = from (end_stop decode sid r d).1 refl
  where
    from : (s : Stopped) → (end_stop decode sid r d).1 ≡ s → IsPeopled (end_stop decode sid r d).0
    from (stopped s) e =
        calm-IsPeopled {d = record d { sessions = (remove_session sid d.sessions).0 }}
          {d' = (end_stop decode sid r d).0}
          (record {
            browsers = (end_stop-keeps decode sid r d).0;
            next_generation = (end_stop-keeps decode sid r d).1;
            sessions = ground (arith, end_stop-cases decode sid r d);
          })
          (remove_session-IsMember sid d.browsers d.next_generation d.sessions m)
    from (not_stopped x) e =
        calm-IsPeopled {d = d} {d' = (end_stop decode sid r d).0}
          (record {
            browsers = (end_stop-keeps decode sid r d).0;
            next_generation = (end_stop-keeps decode sid r d).1;
            sessions = ground (arith, end_stop-cases decode sid r d);
          })
          m
