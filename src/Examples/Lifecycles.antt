-- ===== src/Examples/Lifecycles.antt =====
-- Runs of starting and stopping a session.
use browser_skill.Prelude.{
  ℕ, ◌≡◌, refl, true, Option, none, some, List, [], ◌∷◌, map, String, ite, text_discrete,
}
use browser_skill.Map.{lookup}
use browser_skill.Protocol.Frame.{Value, ResponseBody, ResponseFrame}
use browser_skill.Daemon.Sessions
use browser_skill.Daemon.Sessions.{Session, get}
use browser_skill.Daemon.Queues
use browser_skill.Daemon.Queues.{submit, waiting, refused, is_accepting}
use browser_skill.Daemon.Start.{end_start, StartError, arrived, late}
use browser_skill.Daemon.Stop.{
  SessionStopResult, begin_stop, end_stop, StopError, stop_failed, stopping, answered,
  dispatch_failed,
}
use browser_skill.Daemon.Start.Outcomes.{end_start_failed, end_start_started}
use browser_skill.Daemon.Stop.Outcomes.{
  IsGone, end_stop-IsGone, end_stop-is_accepting, undecodable_stop_sticks,
}
use browser_skill.Daemon.Stop.{Stopped, stopped, not_stopped}
use browser_skill.Daemon.Ipc.Lifecycle.{stop_all, no_stops, StopFailure}
use browser_skill.Daemon.Ipc.Lifecycle.Accounts.{ended, all_tabs, stop_all_lem}
use browser_skill.Examples.{daemon, job, session_one}

abbrev decode_window : Value → Option (Option ℕ)
decode_window v = some (some 7)

end_start_failed_example :
    let d' = (end_start decode_window 0 "s1" "w2" late daemon).0 in
    (lookup "s2" d'.sessions.inner
      ≡ ite (text_discrete "s1" "s2") none (lookup "s2" daemon.sessions.inner))
    × (d'.tool_queues ≡ daemon.tool_queues)
unfolding end_start
end_start_failed_example =
    end_start_failed decode_window 0 "s1" "s2" "w2" late daemon StartError.start_timeout refl

abbrev reply : ResponseFrame
reply = record { id = "w2"; body = ResponseBody.ok Value.null }

end_start_started_example :
    let d' = (end_start decode_window 0 "s1" "w2" (arrived reply) daemon).0 in
    (f : ResponseFrame) × (v : Value) × (arrived reply ≡ arrived f)
    × (f.body ≡ ResponseBody.ok v)
    × (decode_window v ≡ some session_one.agent_window_id)
    × (lookup "s1" d'.sessions.inner ≡ some session_one)
    × ((submit "s1" job d'.tool_queues).1 ≡ waiting daemon.tool_queues.next)
unfolding end_start Sessions.commit_reservation lookup text_discrete
end_start_started_example =
    end_start_started decode_window 0 "s1" "w2" (arrived reply) session_one job daemon refl

abbrev pub clean : SessionStopResult
clean = record { returned_tab_ids = []; return_failures = [] }

abbrev pub decode_stop : Value → Option SessionStopResult
decode_stop Value.null = none
decode_stop _ = some clean

end_stop-IsGone_example :
    IsGone "s1" daemon (end_stop decode_stop "s1" (answered (Value.string "{}")) daemon).0
unfolding end_stop
end_stop-IsGone_example =
    end_stop-IsGone decode_stop "s1" (answered (Value.string "{}")) clean daemon refl

end_stop-is_accepting_example :
    let d' =
      (end_stop decode_stop "s1" (dispatch_failed Queues.DispatchError.timed_out) daemon).0 in
    (d'.sessions ≡ daemon.sessions) × (is_accepting "s1" d'.tool_queues ≡ true)
unfolding end_stop lookup text_discrete
end_stop-is_accepting_example =
    end_stop-is_accepting decode_stop "s1" (dispatch_failed Queues.DispatchError.timed_out)
      StopError.stop_timeout (record { sender = 0; accepting = true }) daemon tt refl refl

undecodable_stop_sticks_example :
    let d' = (end_stop decode_stop "s1" (answered Value.null) (begin_stop "s1" 900 daemon).0).0 in
    (d'.sessions ≡ daemon.sessions)
    × ((submit "s1" job d'.tool_queues).1 ≡ refused Queues.DispatchError.session_stopping)
    × ((begin_stop "s1" 800 d').1 ≡ stop_failed stopping)
unfolding begin_stop get Queues.submit_closing lookup text_discrete
undecodable_stop_sticks_example =
    undecodable_stop_sticks decode_stop "s1" 900 800 0 Value.null job daemon refl refl

abbrev results : List (String × Stopped)
results =
    ("s1", stopped (record { returned_tab_ids = 4 ∷ []; return_failures = [] }))
    ∷ ("s2", not_stopped StopError.stop_busy)
    ∷ []

stop_all_lem_example :
    let t = stop_all (λ n. "2") (λ e. e.message) results no_stops in
    (t.stopped_ids ≡ "s1" ∷ [])
    × (map (λ (f : StopFailure). f.session_id) t.failed ≡ "s2" ∷ [])
    × (t.returned_tab_ids ≡ 4 ∷ [])
unfolding ended all_tabs
stop_all_lem_example = stop_all_lem (λ n. "2") (λ e. e.message) results
