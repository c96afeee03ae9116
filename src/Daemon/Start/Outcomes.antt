-- ===== src/Daemon/Start/Outcomes.antt =====
-- How the start of a session ends.
use browser_skill.Prelude.{
  ℕ, ◌≡◌, refl, ◌⊎◌, inl, inr, true, Option, none, some, List, String, arith, ite, text_discrete,
  Option-cases,
}
use browser_skill.Map.{lookup, lookup-insert, lookup-remove}
use browser_skill.Protocol.Frame.{Value, RpcError, ResponseFrame, ResponseBody}
use browser_skill.Daemon.Browsers.{BrowserClient, Selected}
use browser_skill.Daemon.Sessions.{
  Session, Sessions, reserve_id, commit_reservation, cancel_reservation,
}
use browser_skill.Daemon.Sessions.Registry.{reserve_id-fresh, reserve_id_complete}
use browser_skill.Daemon.Queues.{ToolJob, spawn, submit, waiting}
use browser_skill.Daemon.State.{Daemon}
use browser_skill.Daemon.Start.{
  StartError, SessionStartParams, AgentWindowOptions, start_failed, Awaited, arrived,
  waiter_dropped, late, started, not_started, begin_start, send_start, end_start, commit, undo,
  session_id_max_reserve_attempts,
}

-- The same sessions, with the same activity marks.
abbrev pub SameSessions : Sessions → Sessions → Type 0
SameSessions r r' =
    (k : String)
    → (lookup k r'.inner ≡ lookup k r.inner)
      × (lookup k r'.last_activity ≡ lookup k r.last_activity)

send_start-failed :
    (encode : SessionStartParams → Value) (window : AgentWindowOptions) (client : BrowserClient)
    (sid rpc_id : String) (d : Daemon) (e : StartError)
    → (send_start encode window client sid rpc_id d).1 ≡ start_failed e
    → (send_start encode window client sid rpc_id d).0.sessions ≡ cancel_reservation sid d.sessions
unfolding send_start
send_start-failed encode window client sid rpc_id d e h = ground arith

-- A start that fails before its await has the sessions that there were before: the reservation, if
-- one was made, is undone. An unmarked id is one that has neither a session nor an activity mark.
pub begin_start_failed :
    (encode : SessionStartParams → Value) (window : AgentWindowOptions) (selected : Selected)
    (draws : List String) (now_ms now : ℕ) (rpc_id : String) (d : Daemon) (e : StartError)
    → ((k : String) → lookup k d.sessions.inner ≡ none → lookup k d.sessions.last_activity ≡ none)
    → (begin_start encode window selected draws now_ms now rpc_id d).1 ≡ start_failed e
    → SameSessions d.sessions
        (begin_start encode window selected draws now_ms now rpc_id d).0.sessions
unfolding begin_start cancel_reservation
begin_start_failed encode window (Selected.err x) draws now_ms now rpc_id d e unmarked h k =
    (refl, refl)
begin_start_failed encode window (Selected.ok client) draws now_ms now rpc_id d e unmarked h k =
    let r = reserve_id client.id session_id_max_reserve_attempts draws now_ms now d.sessions in
    elim (Option-cases r.1) [
      | inl no_id ↦
          let kept =
            (reserve_id_complete client.id session_id_max_reserve_attempts draws now_ms now
                d.sessions).1
              no_id in
          (ground arith, ground arith)
      | inr (sid, reserved) ↦
          let undone =
            send_start-failed encode window client sid rpc_id (record d { sessions = r.0 }) e
              (ground arith) in
          let (free, at_k, mark_k) =
            reserve_id-fresh client.id sid k session_id_max_reserve_attempts draws now_ms now
              d.sessions reserved in
          let clear = unmarked sid free in
          let gone = lookup-remove k sid r.0.inner in
          let unmarked_k = lookup-remove k sid r.0.last_activity in (ground arith, ground arith)
    ]

abbrev UndoneAt : String → String → Sessions → Sessions → Type 0
UndoneAt sid k r r' = lookup k r'.inner ≡ ite (text_discrete sid k) none (lookup k r.inner)

undo-sessions :
    (sid k : String) (x e : StartError) (d : Daemon)
    → (undo sid x d).1 ≡ not_started e
    → UndoneAt sid k d.sessions (undo sid x d).0.sessions
      × ((undo sid x d).0.tool_queues ≡ d.tool_queues)
unfolding undo cancel_reservation
undo-sessions sid k x e d h = (lookup-remove k sid d.sessions.inner, refl)

commit-not_started :
    (sid k : String) (window : Option ℕ) (e : StartError) (d : Daemon)
    → (commit sid window d).1 ≡ not_started e
    → UndoneAt sid k d.sessions (commit sid window d).0.sessions
      × ((commit sid window d).0.tool_queues ≡ d.tool_queues)
unfolding commit commit_reservation
commit-not_started sid k window e d h = (ground arith, ground arith)

pub body-cases :
    (b : ResponseBody)
    → ((v : Value) × (b ≡ ResponseBody.ok v)) ⊎ ((x : RpcError) × (b ≡ ResponseBody.err x))
body-cases (ResponseBody.ok v) = inl (v, refl)
body-cases (ResponseBody.err x) = inr (x, refl)

-- A start that fails after its await leaves no session under the reserved id and no queue that was
-- not there, and every other session stays.
pub end_start_failed :
    (decode : Value → Option (Option ℕ)) (g : ℕ) (sid k rpc_id : String) (how : Awaited)
    (d : Daemon) (e : StartError)
    → (end_start decode g sid rpc_id how d).1 ≡ not_started e
    → let d' = (end_start decode g sid rpc_id how d).0 in
      (lookup k d'.sessions.inner ≡ ite (text_discrete sid k) none (lookup k d.sessions.inner))
      × (d'.tool_queues ≡ d.tool_queues)
unfolding end_start cancel_reservation
end_start_failed decode g sid k rpc_id (arrived f) d e h = elim (body-cases f.body) [
  | inl (v, is_ok) ↦ elim (Option-cases (decode v)) [
    | inl bad ↦
        rw (is_ok, bad, end_start) (undo-sessions sid k _ e d (rw (is_ok, bad, end_start) at h))
    | inr (window, good) ↦
        rw (is_ok, good, end_start)
          (commit-not_started sid k window e d (rw (is_ok, good, end_start) at h))
  ]
  | inr (x, is_err) ↦
      rw (is_err, end_start) (undo-sessions sid k _ e d (rw (is_err, end_start) at h))
]
end_start_failed decode g sid k rpc_id waiter_dropped d e h =
    (lookup-remove k sid d.sessions.inner, refl)
end_start_failed decode g sid k rpc_id late d e h = (lookup-remove k sid d.sessions.inner, refl)

commit-started :
    (sid : String) (window : Option ℕ) (s : Session) (job : ToolJob) (d : Daemon)
    → (commit sid window d).1 ≡ started s
    → let d' = (commit sid window d).0 in
      (lookup sid d'.sessions.inner ≡ some s)
      × (s.agent_window_id ≡ window)
      × ((submit sid job d'.tool_queues).1 ≡ waiting d.tool_queues.next)
unfolding commit commit_reservation spawn submit
commit-started sid window s job d h = elim (Option-cases (lookup sid d.sessions.inner)) [
  | inl missing ↦ absurd (ground arith)
  | inr (p, found) ↦
      let q : Session = record p { agent_window_id = window } in
      let here = lookup-insert sid sid q d.sessions.inner in
      let queue =
        lookup-insert sid sid (record { sender = d.tool_queues.next; accepting = true })
          d.tool_queues.queues in
      (ground arith, ground arith, ground arith)
]

-- A start that succeeds has been answered with a window by the extension; the session stands under
-- the reserved id with that window; and a tool call for it is taken at once.
pub end_start_started :
    (decode : Value → Option (Option ℕ)) (g : ℕ) (sid rpc_id : String) (how : Awaited) (s : Session)
    (job : ToolJob) (d : Daemon)
    → (end_start decode g sid rpc_id how d).1 ≡ started s
    → let d' = (end_start decode g sid rpc_id how d).0 in
      (f : ResponseFrame) × (v : Value) × (how ≡ arrived f)
      × (f.body ≡ ResponseBody.ok v)
      × (decode v ≡ some s.agent_window_id)
      × (lookup sid d'.sessions.inner ≡ some s)
      × ((submit sid job d'.tool_queues).1 ≡ waiting d.tool_queues.next)
unfolding end_start
end_start_started decode g sid rpc_id waiter_dropped s job d h = absurd (cc)
end_start_started decode g sid rpc_id late s job d h = absurd (cc)
end_start_started decode g sid rpc_id (arrived f) s job d h = elim (body-cases f.body) [
  | inr (x, is_err) ↦ absurd (ground arith)
  | inl (v, is_ok) ↦ elim (Option-cases (decode v)) [
    | inl bad ↦ absurd (ground arith)
    | inr (window, good) ↦
        let (here, shown, taken) = commit-started sid window s job d (ground arith) in
        (f, v, refl, is_ok, ground arith, ground arith, ground arith)
  ]
]
