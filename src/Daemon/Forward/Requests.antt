-- ===== src/Daemon/Forward/Requests.antt =====
-- What forwarding a job sends.
use browser_skill.Prelude.{
  ℕ, ◌≡◌, ◌≢◌, ◌⊎◌, inl, inr, true, Option, some, [], ◌∷◌, ◌++◌, String, arith, Option-cases,
  Bool-cases, ap,
}
use browser_skill.Map.{lookup, lookup-insert}
use browser_skill.Protocol.Frame.{RpcError}
use browser_skill.Daemon.Browsers.{Cell, BrowserClient}
use browser_skill.Daemon.Browsers
use browser_skill.Daemon.Sessions.{Session, get}
use browser_skill.Daemon.Queues.{ToolJob}
use browser_skill.Daemon.State.{Daemon, with_cell}
use browser_skill.Daemon.Forward.{
  Forwarding, failed, awaiting, begin_forward, cancelled_error, frame_of, resolve_and_send,
  promote_and_send, plain_send,
}
use browser_skill.Daemon.Forward.Others.{promote_and_send-others, plain_send-others}

-- A job that was cancelled while it was queued fails with the error of its cancel, and nothing
-- changes in the daemon: no frame leaves, no response is awaited.
pub begin_forward_cancelled :
    (sid rpc_id : String) (a : ℕ) (job : ToolJob) (d : Daemon)
    → job.inflight ≡ some a
    → (d.tool_inflight.entry a).cancel_token ≡ true
    → begin_forward sid rpc_id job d ≡ (
      d,
      failed (
          cancelled_error
            (some (d.tool_inflight.entry a))
            "tool dispatch cancelled before forwarding"),
    )
unfolding begin_forward
begin_forward_cancelled sid rpc_id a job d e c = ground arith

-- A job's request went to the client that owns its session, and to it alone.
pub record IsSentTo (sid rpc_id : String) (job : ToolJob) (d d' : Daemon) (g : ℕ) : Type 0 where
  pub session : Session
  pub client : BrowserClient
  pub owner : get sid d.sessions ≡ some session
  pub connected : lookup session.browser_id d.browsers ≡ some client
  pub address : client.generation ≡ g
  pub sent : (d'.cell g).sent ≡ (d.cell g).sent ++ frame_of rpc_id job ∷ []
  pub awaited : lookup rpc_id (d'.cell g).waiters ≡ some tt
  pub others : (h : ℕ) → g ≢ h → d'.cell h ≡ d.cell h

promote_and_send-awaiting :
    (g k : ℕ) (browser_id rpc_id r : String) (a : ℕ) (b : Option ℕ) (job : ToolJob) (d : Daemon)
    → (promote_and_send g browser_id a rpc_id job d).1 ≡ awaiting k r b
    → let d' = (promote_and_send g browser_id a rpc_id job d).0 in
      (g ≡ k)
      × ((d'.cell g).sent ≡ (d.cell g).sent ++ frame_of rpc_id job ∷ [])
      × ((d'.cell g).waiters ≡ (d.cell g).waiters)
unfolding promote_and_send
promote_and_send-awaiting g k browser_id rpc_id r a b job d e =
    (ground arith, ground arith, ground arith)

plain_send-awaiting :
    (g k : ℕ) (rpc_id r : String) (b : Option ℕ) (job : ToolJob) (d : Daemon)
    → (plain_send g rpc_id job d).1 ≡ awaiting k r b
    → let d' = (plain_send g rpc_id job d).0 in
      (g ≡ k)
      × ((d'.cell g).sent ≡ (d.cell g).sent ++ frame_of rpc_id job ∷ [])
      × ((d'.cell g).waiters ≡ (d.cell g).waiters)
unfolding plain_send
plain_send-awaiting g k rpc_id r b job d e = (ground arith, ground arith, ground arith)

resolve_and_send-IsSentTo :
    (sid rpc_id r : String) (job : ToolJob) (d : Daemon) (g : ℕ) (b : Option ℕ)
    → (resolve_and_send sid rpc_id job d).1 ≡ awaiting g r b
    → IsSentTo sid rpc_id job d (resolve_and_send sid rpc_id job d).0 g
unfolding resolve_and_send Browsers.register
resolve_and_send-IsSentTo sid rpc_id r job d g b e = elim (Option-cases (get sid d.sessions)) [
  | inl no_session ↦ absurd (ground arith)
  | inr (s, has_session) ↦ elim (Option-cases (lookup s.browser_id d.browsers)) [
    | inl no_client ↦ absurd (ground arith)
    | inr (client, has_client) ↦ elim (Option-cases job.inflight) [
      | inl internal ↦
          let k = client.generation in
          let d₁ = with_cell k (Browsers.register rpc_id) d in
          let (same, sent, kept) = plain_send-awaiting k g rpc_id r b job d₁ (ground arith) in
          record {
            session = s;
            client = client;
            owner = has_session;
            connected = has_client;
            address = same;
            sent = ground arith;
            awaited = ground (arith, lookup-insert rpc_id rpc_id tt (d.cell k).waiters);
            others = λ h n. ground (arith, plain_send-others k h rpc_id job d₁);
          }
      | inr (a, tracked) ↦
          let k = client.generation in
          let d₁ = with_cell k (Browsers.register rpc_id) d in
          let (same, sent, kept) =
            promote_and_send-awaiting k g s.browser_id rpc_id r a b job d₁ (ground arith) in
          record {
            session = s;
            client = client;
            owner = has_session;
            connected = has_client;
            address = same;
            sent = ground arith;
            awaited = ground (arith, lookup-insert rpc_id rpc_id tt (d.cell k).waiters);
            others =
                λ h n. ground (arith, promote_and_send-others k h s.browser_id rpc_id a job d₁);
          }
    ]
  ]
]

-- The pre-flight check stops a job, or leaves it to `resolve_and_send`.
pub begin_forward-cases :
    (sid rpc_id : String) (job : ToolJob) (d : Daemon)
    → (begin_forward sid rpc_id job d ≡ resolve_and_send sid rpc_id job d)
      ⊎ ((x : RpcError) × (begin_forward sid rpc_id job d ≡ (d, failed x)))
unfolding begin_forward
begin_forward-cases sid rpc_id job d = elim (Option-cases job.inflight) [
  | inl internal ↦ inl (ground arith)
  | inr (a, tracked) ↦ elim (Bool-cases (d.tool_inflight.entry a).cancel_token) [
    | inl stopped ↦ inr (
      cancelled_error (some (d.tool_inflight.entry a)) "tool dispatch cancelled before forwarding",
      ground arith,
    )
    | inr live ↦ inl (ground arith)
  ]
]

-- If a job is forwarded, its session has a connected owner; exactly one frame was pushed, to that
-- owner, and it is the job's request; a response is awaited under its id; and no other client's cell
-- has changed.
pub begin_forward-IsSentTo :
    (sid rpc_id r : String) (job : ToolJob) (d : Daemon) (g : ℕ) (b : Option ℕ)
    → (begin_forward sid rpc_id job d).1 ≡ awaiting g r b
    → IsSentTo sid rpc_id job d (begin_forward sid rpc_id job d).0 g
begin_forward-IsSentTo sid rpc_id r job d g b e = elim (begin_forward-cases sid rpc_id job d) [
  | inl p ↦ rw p (resolve_and_send-IsSentTo sid rpc_id r job d g b (rw p at e))
  | inr (x, p) ↦ absurd (cc (ap (λ (t : Daemon × Forwarding). t.1) p))
]
