-- ===== src/Daemon/Forward/Failures.antt =====
-- What a failure leaves behind, and how a cancel decides the result.
use browser_skill.Prelude.{
  ℕ, ◌≤◌, ◌≡◌, refl, ◌≢◌, inl, inr, Option, none, some, String, arith, Option-cases, Bool-cases,
  ◌==◌,
}
use browser_skill.Map.{lookup, insert, remove, lookup-insert, lookup-remove}
use browser_skill.Protocol.Frame.{Value, RpcError}
use browser_skill.Daemon.Browsers.{Cell, BrowserClient}
use browser_skill.Daemon.Browsers
use browser_skill.Daemon.Sessions.{get}
use browser_skill.Daemon.Queues.{ToolJob}
use browser_skill.Daemon.State.{Daemon, with_cell}
use browser_skill.Daemon.Forward.{
  failed, begin_forward, resolve_and_send, promote_and_send, plain_send, await_with_optional_cancel,
  end_forward, value, Reply,
}
use browser_skill.Daemon.Forward.Others.{promote_and_send-others, plain_send-others}
use browser_skill.Daemon.Forward.Requests.{begin_forward-cases}

-- What a failure leaves in a client's cell: the frames that were sent, and the awaited ids.
abbrev pub IsUntouched : String → Cell → Cell → Type 0
IsUntouched j c c' = (c'.sent ≡ c.sent) × (lookup j c'.waiters ≡ lookup j c.waiters)

promote_and_send-failed :
    (g h : ℕ) (browser_id rpc_id j : String) (a : ℕ) (job : ToolJob) (d : Daemon) (x : RpcError)
    → (promote_and_send g browser_id a rpc_id job d).1 ≡ failed x
    → let d' = (promote_and_send g browser_id a rpc_id job d).0 in
      ((d'.cell g).sent ≡ (d.cell g).sent)
      × ((d'.cell g).waiters ≡ remove rpc_id (d.cell g).waiters)
unfolding promote_and_send Browsers.cancel
promote_and_send-failed g h browser_id rpc_id j a job d x e = (ground arith, ground arith)

plain_send-failed :
    (g h : ℕ) (rpc_id j : String) (job : ToolJob) (d : Daemon) (x : RpcError)
    → (plain_send g rpc_id job d).1 ≡ failed x
    → let d' = (plain_send g rpc_id job d).0 in
      ((d'.cell g).sent ≡ (d.cell g).sent)
      × ((d'.cell g).waiters ≡ remove rpc_id (d.cell g).waiters)
unfolding plain_send Browsers.cancel
plain_send-failed g h rpc_id j job d x e = (ground arith, ground arith)

register-remove :
    (rpc_id j : String) (c c' : Cell)
    → lookup rpc_id c.waiters ≡ none
    → c'.sent ≡ c.sent
    → c'.waiters ≡ remove rpc_id (insert rpc_id tt c.waiters)
    → IsUntouched j c c'
register-remove rpc_id j c c' free s w = (
  s,
  ground (
    arith,
    lookup-remove j rpc_id (insert rpc_id tt c.waiters),
    lookup-insert j rpc_id tt c.waiters,
  ),
)

resolve_and_send-failed :
    (sid rpc_id j : String) (h : ℕ) (job : ToolJob) (d : Daemon) (x : RpcError)
    → ((k : ℕ) → lookup rpc_id (d.cell k).waiters ≡ none)
    → (resolve_and_send sid rpc_id job d).1 ≡ failed x
    → IsUntouched j (d.cell h) ((resolve_and_send sid rpc_id job d).0.cell h)
unfolding resolve_and_send Browsers.register
resolve_and_send-failed sid rpc_id j h job d x free e = elim (Option-cases (get sid d.sessions)) [
  | inl no_session ↦ (ground arith, ground arith)
  | inr (s, has_session) ↦ elim (Option-cases (lookup s.browser_id d.browsers)) [
    | inl no_client ↦ (ground arith, ground arith)
    | inr (client, has_client) ↦
        let k = client.generation in
        let d₁ = with_cell k (Browsers.register rpc_id) d in
        elim (Option-cases job.inflight) [
          | inl internal ↦
              let (sent, gone) = plain_send-failed k h rpc_id j job d₁ x (ground arith) in
              elim (Bool-cases (k == h)) [
                | inl here ↦
                    register-remove rpc_id j (d.cell h)
                      ((resolve_and_send sid rpc_id job d).0.cell h) (free h) (ground arith)
                      (ground arith)
                | inr there ↦
                    let same = plain_send-others k h rpc_id job d₁ (ground arith) in
                    (ground arith, ground arith)
              ]
          | inr (a, tracked) ↦
              let (sent, gone) =
                promote_and_send-failed k h s.browser_id rpc_id j a job d₁ x (ground arith) in
              elim (Bool-cases (k == h)) [
                | inl here ↦
                    register-remove rpc_id j (d.cell h)
                      ((resolve_and_send sid rpc_id job d).0.cell h) (free h) (ground arith)
                      (ground arith)
                | inr there ↦
                    let same =
                      promote_and_send-others k h s.browser_id rpc_id a job d₁ (ground arith) in
                    (ground arith, ground arith)
              ]
        ]
  ]
]

-- A forwarding that fails before the await leaves nothing behind, under an RPC id that no client
-- awaits yet: every client has been sent the same frames as before and awaits the same ids.
pub begin_forward_failed :
    (sid rpc_id j : String) (h : ℕ) (job : ToolJob) (d : Daemon) (x : RpcError)
    → ((k : ℕ) → lookup rpc_id (d.cell k).waiters ≡ none)
    → (begin_forward sid rpc_id job d).1 ≡ failed x
    → IsUntouched j (d.cell h) ((begin_forward sid rpc_id job d).0.cell h)
begin_forward_failed sid rpc_id j h job d x free e = elim (begin_forward-cases sid rpc_id job d) [
  | inl p ↦ rw p (resolve_and_send-failed sid rpc_id j h job d x free (rw p at e))
  | inr (y, p) ↦ rw p (refl, refl)
]

-- A job whose cancel comes within its time limit, and no later than the reply, never succeeds,
-- whatever the extension replies and whenever.
pub cancelled_never_succeeds :
    (limit cleanup c g : ℕ) (reply : Option (ℕ × Reply)) (rpc_id : String) (job : ToolJob)
    (d : Daemon) (v : Value)
    → c ≤ limit
    → ((at : ℕ) (r : Reply) → reply ≡ some (at, r) → c ≤ at)
    → (end_forward g rpc_id job (await_with_optional_cancel limit cleanup reply (some c)) d).1
      ≢ value v
unfolding await_with_optional_cancel end_forward
cancelled_never_succeeds limit cleanup c g none rpc_id job d v h k = ground arith
cancelled_never_succeeds limit cleanup c g (some (at, r)) rpc_id job d v h k =
    let first = k at r refl in ground arith
