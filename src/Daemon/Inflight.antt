-- ===== src/Daemon/Inflight.antt =====
-- One tracked `tool.*` RPC, and the registry of them: crates/bsk-cli/src/daemon/inflight.rs.
-- An `Arc<ToolInflightEntry>` is an address in a heap of entries.
pub mod Race
pub mod Cancels
use browser_skill.Prelude.{
  ℕ, suc, Bool, true, false, Option, none, some, List, [], ◌∷◌, String, if◌then◌else◌, ite,
  text_discrete, ◌==◌, is_some,
}
use browser_skill.Map.{Map, lookup, insert, remove, values}

pub data CancelReason : Type 0 where
  cancelled user_aborted : CancelReason

-- `cancel_token` is the flag of the entry's `AbortToken`; the other fields are `InflightInner`.
pub record Entry : Type 0 where
  pub cancel_token : Bool
  pub browser_id : Option String
  pub ws_rpc_id : Option String
  pub is_cancelled : Bool
  pub cancel_reason : Option CancelReason
  pub session_id : String

unfoldable pub new_entry : String → Entry
new_entry sid = record {
  cancel_token = false;
  browser_id = none;
  ws_rpc_id = none;
  is_cancelled = false;
  cancel_reason = none;
  session_id = sid;
}

pub record Snapshot : Type 0 where
  pub browser_id : Option String
  pub ws_rpc_id : Option String

pub data PromoteOutcome : Type 0 where
  promoted promote_cancelled send_failed : PromoteOutcome

module _ {ℓ} {S : Type ℓ} where
  -- The critical section of `promote_to_forwarded_with`: `dispatch` pushes the request to the sink.
  unfoldable pub promote_to_forwarded_with :
      Entry → String → String → (S → S × Bool) → S → Entry × S × PromoteOutcome
  promote_to_forwarded_with e browser_id ws_rpc_id dispatch s =
      if e.is_cancelled
      then (e, s, promote_cancelled)
      else (let (s', sent) = dispatch s in
          if sent
          then (record e { browser_id = some browser_id; ws_rpc_id = some ws_rpc_id }, s', promoted)
          else (record e { browser_id = none; ws_rpc_id = none }, s', send_failed))

-- `Option::get_or_insert`.
first_reason : Option CancelReason → CancelReason → Option CancelReason
first_reason none r = some r
first_reason (some q) r = some q

unfoldable pub cancel_and_snapshot : Entry → CancelReason → Entry × Snapshot
unfolding first_reason
cancel_and_snapshot e reason = (
  record e {
    is_cancelled = true;
    cancel_reason = first_reason e.cancel_reason reason;
    cancel_token = true;
  },
  record { browser_id = e.browser_id; ws_rpc_id = e.ws_rpc_id },
)

-- The registry with the entries that it points to; `next` is the first address not yet used.
pub record Registry : Type 0 where
  pub table : Map ℕ
  pub entry : ℕ → Entry
  pub next : ℕ

abbrev pub update {ℓ} : {A : Type ℓ} → (ℕ → A) → ℕ → A → ℕ → A
update f i v j = if i == j then v else f j

unfoldable pub new : Registry
new = record { table = []; entry = λ _. new_entry ""; next = 0 }

-- `none` is `DuplicateRpcId`. The entry is allocated before the test.
unfoldable pub register : String → String → Registry → Registry × Option ℕ
unfolding new_entry
register rpc_id sid r =
    let heap = update r.entry r.next (new_entry sid) in
    if is_some (lookup rpc_id r.table)
    then (record r { entry = heap; next = suc r.next }, none)
    else (
      record { table = insert rpc_id r.next r.table; entry = heap; next = suc r.next },
      some r.next,
    )

cancel_at : ℕ → CancelReason → Registry → Registry × Snapshot
unfolding cancel_and_snapshot
cancel_at a reason r =
    let (e, snap) = cancel_and_snapshot (r.entry a) reason in
    (record r { entry = update r.entry a e }, snap)

unfoldable pub cancel : String → Registry → Registry × Option Snapshot
unfolding cancel_at
cancel rpc_id r = elim (lookup rpc_id r.table) [
  | none ↦ (r, none)
  | some a ↦ (let (r', snap) = cancel_at a cancelled r in (r', some snap))
]

-- The addresses of the registered entries that belong to a session.
owned_by : String → (ℕ → Entry) → List ℕ → List ℕ
owned_by sid entry [] = []
owned_by sid entry (a ∷ as_) =
    ite (text_discrete (entry a).session_id sid) (a ∷ owned_by sid entry as_)
      (owned_by sid entry as_)

cancel_each : List ℕ → Registry → Registry × List Snapshot
unfolding cancel_at
cancel_each [] r = (r, [])
cancel_each (a ∷ rest) r =
    let (r', snap) = cancel_at a user_aborted r in
    let (r'', snaps) = cancel_each rest r' in (r'', snap ∷ snaps)

unfoldable pub cancel_session : String → Registry → Registry × List Snapshot
unfolding owned_by cancel_each
cancel_session sid r = cancel_each (owned_by sid r.entry (values r.table)) r

-- The `Drop` of an `InflightGuard`: only the guard's own entry is removed.
unfoldable pub unregister : String → ℕ → Registry → Registry
unregister rpc_id a r = elim (lookup rpc_id r.table) [
  | none ↦ r
  | some current ↦ if current == a then record r { table = remove rpc_id r.table } else r
]
