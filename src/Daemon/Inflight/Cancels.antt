-- ===== src/Daemon/Inflight/Cancels.antt =====
-- What cancelling an RPC or a session does to the registered entries.
use browser_skill.Prelude.{
  ℕ, ◌<◌, ◌≡◌, refl, ◌≢◌, Bool, true, false, ◌&&◌, ◌||◌, none, some, String, arith, ite,
  text_discrete, List, [], ◌∷◌, ◌==◌, if◌then◌else◌,
}
use browser_skill.Map.{lookup, values, lookup-insert, lookup-remove}
use browser_skill.Daemon.Inflight.{
  Entry, CancelReason, cancelled, user_aborted, Registry, new, register, unregister, cancel,
  cancel_each, cancel_session, cancel_and_snapshot, owned_by, cancel_at,
}

-- Registered addresses are in use, and no two RPC ids share an entry.
pub record IsSound (r : Registry) : Type 0 where
  pub fresh : (k : String) (a : ℕ) → lookup k r.table ≡ some a → a < r.next
  pub distinct :
      (j k : String) (a : ℕ) → lookup j r.table ≡ some a → lookup k r.table ≡ some a → j ≡ k

pub new-IsSound : IsSound new
unfolding new lookup
new-IsSound = record { fresh = λ k a e. absurd (cc); distinct = λ j k a d e. absurd (cc) }

pub register-IsSound :
    (rpc_id sid : String) (r : Registry) → IsSound r → IsSound (register rpc_id sid r).0
unfolding register
register-IsSound rpc_id sid r s = record {
  fresh = λ k a e. ground (arith, s.fresh k a, lookup-insert k rpc_id r.next r.table);
  distinct = λ j k a d e. ground (
    arith,
    s.fresh j a,
    s.fresh k a,
    s.distinct j k a,
    lookup-insert j rpc_id r.next r.table,
    lookup-insert k rpc_id r.next r.table,
  );
}

pub unregister-IsSound :
    (rpc_id : String) (b : ℕ) (r : Registry) → IsSound r → IsSound (unregister rpc_id b r)
unfolding unregister
unregister-IsSound rpc_id b r s = record {
  fresh = λ k a e. ground (arith, s.fresh k a, lookup-remove k rpc_id r.table);
  distinct = λ j k a d e.
      ground
        (arith, s.distinct j k a, lookup-remove j rpc_id r.table, lookup-remove k rpc_id r.table);
}

-- A guard that is dropped when its RPC id points to another entry changes nothing.
pub unregister_stale :
    (rpc_id : String) (a b : ℕ) (r : Registry)
    → lookup rpc_id r.table ≡ some b
    → a ≢ b
    → unregister rpc_id a r ≡ r
unfolding unregister
unregister_stale rpc_id a b r e h = ground arith

-- An entry after a cancel with a reason.
abbrev pub mark : CancelReason → Entry → Entry
mark reason e = (cancel_and_snapshot e reason).0

abbrev has : ℕ → List ℕ → Bool
has a [] = false
has a (b ∷ bs) = a == b || has a bs

mark_twice : (e : Entry) → mark user_aborted (mark user_aborted e) ≡ mark user_aborted e
unfolding cancel_and_snapshot
mark_twice e = ground arith

cancel_each-entry :
    (l : List ℕ) (r : Registry) (a : ℕ)
    → (cancel_each l r).0.entry a ≡ (if has a l then mark user_aborted (r.entry a) else r.entry a)
unfolding cancel_each
cancel_each-entry [] r a = refl
cancel_each-entry (b ∷ bs) r a =
    ground (arith, cancel_each-entry bs (cancel_at b user_aborted r).0 a, mark_twice (r.entry a))

cancel_each-table :
    (l : List ℕ) (r : Registry)
    → ((cancel_each l r).0.table ≡ r.table) × ((cancel_each l r).0.next ≡ r.next)
unfolding cancel_each
cancel_each-table [] r = (refl, refl)
cancel_each-table (b ∷ bs) r = cancel_each-table bs (cancel_at b user_aborted r).0

has-owned_by :
    (sid : String) (entry : ℕ → Entry) (a : ℕ) (l : List ℕ)
    → has a (owned_by sid entry l)
      ≡ (has a l && ite (text_discrete (entry a).session_id sid) true false)
unfolding owned_by
has-owned_by sid entry a [] = refl
has-owned_by sid entry a (b ∷ bs) = ground (arith, has-owned_by sid entry a bs)

has-values :
    (k : String) (a : ℕ) (m : List (String × ℕ)) → lookup k m ≡ some a → has a (values m) ≡ true
unfolding lookup values
has-values k a [] e = cc
has-values k a ((j, b) ∷ m) e = ground (arith, has-values k a m)

-- Cancelling a session marks each registered entry of that session as aborted by the user, leaves
-- each registered entry of another session as it was, and unregisters nothing.
pub cancel_session_lem :
    (sid k : String) (a : ℕ) (r : Registry)
    → lookup k r.table ≡ some a
    → ((cancel_session sid r).0.entry a
        ≡ ite
            (text_discrete (r.entry a).session_id sid)
            (mark user_aborted (r.entry a))
            (r.entry a))
      × ((cancel_session sid r).0.table ≡ r.table)
unfolding cancel_session
cancel_session_lem sid k a r e = (
  ground (
    arith,
    cancel_each-entry (owned_by sid r.entry (values r.table)) r a,
    has-owned_by sid r.entry a (values r.table),
    has-values k a r.table e,
  ),
  (cancel_each-table (owned_by sid r.entry (values r.table)) r).0,
)

pub cancel_session-IsSound :
    (sid : String) (r : Registry) → IsSound r → IsSound (cancel_session sid r).0
unfolding cancel_session
cancel_session-IsSound sid r s =
    let (t, n) = cancel_each-table (owned_by sid r.entry (values r.table)) r in
    record {
      fresh = λ k a e. rw n (s.fresh k a (rw t at e));
      distinct = λ j k a d e. s.distinct j k a (rw t at d) (rw t at e);
    }

pub cancel-IsSound : (rpc_id : String) (r : Registry) → IsSound r → IsSound (cancel rpc_id r).0
unfolding cancel
cancel-IsSound rpc_id r s = record {
  fresh = λ k a e. ground (arith, s.fresh k a);
  distinct = λ j k a d e. ground (arith, s.distinct j k a);
}

-- Cancelling an RPC id marks the entry registered under it, and no entry registered under another.
pub cancel_lem :
    (rpc_id k : String) (a : ℕ) (r : Registry)
    → IsSound r
    → lookup k r.table ≡ some a
    → (cancel rpc_id r).0.entry a
      ≡ ite (text_discrete rpc_id k) (mark cancelled (r.entry a)) (r.entry a)
unfolding cancel
cancel_lem rpc_id k a r s e = ground (arith, s.distinct rpc_id k a)

-- The first reason wins: an RPC that its caller has cancelled stays labelled so when the user then
-- stops the whole session, and an RPC that the user has stopped stays labelled so when its caller
-- then cancels it.
pub first_reason_wins :
    (sid rpc_id : String) (a : ℕ) (r : Registry)
    → lookup rpc_id r.table ≡ some a
    → (r.entry a).session_id ≡ sid
    → (r.entry a).cancel_reason ≡ none
    → (((cancel_session sid (cancel rpc_id r).0).0.entry a).cancel_reason ≡ some cancelled)
      × (((cancel rpc_id (cancel_session sid r).0).0.entry a).cancel_reason ≡ some user_aborted)
unfolding cancel cancel_and_snapshot
first_reason_wins sid rpc_id a r e o h = (
  ground (arith, cancel_session_lem sid rpc_id a (cancel rpc_id r).0),
  ground (arith, cancel_session_lem sid rpc_id a r),
)
