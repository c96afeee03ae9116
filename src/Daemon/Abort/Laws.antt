-- ===== src/Daemon/Abort/Laws.antt =====
-- What the cancellation tokens of the daemon's long runners guarantee.
use browser_skill.Prelude.{ℕ, ◌<◌, ◌≡◌, ◌≢◌, true, false, none, some, String, arith, List, [], ◌∷◌}
use browser_skill.Map.{lookup, insert, lookup-insert, lookup-remove}
use browser_skill.Daemon.Abort.{Registry, new, register, cancel, unregister}

-- Registered tokens are in use, and no two RPC ids share a token.
pub record IsSound (r : Registry) : Type 0 where
  pub fresh : (k : String) (t : ℕ) → lookup k r.tokens ≡ some t → t < r.next
  pub distinct :
      (j k : String) (t : ℕ) → lookup j r.tokens ≡ some t → lookup k r.tokens ≡ some t → j ≡ k

pub new-IsSound : IsSound new
unfolding new lookup
new-IsSound = record { fresh = λ k a e. absurd (cc); distinct = λ j k a d e. absurd (cc) }

pub register-IsSound : (rpc_id : String) (r : Registry) → IsSound r → IsSound (register rpc_id r).0
unfolding register
register-IsSound rpc_id r s = record {
  fresh = λ k a e. ground (arith, s.fresh k a, lookup-insert k rpc_id r.next r.tokens);
  distinct = λ j k a d e. ground (
    arith,
    s.fresh j a,
    s.fresh k a,
    s.distinct j k a,
    lookup-insert j rpc_id r.next r.tokens,
    lookup-insert k rpc_id r.next r.tokens,
  );
}

pub unregister-IsSound :
    (rpc_id : String) (t : ℕ) (r : Registry) → IsSound r → IsSound (unregister rpc_id t r)
unfolding unregister
unregister-IsSound rpc_id b r s = record {
  fresh = λ k a e. ground (arith, s.fresh k a, lookup-remove k rpc_id r.tokens);
  distinct = λ j k a d e.
      ground
        (arith, s.distinct j k a, lookup-remove j rpc_id r.tokens, lookup-remove k rpc_id r.tokens);
}

pub cancel-IsSound : (rpc_id : String) (r : Registry) → IsSound r → IsSound (cancel rpc_id r).0
unfolding cancel
cancel-IsSound rpc_id r s = record {
  fresh = λ k a e. ground (arith, s.fresh k a);
  distinct = λ j k a d e. ground (arith, s.distinct j k a);
}

-- The calls that a registry sees.
pub data Call : Type 0 where
  registers cancels : String → Call
  drops : String → ℕ → Call

unfoldable pub call : Registry → Call → Registry
call r (registers k) = (register k r).0
call r (cancels k) = (cancel k r).0
call r (drops k t) = unregister k t r

unfoldable pub calls : Registry → List Call → Registry
calls r [] = r
calls r (c ∷ cs) = calls (call r c) cs

call-IsSound : (r : Registry) (c : Call) → IsSound r → IsSound (call r c)
unfolding call
call-IsSound r (registers k) s = register-IsSound k r s
call-IsSound r (cancels k) s = cancel-IsSound k r s
call-IsSound r (drops k t) s = unregister-IsSound k t r s

calls-IsSound : (r : Registry) (cs : List Call) → IsSound r → IsSound (calls r cs)
unfolding calls
calls-IsSound r [] s = s
calls-IsSound r (c ∷ cs) s = calls-IsSound (call r c) cs (call-IsSound r c s)

-- After any history of calls every registered token has been allocated, and no two RPC ids share one.
pub calls-new-IsSound : (history : List Call) → IsSound (calls new history)
calls-new-IsSound history = calls-IsSound new history new-IsSound

-- In such a registry a registration that succeeds gets a token that is not cancelled and that no
-- other RPC id holds; a cancel of the id then finds it and trips it, and leaves the tokens of the
-- other ids as they were; and the drop of its guard unregisters the id.
pub register-cancel :
    (r : Registry) (rpc_id k : String) (t u : ℕ)
    → IsSound r
    → (register rpc_id r).1 ≡ some t
    → lookup k r.tokens ≡ some u
    → ((register rpc_id r).0.is_cancelled t ≡ false)
      × (t ≢ u)
      × ((cancel rpc_id (register rpc_id r).0).1 ≡ true)
      × ((cancel rpc_id (register rpc_id r).0).0.is_cancelled t ≡ true)
      × ((cancel rpc_id (register rpc_id r).0).0.is_cancelled u ≡ r.is_cancelled u)
      × (lookup rpc_id (unregister rpc_id t (register rpc_id r).0).tokens ≡ none)
unfolding register cancel unregister
register-cancel r rpc_id k t u s e d =
    let found = lookup-insert rpc_id rpc_id r.next r.tokens in
    let fresh = s.fresh k u d in
    let gone = lookup-remove rpc_id rpc_id (insert rpc_id r.next r.tokens) in
    (ground arith, ground arith, ground arith, ground arith, ground arith, ground arith)
