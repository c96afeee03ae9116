-- ===== src/Daemon/Abort.antt =====
-- Cancellation tokens of the daemon's own long runners: crates/bsk-cli/src/daemon/abort.rs.
-- An `AbortToken` is an address in a heap of flags.
pub mod Laws
use browser_skill.Prelude.{
  ℕ, suc, Bool, true, false, Option, none, some, [], String, if◌then◌else◌, ◌==◌, is_some,
}
use browser_skill.Map.{Map, lookup, insert, remove}

pub record Registry : Type 0 where
  pub tokens : Map ℕ
  pub is_cancelled : ℕ → Bool
  pub next : ℕ

abbrev pub set_flag : (ℕ → Bool) → ℕ → Bool → ℕ → Bool
set_flag f i v j = if i == j then v else f j

unfoldable pub new : Registry
new = record { tokens = []; is_cancelled = λ _. false; next = 0 }

-- `none` is `DuplicateRpcId`. The token is allocated before the test.
unfoldable pub register : String → Registry → Registry × Option ℕ
register rpc_id r =
    let flags = set_flag r.is_cancelled r.next false in
    if is_some (lookup rpc_id r.tokens)
    then (record r { is_cancelled = flags; next = suc r.next }, none)
    else (
      record { tokens = insert rpc_id r.next r.tokens; is_cancelled = flags; next = suc r.next },
      some r.next,
    )

unfoldable pub cancel : String → Registry → Registry × Bool
cancel rpc_id r = elim (lookup rpc_id r.tokens) [
  | none ↦ (r, false)
  | some t ↦ (record r { is_cancelled = set_flag r.is_cancelled t true }, true)
]

-- The `Drop` of an `AbortGuard`: only the guard's own token is removed.
unfoldable pub unregister : String → ℕ → Registry → Registry
unregister rpc_id t r = elim (lookup rpc_id r.tokens) [
  | none ↦ r
  | some current ↦ if current == t then record r { tokens = remove rpc_id r.tokens } else r
]
