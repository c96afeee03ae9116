-- ===== src/Daemon/Sessions.antt =====
-- The session registry: `SessionRegistry` in crates/bsk-cli/src/daemon/sessions.rs. Instants and
-- milliseconds are numbers; random ids are given as the list of the draws.
pub mod Registry
pub mod Refinement
use browser_skill.Prelude.{
  ℕ, zero, suc, ◌-◌, Bool, true, false, Option, none, some, List, [], ◌∷◌, map, String, leb, keep,
  ite, text_discrete, is_some, if◌then◌else◌, length,
}
use browser_skill.Map.{Map, lookup, insert, remove, remove_all, values}

pub record Session : Type 0 where
  pub id : String
  pub browser_id : String
  pub agent_window_id : Option ℕ
  pub created_at_ms : ℕ

pub record Sessions : Type 0 where
  pub inner : Map Session
  pub last_activity : Map ℕ

unfoldable pub new : Sessions
new = record { inner = []; last_activity = [] }

unfoldable pub owned : String → Session → Bool
owned browser_id s = ite (text_discrete s.browser_id browser_id) true false

unfoldable pub count_for_browser : String → Sessions → ℕ
unfolding owned
count_for_browser browser_id r = length (keep (owned browser_id) (values r.inner))

unfoldable pub insert_session : Session → ℕ → Sessions → Sessions
insert_session s now r = record {
  inner = insert s.id s r.inner;
  last_activity = insert s.id now r.last_activity;
}

-- A reservation under an id that no session has.
reserve : String → String → ℕ → ℕ → Sessions → Sessions
reserve browser_id candidate now_ms now r = record {
  inner =
      insert candidate
        (record {
          id = candidate;
          browser_id = browser_id;
          agent_window_id = none;
          created_at_ms = now_ms;
        })
        r.inner;
  last_activity = insert candidate now r.last_activity;
}

-- The loop over at most `max_attempts` draws.
unfoldable pub reserve_id : String → ℕ → List String → ℕ → ℕ → Sessions → Sessions × Option String
unfolding reserve
reserve_id browser_id zero draws now_ms now r = (r, none)
reserve_id browser_id (suc attempts) [] now_ms now r = (r, none)
reserve_id browser_id (suc attempts) (candidate ∷ draws) now_ms now r =
    let again = reserve_id browser_id attempts draws now_ms now r in
    if is_some (lookup candidate r.inner)
    then again
    else (reserve browser_id candidate now_ms now r, some candidate)

unfoldable pub commit_reservation : String → Option ℕ → Sessions → Sessions × Option Session
commit_reservation sid window r = elim (lookup sid r.inner) [
  | none ↦ (r, none)
  | some s ↦ (
    record r { inner = insert sid (record s { agent_window_id = window }) r.inner },
    some (record s { agent_window_id = window }),
  )
]

unfoldable pub cancel_reservation : String → Sessions → Sessions
cancel_reservation sid r = record {
  inner = remove sid r.inner;
  last_activity = remove sid r.last_activity;
}

unfoldable pub remove_session : String → Sessions → Sessions × Option Session
remove_session sid r = (
  record { inner = remove sid r.inner; last_activity = remove sid r.last_activity },
  lookup sid r.inner,
)

unfoldable pub get : String → Sessions → Option Session
get sid r = lookup sid r.inner

unfoldable pub touch : String → ℕ → Sessions → Sessions × Bool
touch sid now r =
    if is_some (lookup sid r.inner)
    then (record r { last_activity = insert sid now r.last_activity }, true)
    else (r, false)

-- `now.saturating_duration_since(last) >= idle_for`, for a session with an activity mark.
idle_since : ℕ → ℕ → Option ℕ → Bool
idle_since idle_for now none = false
idle_since idle_for now (some last) = leb idle_for (now - last)

unfoldable pub idle_ids_at : ℕ → ℕ → Sessions → List String
unfolding idle_since
idle_ids_at idle_for now r =
    map (λ s. s.id)
      (keep (λ s. idle_since idle_for now (lookup s.id r.last_activity)) (values r.inner))

unfoldable pub ids_for_browser : String → Sessions → List String
unfolding owned
ids_for_browser browser_id r = map (λ s. s.id) (keep (owned browser_id) (values r.inner))

-- The sessions of a browser, and the registry without them.
unfoldable pub purge_browser : String → Sessions → Sessions × List Session
unfolding owned
purge_browser browser_id r =
    let drained = keep (owned browser_id) (values r.inner) in
    let ids = map (λ (s : Session). s.id) drained in
    (
      record { inner = remove_all ids r.inner; last_activity = remove_all ids r.last_activity },
      drained,
    )
