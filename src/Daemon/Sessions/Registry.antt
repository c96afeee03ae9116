-- ===== src/Daemon/Sessions/Registry.antt =====
-- The laws of the session registry.
use browser_skill.Prelude.{
  ℕ, zero, suc, ◌-◌, ◌≡◌, refl, ◌⊎◌, inl, inr, Bool, true, false, Option, none, some, List, [], ◌∷◌,
  map, String, arith, ite, text_discrete, keep, leb, is_some, Bool-cases, Option-cases, subst,
}
use browser_skill.Map.{
  lookup, insert, values, Named, contains, passes, contains-keep, insert-Named, remove-Named,
  remove_all-Named, lookup-insert, lookup-remove, lookup-remove_all, lookup-Named,
}
use browser_skill.Daemon.Sessions.{
  Session, Sessions, new, owned, insert_session, reserve, reserve_id, commit_reservation,
  cancel_reservation, remove_session, touch, purge_browser, idle_ids_at, idle_since,
}

abbrev pub id_of : Session → String
id_of s = s.id

-- Every session stands under its own id, and exactly the registered ids have an activity mark.
pub record IsSound (r : Sessions) : Type 0 where
  pub named : Named id_of r.inner
  pub tracked : (k : String) → is_some (lookup k r.inner) ≡ is_some (lookup k r.last_activity)

pub new-IsSound : IsSound new
unfolding new lookup
new-IsSound = record { named = tt; tracked = λ k. refl }

pub insert_session-IsSound :
    (s : Session) (now : ℕ) (r : Sessions) → IsSound r → IsSound (insert_session s now r)
unfolding insert_session
insert_session-IsSound s now r h = record {
  named = insert-Named id_of s r.inner h.named;
  tracked = λ k. ground (
    arith,
    h.tracked k,
    lookup-insert k s.id s r.inner,
    lookup-insert k s.id now r.last_activity,
  );
}

pub remove_session-IsSound :
    (sid : String) (r : Sessions) → IsSound r → IsSound (remove_session sid r).0
unfolding remove_session
remove_session-IsSound sid r h = record {
  named = remove-Named id_of sid r.inner h.named;
  tracked = λ k.
      ground (arith, h.tracked k, lookup-remove k sid r.inner, lookup-remove k sid r.last_activity);
}

pub cancel_reservation-IsSound :
    (sid : String) (r : Sessions) → IsSound r → IsSound (cancel_reservation sid r)
unfolding cancel_reservation
cancel_reservation-IsSound sid r h = record {
  named = remove-Named id_of sid r.inner h.named;
  tracked = λ k.
      ground (arith, h.tracked k, lookup-remove k sid r.inner, lookup-remove k sid r.last_activity);
}

pub touch-IsSound :
    (sid : String) (now : ℕ) (r : Sessions) → IsSound r → IsSound (touch sid now r).0
unfolding touch
touch-IsSound sid now r h = elim (Bool-cases (is_some (lookup sid r.inner))) [
  | inl e ↦ rw e (record {
    named = h.named;
    tracked = λ k. ground (arith, h.tracked k, lookup-insert k sid now r.last_activity);
  })
  | inr e ↦ rw e h
]

commit_at :
    (sid : String) (window : Option ℕ) (s : Session) (r : Sessions)
    → lookup sid r.inner ≡ some s
    → IsSound r
    → IsSound (record r { inner = insert sid (record s { agent_window_id = window }) r.inner })
commit_at sid window s r e h = record {
  named =
      subst (λ k. Named id_of (insert k (record s { agent_window_id = window }) r.inner))
        (lookup-Named id_of sid r.inner s h.named e)
        (insert-Named id_of (record s { agent_window_id = window }) r.inner h.named);
  tracked = λ k.
      ground
        (arith, h.tracked k, lookup-insert k sid (record s { agent_window_id = window }) r.inner);
}

pub commit_reservation-IsSound :
    (sid : String) (window : Option ℕ) (r : Sessions)
    → IsSound r
    → IsSound (commit_reservation sid window r).0
unfolding commit_reservation
commit_reservation-IsSound sid window r h = elim (Option-cases (lookup sid r.inner)) [
  | inl e ↦ rw (e, commit_reservation) h
  | inr (s, e) ↦ rw (e, commit_reservation) (commit_at sid window s r e h)
]

reserve-IsSound :
    (browser_id candidate : String) (now_ms now : ℕ) (r : Sessions)
    → IsSound r
    → IsSound (reserve browser_id candidate now_ms now r)
unfolding reserve insert_session
reserve-IsSound browser_id candidate now_ms now r h =
    insert_session-IsSound
      (record {
        id = candidate;
        browser_id = browser_id;
        agent_window_id = none;
        created_at_ms = now_ms;
      })
      now r h

pub reserve_id-IsSound :
    (browser_id : String) (attempts : ℕ) (draws : List String) (now_ms now : ℕ) (r : Sessions)
    → IsSound r
    → IsSound (reserve_id browser_id attempts draws now_ms now r).0
unfolding reserve_id
reserve_id-IsSound browser_id zero draws now_ms now r h = h
reserve_id-IsSound browser_id (suc n) [] now_ms now r h = h
reserve_id-IsSound browser_id (suc n) (c ∷ draws) now_ms now r h =
    elim (Bool-cases (is_some (lookup c r.inner))) [
      | inl e ↦ rw e (reserve_id-IsSound browser_id n draws now_ms now r h)
      | inr e ↦ rw e (reserve-IsSound browser_id c now_ms now r h)
    ]

contains-drained :
    (browser_id k : String) (r : Sessions)
    → IsSound r
    → contains k (map id_of (keep (owned browser_id) (values r.inner)))
      ≡ passes (owned browser_id) (lookup k r.inner)
contains-drained browser_id k r h = contains-keep id_of (owned browser_id) k r.inner h.named

-- Purging a browser unregisters exactly the sessions that it owns, and their activity marks.
pub purge_browser_lem :
    (browser_id k : String) (r : Sessions)
    → IsSound r
    → (lookup k (purge_browser browser_id r).0.inner
        ≡ elim (passes (owned browser_id) (lookup k r.inner)) [
          | true ↦ none
          | false ↦ lookup k r.inner
        ])
      × (lookup k (purge_browser browser_id r).0.last_activity
          ≡ elim (passes (owned browser_id) (lookup k r.inner)) [
            | true ↦ none
            | false ↦ lookup k r.last_activity
          ])
unfolding purge_browser
purge_browser_lem browser_id k r h =
    let ids = map id_of (keep (owned browser_id) (values r.inner)) in
    (
      ground (arith, lookup-remove_all k ids r.inner, contains-drained browser_id k r h),
      ground (arith, lookup-remove_all k ids r.last_activity, contains-drained browser_id k r h),
    )

pub purge_browser-IsSound :
    (browser_id : String) (r : Sessions) → IsSound r → IsSound (purge_browser browser_id r).0
unfolding purge_browser
purge_browser-IsSound browser_id r h = record {
  named =
      remove_all-Named id_of (map id_of (keep (owned browser_id) (values r.inner))) r.inner h.named;
  tracked = λ k. ground (arith, h.tracked k, purge_browser_lem browser_id k r h);
}

-- A reservation never takes the id of a registered session: the id that it answers was free, a
-- placeholder of the browser stands under it, and every other session and mark is as it was.
pub reserve_id-fresh :
    (browser_id sid k : String) (attempts : ℕ) (draws : List String) (now_ms now : ℕ) (r : Sessions)
    → (reserve_id browser_id attempts draws now_ms now r).1 ≡ some sid
    → let r' = (reserve_id browser_id attempts draws now_ms now r).0 in
      (lookup sid r.inner ≡ none)
      × (lookup k r'.inner
          ≡ ite
              (text_discrete sid k)
              (some (record {
                id = sid;
                browser_id = browser_id;
                agent_window_id = none;
                created_at_ms = now_ms;
              }))
              (lookup k r.inner))
      × (lookup k r'.last_activity
          ≡ ite (text_discrete sid k) (some now) (lookup k r.last_activity))
unfolding reserve_id
reserve_id-fresh browser_id sid k zero draws now_ms now r e = absurd (cc)
reserve_id-fresh browser_id sid k (suc n) [] now_ms now r e = absurd (cc)
reserve_id-fresh browser_id sid k (suc n) (c ∷ draws) now_ms now r e =
    let p : Session = record {
      id = c;
      browser_id = browser_id;
      agent_window_id = none;
      created_at_ms = now_ms;
    } in
    let at_inner = lookup-insert k c p r.inner in
    let at_activity = lookup-insert k c now r.last_activity in
    let ih = reserve_id-fresh browser_id sid k n draws now_ms now r in
    (ground arith, ground (arith, ih), ground (arith, ih))

-- Some draw among the first `attempts` is not the id of a session.
abbrev pub HasFree : Sessions → ℕ → List String → Type 0
HasFree r zero draws = ⊥
HasFree r (suc n) [] = ⊥
HasFree r (suc n) (c ∷ draws) = (lookup c r.inner ≡ none) ⊎ HasFree r n draws

-- A reservation succeeds if one of the draws within the attempts is free, and otherwise changes
-- nothing.
pub reserve_id_complete :
    (browser_id : String) (attempts : ℕ) (draws : List String) (now_ms now : ℕ) (r : Sessions)
    → (HasFree r attempts draws
        → is_some (reserve_id browser_id attempts draws now_ms now r).1 ≡ true)
      × ((reserve_id browser_id attempts draws now_ms now r).1 ≡ none
          → (reserve_id browser_id attempts draws now_ms now r).0 ≡ r)
unfolding reserve_id
reserve_id_complete browser_id zero draws now_ms now r = (λ h. absurd h, λ e. refl)
reserve_id_complete browser_id (suc n) [] now_ms now r = (λ h. absurd h, λ e. refl)
reserve_id_complete browser_id (suc n) (c ∷ draws) now_ms now r =
    let (found, kept) = reserve_id_complete browser_id n draws now_ms now r in
    (λ h. ground (arith, found), λ e. ground (arith, kept))

-- Whether a session has been idle: it is registered, and its last mark is at least `idle_for` old.
abbrev pub is_idle : ℕ → ℕ → Option Session → Option ℕ → Bool
is_idle idle_for now none mark = false
is_idle idle_for now (some s) none = false
is_idle idle_for now (some s) (some last) = leb idle_for (now - last)

-- The idle sweep lists exactly the registered sessions whose last activity is at least the idle
-- time ago.
pub idle_ids_at_lem :
    (idle_for now : ℕ) (k : String) (r : Sessions)
    → IsSound r
    → contains k (idle_ids_at idle_for now r)
      ≡ is_idle idle_for now (lookup k r.inner) (lookup k r.last_activity)
unfolding idle_ids_at
idle_ids_at_lem idle_for now k r h =
    let idle : Session → Bool = λ s. idle_since idle_for now (lookup s.id r.last_activity) in
    let listed = contains-keep id_of idle k r.inner h.named in
    elim (Option-cases (lookup k r.inner)) [
      | inl e ↦ ground arith
      | inr (s, e) ↦ let name = lookup-Named id_of k r.inner s h.named e in ground arith
    ]
