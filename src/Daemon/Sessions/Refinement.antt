-- ===== src/Daemon/Sessions/Refinement.antt =====
-- The session registry as a partial function from ids to sessions with their last activity: the abstract
-- view of its two maps.
use browser_skill.Prelude.{
  ℕ, zero, suc, ◌≡◌, refl, ap, ◌∙◌, inl, inr, Bool, Option, none, some, List, [], ◌∷◌, String,
  arith, ite, text_discrete, is_some, Option-cases, if◌then◌else◌,
}
use browser_skill.Map.{lookup, lookup-insert, lookup-remove}
use browser_skill.Daemon.Sessions.{
  Session, Sessions, new, owned, insert_session, reserve_id, commit_reservation, cancel_reservation,
  remove_session, touch, purge_browser, get,
}
use browser_skill.Daemon.Sessions.Registry.{
  IsSound, new-IsSound, insert_session-IsSound, reserve_id-IsSound, commit_reservation-IsSound,
  cancel_reservation-IsSound, remove_session-IsSound, touch-IsSound, purge_browser-IsSound,
  purge_browser_lem, reserve_id_complete, reserve_id-fresh,
}

-- The abstract registry.
abbrev pub View : Type 0
View = String → Option (Session × ℕ)

abbrev pub together : Option Session → Option ℕ → Option (Session × ℕ)
together none t = none
together (some s) none = none
together (some s) (some t) = some (s, t)

pub view : Sessions → View
view r k = together (lookup k r.inner) (lookup k r.last_activity)

-- The operations of the registry.
pub data Op : Type 0 where
  inserts : Session → ℕ → Op
  reserves : String → ℕ → List String → ℕ → ℕ → Op
  commits : String → Option ℕ → Op
  cancels removes gets purges : String → Op
  touches : String → ℕ → Op

pub data Reply : Type 0 where
  done : Reply
  id : Option String → Reply
  session : Option Session → Reply
  flag : Bool → Reply

pub perform : Op → Sessions → Sessions × Reply
perform (inserts s now) r = (insert_session s now r, done)
perform (reserves b n draws now_ms now) r =
    let (r', sid) = reserve_id b n draws now_ms now r in (r', id sid)
perform (commits sid window) r = let (r', s) = commit_reservation sid window r in (r', session s)
perform (cancels sid) r = (cancel_reservation sid r, done)
perform (removes sid) r = let (r', s) = remove_session sid r in (r', session s)
perform (gets sid) r = (r, session (get sid r))
perform (purges b) r = ((purge_browser b r).0, done)
perform (touches sid now) r = let (r', known) = touch sid now r in (r', flag known)

-- The first draw within the attempts that is no session's id.
first_free : View → ℕ → List String → Option String
first_free v zero draws = none
first_free v (suc n) [] = none
first_free v (suc n) (c ∷ draws) = if is_some (v c) then first_free v n draws else some c

abbrev fst_of : Option (Session × ℕ) → Option Session
fst_of none = none
fst_of (some (s, t)) = some s

with_window : Option ℕ → Option (Session × ℕ) → Option (Session × ℕ)
with_window w none = none
with_window w (some (s, t)) = some (record s { agent_window_id = w }, t)

at_time : ℕ → Option (Session × ℕ) → Option (Session × ℕ)
at_time now none = none
at_time now (some (s, t)) = some (s, now)

not_of : String → Option (Session × ℕ) → Option (Session × ℕ)
not_of b none = none
not_of b (some (s, t)) = if owned b s then none else some (s, t)

set : String → Option (Session × ℕ) → View → View
set sid x v k = ite (text_discrete sid k) x (v k)

-- What each operation means for the abstract registry, and answers.
pub specify : Op → View → View × Reply
unfolding first_free with_window at_time not_of set
specify (inserts s now) v = (set s.id (some (s, now)) v, done)
specify (reserves b n draws now_ms now) v = elim (first_free v n draws) [
  | none ↦ (v, id none)
  | some sid ↦ (
    set sid
        (some (
          record { id = sid; browser_id = b; agent_window_id = none; created_at_ms = now_ms },
          now,
        ))
        v,
    id (some sid),
  )
]
specify (commits sid window) v =
    (set sid (with_window window (v sid)) v, session (fst_of (with_window window (v sid))))
specify (cancels sid) v = (set sid none v, done)
specify (removes sid) v = (set sid none v, session (fst_of (v sid)))
specify (gets sid) v = (v, session (fst_of (v sid)))
specify (purges b) v = (λ k. not_of b (v k), done)
specify (touches sid now) v = (set sid (at_time now (v sid)) v, flag (is_some (v sid)))

first_free-view :
    (b : String) (n : ℕ) (draws : List String) (now_ms now : ℕ) (r : Sessions)
    → IsSound r
    → (reserve_id b n draws now_ms now r).1 ≡ first_free (view r) n draws
unfolding reserve_id first_free view
first_free-view b zero draws now_ms now r h = refl
first_free-view b (suc n) [] now_ms now r h = refl
first_free-view b (suc n) (c ∷ draws) now_ms now r h =
    ground (arith, h.tracked c, first_free-view b n draws now_ms now r h)

perform-reply : (op : Op) (r : Sessions) → IsSound r → (perform op r).1 ≡ (specify op (view r)).1
unfolding perform specify view insert_session commit_reservation cancel_reservation remove_session
    get touch
perform-reply (inserts s now) r h = refl
perform-reply (reserves b n draws now_ms now) r h =
    let same = first_free-view b n draws now_ms now r h in
    elim (Option-cases (first_free (view r) n draws)) [
      | inl taken ↦ ground arith
      | inr (sid, free) ↦ ground arith
    ]
perform-reply (commits sid window) r h = ground (arith, h.tracked sid)
perform-reply (cancels sid) r h = refl
perform-reply (removes sid) r h = ground (arith, h.tracked sid)
perform-reply (gets sid) r h = ground (arith, h.tracked sid)
perform-reply (purges b) r h = refl
perform-reply (touches sid now) r h = ground (arith, h.tracked sid)

perform-at :
    (op : Op) (r : Sessions) (k : String)
    → IsSound r
    → view (perform op r).0 k ≡ (specify op (view r)).0 k
unfolding perform specify view insert_session commit_reservation cancel_reservation remove_session
    get touch
perform-at (inserts s now) r k h =
    ground (arith, lookup-insert k s.id s r.inner, lookup-insert k s.id now r.last_activity)
perform-at (reserves b n draws now_ms now) r k h =
    let same = first_free-view b n draws now_ms now r h in
    elim (Option-cases (first_free (view r) n draws)) [
      | inl taken ↦
          let kept = (reserve_id_complete b n draws now_ms now r).1 (ground arith) in ground arith
      | inr (sid, free) ↦
          let fresh = reserve_id-fresh b sid k n draws now_ms now r (ground arith) in ground arith
    ]
perform-at (commits sid window) r k h = elim (Option-cases (lookup sid r.inner)) [
  | inl absent ↦ ground (arith, h.tracked k, h.tracked sid)
  | inr (s, present) ↦ ground (
    arith,
    h.tracked k,
    h.tracked sid,
    lookup-insert k sid (record s { agent_window_id = window }) r.inner,
  )
]
perform-at (cancels sid) r k h =
    ground (arith, lookup-remove k sid r.inner, lookup-remove k sid r.last_activity)
perform-at (removes sid) r k h =
    ground (arith, lookup-remove k sid r.inner, lookup-remove k sid r.last_activity)
perform-at (gets sid) r k h = refl
perform-at (purges b) r k h = ground (arith, h.tracked k, purge_browser_lem b k r h)
perform-at (touches sid now) r k h =
    ground (arith, h.tracked sid, h.tracked k, lookup-insert k sid now r.last_activity)

perform-IsSound : (op : Op) (r : Sessions) → IsSound r → IsSound (perform op r).0
unfolding perform
perform-IsSound (inserts s now) r h = insert_session-IsSound s now r h
perform-IsSound (reserves b n draws now_ms now) r h = reserve_id-IsSound b n draws now_ms now r h
perform-IsSound (commits sid window) r h = commit_reservation-IsSound sid window r h
perform-IsSound (cancels sid) r h = cancel_reservation-IsSound sid r h
perform-IsSound (removes sid) r h = remove_session-IsSound sid r h
perform-IsSound (gets sid) r h = h
perform-IsSound (purges b) r h = purge_browser-IsSound b r h
perform-IsSound (touches sid now) r h = touch-IsSound sid now r h

-- The answers to a list of operations, of the code and of the specification.
pub replies : List Op → Sessions → List Reply
replies [] r = []
replies (op ∷ ops) r = (perform op r).1 ∷ replies ops (perform op r).0

pub specified : List Op → View → List Reply
specified [] v = []
specified (op ∷ ops) v = (specify op v).1 ∷ specified ops (specify op v).0

replies-view : (ops : List Op) (r : Sessions) → IsSound r → replies ops r ≡ specified ops (view r)
unfolding replies specified
replies-view [] r h = refl
replies-view (op ∷ ops) r h =
    let next : view (perform op r).0 ≡ (specify op (view r)).0 = λ i k. perform-at op r k h i in
    rw (perform-reply op r h) (
      ap (λ l. (specify op (view r)).1 ∷ l)
        (replies-view ops (perform op r).0 (perform-IsSound op r h) ∙ ap (specified ops) next))

-- Whatever operations are performed on a new registry, in any order: it answers as a partial function
-- from ids to sessions does that starts empty.
pub replies-new : (ops : List Op) → replies ops new ≡ specified ops (λ k. none)
unfolding new view lookup
replies-new ops = replies-view ops new new-IsSound
