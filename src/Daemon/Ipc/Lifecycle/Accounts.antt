-- ===== src/Daemon/Ipc/Lifecycle/Accounts.antt =====
-- The report of a stop of all sessions.
use browser_skill.Prelude.{
  ℕ, ◌≡◌, refl, sym, ◌∙◌, ap, Bool, true, false, List, [], ◌∷◌, ◌++◌, map, String, arith,
}
use browser_skill.Protocol.Frame.{RpcError}
use browser_skill.Daemon.Stop.{
  Stopped, stopped, not_stopped, stop_not_found, stopping, stop_busy, browser_gone, stop_timeout,
  stop_closed, stop_extension_error, failed_returns,
}
use browser_skill.Daemon.Ipc.Lifecycle.{StopFailure, StopReport, stop_all, account, no_stops}

abbrev pub is_stopped : Stopped → Bool
is_stopped (stopped r) = true
is_stopped (not_stopped e) = false

-- The ids of the sessions whose stop has ended in one way, in order.
unfoldable pub ended : Bool → List (String × Stopped) → List String
ended how [] = []
ended true ((id, stopped r) ∷ rest) = id ∷ ended true rest
ended true ((id, not_stopped e) ∷ rest) = ended true rest
ended false ((id, stopped r) ∷ rest) = ended false rest
ended false ((id, not_stopped e) ∷ rest) = id ∷ ended false rest

-- The tabs that the browser has returned in a stop.
abbrev pub tabs_of : Stopped → List ℕ
tabs_of (stopped r) = r.returned_tab_ids
tabs_of (not_stopped (failed_returns r)) = r.returned_tab_ids
tabs_of (not_stopped _) = []

unfoldable pub all_tabs : List (String × Stopped) → List ℕ
all_tabs [] = []
all_tabs ((id, result) ∷ rest) = tabs_of result ++ all_tabs rest

append_assoc {ℓ} : {A : Type ℓ} (xs ys zs : List A) → (xs ++ ys) ++ zs ≡ xs ++ (ys ++ zs)
append_assoc [] ys zs = refl
append_assoc (x ∷ xs) ys zs = ap (λ l. x ∷ l) (append_assoc xs ys zs)

append_nil {ℓ} : {A : Type ℓ} (xs : List A) → xs ++ [] ≡ xs
append_nil [] = refl
append_nil (x ∷ xs) = ap (λ l. x ∷ l) (append_nil xs)

map-append {ℓ ℓ'} :
    {A : Type ℓ} {B : Type ℓ'} (f : A → B) (xs ys : List A)
    → map f (xs ++ ys) ≡ map f xs ++ map f ys
map-append f [] ys = refl
map-append f (x ∷ xs) ys = ap (λ l. f x ∷ l) (map-append f xs ys)

abbrev pub failed_ids : StopReport → List String
failed_ids t = map (λ (f : StopFailure). f.session_id) t.failed

module _ (show : ℕ → String) (debug : RpcError → String) where
  account-stopped :
      (id : String) (r : Stopped) (t : StopReport)
      → (account show debug id r t).stopped_ids ≡ t.stopped_ids ++ ended true ((id, r) ∷ [])
  unfolding account ended
  account-stopped id (stopped r) t = refl
  account-stopped id (not_stopped e) t = ground (arith, append_nil t.stopped_ids)

  account-failed :
      (id : String) (r : Stopped) (t : StopReport)
      → failed_ids (account show debug id r t) ≡ failed_ids t ++ ended false ((id, r) ∷ [])
  unfolding account ended
  account-failed id (stopped r) t = sym (append_nil (failed_ids t))
  account-failed id (not_stopped stop_not_found) t =
      map-append (λ (f : StopFailure). f.session_id) t.failed _
  account-failed id (not_stopped stopping) t =
      map-append (λ (f : StopFailure). f.session_id) t.failed _
  account-failed id (not_stopped stop_busy) t =
      map-append (λ (f : StopFailure). f.session_id) t.failed _
  account-failed id (not_stopped browser_gone) t =
      map-append (λ (f : StopFailure). f.session_id) t.failed _
  account-failed id (not_stopped stop_timeout) t =
      map-append (λ (f : StopFailure). f.session_id) t.failed _
  account-failed id (not_stopped stop_closed) t =
      map-append (λ (f : StopFailure). f.session_id) t.failed _
  account-failed id (not_stopped (stop_extension_error x)) t =
      map-append (λ (f : StopFailure). f.session_id) t.failed _
  account-failed id (not_stopped (failed_returns r)) t =
      map-append (λ (f : StopFailure). f.session_id) t.failed _

  account-tabs :
      (id : String) (r : Stopped) (t : StopReport)
      → (account show debug id r t).returned_tab_ids ≡ t.returned_tab_ids ++ tabs_of r
  unfolding account
  account-tabs id (stopped r) t = refl
  account-tabs id (not_stopped stop_not_found) t = sym (append_nil t.returned_tab_ids)
  account-tabs id (not_stopped stopping) t = sym (append_nil t.returned_tab_ids)
  account-tabs id (not_stopped stop_busy) t = sym (append_nil t.returned_tab_ids)
  account-tabs id (not_stopped browser_gone) t = sym (append_nil t.returned_tab_ids)
  account-tabs id (not_stopped stop_timeout) t = sym (append_nil t.returned_tab_ids)
  account-tabs id (not_stopped stop_closed) t = sym (append_nil t.returned_tab_ids)
  account-tabs id (not_stopped (stop_extension_error x)) t = sym (append_nil t.returned_tab_ids)
  account-tabs id (not_stopped (failed_returns r)) t = refl

  ended-cons :
      (how : Bool) (id : String) (r : Stopped) (rest : List (String × Stopped))
      → ended how ((id, r) ∷ rest) ≡ ended how ((id, r) ∷ []) ++ ended how rest
  unfolding ended
  ended-cons true id (stopped r) rest = refl
  ended-cons true id (not_stopped e) rest = refl
  ended-cons false id (stopped r) rest = refl
  ended-cons false id (not_stopped e) rest = refl

  stop_all-from :
      (rs : List (String × Stopped)) (t : StopReport)
      → ((stop_all show debug rs t).stopped_ids ≡ t.stopped_ids ++ ended true rs)
        × (failed_ids (stop_all show debug rs t) ≡ failed_ids t ++ ended false rs)
        × ((stop_all show debug rs t).returned_tab_ids ≡ t.returned_tab_ids ++ all_tabs rs)
  unfolding stop_all ended all_tabs
  stop_all-from [] t = (
    sym (append_nil t.stopped_ids),
    sym (append_nil (failed_ids t)),
    sym (append_nil t.returned_tab_ids),
  )
  stop_all-from ((id, r) ∷ rest) t =
      let (ok, failed, tabs) = stop_all-from rest (account show debug id r t) in
      (
        ok
            ∙ ap (λ l. l ++ ended true rest) (account-stopped id r t)
            ∙ append_assoc t.stopped_ids (ended true ((id, r) ∷ [])) (ended true rest)
            ∙ ap (λ l. t.stopped_ids ++ l) (sym (ended-cons true id r rest)),
        failed
            ∙ ap (λ l. l ++ ended false rest) (account-failed id r t)
            ∙ append_assoc (failed_ids t) (ended false ((id, r) ∷ [])) (ended false rest)
            ∙ ap (λ l. failed_ids t ++ l) (sym (ended-cons false id r rest)),
        tabs
            ∙ ap (λ l. l ++ all_tabs rest) (account-tabs id r t)
            ∙ append_assoc t.returned_tab_ids (tabs_of r) (all_tabs rest),
      )

  -- The report of a stop of all sessions lists, in order, the sessions whose stop has succeeded as
  -- stopped, all the others as failed, and the tabs that were returned in either.
  pub stop_all_lem :
      (rs : List (String × Stopped))
      → ((stop_all show debug rs no_stops).stopped_ids ≡ ended true rs)
        × (failed_ids (stop_all show debug rs no_stops) ≡ ended false rs)
        × ((stop_all show debug rs no_stops).returned_tab_ids ≡ all_tabs rs)
  stop_all_lem rs = stop_all-from rs no_stops
