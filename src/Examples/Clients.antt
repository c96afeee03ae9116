-- ===== src/Examples/Clients.antt =====
-- Runs of the selection of a browser.
use browser_skill.Prelude.{ℕ, ◌≡◌, ◌↔◌, refl, some, List, [], ◌∷◌, arith, text_discrete, inl, inr}
use browser_skill.Map.{lookup, Named}
use browser_skill.Daemon.Browsers.{Registry, Selected, ok, select, select_with_connect_wait}
use browser_skill.Daemon.Browsers.Select.{
  IsNamedBy, select-IsNamedBy, id_of, select_with_connect_wait-answers, SeenIn,
}
use browser_skill.Examples.{browsers, client_two}

browsers-Named : Named id_of browsers
unfolding lookup text_discrete
browsers-Named = (refl, refl, (refl, refl, tt))

select-IsNamedBy_example :
    (select (some "home") browsers ≡ ok client_two) ↔ IsNamedBy "home" browsers client_two
select-IsNamedBy_example = select-IsNamedBy "home" browsers client_two (λ e. cc) browsers-Named

abbrev turns : List (ℕ × Registry × Registry)
turns = (0, [], []) ∷ (250, [], []) ∷ (500, [], browsers) ∷ []

select_with_connect_wait-answers_example :
    (s : Selected) × (select_with_connect_wait 400 (some "home") turns ≡ some s)
    × SeenIn (some "home") s turns
select_with_connect_wait-answers_example =
    select_with_connect_wait-answers 400 (some "home") turns (inr (inr (inl (omega arith))))
