-- ===== src/Examples/Negotiation.antt =====
-- Runs of the version negotiation and of the origin check.
use browser_skill.Prelude.{ℕ, ◌≡◌, ◌↔◌, true, false, some, List, [], ◌∷◌, ◌++◌}
use browser_skill.Protocol.Handshake.{evaluate_handshake_compat}
use browser_skill.Protocol.Handshake.Symmetry.{
  accepts, Compatible, evaluate_handshake_compat-Compatible,
}
use browser_skill.Daemon.Ws.{origin_allowed, prefix}
use browser_skill.Daemon.Ws.Origin.{IsExtension, origin_allowed-IsExtension}

abbrev v1_0 : List ℕ
v1_0 = b'1' ∷ b'.' ∷ b'0' ∷ []

abbrev v1_2 : List ℕ
v1_2 = b'1' ∷ b'.' ∷ b'2' ∷ []

evaluate_handshake_compat-Compatible_example :
    (accepts (evaluate_handshake_compat v1_2 (some v1_0) v1_0 v1_0) ≡ true)
    ↔ Compatible v1_2 v1_0 v1_0 v1_0
evaluate_handshake_compat-Compatible_example =
    evaluate_handshake_compat-Compatible v1_2 v1_0 v1_0 v1_0

abbrev letters : List ℕ
letters = b'a' ∷ b'b' ∷ b'c' ∷ b'd' ∷ b'e' ∷ b'f' ∷ b'o' ∷ b'p' ∷ []

abbrev origin : List ℕ
origin = prefix ++ letters ++ letters ++ letters ++ letters

origin_allowed-IsExtension_example : origin_allowed origin false ≡ true ↔ IsExtension origin
origin_allowed-IsExtension_example = origin_allowed-IsExtension origin
