-- ===== src/Protocol/Handshake/Symmetry.antt =====
-- The verdicts of both peers of a handshake.
use browser_skill.Prelude.{
  ℕ, ◌≤◌, ◌<◌, ◌≡◌, ◌↔◌, ◌⊎◌, inl, inr, Bool, true, false, none, some, List, arith, Option-cases,
}
use browser_skill.Protocol.Handshake.{
  ProtocolParts, HandshakeCompat, ok, skew, reject, parse_protocol_parts, parse_major,
  evaluate_handshake_compat, compare_protocol,
}

abbrev pub accepts : HandshakeCompat → Bool
accepts ok = true
accepts skew = true
accepts (reject r) = false

-- A verdict accepts on one side exactly when the peer, which runs the same code with the roles
-- swapped, accepts on the other.
pub evaluate_handshake_compat-symmetric :
    (peer peer_min our our_min : List ℕ)
    → accepts (evaluate_handshake_compat peer (some peer_min) our our_min)
      ≡ accepts (evaluate_handshake_compat our (some our_min) peer peer_min)
unfolding evaluate_handshake_compat
evaluate_handshake_compat-symmetric peer peer_min our our_min = ground arith

abbrev pub LeParts : ProtocolParts → ProtocolParts → Type 0
LeParts a b = (a.major < b.major) ⊎ ((a.major ≡ b.major) × (a.minor ≤ b.minor))

parse_protocol_parts-major :
    (v : List ℕ) (p : ProtocolParts)
    → parse_protocol_parts v ≡ some p
    → parse_major v ≡ some p.major
unfolding parse_protocol_parts
parse_protocol_parts-major v p e = ground arith

-- The peers' versions parse, agree on the major number, and reach each other's floors.
pub record Compatible (peer peer_min our our_min : List ℕ) : Type 0 where
  pub p : ProtocolParts
  pub q : ProtocolParts
  pub p_floor : ProtocolParts
  pub q_floor : ProtocolParts
  pub parse_p : parse_protocol_parts peer ≡ some p
  pub parse_q : parse_protocol_parts our ≡ some q
  pub parse_p_floor : parse_protocol_parts peer_min ≡ some p_floor
  pub parse_q_floor : parse_protocol_parts our_min ≡ some q_floor
  pub majors : p.major ≡ q.major
  pub p_reaches : LeParts q_floor p
  pub q_reaches : LeParts p_floor q

Compatible-accepts :
    (peer peer_min our our_min : List ℕ)
    → Compatible peer peer_min our our_min
    → accepts (evaluate_handshake_compat peer (some peer_min) our our_min) ≡ true
unfolding evaluate_handshake_compat compare_protocol
Compatible-accepts peer peer_min our our_min c = ground (
  arith,
  parse_protocol_parts-major peer c.p c.parse_p,
  parse_protocol_parts-major our c.q c.parse_q,
)

unparsed_rejects :
    (peer peer_min our our_min : List ℕ)
    → (parse_protocol_parts peer ≡ none)
      ⊎ (parse_protocol_parts our ≡ none)
      ⊎ (parse_protocol_parts peer_min ≡ none)
      ⊎ (parse_protocol_parts our_min ≡ none)
    → accepts (evaluate_handshake_compat peer (some peer_min) our our_min) ≡ false
unfolding evaluate_handshake_compat compare_protocol
unparsed_rejects peer peer_min our our_min h = ground arith

parsed_Compatible :
    (peer peer_min our our_min : List ℕ) (p p_floor q q_floor : ProtocolParts)
    → parse_protocol_parts peer ≡ some p
    → parse_protocol_parts peer_min ≡ some p_floor
    → parse_protocol_parts our ≡ some q
    → parse_protocol_parts our_min ≡ some q_floor
    → accepts (evaluate_handshake_compat peer (some peer_min) our our_min) ≡ true
    → (p.major ≡ q.major) × LeParts q_floor p × LeParts p_floor q
unfolding evaluate_handshake_compat compare_protocol
parsed_Compatible peer peer_min our our_min p p_floor q q_floor e ef d df h =
    ground (arith, parse_protocol_parts-major peer p e, parse_protocol_parts-major our q d)

accepts-Compatible :
    (peer peer_min our our_min : List ℕ)
    → accepts (evaluate_handshake_compat peer (some peer_min) our our_min) ≡ true
    → Compatible peer peer_min our our_min
accepts-Compatible peer peer_min our our_min h = elim (parsed peer) [
  | inl e ↦ absurd (cc (unparsed_rejects peer peer_min our our_min (inl e)))
  | inr (p, e) ↦ elim (parsed peer_min) [
    | inl ef ↦ absurd (cc (unparsed_rejects peer peer_min our our_min (inr (inr (inl ef)))))
    | inr (p_floor, ef) ↦ elim (parsed our) [
      | inl d ↦ absurd (cc (unparsed_rejects peer peer_min our our_min (inr (inl d))))
      | inr (q, d) ↦ elim (parsed our_min) [
        | inl df ↦ absurd (cc (unparsed_rejects peer peer_min our our_min (inr (inr (inr df)))))
        | inr (q_floor, df) ↦ found p p_floor q q_floor e ef d df
      ]
    ]
  ]
]
  where
    parsed :
        (v : List ℕ)
        → (parse_protocol_parts v ≡ none)
          ⊎ ((a : ProtocolParts) × (parse_protocol_parts v ≡ some a))
    parsed v = Option-cases (parse_protocol_parts v)

    found :
        (p p_floor q q_floor : ProtocolParts)
        → parse_protocol_parts peer ≡ some p
        → parse_protocol_parts peer_min ≡ some p_floor
        → parse_protocol_parts our ≡ some q
        → parse_protocol_parts our_min ≡ some q_floor
        → Compatible peer peer_min our our_min
    found p p_floor q q_floor e ef d df =
        let (m, a, b) =
          parsed_Compatible peer peer_min our our_min p p_floor q q_floor e ef d df h in
        record {
          p = p;
          q = q;
          p_floor = p_floor;
          q_floor = q_floor;
          parse_p = e;
          parse_q = d;
          parse_p_floor = ef;
          parse_q_floor = df;
          majors = m;
          p_reaches = a;
          q_reaches = b;
        }

-- A peer that sends a floor is accepted exactly when all four versions parse, the majors agree, and
-- each side's version reaches the other side's floor.
pub evaluate_handshake_compat-Compatible :
    (peer peer_min our our_min : List ℕ)
    → (accepts (evaluate_handshake_compat peer (some peer_min) our our_min) ≡ true)
      ↔ Compatible peer peer_min our our_min
evaluate_handshake_compat-Compatible peer peer_min our our_min =
    (accepts-Compatible peer peer_min our our_min, Compatible-accepts peer peer_min our our_min)
