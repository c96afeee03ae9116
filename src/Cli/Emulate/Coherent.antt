-- ===== src/Cli/Emulate/Coherent.antt =====
-- The overrides that `bsk emulate` sends.
use browser_skill.Prelude.{
  ◌≡◌, refl, List, [], ◌∷◌, String, ◌⊎◌, inl, inr, true, false, not, ◌||◌, Option, none, some,
  arith, is_some, Bool-cases, Option-cases,
}
use browser_skill.Cli.Emulate.{
  EmulateArgs, EmulateOverrides, EmulateParams, built, build_params, has_manual, apply_manual,
  find_preset, of_preset, no_overrides, validate, merge, DevicePreset, device_presets, find_in,
}

-- The size is whole; the other metrics come with it; a language comes with a user agent.
pub record IsCoherent (o : EmulateOverrides) : Type 0 where
  pub size : is_some o.width ≡ is_some o.height
  pub ratio : not (is_some o.device_scale_factor) || is_some o.width ≡ true
  pub mobile : not (is_some o.mobile) || is_some o.width ≡ true
  pub language : not (is_some o.accept_language) || is_some o.user_agent ≡ true

validate-IsCoherent :
    (a : EmulateArgs) (o : EmulateOverrides) (p : EmulateParams)
    → validate a o ≡ built p
    → IsCoherent o
      × (p.overrides ≡ some o)
      × (p.off ≡ none)
      × ((p.session_id ≡ a.session) × (p.tab_id ≡ a.tab_id))
unfolding validate
validate-IsCoherent a o p e = (
  record {
    size = ground arith;
    ratio = ground arith;
    mobile = ground arith;
    language = ground arith;
  },
  ground arith,
  ground arith,
  (ground arith, ground arith),
)

validate-built :
    (a : EmulateArgs) (o : EmulateOverrides)
    → IsCoherent o
    → validate a o
      ≡ built (record { session_id = a.session; tab_id = a.tab_id; off = none; overrides = some o })
unfolding validate
validate-built a o c = ground (arith, c.size, c.ratio, c.mobile, c.language)

-- What the flags are laid over.
abbrev pub base : EmulateArgs → Option EmulateOverrides
base a = elim a.device [
  | none ↦ some no_overrides
  | some name ↦ elim (find_preset name) [ none ↦ none | some preset ↦ some (of_preset preset) ]
]

-- The overrides are those of the flags, and where a flag is not given, those below. The negative one of
-- two opposite flags counts, and a number of touch points asks for touch.
pub record IsOver (a : EmulateArgs) (o q : EmulateOverrides) : Type 0 where
  pub width : q.width ≡ elim a.width [ none ↦ o.width | some n ↦ some n ]
  pub height : q.height ≡ elim a.height [ none ↦ o.height | some n ↦ some n ]
  pub ratio : q.device_scale_factor ≡ elim a.dpr [ none ↦ o.device_scale_factor | some r ↦ some r ]
  pub agent : q.user_agent ≡ elim a.ua [ none ↦ o.user_agent | some u ↦ some u ]
  pub language :
      q.accept_language ≡ elim a.accept_language [ none ↦ o.accept_language | some l ↦ some l ]
  pub points :
      q.max_touch_points ≡ elim a.max_touch_points [ none ↦ o.max_touch_points | some n ↦ some n ]
  pub mobile : q.mobile ≡ elim a.no_mobile [
    | true ↦ some false
    | false ↦ elim a.mobile [ true ↦ some true | false ↦ o.mobile ]
  ]
  pub touch : q.touch ≡ elim a.no_touch [
    | true ↦ some false
    | false ↦ elim a.touch [
      | true ↦ some true
      | false ↦ elim a.max_touch_points [ some n ↦ some true | none ↦ o.touch ]
    ]
  ]

apply_manual-IsOver : (a : EmulateArgs) (o : EmulateOverrides) → IsOver a o (apply_manual a o)
unfolding apply_manual
apply_manual-IsOver a o = record {
  width = ground arith;
  height = ground arith;
  ratio = ground arith;
  agent = ground arith;
  language = ground arith;
  points = ground arith;
  mobile = ground arith;
  touch = ground arith;
}

-- The overrides of the preset that has the device's name, or none without a device.
abbrev pub IsBase : EmulateArgs → EmulateOverrides → Type 0
IsBase a o = elim a.device [
  | none ↦ o ≡ record {
    width = none;
    height = none;
    device_scale_factor = none;
    mobile = none;
    user_agent = none;
    accept_language = none;
    touch = none;
    max_touch_points = none;
  }
  | some name ↦
      (p : DevicePreset) × (find_preset name ≡ some p)
      × (p.name ≡ name)
      × (o ≡ record {
        width = some p.width;
        height = some p.height;
        device_scale_factor = some p.device_scale_factor;
        mobile = some p.mobile;
        user_agent = some p.user_agent;
        accept_language = none;
        touch = some true;
        max_touch_points = some p.max_touch_points;
      })
]

find_in-name :
    (name : String) (ps : List DevicePreset) (p : DevicePreset)
    → find_in name ps ≡ some p
    → p.name ≡ name
unfolding find_in
find_in-name name [] p e = absurd (cc)
find_in-name name (q ∷ ps) p e = ground (arith, find_in-name name ps p)

find_preset-name : (name : String) (p : DevicePreset) → find_preset name ≡ some p → p.name ≡ name
unfolding find_preset
find_preset-name name p e = find_in-name name device_presets p e

-- The flags over the preset, coherent.
pub record IsBuilt (a : EmulateArgs) (p : EmulateParams) (o q : EmulateOverrides) : Type 0 where
  pub sent : p.overrides ≡ some q
  pub over : IsOver a o q
  pub from_base : IsBase a o
  pub coherent : IsCoherent q
  pub on : p.off ≡ none

-- For the same session and tab.
abbrev pub SameTab : EmulateArgs → EmulateParams → Type 0
SameTab a p = (p.session_id ≡ a.session) × (p.tab_id ≡ a.tab_id)

validated :
    (a : EmulateArgs) (p : EmulateParams) (o : EmulateOverrides)
    → IsBase a o
    → validate a (apply_manual a o) ≡ built p
    → SameTab a p × (o' : EmulateOverrides) × (q : EmulateOverrides) × IsBuilt a p o' q
validated a p o base e =
    let (coherent, sent, on, tab) = validate-IsCoherent a (apply_manual a o) p e in
    (
      tab,
      o,
      apply_manual a o,
      record {
        sent = sent;
        over = apply_manual-IsOver a o;
        from_base = base;
        coherent = coherent;
        on = on;
      },
    )

merge-IsBuilt :
    (a : EmulateArgs) (p : EmulateParams)
    → merge a ≡ built p
    → SameTab a p × (o : EmulateOverrides) × (q : EmulateOverrides) × IsBuilt a p o q
unfolding merge of_preset
merge-IsBuilt a p e = elim (Option-cases a.device) [
  | inl none_given ↦ validated a p no_overrides (rw none_given refl) (ground arith)
  | inr (name, given) ↦ elim (Option-cases (find_preset name)) [
    | inl unknown ↦ absurd (ground arith)
    | inr (preset, known) ↦
        validated a p (of_preset preset)
          (rw given (preset, known, find_preset-name name preset known, refl)) (ground arith)
  ]
]

-- No flag but `--off`.
pub record IsBare (a : EmulateArgs) : Type 0 where
  pub device : a.device ≡ none
  pub size : (a.width ≡ none) × (a.height ≡ none)
  pub ratio : a.dpr ≡ none
  pub mobile : (a.mobile ≡ false) × (a.no_mobile ≡ false)
  pub agent : (a.ua ≡ none) × (a.accept_language ≡ none)
  pub touch : (a.touch ≡ false) × (a.no_touch ≡ false) × (a.max_touch_points ≡ none)

off-IsBare : (a : EmulateArgs) → is_some a.device || has_manual a ≡ false → IsBare a
unfolding has_manual
off-IsBare a e = record {
  device = ground arith;
  size = (ground arith, ground arith);
  ratio = ground arith;
  mobile = (ground arith, ground arith);
  agent = (ground arith, ground arith);
  touch = (ground arith, ground arith, ground arith);
}

-- Accepted arguments are sent for their session and tab. Either they ask, without any other flag, to
-- switch emulation off, which is sent without overrides; or they do not, and the overrides are field
-- by field the flags over those of the preset with the name of the device (over none without one),
-- with the size whole, the ratio and the mobile flag only with a size, and the language only with a
-- user agent.
pub build_params-built :
    (a : EmulateArgs) (p : EmulateParams)
    → build_params a ≡ built p
    → SameTab a p
      × (((a.off ≡ true) × IsBare a × (p.off ≡ some true) × (p.overrides ≡ none))
          ⊎ ((a.off ≡ false) × (o : EmulateOverrides) × (q : EmulateOverrides) × IsBuilt a p o q))
unfolding build_params
build_params-built a p e = elim (Bool-cases a.off) [
  | inl off ↦ elim (Bool-cases (is_some a.device || has_manual a)) [
    | inl more ↦ absurd (ground arith)
    | inr bare ↦
        ((ground arith, ground arith), inl (off, off-IsBare a bare, ground arith, ground arith))
  ]
  | inr on ↦ let (tab, o, q, b) = merge-IsBuilt a p (ground arith) in (tab, inr (on, o, q, b))
]

-- Conversely, arguments that do not ask to switch emulation off are accepted if they name a preset
-- that exists, or none and a manual flag, and the flags over the preset are coherent.
pub build_params_complete :
    (a : EmulateArgs) (o : EmulateOverrides)
    → a.off ≡ false
    → is_some a.device || has_manual a ≡ true
    → base a ≡ some o
    → IsCoherent (apply_manual a o)
    → build_params a
      ≡ built (record {
        session_id = a.session;
        tab_id = a.tab_id;
        off = none;
        overrides = some (apply_manual a o);
      })
unfolding build_params
build_params_complete a o on asks known c =
    let valid = validate-built a (apply_manual a o) c in
    elim (Option-cases a.device) [
      | inl none_given ↦ ground arith
      | inr (name, given) ↦ elim (Option-cases (find_preset name)) [
        | inl unknown ↦ absurd (ground arith)
        | inr (preset, found) ↦ ground arith
      ]
    ]
