-- ===== src/Cli/Emulate.antt =====
-- The parameters of `bsk emulate`: crates/bsk-cli/src/cli/emulate.rs. A device pixel ratio is its
-- literal. `user_agent_metadata` is left out: the command never sets it.
pub mod Coherent
use Prim.Native.String.{◌++◌ as str_append}
use browser_skill.Prelude.{
  ℕ, Bool, true, false, ◌||◌, ◌&&◌, not, Option, none, some, List, [], ◌∷◌, map, String, ite,
  text_discrete, is_some, if◌then◌else◌, leb,
}
use browser_skill.Protocol.Frame.{ErrorCode}
use browser_skill.Cli.Errors.{CliError, rpc}

pub record DevicePreset : Type 0 where
  pub name : String
  pub width : ℕ
  pub height : ℕ
  pub device_scale_factor : String
  pub mobile : Bool
  pub user_agent : String
  pub max_touch_points : ℕ

abbrev iphone_ua : String
iphone_ua =
    "Mozilla/5.0 (iPhone; CPU iPhone OS 17_0 like Mac OS X) AppleWebKit/605.1.15 (KHTML, like Gecko) Version/17.0 Mobile/15E148 Safari/604.1"

abbrev ipad_ua : String
ipad_ua =
    "Mozilla/5.0 (iPad; CPU OS 17_0 like Mac OS X) AppleWebKit/605.1.15 (KHTML, like Gecko) Version/17.0 Mobile/15E148 Safari/604.1"

abbrev pub device_presets : List DevicePreset
device_presets =
    record {
      name = "iphone-14";
      width = 390;
      height = 844;
      device_scale_factor = "3.0";
      mobile = true;
      user_agent = iphone_ua;
      max_touch_points = 5;
    }
    ∷ record {
      name = "iphone-14-pro-max";
      width = 430;
      height = 932;
      device_scale_factor = "3.0";
      mobile = true;
      user_agent = iphone_ua;
      max_touch_points = 5;
    }
    ∷ record {
      name = "iphone-se";
      width = 375;
      height = 667;
      device_scale_factor = "2.0";
      mobile = true;
      user_agent = iphone_ua;
      max_touch_points = 5;
    }
    ∷ record {
      name = "pixel-7";
      width = 412;
      height = 915;
      device_scale_factor = "2.625";
      mobile = true;
      user_agent =
          "Mozilla/5.0 (Linux; Android 14; Pixel 7) AppleWebKit/537.36 (KHTML, like Gecko) Chrome/120.0.6099.43 Mobile Safari/537.36";
      max_touch_points = 5;
    }
    ∷ record {
      name = "galaxy-s23";
      width = 360;
      height = 780;
      device_scale_factor = "3.0";
      mobile = true;
      user_agent =
          "Mozilla/5.0 (Linux; Android 14; SM-S911B) AppleWebKit/537.36 (KHTML, like Gecko) Chrome/120.0.6099.43 Mobile Safari/537.36";
      max_touch_points = 5;
    }
    ∷ record {
      name = "ipad-mini";
      width = 744;
      height = 1133;
      device_scale_factor = "2.0";
      mobile = true;
      user_agent = ipad_ua;
      max_touch_points = 5;
    }
    ∷ record {
      name = "galaxy-tab-s8";
      width = 800;
      height = 1280;
      device_scale_factor = "2.0";
      mobile = true;
      user_agent =
          "Mozilla/5.0 (Linux; Android 14; SM-X700) AppleWebKit/537.36 (KHTML, like Gecko) Chrome/120.0.6099.43 Safari/537.36";
      max_touch_points = 5;
    }
    ∷ []

joined : List String → String
joined [] = ""
joined (n ∷ []) = n
joined (n ∷ m ∷ rest) = str_append n (str_append ", " (joined (m ∷ rest)))

preset_names : String
unfolding joined
preset_names = joined (map (λ (p : DevicePreset). p.name) device_presets)

find_in : String → List DevicePreset → Option DevicePreset
find_in name [] = none
find_in name (p ∷ ps) = ite (text_discrete p.name name) (some p) (find_in name ps)

unfoldable pub find_preset : String → Option DevicePreset
unfolding find_in
find_preset name = find_in name device_presets

-- `viewport_dimension`, of a text that parses to the number, or does not parse.
unfoldable pub viewport_dimension : Option ℕ → Option ℕ
viewport_dimension none = none
viewport_dimension (some n) = if leb 1 n && leb n 7680 then some n else none

-- `touch_points`, likewise.
unfoldable pub touch_points : Option ℕ → Option ℕ
touch_points none = none
touch_points (some n) = if leb 1 n then some n else none

pub record EmulateArgs : Type 0 where
  pub session : String
  -- A signed number, as its literal.
  pub tab_id : Option String
  pub device : Option String
  pub width : Option ℕ
  pub height : Option ℕ
  pub dpr : Option String
  pub mobile : Bool
  pub no_mobile : Bool
  pub ua : Option String
  pub accept_language : Option String
  pub touch : Bool
  pub no_touch : Bool
  pub max_touch_points : Option ℕ
  pub off : Bool

pub record EmulateOverrides : Type 0 where
  pub width : Option ℕ
  pub height : Option ℕ
  pub device_scale_factor : Option String
  pub mobile : Option Bool
  pub user_agent : Option String
  pub accept_language : Option String
  pub touch : Option Bool
  pub max_touch_points : Option ℕ

pub record EmulateParams : Type 0 where
  pub session_id : String
  pub tab_id : Option String
  pub off : Option Bool
  pub overrides : Option EmulateOverrides

pub data Built : Type 0 where
  built : EmulateParams → Built
  rejected : CliError → Built

invalid_params : String → CliError
invalid_params message =
    rpc (record { code = ErrorCode.invalid_params; message = message; error_data = none })

unfoldable pub has_manual : EmulateArgs → Bool
has_manual a =
    is_some a.width
    || is_some a.height
    || is_some a.dpr
    || a.mobile
    || a.no_mobile
    || is_some a.ua
    || is_some a.accept_language
    || a.touch
    || a.no_touch
    || is_some a.max_touch_points

-- The overrides of a preset, or none.
unfoldable pub of_preset : DevicePreset → EmulateOverrides
of_preset p = record {
  width = some p.width;
  height = some p.height;
  device_scale_factor = some p.device_scale_factor;
  mobile = some p.mobile;
  user_agent = some p.user_agent;
  accept_language = none;
  touch = some true;
  max_touch_points = some p.max_touch_points;
}

abbrev pub no_overrides : EmulateOverrides
no_overrides = record {
  width = none;
  height = none;
  device_scale_factor = none;
  mobile = none;
  user_agent = none;
  accept_language = none;
  touch = none;
  max_touch_points = none;
}

abbrev pub or_else {ℓ} : {A : Type ℓ} → Option A → Option A → Option A
or_else none old = old
or_else (some new) old = some new

-- Manual flags override single fields; of two opposite flags the last assignment stays.
unfoldable pub apply_manual : EmulateArgs → EmulateOverrides → EmulateOverrides
apply_manual a o = record {
  width = or_else a.width o.width;
  height = or_else a.height o.height;
  device_scale_factor = or_else a.dpr o.device_scale_factor;
  mobile = if a.no_mobile then some false else (if a.mobile then some true else o.mobile);
  user_agent = or_else a.ua o.user_agent;
  accept_language = or_else a.accept_language o.accept_language;
  touch =
      if a.no_touch
      then some false
      else (if a.touch || is_some a.max_touch_points then some true else o.touch);
  max_touch_points = or_else a.max_touch_points o.max_touch_points;
}

-- The checks across fields, on the merged overrides.
validate : EmulateArgs → EmulateOverrides → Built
unfolding invalid_params
validate a o =
    if (is_some o.width && not (is_some o.height)) || (not (is_some o.width) && is_some o.height)
    then rejected (invalid_params "--width and --height must be provided together")
    else (if not (is_some o.width) && (is_some o.device_scale_factor || is_some o.mobile)
        then rejected (
            invalid_params
              "--dpr/--mobile/--no-mobile require --width/--height (viewport metrics need dimensions)")
        else (if is_some o.accept_language && not (is_some o.user_agent)
            then rejected (invalid_params "--accept-language requires --ua")
            else built (record {
              session_id = a.session;
              tab_id = a.tab_id;
              off = none;
              overrides = some o;
            })))

merge : EmulateArgs → Built
unfolding validate apply_manual find_preset of_preset invalid_params preset_names
merge a = elim a.device [
  | none ↦ validate a (apply_manual a no_overrides)
  | some name ↦ elim (find_preset name) [
    | none ↦
        -- `{name:?}` shows the name in quotes.
        rejected (
          invalid_params (
            str_append "unknown device preset \""
              (str_append name (str_append "\" (available: " (str_append preset_names ")")))))
    | some p ↦ validate a (apply_manual a (of_preset p))
  ]
]

unfoldable pub build_params : EmulateArgs → Built
unfolding merge has_manual invalid_params preset_names
build_params a =
    if a.off
    then (if is_some a.device || has_manual a
        then rejected
            (invalid_params "--off cannot be combined with --device or manual emulation options")
        else built (record {
          session_id = a.session;
          tab_id = a.tab_id;
          off = some true;
          overrides = none;
        }))
    else (if not (is_some a.device) && not (has_manual a)
        then rejected (
            invalid_params (
              str_append "nothing to do: pass --device <preset> (" (
                str_append preset_names
                  "), manual options (--width/--height/--dpr/--mobile/--ua/--touch), or --off")))
        else merge a)
