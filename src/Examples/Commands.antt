-- ===== src/Examples/Commands.antt =====
-- Runs of the commands of the CLI.
use browser_skill.Prelude.{
  ℕ, ◌≤◌, ◌≡◌, ◌≢◌, refl, ◌⊎◌, true, false, none, some, [], ◌∷◌, text_discrete,
}
use browser_skill.Protocol.Json.{null}
use browser_skill.Protocol.Frame.{ResponseBody, Frame, response}
use browser_skill.Protocol.Codec.{decoded, encode, decode}
use browser_skill.Daemon.Queues.{DispatchError, into_rpc}
use browser_skill.Cli.Errors.{rpc, local, rendered_exit, render, render_info_for}
use browser_skill.Cli.Errors.ExitCodes.{render-exit_code, refusal-exit_code}
use browser_skill.Cli.Targets.{is_whitespace}
use browser_skill.Cli.Durations.{parsed, parse_duration}
use browser_skill.Cli.Emulate.{
  EmulateArgs, EmulateOverrides, EmulateParams, build_params, find_preset, of_preset, apply_manual,
}
use browser_skill.Cli.Emulate.Coherent.{SameTab, IsBare, IsBuilt, build_params-built}

abbrev busy : DispatchError
busy = DispatchError.session_busy

abbrev busy_frame : Frame
busy_frame = response (record { id = "r1"; body = ResponseBody.err (into_rpc busy) })

has_reason : (into_rpc busy).error_data ≢ some null
unfolding into_rpc
has_reason p = cc

refusal-exit_code_example :
    (decode (encode busy_frame) ≡ decoded busy_frame) × ((render (rpc (into_rpc busy))).1 ≡ 4)
refusal-exit_code_example = refusal-exit_code "r1" busy has_reason

not_chosen : (n : ℕ) → local "no daemon" ≢ rendered_exit n
not_chosen n p = cc

render-exit_code_example :
    (1 ≤ (render (local "no daemon")).1)
    × ((render (local "no daemon")).1 ≤ 5)
    × ((render (local "no daemon")).1 ≡ 2)
    × (2 ≡ (render (local "no daemon")).1)
unfolding render_info_for
render-exit_code_example = render-exit_code (local "no daemon") not_chosen

abbrev phone : EmulateArgs
phone = record {
  session = "s1";
  tab_id = none;
  device = some "pixel-7";
  width = some 500;
  height = none;
  dpr = none;
  mobile = false;
  no_mobile = true;
  ua = none;
  accept_language = none;
  touch = false;
  no_touch = false;
  max_touch_points = none;
  off = false;
}

abbrev phone_overrides : EmulateOverrides
phone_overrides = record {
  width = some 500;
  height = some 915;
  device_scale_factor = some "2.625";
  mobile = some false;
  user_agent =
      some
        "Mozilla/5.0 (Linux; Android 14; Pixel 7) AppleWebKit/537.36 (KHTML, like Gecko) Chrome/120.0.6099.43 Mobile Safari/537.36";
  accept_language = none;
  touch = some true;
  max_touch_points = some 5;
}

abbrev phone_params : EmulateParams
phone_params = record {
  session_id = "s1";
  tab_id = none;
  off = none;
  overrides = some phone_overrides;
}

build_params-built_example :
    SameTab phone phone_params
    × (((false ≡ true)
          × IsBare phone
          × (phone_params.off ≡ some true)
          × (phone_params.overrides ≡ none))
        ⊎ ((false ≡ false)
            × (o : EmulateOverrides) × (q : EmulateOverrides) × IsBuilt phone phone_params o q))
unfolding build_params apply_manual of_preset find_preset text_discrete
build_params-built_example = build_params-built phone phone_params refl

-- A test: this many minutes come out as 44 seconds.
minutes_wrap :
    parse_duration (
      b'3' ∷ b'0' ∷ b'7' ∷ b'4' ∷ b'4' ∷ b'5' ∷ b'7' ∷ b'3' ∷ b'4' ∷ b'5' ∷ b'6' ∷ b'1' ∷ b'8'
      ∷ b'2' ∷ b'5' ∷ b'8' ∷ b'6' ∷ b'1' ∷ b'm' ∷ [])
    ≡ parsed 44000
unfolding parse_duration is_whitespace
minutes_wrap = refl
