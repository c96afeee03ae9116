-- ===== src/Cli/Errors.antt =====
-- The errors of the CLI, their exit codes and what is shown of them:
-- crates/bsk-cli/src/cli/error.rs and render_error.rs.
pub mod ExitCodes
use browser_skill.Prelude.{
  ℕ, Bool, true, false, Option, none, some, String, ite, text_discrete, if◌then◌else◌,
}
use browser_skill.Protocol.Json.{Value, string, object, Fields, end, field}
use browser_skill.Protocol.Frame.{ErrorCode, RpcError}

pub record RenderInfo : Type 0 where
  pub summary : String
  pub hint : Option String
  pub exit_code : ℕ

unfoldable pub info_for : ErrorCode → RenderInfo
info_for ErrorCode.unknown_method = record {
  summary = "daemon does not recognise this RPC method";
  hint =
      some
        "upgrade both bsk CLI and the browser-skill extension; CLI and daemon may be on mismatched protocol versions";
  exit_code = 5;
}
info_for ErrorCode.unsupported = record {
  summary = "this operation is not supported by the current build";
  hint =
      some
        "check `bsk --version` and the bsk changelog to confirm whether the feature is available";
  exit_code = 1;
}
info_for ErrorCode.invalid_params = record {
  summary = "invalid command parameters";
  hint = some "check your command arguments; run `bsk <cmd> --help` to see the expected format";
  exit_code = 1;
}
info_for ErrorCode.not_found = record {
  summary = "requested resource does not exist";
  hint =
      some
        "the session, tab, or browser may have stopped; run `bsk session list` / `bsk browsers` to see current state";
  exit_code = 1;
}
info_for ErrorCode.permission_denied = record {
  summary = "operation denied by the Agent Window sandbox";
  hint =
      some
        "tabs outside an Agent Window must first be borrowed via `bsk tab borrow <tab-id> --session <id>`";
  exit_code = 1;
}
info_for ErrorCode.timeout = record {
  summary = "operation timed out";
  hint =
      some
        "retry the command; if timeouts persist, check `bsk logs` and confirm the browser is still responding";
  exit_code = 4;
}
info_for ErrorCode.cdp_failed = record {
  summary = "browser rejected the underlying CDP call";
  hint =
      some
        "confirm the tab is still in a loaded state and retry; reloading the tab usually resets a stuck DevTools session";
  exit_code = 3;
}
info_for ErrorCode.protocol_error = record {
  summary = "protocol error communicating with bsk daemon";
  hint =
      some
        "ensure CLI and daemon protocol versions match — check `protocol version` in `bsk status`";
  exit_code = 2;
}
info_for ErrorCode.cancelled = record {
  summary = "operation cancelled";
  hint = some "the previous command was interrupted (Ctrl-C or a remote `cancel` request)";
  exit_code = 2;
}
info_for ErrorCode.user_aborted = record {
  summary = "operation interrupted by user";
  hint =
      some
        "the user requested an interrupt (e.g. via the agent window's stop button); rerun if this was unintended";
  exit_code = 2;
}
info_for ErrorCode.version_too_old = record {
  summary = "peer version is too old to communicate with this build";
  hint =
      some
        "upgrade both bsk CLI and the browser-skill extension so both sides satisfy `min_compatible_protocol`";
  exit_code = 5;
}
info_for ErrorCode.multiple_browsers_online = record {
  summary = "multiple browsers are online";
  hint =
      some
        "use `--browser <instance_id-or-label>` to target a specific browser (run `bsk browsers` to list online browsers)";
  exit_code = 1;
}
info_for ErrorCode.no_browser_connected = record {
  summary = "no browser is connected to the daemon";
  hint =
      some
        "open the browser-skill extension in your browser and wait for the popup to show \"connected\"";
  exit_code = 1;
}

-- `exit_code_for`, which error.rs passes on.
unfoldable pub exit_code_for : ErrorCode → ℕ
unfolding info_for
exit_code_for code = (info_for code).exit_code

-- `Value::get` of an object; a field that is given twice has its last value.
unfoldable pub get_field : String → Fields → Option Value
get_field key end = none
get_field key (field k v rest) = elim (get_field key rest) [
  | some later ↦ some later
  | none ↦ ite (text_discrete k key) (some v) none
]

non_empty : Value → Option String
non_empty (string s) = ite (text_discrete s "") none (some s)
non_empty _ = none

unfoldable pub reason_for_data : Option Value → Option String
unfolding get_field non_empty
reason_for_data none = none
reason_for_data (some (object fs)) = elim (get_field "reason" fs) [
  | none ↦ none
  | some v ↦ non_empty v
]
reason_for_data (some _) = none

-- The copy of a code for a reason, where it has one of its own.
override : ErrorCode → String → Option (String × String)
override ErrorCode.permission_denied reason =
    ite (text_discrete reason "element_not_visible")
      (some (
        "target element has no visible geometry",
        "rerun snapshot and choose a visible child ref, or wait/scroll/reload before retrying",
      ))
      (ite (text_discrete reason "borrow_conflict")
        (some (
          "tab is borrowed by another session",
          "return the tab from the borrowing session via `bsk tab return <tab-id> --session <id>` or stop that session",
        ))
        (none))
override ErrorCode.not_found reason =
    ite (text_discrete reason "ref_not_found")
      (some (
        "snapshot ref was not found for this tab",
        "rerun `bsk snapshot` for the current tab and use one of the returned refs",
      ))
      (ite (text_discrete reason "selector_not_found")
        (some (
          "selector did not match any element",
          "verify the CSS selector or wait for the element to appear before retrying",
        ))
        (none))
override ErrorCode.invalid_params reason =
    ite (text_discrete reason "target_not_fillable")
      (some (
        "target element is not fillable",
        "choose an input, textarea, or contenteditable element from the latest snapshot",
      ))
      (ite (text_discrete reason "target_not_select")
        (some (
          "target element is not a <select>",
          "choose a native <select> ref or selector from the latest snapshot, or use `bsk click` / `bsk fill` for other controls",
        ))
        (ite (text_discrete reason "option_not_found")
          (some (
            "option value not found in <select>",
            "rerun `bsk snapshot` or `bsk get-html` to list valid option values, then pass them via `--value`",
          ))
          (ite (text_discrete reason "single_select_value_count")
            (some (
              "single-select requires exactly one option value",
              "pass exactly one `--value` for a regular <select>; repeat `--value` only for <select multiple>",
            ))
            (ite (text_discrete reason "tab_not_active")
              (some (
                "screenshot requires the visible active tab",
                "select the tab with `bsk tab select <tab-id> --session <id>` or omit `--tab-id` to capture the Agent Window's active tab",
              ))
              (none)))))
override ErrorCode.timeout reason =
    ite (text_discrete reason "session_busy")
      (some (
        "previous session command is still running",
        "wait for the current command to finish, cancel it with Ctrl-C, or stop/restart the session",
      ))
      (none)
override ErrorCode.cdp_failed reason =
    ite (text_discrete reason "screenshot_capture_failed")
      (some (
        "the browser could not capture the tab image",
        "both the visible-tab capture and the CDP compositor fallback failed inside the browser; this points at a browser-side rendering/readback issue — try reloading the tab, restarting the browser, or upgrading/downgrading Chrome",
      ))
      (none)
override _ reason = none

unfoldable pub info_for_error : ErrorCode → Option Value → RenderInfo
unfolding info_for reason_for_data override
info_for_error code attached = elim (reason_for_data attached) [
  | none ↦ info_for code
  | some reason ↦ elim (override code reason) [
    | none ↦ info_for code
    | some (summary, hint) ↦ record {
      summary = summary;
      hint = some hint;
      exit_code = (info_for code).exit_code;
    }
  ]
]

pub data CliError : Type 0 where
  rpc : RpcError → CliError
  rendered : ErrorCode → String → CliError
  rendered_exit : ℕ → CliError
  -- A local failure, by its message.
  local : String → CliError

unfoldable pub code_of : CliError → Option ErrorCode
code_of (rpc e) = some e.code
code_of (rendered c message) = some c
code_of (rendered_exit n) = none
code_of (local message) = none

unfoldable pub data_of : CliError → Option Value
data_of (rpc e) = e.error_data
data_of (rendered c message) = none
data_of (rendered_exit n) = none
data_of (local message) = none

unfoldable pub exit_code : CliError → ℕ
unfolding code_of exit_code_for
exit_code (rendered_exit n) = n
exit_code e = elim (code_of e) [ none ↦ 2 | some c ↦ exit_code_for c ]

unfoldable pub render_info_for : CliError → Option RenderInfo
unfolding code_of data_of info_for_error
render_info_for e = elim (code_of e) [ none ↦ none | some c ↦ some (info_for_error c (data_of e)) ]

is_local : CliError → Bool
is_local (local message) = true
is_local _ = false

unfoldable pub hint_for : CliError → Option RenderInfo → Option String
unfolding is_local
hint_for e info =
    let fallback : Option String =
      if is_local e
      then some "is the daemon running? try `bsk daemon start` or `bsk status`"
      else none in
    elim info [ none ↦ fallback | some i ↦ elim i.hint [ none ↦ fallback | some h ↦ some h ] ]

-- The message that an error displays.
message_of : CliError → String
message_of (rpc e) = e.message
message_of (rendered c message) = message
message_of (rendered_exit n) = "command reported an unsuccessful status"
message_of (local message) = message

-- The lines that `render` writes in human mode: the summary, the hint and the details.
pub record Report : Type 0 where
  pub summary : String
  pub hint : Option String
  pub details : Option String

details_of : CliError → String → Option String
unfolding code_of message_of
details_of e summary = elim (code_of e) [
  | none ↦ none
  | some c ↦
      ite (text_discrete (message_of e) "") none
        (ite (text_discrete (message_of e) summary) none (some (message_of e)))
]

-- `render` without extras, in human mode: nothing is written for an error that was rendered before.
unfoldable pub render : CliError → Option Report × ℕ
unfolding exit_code render_info_for hint_for message_of details_of
render (rendered c message) = (none, exit_code (rendered c message))
render (rendered_exit n) = (none, exit_code (rendered_exit n))
render e =
    let summary : String = elim (render_info_for e) [ some i ↦ i.summary | none ↦ message_of e ] in
    (
      some (record {
        summary = summary;
        hint = hint_for e (render_info_for e);
        details = details_of e summary;
      }),
      exit_code e,
    )
