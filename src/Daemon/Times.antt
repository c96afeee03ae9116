-- ===== src/Daemon/Times.antt =====
-- The times that a request of the CLI peer may ask for: crates/bsk-cli/src/daemon/ipc.rs.
pub mod Limits
use browser_skill.Prelude.{
  ℕ, ◌-◌, ◌*◌, ◌^◌, Option, none, some, String, if◌then◌else◌, ltb, ◌==◌, min,
}
use browser_skill.Protocol.Method
use browser_skill.Protocol.Frame.{RpcError, ErrorCode}
use browser_skill.Daemon.Inflight
use browser_skill.Daemon.Abort
use browser_skill.Digits.{u32_max}

abbrev pub default_tool_timeout : ℕ
default_tool_timeout = 30000

unfoldable pub invalid : String → RpcError
invalid message = record { code = ErrorCode.invalid_params; message = message; error_data = none }

pub data Timeout : Type 0 where
  within : ℕ → Timeout
  bad_timeout : RpcError → Timeout

-- `timeout_ms`: absent, present but no unsigned integer, or a number.
unfoldable pub tool_dispatch_timeout : Option (Option ℕ) → Timeout
unfolding invalid
tool_dispatch_timeout none = within default_tool_timeout
tool_dispatch_timeout (some none) =
    bad_timeout (invalid "timeout_ms must be a positive integer number of milliseconds")
tool_dispatch_timeout (some (some ms)) =
    if ms == 0
    then bad_timeout (invalid "timeout_ms must be greater than zero")
    else (if ltb u32_max ms
        then bad_timeout (invalid "timeout_ms too large for u32 milliseconds")
        else within ms)

abbrev pub max_wait_ms : ℕ
max_wait_ms = 5 * 60 * 1000

-- `wait_ms` up to its sleep, for parameters that decode: answered (with the milliseconds waited), refused, or sleeping under a
-- token.
pub data Waiting : Type 0 where
  waited : ℕ → Waiting
  wait_refused : RpcError → Waiting
  sleeping : ℕ → Waiting

unfoldable pub begin_wait_ms : String → ℕ → Abort.Registry → Abort.Registry × Waiting
unfolding invalid
begin_wait_ms rpc_id duration r =
    if ltb max_wait_ms duration
    then (r, wait_refused (invalid "wait_ms duration exceeds limit 300000ms"))
    else (if duration == 0
        then (r, waited 0)
        else (let (r', token) = Abort.register rpc_id r in
            elim token [
              | none ↦ (
                r',
                wait_refused (record {
                  code = ErrorCode.protocol_error;
                  message = "cannot register wait_ms cancellation token";
                  error_data = none;
                }),
              )
              | some t ↦ (r', sleeping t)
            ]))

-- How the sleep ends: its time is over, or its token is tripped.
pub data WaitEnd : Type 0 where
  elapsed cancelled : WaitEnd

-- The answer after the sleep; the guard is dropped.
unfoldable pub end_wait_ms : String → ℕ → ℕ → WaitEnd → Abort.Registry → Abort.Registry × Waiting
end_wait_ms rpc_id t duration elapsed r = (Abort.unregister rpc_id t r, waited duration)
end_wait_ms rpc_id t duration cancelled r = (
  Abort.unregister rpc_id t r,
  wait_refused
      (record { code = ErrorCode.cancelled; message = "wait_ms cancelled"; error_data = none }),
)

abbrev pub max_browser_wait : ℕ
max_browser_wait = 60000

unfoldable pub clamp_browser_wait : Option ℕ → Option ℕ
clamp_browser_wait none = none
clamp_browser_wait (some ms) = if ms == 0 then none else some (min ms max_browser_wait)
