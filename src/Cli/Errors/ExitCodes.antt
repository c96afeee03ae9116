-- ===== src/Cli/Errors/ExitCodes.antt =====
-- The exit codes of the CLI's errors, and of the refusals of a session's queue.
use browser_skill.Prelude.{ℕ, ◌≤◌, ◌≡◌, ◌≢◌, refl, Option, none, some, String, arith}
use browser_skill.Protocol.Json.{Value, null}
use browser_skill.Protocol.Codec.{decoded, encode, decode}
use browser_skill.Protocol.Codec.RoundTrip.{decode-encode-error}
use browser_skill.Protocol.Frame.{ErrorCode, ResponseBody, response}
use browser_skill.Daemon.Queues.{
  DispatchError, session_not_found, session_stopping, session_busy, queue_full, queue_closed,
  timed_out, into_rpc,
}
use browser_skill.Cli.Errors.{
  CliError, rpc, rendered, rendered_exit, local, info_for_error, exit_code_for, exit_code,
  render_info_for, render,
}

-- A reason in the data of an error changes the copy that is shown, never the exit code.
info_for_error-exit_code :
    (code : ErrorCode) (attached : Option Value)
    → (info_for_error code attached).exit_code ≡ exit_code_for code
unfolding info_for_error exit_code_for
info_for_error-exit_code code attached = ground arith

exit_code_for-bounds : (c : ErrorCode) → (1 ≤ exit_code_for c) × (exit_code_for c ≤ 5)
unfolding exit_code_for
exit_code_for-bounds c = (ground arith, ground arith)

-- An error that the CLI renders, but for a status that a command has chosen, leaves with an exit code
-- from 1 to 5: that of its code whatever its data and message are, and 2 without a code. The table's
-- entry that is shown, which does depend on the data, has the same exit code.
pub render-exit_code :
    (e : CliError)
    → ((n : ℕ) → e ≢ rendered_exit n)
    → (1 ≤ (render e).1)
      × ((render e).1 ≤ 5)
      × ((render e).1 ≡ elim e [
        | rpc r ↦ exit_code_for r.code
        | rendered c message ↦ exit_code_for c
        | rendered_exit n ↦ n
        | local message ↦ 2
      ])
      × (elim (render_info_for e) [ none ↦ 2 | some i ↦ i.exit_code ] ≡ (render e).1)
unfolding render exit_code
render-exit_code (rpc e) h =
    let (low, high) = exit_code_for-bounds e.code in
    (low, high, refl, info_for_error-exit_code e.code e.error_data)
render-exit_code (rendered c message) h =
    let (low, high) = exit_code_for-bounds c in (low, high, refl, info_for_error-exit_code c none)
render-exit_code (rendered_exit n) h = absurd (h n refl)
render-exit_code (local message) h = (ground arith, ground arith, refl, refl)

-- The exit code that each refusal of a session's queue is meant to come out as.
abbrev pub refusal_exit : DispatchError → ℕ
refusal_exit session_not_found = 1
refusal_exit session_stopping = 4
refusal_exit session_busy = 4
refusal_exit timed_out = 4
refusal_exit queue_full = 2
refusal_exit queue_closed = 2
refusal_exit (DispatchError.rpc e) = exit_code_for e.code

-- A refusal of a session's queue crosses the wire as it is, and the CLI leaves with 4 where the call
-- may be tried again (the session is busy or stopping, or the call has timed out), with 1 where the
-- session is unknown, and with 2 where the queue has failed; an error of the extension keeps the exit
-- code of its own code. The error's data must not be null.
pub refusal-exit_code :
    (id : String) (x : DispatchError)
    → (into_rpc x).error_data ≢ some null
    → (decode (encode (response (record { id = id; body = ResponseBody.err (into_rpc x) })))
        ≡ decoded (response (record { id = id; body = ResponseBody.err (into_rpc x) })))
      × ((render (rpc (into_rpc x))).1 ≡ refusal_exit x)
unfolding render into_rpc exit_code_for
refusal-exit_code id x h = (decode-encode-error id (into_rpc x) h, ground arith)
