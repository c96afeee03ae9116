-- ===== src/Daemon/Forward.antt =====
-- Forwarding one job to the extension: `forward_one` and its helpers in
-- crates/bsk-cli/src/daemon/queue.rs. `begin_forward` is the code before the await,
-- `await_with_optional_cancel` the await, `end_forward` the code after it.
pub mod Others
pub mod Requests
pub mod Failures
pub mod Kept
use Prim.Native.String.{◌++◌ as str_append}
use browser_skill.Prelude.{
  ℕ, ◌+◌, Bool, true, false, Option, none, some, String, if◌then◌else◌, leb,
}
use browser_skill.Map.{lookup}
use browser_skill.Protocol.Frame.{
  Value, reason_object, RpcError, ErrorCode, ResponseFrame, ResponseBody, Frame, request,
}
use browser_skill.Daemon.Browsers.{send}
use browser_skill.Daemon.Browsers
use browser_skill.Daemon.Sessions.{get}
use browser_skill.Daemon.Inflight.{
  Entry, CancelReason, promote_to_forwarded_with, promoted, promote_cancelled, send_failed, update,
}
use browser_skill.Daemon.Queues.{ToolJob}
use browser_skill.Daemon.State.{Daemon, with_cell}

-- `none` is a caller without an inflight registration.
unfoldable pub cancelled_error : Option Entry → String → RpcError
cancelled_error none default_msg = record {
  code = ErrorCode.cancelled;
  message = default_msg;
  error_data = none;
}
cancelled_error (some e) default_msg = elim e.cancel_reason [
  | some CancelReason.user_aborted ↦ record {
    code = ErrorCode.user_aborted;
    message = "tool dispatch interrupted by user";
    error_data = none;
  }
  | some CancelReason.cancelled ↦ record {
    code = ErrorCode.cancelled;
    message = default_msg;
    error_data = none;
  }
  | none ↦ record { code = ErrorCode.cancelled; message = default_msg; error_data = none }
]

-- Where the code stands at the await: it has failed, or it waits for a response to an RPC of a
-- client, under the cancel token of an inflight entry if there is one.
pub data Forwarding : Type 0 where
  failed : RpcError → Forwarding
  awaiting : ℕ → String → Option ℕ → Forwarding

-- A request frame of the job under a fresh WS id.
abbrev pub frame_of : String → ToolJob → Frame
frame_of rpc_id job =
    request (record { id = rpc_id; method = job.method; params = some job.params })

pub sink_closed : RpcError
sink_closed = record {
  code = ErrorCode.protocol_error;
  message = "browser sink closed before request was queued";
  error_data = none;
}

-- The promotion of the entry at `a`, with the send inside its critical section.
pub promote_and_send : ℕ → String → ℕ → String → ToolJob → Daemon → Daemon × Forwarding
unfolding promote_to_forwarded_with send sink_closed cancelled_error
promote_and_send g browser_id a rpc_id job d =
    let (e, c, outcome) =
      promote_to_forwarded_with (d.tool_inflight.entry a) browser_id rpc_id
        (send (frame_of rpc_id job)) (d.cell g) in
    let d' = record (with_cell g (λ _. c) d) {
      tool_inflight = record (d.tool_inflight) { entry = update d.tool_inflight.entry a e };
    } in
    elim outcome [
      | promoted ↦ (d', awaiting g rpc_id (some a))
      | promote_cancelled ↦ (
        with_cell g (Browsers.cancel rpc_id) d',
        failed (cancelled_error (some e) "tool dispatch cancelled before forwarding"),
      )
      | send_failed ↦ (with_cell g (Browsers.cancel rpc_id) d', failed sink_closed)
    ]

-- A daemon-internal call has no entry and cannot be cancelled.
pub plain_send : ℕ → String → ToolJob → Daemon → Daemon × Forwarding
unfolding send sink_closed
plain_send g rpc_id job d =
    let (c, sent) = send (frame_of rpc_id job) (d.cell g) in
    if sent
    then (with_cell g (λ _. c) d, awaiting g rpc_id none)
    else (with_cell g (Browsers.cancel rpc_id) d, failed sink_closed)

-- After the pre-flight check: find the owning browser, register the RPC and send it.
pub resolve_and_send : String → String → ToolJob → Daemon → Daemon × Forwarding
unfolding promote_and_send plain_send get
resolve_and_send sid rpc_id job d = elim (get sid d.sessions) [
  | none ↦ (
    d,
    failed (record {
      code = ErrorCode.not_found;
      message = str_append "session " (str_append sid " no longer exists");
      error_data = none;
    }),
  )
  | some s ↦ elim (lookup s.browser_id d.browsers) [
    | none ↦ (
      d,
      failed (record {
        code = ErrorCode.not_found;
        message = "owning browser is no longer connected";
        error_data = none;
      }),
    )
    | some client ↦
        let d' = with_cell client.generation (Browsers.register rpc_id) d in
        elim job.inflight [
          | some a ↦ promote_and_send client.generation s.browser_id a rpc_id job d'
          | none ↦ plain_send client.generation rpc_id job d'
        ]
  ]
]

unfoldable pub begin_forward : String → String → ToolJob → Daemon → Daemon × Forwarding
unfolding resolve_and_send cancelled_error
begin_forward sid rpc_id job d = elim job.inflight [
  | none ↦ resolve_and_send sid rpc_id job d
  | some a ↦
      if (d.tool_inflight.entry a).cancel_token
      then (
        d,
        failed (
            cancelled_error (some (d.tool_inflight.entry a))
              "tool dispatch cancelled before forwarding"),
      )
      else resolve_and_send sid rpc_id job d
]

pub data WaitOutcome : Type 0 where
  response cancelled_after_response : ResponseFrame → WaitOutcome
  cleanup_timeout waiter_closed timeout : WaitOutcome

abbrev pub cancel_cleanup_timeout : ℕ
cancel_cleanup_timeout = 2000

-- What happens to the waiter, and when: a response, or its sender is dropped.
pub data Reply : Type 0 where
  replied : ResponseFrame → Reply
  dropped : Reply

-- Within a limit, the reply if it comes in time; the wait for the reply is polled before the timer.
reply_within : ℕ → Option (ℕ × Reply) → Option Reply
reply_within limit none = none
reply_within limit (some (at, r)) = if leb at limit then some r else none

settled : Option Reply → WaitOutcome
settled none = timeout
settled (some (replied f)) = response f
settled (some dropped) = waiter_closed

settled_cancelled : Option Reply → WaitOutcome
settled_cancelled none = cleanup_timeout
settled_cancelled (some (replied f)) = cancelled_after_response f
settled_cancelled (some dropped) = waiter_closed

-- Whether a cancel at `c` is seen before a reply at `at`; on a tie the cancel wins (`biased`).
cancel_first : ℕ → Option (ℕ × Reply) → Bool
cancel_first c none = true
cancel_first c (some (at, r)) = leb c at

-- The wait, from time 0: the limit, the cleanup limit, the reply with its time, and the time of the
-- cancel if a token is given and trips.
unfoldable pub await_with_optional_cancel : ℕ → ℕ → Option (ℕ × Reply) → Option ℕ → WaitOutcome
unfolding reply_within settled settled_cancelled cancel_first
await_with_optional_cancel limit cleanup reply none = settled (reply_within limit reply)
await_with_optional_cancel limit cleanup reply (some c) =
    if cancel_first c reply
    then (if leb c limit then settled_cancelled (reply_within (c + cleanup) reply) else timeout)
    else settled (reply_within limit reply)

-- The result of the body of a response.
pub data Outcome : Type 0 where
  value : Value → Outcome
  error : RpcError → Outcome

outcome_of : ResponseBody → Outcome
outcome_of (ResponseBody.ok v) = value v
outcome_of (ResponseBody.err e) = error e

-- A cancel reported by the extension itself.
is_cancel_code : ErrorCode → Bool
is_cancel_code ErrorCode.cancelled = true
is_cancel_code ErrorCode.user_aborted = true
is_cancel_code _ = false

-- Cancellation wins, but an error of the extension that is no cancel stays visible.
after_cleanup : Option Entry → ResponseBody → Outcome
unfolding is_cancel_code cancelled_error
after_cleanup e (ResponseBody.ok v) =
    error (cancelled_error e "tool dispatch cancelled after extension cleanup")
after_cleanup e (ResponseBody.err r) =
    if is_cancel_code r.code
    then error (cancelled_error e "tool dispatch cancelled after extension cleanup")
    else error r

entry_of : Daemon → ToolJob → Option Entry
entry_of d job = elim job.inflight [ none ↦ none | some a ↦ some (d.tool_inflight.entry a) ]

unfoldable pub end_forward : ℕ → String → ToolJob → WaitOutcome → Daemon → Daemon × Outcome
unfolding outcome_of after_cleanup entry_of
end_forward g rpc_id job (response f) d = (d, outcome_of f.body)
end_forward g rpc_id job (cancelled_after_response f) d = (d, after_cleanup (entry_of d job) f.body)
end_forward g rpc_id job cleanup_timeout d = (
  with_cell g (Browsers.cancel rpc_id) d,
  error (record {
    code = ErrorCode.timeout;
    message = "cancelled tool did not finish cleanup within 2s";
    error_data = some (reason_object "cancel_cleanup_timeout");
  }),
)
end_forward g rpc_id job waiter_closed d = (
  with_cell g (Browsers.cancel rpc_id) d,
  error (record {
    code = ErrorCode.protocol_error;
    message = "transport closed mid-call";
    error_data = none;
  }),
)
end_forward g rpc_id job timeout d = (
  with_cell g (Browsers.cancel rpc_id) d,
  error (record { code = ErrorCode.timeout; message = "tool RPC timed out"; error_data = none }),
)
