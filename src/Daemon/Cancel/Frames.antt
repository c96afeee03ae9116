-- ===== src/Daemon/Cancel/Frames.antt =====
-- The `cancel` request of a CLI peer.
use browser_skill.Prelude.{
  ℕ, ◌≡◌, ◌≢◌, true, ◌||◌, none, some, [], ◌∷◌, ◌++◌, String, arith, is_some,
}
use browser_skill.Map.{lookup}
use browser_skill.Protocol.Method
use browser_skill.Protocol.Frame.{rpc_id_object, Frame, request}
use browser_skill.Daemon.Browsers.{BrowserClient, send}
use browser_skill.Daemon.Inflight.{Entry, CancelReason}
use browser_skill.Daemon.Inflight
use browser_skill.Daemon.Inflight.Cancels.{IsSound, cancel_lem}
use browser_skill.Daemon.Inflight.Cancels
use browser_skill.Daemon.Abort
use browser_skill.Daemon.State.{Daemon}
use browser_skill.Daemon.Cancel.{handle_cancel, forward_snapshot, forward_cancel_to_browser}
use Prim.Native.String.{◌++◌ as str_append}

-- A cancel answers whether the id was that of a running wait or tool call.
pub handle_cancel_answer :
    (rpc_id : String) (d : Daemon)
    → (handle_cancel rpc_id d).1
      ≡ is_some (lookup rpc_id d.abort_registry.tokens)
        || is_some (lookup rpc_id d.tool_inflight.table)
unfolding handle_cancel Abort.cancel Inflight.cancel
handle_cancel_answer rpc_id d = ground arith

-- The request that asks an extension to cancel one call.
abbrev pub cancel_frame : String → Frame
cancel_frame ws_rpc_id = request (record {
  id = str_append "cancel-" ws_rpc_id;
  method = Method.cancel;
  params = some (rpc_id_object ws_rpc_id);
})

-- Cancelling a tool call that has been forwarded, while its browser is connected and its socket open,
-- pushes exactly one frame, the cancel of that call's id, to that browser alone, and marks the call's
-- entry.
pub cancel_reaches_browser :
    (rpc_id browser_id ws_rpc_id : String) (a h : ℕ) (c : BrowserClient) (d : Daemon)
    → lookup rpc_id d.abort_registry.tokens ≡ none
    → lookup rpc_id d.tool_inflight.table ≡ some a
    → (d.tool_inflight.entry a).browser_id ≡ some browser_id
    → (d.tool_inflight.entry a).ws_rpc_id ≡ some ws_rpc_id
    → lookup browser_id d.browsers ≡ some c
    → (d.cell c.generation).sink_open ≡ true
    → c.generation ≢ h
    → let d' = (handle_cancel rpc_id d).0 in
      ((d'.cell c.generation).sent ≡ (d.cell c.generation).sent ++ cancel_frame ws_rpc_id ∷ [])
      × (d'.cell h ≡ d.cell h)
      × (d'.tool_inflight.entry a ≡ Cancels.mark CancelReason.cancelled (d.tool_inflight.entry a))
unfolding handle_cancel Abort.cancel Inflight.cancel Inflight.cancel_and_snapshot forward_snapshot
    forward_cancel_to_browser send
cancel_reaches_browser rpc_id browser_id ws_rpc_id a h c d local found browser ws client is_open
      other =
    (ground arith, ground arith, ground arith)

-- A tool call that is cancelled before it was forwarded costs no frame: every client's cell stays as
-- it was.
pub cancel_before_forward :
    (rpc_id : String) (a h : ℕ) (d : Daemon)
    → lookup rpc_id d.tool_inflight.table ≡ some a
    → (d.tool_inflight.entry a).ws_rpc_id ≡ none
    → (handle_cancel rpc_id d).0.cell h ≡ d.cell h
unfolding handle_cancel Abort.cancel Inflight.cancel Inflight.cancel_and_snapshot forward_snapshot
cancel_before_forward rpc_id a h d found ws = ground arith

-- A wait under the same id is cancelled instead of a tool call: the inflight registry and the clients
-- are left alone, and the flag of the wait's token is set.
pub local_first :
    (rpc_id : String) (t : ℕ) (d : Daemon)
    → lookup rpc_id d.abort_registry.tokens ≡ some t
    → let d' = (handle_cancel rpc_id d).0 in
      (d'.tool_inflight ≡ d.tool_inflight)
      × (d'.cell ≡ d.cell)
      × (d'.abort_registry.is_cancelled t ≡ true)
unfolding handle_cancel Abort.cancel
local_first rpc_id t d e = (ground arith, ground arith, ground arith)
