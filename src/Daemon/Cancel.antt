-- ===== src/Daemon/Cancel.antt =====
-- The `cancel` request of a CLI peer: `handle_cancel` in crates/bsk-cli/src/daemon/ipc.rs, and
-- crates/bsk-cli/src/daemon/cancel_forward.rs.
pub mod Frames
use Prim.Native.String.{◌++◌ as str_append}
use browser_skill.Prelude.{◌-◌, Bool, true, false, none, some, String, if◌then◌else◌}
use browser_skill.Map.{lookup}
use browser_skill.Protocol.Method.{Method}
use browser_skill.Protocol.Method
use browser_skill.Protocol.Frame.{rpc_id_object, Value, request}
use browser_skill.Daemon.Browsers.{send}
use browser_skill.Daemon.Inflight
use browser_skill.Daemon.Inflight.{Snapshot}
use browser_skill.Daemon.Abort
use browser_skill.Daemon.State.{Daemon, with_cell}

-- The flag is false for an error.
unfoldable pub forward_cancel_to_browser : String → String → Daemon → Daemon × Bool
unfolding send
forward_cancel_to_browser browser_id ws_rpc_id d = elim (lookup browser_id d.browsers) [
  | none ↦ (d, false)
  | some client ↦
      let g = client.generation in
      let frame = request (record {
        id = str_append "cancel-" ws_rpc_id;
        method = Method.cancel;
        params = some (rpc_id_object ws_rpc_id);
      }) in
      let (c, sent) = send frame (d.cell g) in (with_cell g (λ _. c) d, sent)
]

-- The WS cancel that a snapshot calls for.
unfoldable pub forward_snapshot : Snapshot → Daemon → Daemon
forward_snapshot snap d = elim snap.browser_id [
  | none ↦ d
  | some browser_id ↦ elim snap.ws_rpc_id [
    | none ↦ d
    | some ws_rpc_id ↦ (forward_cancel_to_browser browser_id ws_rpc_id d).0
  ]
]

-- For parameters that decode. The answer is `CancelResult.cancelled`.
unfoldable pub handle_cancel : String → Daemon → Daemon × Bool
unfolding forward_snapshot
handle_cancel rpc_id d =
    let (aborts, local) = Abort.cancel rpc_id d.abort_registry in
    let d' = record d { abort_registry = aborts } in
    if local
    then (d', true)
    else (let (registry, found) = Inflight.cancel rpc_id d'.tool_inflight in
        let d'' = record d' { tool_inflight = registry } in
        elim found [ none ↦ (d'', false) | some snap ↦ (forward_snapshot snap d'', true) ])
