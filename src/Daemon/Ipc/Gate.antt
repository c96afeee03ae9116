-- ===== src/Daemon/Ipc/Gate.antt =====
-- The interrupt gate in front of a tool call, and what a tool call leaves in the inflight registry.
use browser_skill.Prelude.{ℕ, ◌≡◌, refl, ◌≢◌, Bool, true, false, some, String, arith}
use browser_skill.Map.{remove, lookup-remove}
use browser_skill.Protocol.Method.{Method, Method-discrete, requires_interrupt_gate}
use browser_skill.Protocol.Method
use browser_skill.Protocol.Frame.{ResponseBody}
use browser_skill.Daemon.Interrupts.{is_pending, try_consume}
use browser_skill.Daemon.State.{Daemon}
use browser_skill.Daemon.Ipc.{
  route, tool_dispatch, ToolParams, Admission, replied, aborted, gated, begin_tool_dispatch,
  named_session, fail,
}

-- Every method whose effect calls for the interrupt gate is served by the handler that has the gate.
pub gate_is_served : (m : Method) → requires_interrupt_gate m ≡ true → route m ≡ tool_dispatch
unfolding requires_interrupt_gate Method.effect Method.gates route
gate_is_served m h = ground arith

-- A call that the pending interrupt of its session rejects changes nothing but that mark.
pub record IsRejected (sid : String) (d d' : Daemon) (answer : Admission) : Type 0 where
  pub rejected : answer ≡ replied (ResponseBody.err aborted)
  pub consumed : is_pending sid d'.session_interrupts ≡ false
  pub others :
      (k : String)
      → sid ≢ k
      → is_pending k d'.session_interrupts ≡ is_pending k d.session_interrupts
  pub kept : record d' { session_interrupts = d.session_interrupts } ≡ d

gate_is_not_help : (m : Method) → requires_interrupt_gate m ≡ true → m ≢ Method.tool_request_help
unfolding requires_interrupt_gate Method.effect Method.gates
gate_is_not_help m h = ground arith

begin_tool_dispatch-gated :
    (help_disabled : Bool) (rpc_id ws_rpc_id sid : String) (m : Method) (p : ToolParams) (now : ℕ)
    (d : Daemon)
    → requires_interrupt_gate m ≡ true
    → p.session_id ≡ some sid
    → sid ≢ ""
    → is_pending sid d.session_interrupts ≡ true
    → begin_tool_dispatch help_disabled rpc_id m p now ws_rpc_id d ≡ (
      record d { session_interrupts = remove sid d.session_interrupts },
      replied (ResponseBody.err aborted),
    )
unfolding begin_tool_dispatch gated named_session fail is_pending try_consume
begin_tool_dispatch-gated help_disabled rpc_id ws_rpc_id sid m p now d gate named real pending =
    ground (arith, gate_is_not_help m gate)

-- After the user has interrupted a session, its next call of a method that needs the gate, with
-- whatever parameters, is rejected as aborted by the user: the mark is consumed, the marks of the other
-- sessions stay, and nothing else of the daemon changes.
pub pending_rejects :
    (help_disabled : Bool) (rpc_id ws_rpc_id sid : String) (m : Method) (p : ToolParams) (now : ℕ)
    (d : Daemon)
    → requires_interrupt_gate m ≡ true
    → p.session_id ≡ some sid
    → sid ≢ ""
    → is_pending sid d.session_interrupts ≡ true
    → let (d', answer) = begin_tool_dispatch help_disabled rpc_id m p now ws_rpc_id d in
      IsRejected sid d d' answer
unfolding is_pending
pending_rejects help_disabled rpc_id ws_rpc_id sid m p now d gate named real pending =
    rw
      (begin_tool_dispatch-gated help_disabled rpc_id ws_rpc_id sid m p now d gate named real
        pending)
      (record {
        rejected = refl;
        consumed = ground (arith, lookup-remove sid sid d.session_interrupts);
        others = λ k n. ground (arith, lookup-remove k sid d.session_interrupts);
        kept = refl;
      })
