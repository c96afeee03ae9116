-- ===== src/Daemon/Ipc/Passive.antt =====
-- A call that does not need the interrupt gate, and the marks.
use browser_skill.Prelude.{ℕ, ◌≡◌, inl, inr, Bool, false, String, arith, Option-cases, ◌∙◌}
use browser_skill.Protocol.Method.{Method, requires_interrupt_gate}
use browser_skill.Daemon.Inflight
use browser_skill.Daemon.Queues.{ToolJob}
use browser_skill.Daemon.Forward.Kept.{begin_forward-IsKept}
use browser_skill.Daemon.State.{Daemon}
use browser_skill.Daemon.Ipc.{
  ToolParams, admit, dispatch, dispatch_unlocked, answered_or_forwarded, begin_tool_dispatch,
  drop_guard, touched,
}
use browser_skill.Daemon.Ipc.Course.{job_for, admit-cases, begin_tool_dispatch-Course}

dispatch-interrupts :
    (rpc_id sid : String) (a now : ℕ) (job : ToolJob) (d : Daemon)
    → (dispatch rpc_id sid a now job d).0.session_interrupts ≡ d.session_interrupts
unfolding dispatch drop_guard touched
dispatch-interrupts rpc_id sid a now job d = ground arith

dispatch_unlocked-interrupts :
    (rpc_id ws_rpc_id sid : String) (a : ℕ) (job : ToolJob) (d : Daemon)
    → (dispatch_unlocked rpc_id sid a ws_rpc_id job d).0.session_interrupts ≡ d.session_interrupts
unfolding dispatch_unlocked answered_or_forwarded drop_guard
dispatch_unlocked-interrupts rpc_id ws_rpc_id sid a job d =
    let kept = (begin_forward-IsKept sid ws_rpc_id job d).session_interrupts in ground arith

admit-interrupts :
    (rpc_id ws_rpc_id sid : String) (m : Method) (limit now : ℕ) (p : ToolParams) (d : Daemon)
    → (admit rpc_id m sid limit p now ws_rpc_id d).0.session_interrupts ≡ d.session_interrupts
unfolding admit
admit-interrupts rpc_id ws_rpc_id sid m limit now p d =
    let d₁ = record d { tool_inflight = (Inflight.register rpc_id sid d.tool_inflight).0 } in
    elim (Option-cases (Inflight.register rpc_id sid d.tool_inflight).1) [
      | inl e ↦ ground arith
      | inr (a, e) ↦
          let job = job_for m sid limit p a in
          elim (admit-cases rpc_id ws_rpc_id sid m limit now p d a e) [
            | inl c ↦ rw c (dispatch_unlocked-interrupts rpc_id ws_rpc_id sid a job d₁)
            | inr c ↦ rw c (dispatch-interrupts rpc_id sid a now job d₁)
          ]
    ]

-- A call that does not need the gate leaves every pending interrupt for the next call that does.
pub passive_keeps_interrupts :
    (help_disabled : Bool) (rpc_id ws_rpc_id : String) (m : Method) (p : ToolParams) (now : ℕ)
    (d : Daemon)
    → requires_interrupt_gate m ≡ false
    → (begin_tool_dispatch help_disabled rpc_id m p now ws_rpc_id d).0.session_interrupts
      ≡ d.session_interrupts
passive_keeps_interrupts help_disabled rpc_id ws_rpc_id m p now d passive =
    let course = begin_tool_dispatch-Course help_disabled rpc_id ws_rpc_id m p now d in
    let same = course.consumed_by_gate passive in
    elim course.end [
      | inl (body, e) ↦ rw e same
      | inr (sid, limit, e) ↦
          let d₁ = record d { session_interrupts = course.marks } in
          rw e (admit-interrupts rpc_id ws_rpc_id sid m limit now p d₁ ∙ same)
    ]
