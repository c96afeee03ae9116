-- ===== src/Examples/Requests.antt =====
-- Runs of the CLI peer's requests.
use browser_skill.Prelude.{◌≡◌, refl, false, [], ◌∷◌, ◌++◌, text_discrete}
use browser_skill.Map.{lookup}
use browser_skill.Protocol.Method
use browser_skill.Protocol.Method.{requires_interrupt_gate}
use browser_skill.Daemon.Inflight.Cancels
use browser_skill.Daemon.Inflight.{CancelReason}
use browser_skill.Daemon.Ipc.{begin_tool_dispatch}
use browser_skill.Daemon.Cancel.{handle_cancel}
use browser_skill.Daemon.Ipc.Registered.{IsRegistered, begin_tool_dispatch-IsRegistered}
use browser_skill.Daemon.Cancel.Frames.{cancel_reaches_browser, cancel_frame}
use browser_skill.Examples.{daemon, click, client_one, entry}

begin_tool_dispatch-IsRegistered_example :
    let result = begin_tool_dispatch false "r2" Method.tool_click click 9 "w2" daemon in
    IsRegistered "r2" daemon result.0 result.1
unfolding lookup text_discrete
begin_tool_dispatch-IsRegistered_example =
    begin_tool_dispatch-IsRegistered false "r2" "w2" Method.tool_click click 9 daemon refl

cancel_reaches_browser_example :
    let d' = (handle_cancel "r1" daemon).0 in
    ((d'.cell 0).sent ≡ [] ++ cancel_frame "w1" ∷ [])
    × (d'.cell 1 ≡ daemon.cell 1)
    × (d'.tool_inflight.entry 0 ≡ Cancels.mark CancelReason.cancelled entry)
unfolding lookup text_discrete
cancel_reaches_browser_example =
    cancel_reaches_browser "r1" "b1" "w1" 0 1 client_one daemon refl refl refl refl refl refl
      (λ e. cc)
