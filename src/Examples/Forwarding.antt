-- ===== src/Examples/Forwarding.antt =====
-- Runs of forwarding a job.
use browser_skill.Prelude.{refl, ◌≢◌, none, some, arith, text_discrete}
use browser_skill.Map.{lookup}
use browser_skill.Protocol.Frame.{Value, ResponseBody, ResponseFrame}
use browser_skill.Daemon.Browsers
use browser_skill.Daemon.Sessions.{get}
use browser_skill.Daemon.Forward.{
  begin_forward, end_forward, await_with_optional_cancel, value, replied, cancel_cleanup_timeout,
}
use browser_skill.Daemon.Forward.Requests.{IsSentTo, begin_forward-IsSentTo}
use browser_skill.Daemon.Forward.Failures.{cancelled_never_succeeds}
use browser_skill.Examples.{daemon, job}

begin_forward-IsSentTo_example :
    IsSentTo "s1" "w2" job daemon (begin_forward "s1" "w2" job daemon).0 0
unfolding begin_forward get Browsers.send lookup text_discrete Browsers.register
begin_forward-IsSentTo_example = begin_forward-IsSentTo "s1" "w2" "w2" job daemon 0 none refl

abbrev answer : ResponseFrame
answer = record { id = "w2"; body = ResponseBody.ok Value.null }

cancelled_never_succeeds_example :
    (end_forward 0 "w2" job
      (await_with_optional_cancel 1000 cancel_cleanup_timeout (some (30, replied answer)) (some 20))
      daemon).1
    ≢ value Value.null
cancelled_never_succeeds_example =
    cancelled_never_succeeds 1000 cancel_cleanup_timeout 20 0 (some (30, replied answer)) "w2" job
      daemon Value.null (omega arith) (λ at r e. ground arith)
