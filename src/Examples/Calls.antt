-- ===== src/Examples/Calls.antt =====
-- Runs of the inflight registry, the queues and the cancellation tokens.
use browser_skill.Prelude.{true, List, [], ◌∷◌}
use browser_skill.Daemon.Inflight.{CancelReason}
use browser_skill.Daemon.Inflight.Race
use browser_skill.Daemon.Inflight.Race.Order.{IsOrdered, run-IsOrdered}
use browser_skill.Daemon.Queues
use browser_skill.Daemon.Queues.{submit, submit_closing, waiting, refused, is_accepting, reopen}
use browser_skill.Daemon.Queues.Exclusive
use browser_skill.Daemon.Queues.Exclusive.{
  AllExclusive, run-new-AllExclusive, submit_answer, submit_closing_stops, answer_for,
}
use browser_skill.Daemon.Abort
use browser_skill.Daemon.Abort.Laws
use browser_skill.Daemon.Abort.Laws.{register-cancel, calls-new-IsSound}
use browser_skill.Examples.{job}

abbrev other_schedule : List Race.Event
other_schedule =
    Race.Event.promote "b1" "w1" true
    ∷ Race.Event.cancel CancelReason.cancelled
    ∷ Race.Event.forward true
    ∷ []

run-IsOrdered_example : IsOrdered (Race.run (Race.start "s1") other_schedule).wire
run-IsOrdered_example = run-IsOrdered "s1" other_schedule

abbrev history : List Exclusive.Event
history =
    Exclusive.Event.spawns "s1"
    ∷ Exclusive.Event.submits "s1" job
    ∷ Exclusive.Event.submits "s1" job
    ∷ Exclusive.Event.receives 0
    ∷ []

run-new-AllExclusive_example : AllExclusive (Exclusive.run Queues.new history)
run-new-AllExclusive_example = run-new-AllExclusive history

abbrev tokens : Abort.Registry
tokens = Laws.calls Abort.new (Laws.Call.registers "t1" ∷ [])
