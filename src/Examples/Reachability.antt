-- ===== src/Examples/Reachability.antt =====
-- Runs of the whole daemon, and of its queues to where they are idle.
use browser_skill.Prelude.{none, some, [], ◌∷◌, List, Option}
use browser_skill.Protocol.Method
use browser_skill.Protocol.Frame.{Value, RequestFrame}
use browser_skill.Daemon.Queues.{SendEnd, new}
use browser_skill.Daemon.Queues.Exclusive
use browser_skill.Daemon.Queues.Exclusive.{run, spawns, submits, ends_send, receives, finishes}
use browser_skill.Daemon.Queues.Progress.{
  Serves, served, skips, sends, takes, ends, IsFreedBy, lock_is_freed,
}
use browser_skill.Daemon.Ws.{HandshakeParams}
use browser_skill.Daemon.System.{Event, opens, start, step, at_start, after}
use browser_skill.Daemon.System.Calls.{IsWellFormed}
use browser_skill.Daemon.System.Reachable.{reachable-IsWellFormed}
use browser_skill.Examples.{job}

abbrev pub hello : RequestFrame
hello = record { id = "h"; method = Method.system_handshake; params = some Value.null }

abbrev pub greet : Value → Option HandshakeParams
greet v = some (record {
  version = "1.0.0";
  protocol_version = b'1' ∷ b'.' ∷ b'0' ∷ [];
  instance_id = "b1";
  browser_name = "Chrome";
  browser_version = "140";
  label = "work";
  min_compatible_protocol = none;
})

abbrev pub arrival : Event
arrival = opens greet hello 5 5

-- A browser connects, and connects again.
reachable-IsWellFormed_example : IsWellFormed (step (step start arrival) arrival)
reachable-IsWellFormed_example = reachable-IsWellFormed (after (after at_start arrival) arrival)

abbrev history : List Exclusive.Event
history = spawns "s1" ∷ submits "s1" job ∷ []

abbrev schedule : List Exclusive.Event
schedule = ends_send SendEnd.late 0 ∷ submits "s1" job ∷ receives 0 ∷ spawns "s2" ∷ finishes 0 ∷ []

turns : Serves 0 3 schedule
turns = sends SendEnd.late (skips (submits "s1" job) (takes (skips (spawns "s2") (ends served))))

lock_is_freed_example : IsFreedBy 0 (run new history) schedule
lock_is_freed_example = lock_is_freed history schedule 0 turns
