-- ===== src/Daemon/Queues/Progress.antt =====
-- The turns that a busy channel needs to become idle.
use browser_skill.Prelude.{
  ℕ, ◌≤◌, ◌≡◌, refl, inl, inr, true, false, none, some, List, [], ◌∷◌, ◌++◌, String, arith, ap,
  Option-cases, Bool-cases, if◌then◌else◌,
}
use browser_skill.Map.{lookup}
use browser_skill.Daemon.Queues.{
  ToolJob, Channel, Queues, new, SendEnd, spawn, remove_queue, reopen, submit, submit_closing,
  end_send_at, recv_at, finish_at,
}
use browser_skill.Daemon.Queues.Exclusive.{
  Event, spawns, removes, reopens, submits, closes, ends_send, receives, finishes, step, run,
  unfinished, AllExclusive, step-AllExclusive, run-new-AllExclusive,
}

-- How many turns a busy channel is away from idle: its command is being sent, queued, or with the
-- worker.
stage : Channel → ℕ
stage c =
    if c.busy
    then (elim c.sending [ some job ↦ 3 | none ↦ elim c.current [ some job ↦ 1 | none ↦ 2 ] ])
    else 0

-- A schedule in which the channel's sender and worker get the turns that it still needs, in order,
-- among any others.
pub data Serves (a : ℕ) : ℕ → List Event → Type 0 where
  served : {es : List Event} → Serves a 0 es
  skips : {n : ℕ} {es : List Event} → (e : Event) → Serves a n es → Serves a n (e ∷ es)
  sends : {es : List Event} → (how : SendEnd) → Serves a 2 es → Serves a 3 (ends_send how a ∷ es)
  takes : {es : List Event} → Serves a 1 es → Serves a 2 (receives a ∷ es)
  ends : {es : List Event} → Serves a 0 es → Serves a 1 (finishes a ∷ es)

submit-stage :
    (sid : String) (job : ToolJob) (q : Queues) (a : ℕ)
    → (q.channel a).busy ≡ true
    → (submit sid job q).0.channel a ≡ q.channel a
unfolding submit
submit-stage sid job q a busy = elim (Option-cases (lookup sid q.queues)) [
  | inl absent ↦ ground arith
  | inr (entry, present) ↦ ground arith
]

submit_closing-stage :
    (sid : String) (job : ToolJob) (q : Queues) (a : ℕ)
    → (q.channel a).busy ≡ true
    → (submit_closing sid job q).0.channel a ≡ q.channel a
unfolding submit_closing
submit_closing-stage sid job q a busy = elim (Option-cases (lookup sid q.queues)) [
  | inl absent ↦ ground arith
  | inr (entry, present) ↦ ground arith
]

-- No event takes a busy channel further from idle.
step-stage :
    (q : Queues) (e : Event) (a : ℕ)
    → AllExclusive q
    → (q.channel a).busy ≡ true
    → stage ((step q e).channel a) ≤ stage (q.channel a)
unfolding step stage spawn remove_queue reopen end_send_at recv_at finish_at
step-stage q (spawns sid) a h busy = ground arith
step-stage q (removes sid) a h busy = ground arith
step-stage q (reopens sid) a h busy = ground arith
step-stage q (submits sid job) a h busy = ground (arith, submit-stage sid job q a busy)
step-stage q (closes sid job) a h busy = ground (arith, submit_closing-stage sid job q a busy)
step-stage q (ends_send how b) a h busy = ground (arith, h a)
step-stage q (receives b) a h busy = ground (arith, h a)
step-stage q (finishes b) a h busy = ground (arith, h a)

-- Each turn that the channel needs takes it nearer to idle.
send-stage :
    (how : SendEnd) (q : Queues) (a : ℕ)
    → AllExclusive q
    → stage (q.channel a) ≤ 3
    → stage ((end_send_at how a q).channel a) ≤ 2
unfolding stage end_send_at
send-stage how q a h s = ground (arith, h a)

recv-stage :
    (q : Queues) (a : ℕ)
    → AllExclusive q
    → stage (q.channel a) ≤ 2
    → stage ((recv_at a q).channel a) ≤ 1
unfolding stage recv_at
recv-stage q a h s = ground (arith, h a)

finish-stage :
    (q : Queues) (a : ℕ)
    → AllExclusive q
    → stage (q.channel a) ≤ 1
    → stage ((finish_at a q).channel a) ≤ 0
unfolding stage finish_at
finish-stage q a h s = ground (arith, h a)

stage-idle : (c : Channel) → stage c ≤ 0 → c.busy ≡ false
unfolding stage
stage-idle c s = ground arith

stage-busy : (c : Channel) → stage c ≤ 3
unfolding stage
stage-busy c = ground arith

-- The schedule reaches a point where the channel has no unfinished command.
abbrev pub IsFreedBy : ℕ → Queues → List Event → Type 0
IsFreedBy a q es =
    (before : List Event) × (rest : List Event) × (es ≡ before ++ rest)
    × ((run q before).channel a).busy ≡ false
    × unfinished ((run q before).channel a) ≡ 0

idle-IsFreedBy :
    (a : ℕ) (q : Queues) (es : List Event)
    → AllExclusive q
    → (q.channel a).busy ≡ false
    → IsFreedBy a q es
unfolding run
idle-IsFreedBy a q es h idle = ([], es, refl, idle, ground (arith, h a))

later-IsFreedBy :
    (a : ℕ) (q : Queues) (e : Event) (es : List Event)
    → IsFreedBy a (step q e) es
    → IsFreedBy a q (e ∷ es)
unfolding run
later-IsFreedBy a q e es (before, rest, split, idle, none_left) =
    (e ∷ before, rest, ap (λ l. e ∷ l) split, idle, none_left)

serves-IsFreedBy :
    (a n : ℕ) (q : Queues) (es : List Event)
    → AllExclusive q
    → stage (q.channel a) ≤ n
    → Serves a n es
    → IsFreedBy a q es
unfolding step
serves-IsFreedBy a n q es h s served = idle-IsFreedBy a q es h (stage-idle (q.channel a) s)
serves-IsFreedBy a n q _ h s (skips {es = es} e later) = elim (Bool-cases (q.channel a).busy) [
  | inl busy ↦ later-IsFreedBy a q e es (
      serves-IsFreedBy a n (step q e) es (step-AllExclusive q e h)
        (ground (arith, step-stage q e a h busy)) later)
  | inr idle ↦ idle-IsFreedBy a q (e ∷ es) h idle
]
serves-IsFreedBy a n q _ h s (sends {es} how later) = later-IsFreedBy a q (ends_send how a) es (
    serves-IsFreedBy a 2 (end_send_at how a q) es (step-AllExclusive q (ends_send how a) h)
      (send-stage how q a h s) later)
serves-IsFreedBy a n q _ h s (takes {es} later) = later-IsFreedBy a q (receives a) es (
    serves-IsFreedBy a 1 (recv_at a q) es (step-AllExclusive q (receives a) h) (recv-stage q a h s)
      later)
serves-IsFreedBy a n q _ h s (ends {es} later) = later-IsFreedBy a q (finishes a) es (
    serves-IsFreedBy a 0 (finish_at a q) es (step-AllExclusive q (finishes a) h)
      (finish-stage q a h s) later)

-- After any history of the queues, a schedule that gives the sender and the worker of a channel
-- their turns (the send ends somehow, the worker takes a job, and finishes it), in this order and
-- among any other events, comes to a point where the channel is not busy and has no unfinished
-- command: a session's lock is not held for ever.
pub lock_is_freed :
    (history schedule : List Event) (a : ℕ)
    → Serves a 3 schedule
    → IsFreedBy a (run new history) schedule
lock_is_freed history schedule a turns =
    serves-IsFreedBy a 3 (run new history) schedule (run-new-AllExclusive history)
      (stage-busy ((run new history).channel a)) turns
