-- ===== src/Daemon/Queues/Exclusive.antt =====
-- The busy mark as a lock on the unfinished command of a session.
use browser_skill.Prelude.{
  ℕ, ◌+◌, ◌≡◌, refl, inl, inr, Bool, true, false, Option, none, some, List, [], ◌∷◌, String, arith,
  length, length-append, Option-cases, if◌then◌else◌,
}
use browser_skill.Map.{lookup, insert, lookup-insert}
use browser_skill.Daemon.Queues.{
  ToolJob, Channel, QueueEntry, Queues, DispatchError, Submitted, SendEnd, waiting, refused,
  session_busy, session_stopping, session_not_found, queue_closed, new, spawn, remove_queue, reopen,
  submit, submit_closing, end_send_at, recv_at, finish_at, end_send, recv, finish, at, is_accepting,
}

abbrev one {ℓ} : {A : Type ℓ} → Option A → ℕ
one none = 0
one (some a) = 1

-- The commands of a channel that are not finished.
abbrev pub unfinished : Channel → ℕ
unfinished c = length c.jobs + one c.sending + one c.current

abbrev bit : Bool → ℕ
bit true = 1
bit false = 0

-- The mark is set exactly while one command is unfinished.
abbrev pub IsExclusive : Channel → Type 0
IsExclusive c = unfinished c ≡ bit c.busy

end_send-IsExclusive : (how : SendEnd) (c : Channel) → IsExclusive c → IsExclusive (end_send how c)
unfolding end_send
end_send-IsExclusive how c h = elim (Option-cases c.sending) [
  | inl e ↦ ground arith
  | inr (job, e) ↦ ground (arith, length-append c.jobs (job ∷ []))
]

recv-IsExclusive : (c : Channel) → IsExclusive c → IsExclusive (recv c)
unfolding recv
recv-IsExclusive c h = ground arith

finish-IsExclusive : (c : Channel) → IsExclusive c → IsExclusive (finish c)
unfolding finish
finish-IsExclusive c h = ground arith

-- What can happen to the queues: the registry's calls, and the turns of senders and workers.
pub data Event : Type 0 where
  spawns removes reopens : String → Event
  submits closes : String → ToolJob → Event
  ends_send : SendEnd → ℕ → Event
  receives finishes : ℕ → Event

unfoldable pub step : Queues → Event → Queues
step q (spawns sid) = spawn sid q
step q (removes sid) = (remove_queue sid q).0
step q (reopens sid) = (reopen sid q).0
step q (submits sid job) = (submit sid job q).0
step q (closes sid job) = (submit_closing sid job q).0
step q (ends_send how a) = end_send_at how a q
step q (receives a) = recv_at a q
step q (finishes a) = finish_at a q

unfoldable pub run : Queues → List Event → Queues
run q [] = q
run q (e ∷ es) = run (step q e) es

abbrev pub AllExclusive : Queues → Type 0
AllExclusive q = (a : ℕ) → IsExclusive (q.channel a)

pub new-AllExclusive : AllExclusive new
unfolding new
new-AllExclusive a = refl

pub spawn-AllExclusive : (sid : String) (q : Queues) → AllExclusive q → AllExclusive (spawn sid q)
unfolding spawn
spawn-AllExclusive sid q h a = ground (arith, h a)

pub reopen-AllExclusive :
    (sid : String) (q : Queues) → AllExclusive q → AllExclusive (reopen sid q).0
unfolding reopen
reopen-AllExclusive sid q h a = ground (arith, h a)

pub submit-AllExclusive :
    (sid : String) (job : ToolJob) (q : Queues) → AllExclusive q → AllExclusive (submit sid job q).0
unfolding submit
submit-AllExclusive sid job q h a = elim (Option-cases (lookup sid q.queues)) [
  | inl e ↦ ground (arith, h a)
  | inr (entry, e) ↦
      ground (arith, h a, h entry.sender, length-append (q.channel entry.sender).jobs (job ∷ []))
]

pub submit_closing-AllExclusive :
    (sid : String) (job : ToolJob) (q : Queues)
    → AllExclusive q
    → AllExclusive (submit_closing sid job q).0
unfolding submit_closing
submit_closing-AllExclusive sid job q h a = elim (Option-cases (lookup sid q.queues)) [
  | inl e ↦ ground (arith, h a)
  | inr (entry, e) ↦ ground (arith, h a, h entry.sender)
]

at-AllExclusive :
    (a : ℕ) (f : Channel → Channel) (q : Queues)
    → ((c : Channel) → IsExclusive c → IsExclusive (f c))
    → AllExclusive q
    → AllExclusive (at a f q)
at-AllExclusive a f q keeps h b = ground (arith, h b, keeps (q.channel a) (h a))

pub end_send_at-AllExclusive :
    (how : SendEnd) (a : ℕ) (q : Queues) → AllExclusive q → AllExclusive (end_send_at how a q)
unfolding end_send_at
end_send_at-AllExclusive how a q h = at-AllExclusive a (end_send how) q (end_send-IsExclusive how) h

pub recv_at-AllExclusive : (a : ℕ) (q : Queues) → AllExclusive q → AllExclusive (recv_at a q)
unfolding recv_at
recv_at-AllExclusive a q h = at-AllExclusive a recv q recv-IsExclusive h

pub finish_at-AllExclusive : (a : ℕ) (q : Queues) → AllExclusive q → AllExclusive (finish_at a q)
unfolding finish_at
finish_at-AllExclusive a q h = at-AllExclusive a finish q finish-IsExclusive h

pub step-AllExclusive : (q : Queues) (e : Event) → AllExclusive q → AllExclusive (step q e)
unfolding step remove_queue
step-AllExclusive q (spawns sid) h = spawn-AllExclusive sid q h
step-AllExclusive q (removes sid) h = h
step-AllExclusive q (reopens sid) h = reopen-AllExclusive sid q h
step-AllExclusive q (submits sid job) h = submit-AllExclusive sid job q h
step-AllExclusive q (closes sid job) h = submit_closing-AllExclusive sid job q h
step-AllExclusive q (ends_send how a) h = end_send_at-AllExclusive how a q h
step-AllExclusive q (receives a) h = recv_at-AllExclusive a q h
step-AllExclusive q (finishes a) h = finish_at-AllExclusive a q h

run-AllExclusive : (q : Queues) (es : List Event) → AllExclusive q → AllExclusive (run q es)
unfolding run
run-AllExclusive q [] h = h
run-AllExclusive q (e ∷ es) h = run-AllExclusive (step q e) es (step-AllExclusive q e h)

-- After any history of calls, sends and worker turns, on every channel: the busy mark is set exactly
-- while one command is unfinished (queued, being sent or with the worker), and there are never two.
pub run-new-AllExclusive : (es : List Event) → AllExclusive (run new es)
run-new-AllExclusive es = run-AllExclusive new es new-AllExclusive

-- What `submit` answers for a registered entry.
abbrev pub answer_for : QueueEntry → Channel → Submitted
answer_for e c =
    if e.accepting
    then (if c.busy
        then refused session_busy
        else (if c.receiver_open then waiting e.sender else refused queue_closed))
    else refused session_stopping

-- With the lock exclusive, a submitted job is taken exactly if the session has a queue that accepts
-- jobs, has no unfinished command and has a live worker: the capacity of the queue never refuses it.
pub submit_answer :
    (sid : String) (job : ToolJob) (q : Queues)
    → AllExclusive q
    → (submit sid job q).1 ≡ elim (lookup sid q.queues) [
      | none ↦ refused session_not_found
      | some e ↦ answer_for e (q.channel e.sender)
    ]
unfolding submit
submit_answer sid job q h = elim (Option-cases (lookup sid q.queues)) [
  | inl e ↦ ground arith
  | inr (entry, e) ↦ ground (arith, h entry.sender)
]

-- A refused command leaves every queue entry and every channel as it was.
pub submit_refused :
    (sid : String) (job : ToolJob) (q : Queues) (e : DispatchError) (a : ℕ)
    → (submit sid job q).1 ≡ refused e
    → ((submit sid job q).0.queues ≡ q.queues) × ((submit sid job q).0.channel a ≡ q.channel a)
unfolding submit
submit_refused sid job q e a h = (ground arith, ground arith)

-- Once a closing command is taken, the session refuses every command as stopping, until the queue is
-- reopened, and then it accepts again.
pub submit_closing_stops :
    (sid : String) (final job : ToolJob) (q : Queues) (a : ℕ)
    → (submit_closing sid final q).1 ≡ waiting a
    → ((submit sid job (submit_closing sid final q).0).1 ≡ refused session_stopping)
      × ((submit_closing sid job (submit_closing sid final q).0).1 ≡ refused session_stopping)
      × (is_accepting sid (reopen sid (submit_closing sid final q).0).0 ≡ true)
unfolding submit submit_closing reopen is_accepting
submit_closing_stops sid final job q a h = elim (Option-cases (lookup sid q.queues)) [
  | inl e ↦ absurd (ground arith)
  | inr (entry, e) ↦
      let closed : QueueEntry = record entry { accepting = false } in
      let here = lookup-insert sid sid closed q.queues in
      let again =
        lookup-insert sid sid (record closed { accepting = true }) (insert sid closed q.queues) in
      (ground arith, ground arith, ground arith)
]
