-- ===== src/Daemon/Queues.antt =====
-- The per-session queues of tool calls: crates/bsk-cli/src/daemon/queue.rs, without the forwarding
-- itself (Daemon/Forward.antt). An entry's sender and its shared `QueueState` are one channel, at an
-- address; `sending` is the job whose `send` awaits capacity, `current` the worker's job.
pub mod Exclusive
pub mod Progress
use browser_skill.Prelude.{
  ℕ, suc, ◌+◌, Bool, true, false, Option, none, some, List, [], ◌∷◌, ◌++◌, String, ltb, ◌==◌,
  is_some, if◌then◌else◌, length,
}
use browser_skill.Map.{Map, lookup, insert, remove}
use browser_skill.Protocol.Method.{Method}
use browser_skill.Protocol.Frame.{
  Value, reason_object, RpcError, ErrorCode, not_found, protocol_error,
}

abbrev pub queue_capacity : ℕ
queue_capacity = 64

pub record ToolJob : Type 0 where
  pub method : Method
  pub params : Value
  pub timeout : ℕ
  pub inflight : Option ℕ
  pub session_id : String

pub data DispatchError : Type 0 where
  session_not_found session_stopping session_busy queue_full queue_closed timed_out : DispatchError
  rpc : RpcError → DispatchError

unfoldable pub into_rpc : DispatchError → RpcError
into_rpc session_not_found = record {
  code = not_found;
  message = "session not registered or already stopped";
  error_data = none;
}
into_rpc session_stopping = record {
  code = ErrorCode.timeout;
  message = "session is stopping";
  error_data = none;
}
into_rpc session_busy = record {
  code = ErrorCode.timeout;
  message = "session already has an unfinished command";
  error_data = some (reason_object "session_busy");
}
into_rpc queue_full = record {
  code = protocol_error;
  message = "per-session queue overflow; retry shortly";
  error_data = none;
}
into_rpc queue_closed = record {
  code = protocol_error;
  message = "session queue closed mid-call";
  error_data = none;
}
into_rpc timed_out = record {
  code = ErrorCode.timeout;
  message = "tool dispatch timed out";
  error_data = none;
}
into_rpc (rpc e) = e

pub record Channel : Type 0 where
  pub busy : Bool
  pub jobs : List ToolJob
  pub sending : Option ToolJob
  pub current : Option ToolJob
  pub receiver_open : Bool

pub record QueueEntry : Type 0 where
  pub sender : ℕ
  pub accepting : Bool

pub record Queues : Type 0 where
  pub queues : Map QueueEntry
  pub channel : ℕ → Channel
  pub next : ℕ

fresh_channel : Channel
fresh_channel = record {
  busy = false;
  jobs = [];
  sending = none;
  current = none;
  receiver_open = true;
}

unfoldable pub new : Queues
unfolding fresh_channel
new = record { queues = []; channel = λ _. fresh_channel; next = 0 }

abbrev pub update : (ℕ → Channel) → ℕ → Channel → ℕ → Channel
update f i v j = if i == j then v else f j

unfoldable pub is_accepting : String → Queues → Bool
is_accepting sid q = elim (lookup sid q.queues) [ none ↦ false | some e ↦ e.accepting ]

unfoldable pub spawn : String → Queues → Queues
unfolding fresh_channel
spawn sid q = record {
  queues = insert sid (record { sender = q.next; accepting = true }) q.queues;
  channel = update q.channel q.next fresh_channel;
  next = suc q.next;
}

unfoldable pub remove_queue : String → Queues → Queues × Bool
remove_queue sid q = (record q { queues = remove sid q.queues }, is_some (lookup sid q.queues))

unfoldable pub reopen : String → Queues → Queues × Bool
reopen sid q = elim (lookup sid q.queues) [
  | none ↦ (q, false)
  | some e ↦ (record q { queues = insert sid (record e { accepting = true }) q.queues }, true)
]

-- `clear_busy`.
clear_busy : Channel → Channel
clear_busy c = record c { busy = false }

-- `try_send` on a channel that was just marked busy, and what an error undoes.
try_send : ToolJob → Channel → Channel × Option DispatchError
unfolding clear_busy
try_send job c =
    if c.receiver_open
    then (if ltb (length c.jobs) queue_capacity
        then (record c { jobs = c.jobs ++ job ∷ [] }, none)
        else (clear_busy c, some queue_full))
    else (clear_busy c, some queue_closed)

-- The answer to a caller that submits a job: the address of the channel whose worker will respond.
pub data Submitted : Type 0 where
  waiting : ℕ → Submitted
  refused : DispatchError → Submitted

submitted : ℕ → Option DispatchError → Submitted
submitted a none = waiting a
submitted a (some e) = refused e

-- `dispatch` up to where it awaits the worker's response.
unfoldable pub submit : String → ToolJob → Queues → Queues × Submitted
unfolding try_send submitted
submit sid job q = elim (lookup sid q.queues) [
  | none ↦ (q, refused session_not_found)
  | some e ↦
      if e.accepting
      then (if (q.channel e.sender).busy
          then (q, refused session_busy)
          else (let (c, failed) = try_send job (record (q.channel e.sender) { busy = true }) in
              (record q { channel = update q.channel e.sender c }, submitted e.sender failed)))
      else (q, refused session_stopping)
]

-- `dispatch_after_closing` up to where it awaits capacity for its final job.
unfoldable pub submit_closing : String → ToolJob → Queues → Queues × Submitted
submit_closing sid job q = elim (lookup sid q.queues) [
  | none ↦ (q, refused session_not_found)
  | some e ↦
      if e.accepting
      then (if (q.channel e.sender).busy then (q, refused session_busy) else (
        record q {
          queues = insert sid (record e { accepting = false }) q.queues;
          channel =
              update q.channel e.sender
                (record (q.channel e.sender) { busy = true; sending = some job });
        },
        waiting e.sender,
      ))
      else (q, refused session_stopping)
]

-- How the awaited `send` ends: it is taken up, the receiver is gone, or it times out.
pub data SendEnd : Type 0 where
  sent closed late : SendEnd

end_send : SendEnd → Channel → Channel
unfolding clear_busy
end_send how c = elim c.sending [
  | none ↦ c
  | some job ↦ elim how [
    | sent ↦
        if ltb (length c.jobs) queue_capacity
        then record c { sending = none; jobs = c.jobs ++ job ∷ [] }
        else c
    | closed ↦ clear_busy (record c { sending = none })
    | late ↦ clear_busy (record c { sending = none })
  ]
]

-- One turn of `run_worker`: it takes a job, and after the forwarding it clears the busy mark.
take_job : List ToolJob → Option ToolJob → Channel → Channel
take_job [] current c = c
take_job (j ∷ rest) none c = record c { jobs = rest; current = some j }
take_job (j ∷ rest) (some k) c = c

recv : Channel → Channel
unfolding take_job
recv c = take_job c.jobs c.current c

finish : Channel → Channel
unfolding clear_busy
finish c = elim c.current [ none ↦ c | some j ↦ clear_busy (record c { current = none }) ]

abbrev at : ℕ → (Channel → Channel) → Queues → Queues
at a f q = record q { channel = update q.channel a (f (q.channel a)) }

unfoldable pub end_send_at : SendEnd → ℕ → Queues → Queues
unfolding end_send
end_send_at how a q = at a (end_send how) q

unfoldable pub recv_at : ℕ → Queues → Queues
unfolding recv
recv_at a q = at a recv q

unfoldable pub finish_at : ℕ → Queues → Queues
unfolding finish
finish_at a q = at a finish q
