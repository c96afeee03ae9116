-- ===== src/Daemon/Ipc/Registered.antt =====
-- Which tool calls are in the inflight registry.
use browser_skill.Prelude.{ℕ, ◌≡◌, refl, ◌≢◌, inl, inr, Bool, Option, none, some, String, arith}
use browser_skill.Map.{lookup, lookup-insert, lookup-remove}
use browser_skill.Protocol.Method.{Method}
use browser_skill.Protocol.Frame.{ResponseBody}
use browser_skill.Daemon.Inflight
use browser_skill.Daemon.Queues.{ToolJob}
use browser_skill.Daemon.Forward.Kept.{begin_forward-IsKept}
use browser_skill.Daemon.State.{Daemon}
use browser_skill.Daemon.Ipc.{
  ToolParams, Admission, replied, queued, forwarded, admit, dispatch, dispatch_unlocked,
  answered_or_forwarded, begin_tool_dispatch, fail, drop_guard, touched,
}
use browser_skill.Daemon.Ipc.Course.{job_for, admit-cases, begin_tool_dispatch-Course}

-- What a call has done to the inflight registry: an answered call left nothing in it, one that waits
-- is in it with its own entry, and the other calls are as they were.
abbrev pub registered_as : Admission → Option ℕ
registered_as (replied body) = none
registered_as (queued c a) = some a
registered_as (forwarded g ws a) = some a

pub record IsRegistered (rpc_id : String) (d d' : Daemon) (answer : Admission) : Type 0 where
  pub own : lookup rpc_id d'.tool_inflight.table ≡ registered_as answer
  pub others :
      (k : String) → rpc_id ≢ k → lookup k d'.tool_inflight.table ≡ lookup k d.tool_inflight.table

-- A daemon in which a call has just been registered, with the entry `a`.
abbrev IsEntered : String → ℕ → Daemon → Daemon → Type 0
IsEntered rpc_id a d d₁ =
    (lookup rpc_id d₁.tool_inflight.table ≡ some a)
    × ((k : String) → rpc_id ≢ k → lookup k d₁.tool_inflight.table ≡ lookup k d.tool_inflight.table)

drop_guard-IsRegistered :
    (rpc_id : String) (a : ℕ) (d d₁ : Daemon) (body : ResponseBody)
    → IsEntered rpc_id a d d₁
    → IsRegistered rpc_id d (drop_guard rpc_id a d₁) (replied body)
unfolding drop_guard Inflight.unregister
drop_guard-IsRegistered rpc_id a d d₁ body h = record {
  own = ground (arith, h.0, lookup-remove rpc_id rpc_id d₁.tool_inflight.table);
  others = λ k n. ground (arith, h.1 k n, h.0, lookup-remove k rpc_id d₁.tool_inflight.table);
}

dispatch-IsRegistered :
    (rpc_id sid : String) (a now : ℕ) (job : ToolJob) (d d₁ : Daemon)
    → IsEntered rpc_id a d d₁
    → let (d', answer) = dispatch rpc_id sid a now job d₁ in IsRegistered rpc_id d d' answer
unfolding dispatch fail drop_guard Inflight.unregister touched
dispatch-IsRegistered rpc_id sid a now job d d₁ h = record {
  own = ground (arith, h.0, lookup-remove rpc_id rpc_id d₁.tool_inflight.table);
  others = λ k n. ground (arith, h.1 k n, h.0, lookup-remove k rpc_id d₁.tool_inflight.table);
}

dispatch_unlocked-IsRegistered :
    (rpc_id ws_rpc_id sid : String) (a : ℕ) (job : ToolJob) (d d₁ : Daemon)
    → IsEntered rpc_id a d d₁
    → let (d', answer) = dispatch_unlocked rpc_id sid a ws_rpc_id job d₁ in
      IsRegistered rpc_id d d' answer
unfolding dispatch_unlocked answered_or_forwarded fail drop_guard Inflight.unregister
dispatch_unlocked-IsRegistered rpc_id ws_rpc_id sid a job d d₁ h =
    let kept = (begin_forward-IsKept sid ws_rpc_id job d₁).table in
    record {
      own = ground (arith, h.0, kept, lookup-remove rpc_id rpc_id d₁.tool_inflight.table);
      others =
          λ k n. ground (arith, h.1 k n, h.0, kept, lookup-remove k rpc_id d₁.tool_inflight.table);
    }

register-IsEntered :
    (rpc_id sid : String) (d : Daemon)
    → lookup rpc_id d.tool_inflight.table ≡ none
    → let (r, entry) = Inflight.register rpc_id sid d.tool_inflight in
      (entry ≡ some d.tool_inflight.next)
      × IsEntered rpc_id d.tool_inflight.next d (record d { tool_inflight = r })
unfolding Inflight.register
register-IsEntered rpc_id sid d free = (
  ground arith,
  (
    ground (arith, lookup-insert rpc_id rpc_id d.tool_inflight.next d.tool_inflight.table),
    λ k n. ground (arith, lookup-insert k rpc_id d.tool_inflight.next d.tool_inflight.table),
  ),
)

admit-IsRegistered :
    (rpc_id ws_rpc_id sid : String) (m : Method) (limit now : ℕ) (p : ToolParams) (d : Daemon)
    → lookup rpc_id d.tool_inflight.table ≡ none
    → let (d', answer) = admit rpc_id m sid limit p now ws_rpc_id d in
      IsRegistered rpc_id d d' answer
admit-IsRegistered rpc_id ws_rpc_id sid m limit now p d free =
    let a = d.tool_inflight.next in
    let d₁ = record d { tool_inflight = (Inflight.register rpc_id sid d.tool_inflight).0 } in
    let job = job_for m sid limit p a in
    let (is_new, entered) = register-IsEntered rpc_id sid d free in
    elim (admit-cases rpc_id ws_rpc_id sid m limit now p d a is_new) [
      | inl e ↦ rw e (dispatch_unlocked-IsRegistered rpc_id ws_rpc_id sid a job d d₁ entered)
      | inr e ↦ rw e (dispatch-IsRegistered rpc_id sid a now job d d₁ entered)
    ]

-- A call that is answered at once has nothing in the inflight registry, refused calls included; a call
-- that waits is registered under its own RPC id, with the entry that its answer holds; and the calls
-- with other ids are registered as before. The id must be free.
pub begin_tool_dispatch-IsRegistered :
    (help_disabled : Bool) (rpc_id ws_rpc_id : String) (m : Method) (p : ToolParams) (now : ℕ)
    (d : Daemon)
    → lookup rpc_id d.tool_inflight.table ≡ none
    → let (d', answer) = begin_tool_dispatch help_disabled rpc_id m p now ws_rpc_id d in
      IsRegistered rpc_id d d' answer
begin_tool_dispatch-IsRegistered help_disabled rpc_id ws_rpc_id m p now d free =
    let course = begin_tool_dispatch-Course help_disabled rpc_id ws_rpc_id m p now d in
    elim course.end [
      | inl (body, e) ↦ rw e (record { own = free; others = λ k n. refl })
      | inr (sid, limit, e) ↦
          let d₁ = record d { session_interrupts = course.marks } in
          let r = admit-IsRegistered rpc_id ws_rpc_id sid m limit now p d₁ free in
          rw e (record { own = r.own; others = r.others })
    ]
