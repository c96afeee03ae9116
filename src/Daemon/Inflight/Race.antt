-- ===== src/Daemon/Inflight/Race.antt =====
-- The race between the worker's promotion of an entry and the cancels of it: every critical section
-- on the entry, and every frame pushed to the sink, is one event of a schedule.
pub mod Order
use browser_skill.Prelude.{
  ◌≡◌, refl, Bool, true, false, Option, none, some, String, arith, List, [], ◌∷◌, ◌++◌,
  if◌then◌else◌, Bool-cases, inl, inr,
}
use browser_skill.Daemon.Inflight.{
  Entry, CancelReason, Snapshot, new_entry, promote_to_forwarded_with, cancel_and_snapshot,
}

-- A frame in the browser's sink, with the WS id that it carries.
pub data Sent : Type 0 where
  request cancel_request : String → Sent

-- One job: its entry, the frames sent for it, whether the worker has tried to promote it, and the
-- WS ids of the cancels that were decided and are not yet forwarded.
pub record Race : Type 0 where
  pub entry : Entry
  pub wire : List Sent
  pub attempted : Bool
  pub to_forward : List String

pub data Event : Type 0 where
  -- The worker's only promotion of the job; the flag says whether the sink is open.
  promote : String → String → Bool → Event
  cancel : CancelReason → Event
  -- `forward_cancel_to_browser` for the oldest decided cancel.
  forward : Bool → Event

push : String → Bool → List Sent → List Sent × Bool
push ws true wire = (wire ++ request ws ∷ [], true)
push ws false wire = (wire, false)

-- The WS frame that a cancel's caller owes: only if the snapshot has both ids.
owed : Snapshot → List String
owed snap = elim snap.browser_id [
  | none ↦ []
  | some b ↦ elim snap.ws_rpc_id [ none ↦ [] | some ws ↦ ws ∷ [] ]
]

forward_next : Bool → List String → List Sent → List Sent × List String
forward_next sink_open [] wire = (wire, [])
forward_next true (ws ∷ rest) wire = (wire ++ cancel_request ws ∷ [], rest)
forward_next false (ws ∷ rest) wire = (wire, rest)

pub step : Race → Event → Race
unfolding promote_to_forwarded_with cancel_and_snapshot push owed forward_next
step r (promote browser ws sink_open) =
    let (e, wire, outcome) =
      promote_to_forwarded_with r.entry browser ws (push ws sink_open) r.wire in
    if r.attempted then r else record r { entry = e; wire = wire; attempted = true }
step r (cancel reason) =
    let (e, snap) = cancel_and_snapshot r.entry reason in
    record r { entry = e; to_forward = r.to_forward ++ owed snap }
step r (forward sink_open) =
    let (wire, rest) = forward_next sink_open r.to_forward r.wire in
    record r { wire = wire; to_forward = rest }

unfoldable pub run : Race → List Event → Race
run r [] = r
run r (e ∷ es) = run (step r e) es

-- A job whose entry was just registered.
unfoldable pub start : String → Race
unfolding new_entry
start sid = record { entry = new_entry sid; wire = []; attempted = false; to_forward = [] }
