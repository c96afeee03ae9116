-- ===== src/Daemon/Browsers.antt =====
-- The connected extension clients: crates/bsk-cli/src/daemon/browsers.rs. The registry holds what
-- is fixed of a client; its generation is the address of the shared cell that holds the rest.
pub mod Select
use browser_skill.Prelude.{
  ℕ, ◌+◌, ◌-◌, Bool, true, false, ◌&&◌, Option, none, some, List, [], ◌∷◌, ◌++◌, map, String,
  if◌then◌else◌, ite, text_discrete, ◌==◌, leb, is_some, keep,
}
use browser_skill.Map.{Map, lookup, insert, remove, values}
use browser_skill.Protocol.Frame.{Frame, ResponseFrame}

pub record BrowserClient : Type 0 where
  pub id : String
  pub browser_name : String
  pub browser_version : String
  pub extension_version : String
  pub extension_protocol_version : List ℕ
  pub label : String
  pub generation : ℕ
  pub connected_at_ms : ℕ
  pub version_skew : Bool

-- What connections share of a client: the frames pushed to its sink and whether the receiver still
-- lives, the pending RPC ids and the responses handed to their waiters, and the liveness marks.
pub record Cell : Type 0 where
  pub sent : List Frame
  pub sink_open : Bool
  pub waiters : Map (Unit {0})
  pub delivered : List ResponseFrame
  pub last_seen : ℕ
  pub heartbeat_seen : Bool

-- `BrowserSink::send`: the flag is false for `BrowserSinkClosed`.
unfoldable pub send : Frame → Cell → Cell × Bool
send f c = if c.sink_open then (record c { sent = c.sent ++ f ∷ [] }, true) else (c, false)

-- `Pending::register`, `resolve` and `cancel`.
unfoldable pub register : String → Cell → Cell
register rpc_id c = record c { waiters = insert rpc_id tt c.waiters }

unfoldable pub resolve : ResponseFrame → Cell → Cell × Bool
resolve f c =
    if is_some (lookup f.id c.waiters)
    then (record c { waiters = remove f.id c.waiters; delivered = c.delivered ++ f ∷ [] }, true)
    else (c, false)

unfoldable pub cancel : String → Cell → Cell
cancel rpc_id c = record c { waiters = remove rpc_id c.waiters }

unfoldable pub touch : ℕ → Cell → Cell
touch now c = record c { last_seen = now }

unfoldable pub mark_heartbeat_seen : Cell → Cell
mark_heartbeat_seen c = record c { heartbeat_seen = true }

-- A registry of clients, by id.
abbrev pub Registry : Type 0
Registry = Map BrowserClient

unfoldable pub insert_client : BrowserClient → Registry → Registry
insert_client c r = insert c.id c r

unfoldable pub remove_if_generation_matches :
    String → ℕ → Registry → Registry × Option BrowserClient
remove_if_generation_matches id generation r = elim (lookup id r) [
  | none ↦ (r, none)
  | some current ↦
      if current.generation == generation then (remove id r, some current) else (r, none)
]

-- Only a client that has sent a heartbeat can be stale.
unfoldable pub is_stale : (ℕ → Cell) → ℕ → ℕ → BrowserClient → Bool
is_stale cells threshold now c =
    (cells c.generation).heartbeat_seen && leb threshold (now - (cells c.generation).last_seen)

unfoldable pub stale_browsers : (ℕ → Cell) → ℕ → ℕ → Registry → List BrowserClient
unfolding is_stale
stale_browsers cells threshold now r = keep (is_stale cells threshold now) (values r)

pub data SelectError : Type 0 where
  no_browser_connected multiple_browsers_online not_found : SelectError
  ambiguous_label : String → List String → SelectError

pub data Selected : Type 0 where
  ok : BrowserClient → Selected
  err : SelectError → Selected

-- The clients with a non-empty label that is the text looked for.
has_label : String → BrowserClient → Bool
has_label needle c =
    ite (text_discrete c.label "") false (ite (text_discrete c.label needle) true false)

label_matches : String → Registry → List BrowserClient
unfolding has_label
label_matches needle r = keep (has_label needle) (values r)

by_label : String → List BrowserClient → Selected
by_label needle [] = err not_found
by_label needle (c ∷ []) = ok c
by_label needle (c ∷ d ∷ rest) = err (ambiguous_label needle (map (λ b. b.id) (c ∷ d ∷ rest)))

by_needle : String → Registry → Selected
unfolding label_matches by_label
by_needle needle r = elim (lookup needle r) [
  | some c ↦ ok c
  | none ↦ by_label needle (label_matches needle r)
]

only_one : List BrowserClient → Selected
only_one [] = err no_browser_connected
only_one (c ∷ []) = ok c
only_one (c ∷ d ∷ rest) = err multiple_browsers_online

unfoldable pub select : Option String → Registry → Selected
unfolding by_needle only_one
select none r = only_one (values r)
select (some needle) r = ite (text_discrete needle "") (only_one (values r)) (by_needle needle r)

is_empty : Registry → Bool
is_empty [] = true
is_empty (e ∷ r) = false

-- One turn of the loop of `select_with_connect_wait`: `none` is a sleep of one poll period. At the
-- deadline the registry is read again, as `r'`.
poll : ℕ → Option String → ℕ → Registry → Registry → Option Selected
poll deadline requested now r r' = elim (select requested r) [
  | ok c ↦ some (ok c)
  | err no_browser_connected ↦ if leb deadline now then some (select requested r') else none
  | err not_found ↦
      if is_empty r
      then (if leb deadline now then some (select requested r') else none)
      else some (err not_found)
  | err multiple_browsers_online ↦ some (err multiple_browsers_online)
  | err (ambiguous_label label ids) ↦ some (err (ambiguous_label label ids))
]

-- The loop, over what its turns see: the time, and the registry at the two times it can be read.
unfoldable pub select_with_connect_wait :
    ℕ → Option String → List (ℕ × Registry × Registry) → Option Selected
unfolding poll is_empty
select_with_connect_wait deadline requested [] = none
select_with_connect_wait deadline requested ((now, r, r') ∷ turns) =
    let rest = select_with_connect_wait deadline requested turns in
    elim (poll deadline requested now r r') [ some s ↦ some s | none ↦ rest ]
