-- ===== src/Daemon/Ws/Liveness.antt =====
-- The liveness reaper and the connections.
use browser_skill.Prelude.{
  ℕ, ◌≡◌, refl, inl, inr, Bool, true, false, ◌||◌, Option, none, some, List, [], ◌∷◌, String, arith,
  ite, text_discrete, Option-cases, ◌==◌, if◌then◌else◌, is_some, keep,
}
use browser_skill.Map.{lookup, remove, values, lookup-remove, passes, Named, insert-Named}
use browser_skill.Daemon.Browsers.{
  BrowserClient, Registry, remove_if_generation_matches, insert_client, is_stale, stale_browsers,
}
use browser_skill.Daemon.Sessions.Registry.{IsSound}
use browser_skill.Daemon.State.{Daemon}
use browser_skill.Daemon.Ws.{
  HandshakeParams, connect, reply_handshake, purge, reap, reap_each, close_sink,
}
use browser_skill.Daemon.Ws.Connection.{purge-kept, connect-IsConnected}

-- One turn of the reaper's loop.
abbrev reap_one : BrowserClient → Daemon → Daemon
reap_one c d =
    let (browsers, removed) = remove_if_generation_matches c.id c.generation d.browsers in
    let d' = record d { browsers = browsers } in if is_some removed then purge c.id d' else d'

-- A list names a registered client by its id and generation.
abbrev hits : List BrowserClient → String → Option BrowserClient → Bool
hits [] k current = false
hits (c ∷ cs) k current =
    passes (λ (b : BrowserClient). ite (text_discrete c.id k) (b.generation == c.generation) false)
      current
    || hits cs k current

-- What is left under a key once something has been removed or not.
abbrev left {ℓ} : {A : Type ℓ} → Bool → Option A → Option A
left true o = none
left false o = o

reap_one-browsers :
    (c : BrowserClient) (k : String) (d : Daemon)
    → lookup k (reap_one c d).browsers
      ≡ left (hits (c ∷ []) k (lookup k d.browsers)) (lookup k d.browsers)
unfolding remove_if_generation_matches
reap_one-browsers c k d =
    let (browsers, cell, next) = purge-kept c.id (record d { browsers = remove c.id d.browsers }) in
    elim (Option-cases (lookup c.id d.browsers)) [
      | inl e ↦ ground arith
      | inr (b, e) ↦ ground (arith, browsers, lookup-remove k c.id d.browsers)
    ]

reap_each-browsers :
    (cs : List BrowserClient) (k : String) (d : Daemon)
    → lookup k (reap_each cs d).browsers
      ≡ left (hits cs k (lookup k d.browsers)) (lookup k d.browsers)
unfolding reap_each
reap_each-browsers [] k d = refl
reap_each-browsers (c ∷ cs) k d =
    ground (arith, reap_each-browsers cs k (reap_one c d), reap_one-browsers c k d)

hits-absent :
    (p : BrowserClient → Bool) (k : String) (m : Registry) (o : Option BrowserClient)
    → Named (λ (c : BrowserClient). c.id) m
    → lookup k m ≡ none
    → hits (keep p (values m)) k o ≡ false
unfolding values lookup
hits-absent p k [] o h e = refl
hits-absent p k ((j, w) ∷ m) o h e = ground (arith, hits-absent p k m o h.2)

hits-keep :
    (p : BrowserClient → Bool) (k : String) (m : Registry)
    → Named (λ (c : BrowserClient). c.id) m
    → hits (keep p (values m)) k (lookup k m) ≡ passes p (lookup k m)
unfolding values lookup
hits-keep p k [] h = refl
hits-keep p k ((j, w) ∷ m) h = ground (arith, hits-keep p k m h.2, hits-absent p k m (some w) h.2)

reap-browsers :
    (timeout now : ℕ) (id : String) (d : Daemon)
    → Named (λ (c : BrowserClient). c.id) d.browsers
    → lookup id (reap timeout now d).browsers ≡ (
        if passes (is_stale d.cell timeout now) (lookup id d.browsers)
        then none
        else lookup id d.browsers)
unfolding reap stale_browsers
reap-browsers timeout now id d h = ground (
  arith,
  reap_each-browsers (keep (is_stale d.cell timeout now) (values d.browsers)) id d,
  hits-keep (is_stale d.cell timeout now) id d.browsers h,
)

-- A client that has just connected, in a registry with each client under its own id.
connect-Named :
    (p : HandshakeParams) (skew : Bool) (connected_at_ms now : ℕ) (d : Daemon)
    → Named (λ (c : BrowserClient). c.id) d.browsers
    → let (d', g) = connect p skew connected_at_ms now d in
      Named (λ (c : BrowserClient). c.id) d'.browsers × ((d'.cell g).heartbeat_seen ≡ false)
unfolding connect insert_client
connect-Named p skew connected_at_ms now d h =
    let (browsers, cell, next) = purge-kept p.instance_id d in
    let client : BrowserClient = record {
      id = p.instance_id;
      browser_name = p.browser_name;
      browser_version = p.browser_version;
      extension_version = p.version;
      extension_protocol_version = p.protocol_version;
      label = p.label;
      generation = (purge p.instance_id d).next_generation;
      connected_at_ms = connected_at_ms;
      version_skew = skew;
    } in
    (
      insert-Named (λ (c : BrowserClient). c.id) client (purge p.instance_id d).browsers
          (rw browsers h),
      ground arith,
    )

-- A handshake whose reply cannot be written leaves its client registered: its sink is closed, so
-- that nothing can be sent to it, but no tick of the reaper, however late and with whatever time
-- limit, takes it out.
pub unanswered_handshake_sticks :
    (p : HandshakeParams) (skew : Bool) (connected_at_ms now timeout later : ℕ) (d : Daemon)
    → Named (λ (c : BrowserClient). c.id) d.browsers
    → IsSound d.sessions
    → let (d', g) = connect p skew connected_at_ms now d in
      let d'' = (reply_handshake false g d').0 in
      ((d''.cell g).sink_open ≡ false)
      × ((c : BrowserClient) × (c.generation ≡ g)
          × (lookup p.instance_id (reap timeout later d'').browsers ≡ some c))
unfolding reply_handshake close_sink is_stale
unanswered_handshake_sticks p skew connected_at_ms now timeout later d h sound =
    let (d', g) = connect p skew connected_at_ms now d in
    let d'' = (reply_handshake false g d').0 in
    let c = connect-IsConnected p skew connected_at_ms now d sound in
    let (named, silent) = connect-Named p skew connected_at_ms now d h in
    let client = c.client in
    let at = c.generation in
    let stands = c.registered in
    (
      ground arith,
      (client, at, ground (arith, reap-browsers timeout later p.instance_id d'' named)),
    )
