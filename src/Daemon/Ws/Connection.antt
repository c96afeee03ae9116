-- ===== src/Daemon/Ws/Connection.antt =====
-- Connecting, reconnecting under the same id, and disconnecting.
use browser_skill.Prelude.{
  ℕ, ◌<◌, ◌≡◌, refl, ◌≢◌, Bool, true, none, some, [], String, arith, ite, text_discrete,
}
use browser_skill.Map.{lookup, remove, lookup-insert, lookup-remove}
use browser_skill.Daemon.Browsers.{BrowserClient, remove_if_generation_matches, insert_client}
use browser_skill.Daemon.Sessions.Registry.{IsSound}
use browser_skill.Daemon.State.{Daemon}
use browser_skill.Daemon.Ws.{HandshakeParams, connect, disconnect, purge, close_sink}
use browser_skill.Daemon.Ws.Purge.{IsPurged, purge_lem, purge-IsPurged, purge-IsSound}

-- What a purge leaves of the rest of the daemon.
pub purge-kept :
    (browser_id : String) (d : Daemon)
    → ((purge browser_id d).browsers ≡ d.browsers)
      × ((purge browser_id d).cell ≡ d.cell)
      × ((purge browser_id d).next_generation ≡ d.next_generation)
purge-kept browser_id d = rw (purge_lem browser_id d) (refl, refl, refl)

-- A connection under an id: one client of a new generation stands there, with an empty cell and an
-- open sink, the other clients and their cells are as they were, and no session is left from an
-- earlier connection of the id.
pub record IsConnected (p : HandshakeParams) (g : ℕ) (d d' : Daemon) : Type 0 where
  pub client : BrowserClient
  pub registered : lookup p.instance_id d'.browsers ≡ some client
  pub generation : client.generation ≡ g
  pub is_new : g ≡ d.next_generation
  pub unused : g < d'.next_generation
  pub sink_open : (d'.cell g).sink_open ≡ true
  pub nothing_sent : (d'.cell g).sent ≡ []
  pub nothing_awaited : (d'.cell g).waiters ≡ []
  pub other_clients : (k : String) → p.instance_id ≢ k → lookup k d'.browsers ≡ lookup k d.browsers
  pub other_cells : (h : ℕ) → g ≢ h → d'.cell h ≡ d.cell h
  pub sessions : IsPurged p.instance_id d d'
  pub sound : IsSound d'.sessions

-- An accepted extension is connected as a new client, and whatever an earlier connection of its id
-- has left is purged: its sessions with their queues and marks, and only those.
pub connect-IsConnected :
    (p : HandshakeParams) (skew : Bool) (connected_at_ms now : ℕ) (d : Daemon)
    → IsSound d.sessions
    → let (d', g) = connect p skew connected_at_ms now d in IsConnected p g d d'
unfolding connect insert_client
connect-IsConnected p skew connected_at_ms now d h =
    let (browsers, cell, next) = purge-kept p.instance_id d in
    let purged = purge-IsPurged p.instance_id d h in
    let client : BrowserClient = record {
      id = p.instance_id;
      browser_name = p.browser_name;
      browser_version = p.browser_version;
      extension_version = p.version;
      extension_protocol_version = p.protocol_version;
      label = p.label;
      generation = (purge p.instance_id d).next_generation;
      connected_at_ms = connected_at_ms;
      version_skew = skew;
    } in
    record {
      client = client;
      registered = ground (
        arith,
        lookup-insert p.instance_id p.instance_id client (purge p.instance_id d).browsers,
      );
      generation = refl;
      is_new = next;
      unused = ground arith;
      sink_open = ground arith;
      nothing_sent = ground arith;
      nothing_awaited = ground arith;
      other_clients = λ k n.
          ground (
            arith,
            browsers,
            lookup-insert k p.instance_id client (purge p.instance_id d).browsers,
          );
      other_cells = λ k n. ground (arith, cell);
      sessions = record {
        session = purged.session;
        activity = purged.activity;
        queue = purged.queue;
        interrupt = purged.interrupt;
        inflight = purged.inflight;
      };
      sound = purge-IsSound p.instance_id d h;
    }

-- What the cleanup of a connection that another has replaced leaves alone: everything but the cell of
-- its own generation.
pub record IsIntact (g : ℕ) (d d' : Daemon) : Type 0 where
  pub browsers : d'.browsers ≡ d.browsers
  pub sessions : d'.sessions ≡ d.sessions
  pub tool_queues : d'.tool_queues ≡ d.tool_queues
  pub interrupts : d'.session_interrupts ≡ d.session_interrupts
  pub inflight : d'.tool_inflight ≡ d.tool_inflight
  pub cells : (h : ℕ) → g ≢ h → d'.cell h ≡ d.cell h

disconnect_replaced :
    (id : String) (g : ℕ) (d : Daemon) (c : BrowserClient)
    → lookup id d.browsers ≡ some c
    → g ≢ c.generation
    → IsIntact g d (disconnect id g d)
unfolding disconnect remove_if_generation_matches close_sink
disconnect_replaced id g d c e n = record {
  browsers = ground arith;
  sessions = ground arith;
  tool_queues = ground arith;
  interrupts = ground arith;
  inflight = ground arith;
  cells = λ h m. ground arith;
}

-- When an extension has reconnected under its id, the late cleanup of any earlier connection of that
-- id is harmless: the new client stays registered, and sessions, queues, marks, running calls and the
-- cells of the other connections stay as they are.
pub reconnect_survives :
    (p : HandshakeParams) (skew : Bool) (connected_at_ms now g : ℕ) (d : Daemon)
    → IsSound d.sessions
    → g < d.next_generation
    → let d' = (connect p skew connected_at_ms now d).0 in
      IsIntact g d' (disconnect p.instance_id g d')
reconnect_survives p skew connected_at_ms now g d s h =
    let c = connect-IsConnected p skew connected_at_ms now d s in
    let same = c.generation in
    let is_new = c.is_new in
    disconnect_replaced p.instance_id g (connect p skew connected_at_ms now d).0 c.client
      c.registered (ground arith)

-- The end of a browser's current connection unregisters that browser alone, and purges its sessions
-- with their queues and marks, and only those.
pub disconnect-IsPurged :
    (id : String) (d : Daemon) (c : BrowserClient)
    → IsSound d.sessions
    → lookup id d.browsers ≡ some c
    → let d' = disconnect id c.generation d in
      ((k : String) → lookup k d'.browsers ≡ ite (text_discrete id k) none (lookup k d.browsers))
      × IsPurged id d d'
unfolding disconnect remove_if_generation_matches close_sink
disconnect-IsPurged id d c h e =
    let d₁ = record d { browsers = remove id d.browsers } in
    let purged = purge-IsPurged id d₁ h in
    let (browsers, cell, next) = purge-kept id d₁ in
    (
      λ k. ground (arith, lookup-remove k id d.browsers),
      record {
        session = λ k. ground (arith, purged.session k);
        activity = λ k. ground (arith, purged.activity k);
        queue = λ k. ground (arith, purged.queue k);
        interrupt = λ k. ground (arith, purged.interrupt k);
        inflight = ground (arith, purged.inflight);
      },
    )
