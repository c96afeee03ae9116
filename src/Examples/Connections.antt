-- ===== src/Examples/Connections.antt =====
-- Runs of an extension's connection.
use browser_skill.Prelude.{◌≡◌, refl, false, none, some, [], ◌∷◌, String, arith, ite, text_discrete}
use browser_skill.Map.{lookup, Named}
use browser_skill.Protocol.Method
use browser_skill.Protocol.Frame.{Value, event, EventKind}
use browser_skill.Daemon.Browsers.{BrowserClient}
use browser_skill.Daemon.Inflight.Cancels
use browser_skill.Daemon.Ws.{HandshakeParams, connect, disconnect, reap, reply_handshake, Message}
use browser_skill.Daemon.Ws.Purge.{IsPurged}
use browser_skill.Daemon.Ws.Connection.{IsIntact, reconnect_survives, disconnect-IsPurged}
use browser_skill.Daemon.Ws.Liveness.{unanswered_handshake_sticks}
use browser_skill.Examples.SessionRegistry.{sessions-IsSound}
use browser_skill.Examples.{daemon, client_one, browsers}

abbrev params : HandshakeParams
params = record {
  version = "1.0.1";
  protocol_version = b'1' ∷ b'.' ∷ b'0' ∷ [];
  instance_id = "b1";
  browser_name = "Chrome";
  browser_version = "141";
  label = "work";
  min_compatible_protocol = none;
}

reconnect_survives_example :
    let d' = (connect params false 9 9 daemon).0 in IsIntact 0 d' (disconnect "b1" 0 d')
reconnect_survives_example =
    reconnect_survives params false 9 9 0 daemon sessions-IsSound (omega arith)

disconnect-IsPurged_example :
    let d' = disconnect "b1" 0 daemon in
    ((k : String)
      → lookup k d'.browsers ≡ ite (text_discrete "b1" k) none (lookup k daemon.browsers))
    × IsPurged "b1" daemon d'
unfolding lookup text_discrete
disconnect-IsPurged_example = disconnect-IsPurged "b1" daemon client_one sessions-IsSound refl

clients-Named : Named (λ (c : BrowserClient). c.id) browsers
unfolding lookup text_discrete
clients-Named = (refl, refl, (refl, refl, tt))

unanswered_handshake_sticks_example :
    let result = connect params false 9 9 daemon in
    let d'' = (reply_handshake false result.1 result.0).0 in
    ((d''.cell result.1).sink_open ≡ false)
    × ((c : BrowserClient) × (c.generation ≡ result.1)
        × (lookup "b1" (reap 60000 90000 d'').browsers ≡ some c))
unanswered_handshake_sticks_example =
    unanswered_handshake_sticks params false 9 9 60000 90000 daemon clients-Named sessions-IsSound

-- The client of the second session claims that the first one's user has interrupted it.
abbrev claim : Message
claim = Message.text (
    some (event (record { event = EventKind.session_user_interrupt; payload = Value.string "s1" })))
