-- ===== src/Daemon/System/Peopled.antt =====
-- The connected clients and the owned sessions through the handlers of connections.
use browser_skill.Prelude.{ℕ, ◌≡◌, refl, inl, inr, Bool, true, false, Option, List, [], ◌∷◌, String}
use browser_skill.Map.{remove}
use browser_skill.Protocol.Frame.{Value, RequestFrame}
use browser_skill.Daemon.Browsers.{BrowserClient, stale_browsers}
use browser_skill.Daemon.State.{Daemon}
use browser_skill.Daemon.Ws.{
  HandshakeParams, connect, begin_connection, reply_handshake, disconnect, reap, reap_each,
  close_sink,
}
use browser_skill.Daemon.Ws.Purge.{purge_lem}
use browser_skill.Daemon.System.Members.{IsMember, leave-IsMember, join-IsMember}
use browser_skill.Daemon.System.Registries.{begin_connection-cases, leave, leave-cases}

abbrev pub IsPeopled : Daemon → Type 0
IsPeopled d = IsMember d.browsers d.next_generation d.sessions

-- The clients, the generations and the sessions are left alone.
pub record IsCalm (d d' : Daemon) : Type 0 where
  pub browsers : d'.browsers ≡ d.browsers
  pub next_generation : d'.next_generation ≡ d.next_generation
  pub sessions : d'.sessions ≡ d.sessions

pub calm-IsPeopled : {d d' : Daemon} → IsCalm d d' → IsPeopled d → IsPeopled d'
calm-IsPeopled c m = rw (c.browsers, c.next_generation, c.sessions) m

connect-IsPeopled :
    (p : HandshakeParams) (skew : Bool) (at now : ℕ) (d : Daemon)
    → IsPeopled d
    → IsPeopled (connect p skew at now d).0
unfolding connect
connect-IsPeopled p skew at now d m =
    rw (purge_lem p.instance_id d) (join-IsMember _ d.browsers d.next_generation d.sessions refl m)

pub begin_connection-IsPeopled :
    (decode : Value → Option HandshakeParams) (frame : RequestFrame) (at now : ℕ) (d : Daemon)
    → IsPeopled d
    → IsPeopled (begin_connection decode frame at now d).0
begin_connection-IsPeopled decode frame at now d m =
    elim (begin_connection-cases decode frame at now d) [
      | inl e ↦ rw e m
      | inr (p, skew, e) ↦ rw e (connect-IsPeopled p skew at now d m)
    ]

pub reply_handshake-IsPeopled :
    (written : Bool) (g : ℕ) (d : Daemon) → IsPeopled d → IsPeopled (reply_handshake written g d).0
unfolding reply_handshake close_sink
reply_handshake-IsPeopled true g d m = m
reply_handshake-IsPeopled false g d m = m

leave-IsPeopled : (id : String) (g : ℕ) (d : Daemon) → IsPeopled d → IsPeopled (leave id g d)
leave-IsPeopled id g d m = elim (leave-cases id g d) [
  | inl e ↦ rw e m
  | inr e ↦
      rw (e, purge_lem id (record d { browsers = remove id d.browsers }))
        (leave-IsMember id d.browsers d.next_generation d.sessions m)
]

pub disconnect-IsPeopled :
    (id : String) (g : ℕ) (d : Daemon) → IsPeopled d → IsPeopled (disconnect id g d)
unfolding disconnect close_sink
disconnect-IsPeopled id g d m = leave-IsPeopled id g d m

reap_each-IsPeopled :
    (cs : List BrowserClient) (d : Daemon) → IsPeopled d → IsPeopled (reap_each cs d)
unfolding reap_each
reap_each-IsPeopled [] d m = m
reap_each-IsPeopled (c ∷ cs) d m =
    reap_each-IsPeopled cs (leave c.id c.generation d) (leave-IsPeopled c.id c.generation d m)

pub reap-IsPeopled : (timeout now : ℕ) (d : Daemon) → IsPeopled d → IsPeopled (reap timeout now d)
unfolding reap
reap-IsPeopled timeout now d m =
    reap_each-IsPeopled (stale_browsers d.cell timeout now d.browsers) d m
