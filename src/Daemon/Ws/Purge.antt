-- ===== src/Daemon/Ws/Purge.antt =====
-- The purge of a browser's sessions, with their queues and marks.
use browser_skill.Prelude.{◌≡◌, refl, true, false, none, List, [], ◌∷◌, String, arith, map, keep}
use browser_skill.Map.{
  lookup, values, remove_all, lookup-remove_all, contains, contains-keep, passes,
}
use browser_skill.Daemon.Sessions.{Session, owned, purge_browser}
use browser_skill.Daemon.Sessions.Registry
use browser_skill.Daemon.Sessions.Registry.{id_of, purge_browser_lem, purge_browser-IsSound}
use browser_skill.Daemon.Queues.{remove_queue}
use browser_skill.Daemon.Interrupts.{drop_session}
use browser_skill.Daemon.State.{Daemon}
use browser_skill.Daemon.Ws.{purge, drop_each}

drop_each-remove_all :
    (ss : List Session) (d : Daemon)
    → drop_each ss d ≡ record d {
      tool_queues = record (d.tool_queues) {
        queues = remove_all (map id_of ss) d.tool_queues.queues;
      };
      session_interrupts = remove_all (map id_of ss) d.session_interrupts;
    }
unfolding drop_each remove_all remove_queue drop_session
drop_each-remove_all [] d = refl
drop_each-remove_all (s ∷ ss) d = drop_each-remove_all ss (record d {
  tool_queues = (remove_queue s.id d.tool_queues).0;
  session_interrupts = drop_session s.id d.session_interrupts;
})

-- The daemon after a purge, written out.
pub purge_lem :
    (browser_id : String) (d : Daemon)
    → let ids = map id_of (keep (owned browser_id) (values d.sessions.inner)) in
      purge browser_id d ≡ record d {
        sessions = (purge_browser browser_id d.sessions).0;
        tool_queues = record (d.tool_queues) { queues = remove_all ids d.tool_queues.queues };
        session_interrupts = remove_all ids d.session_interrupts;
      }
unfolding purge purge_browser
purge_lem browser_id d =
    drop_each-remove_all (keep (owned browser_id) (values d.sessions.inner))
      (record d { sessions = (purge_browser browser_id d.sessions).0 })

-- A session of the browser is gone with all that is kept for it; of every other id, all is kept.
pub record IsPurged (browser_id : String) (d d' : Daemon) : Type 0 where
  pub session :
      (k : String)
      → lookup k d'.sessions.inner ≡ elim (passes (owned browser_id) (lookup k d.sessions.inner)) [
        | true ↦ none
        | false ↦ lookup k d.sessions.inner
      ]
  pub activity :
      (k : String)
      → lookup k d'.sessions.last_activity
        ≡ elim (passes (owned browser_id) (lookup k d.sessions.inner)) [
          | true ↦ none
          | false ↦ lookup k d.sessions.last_activity
        ]
  pub queue :
      (k : String)
      → lookup k d'.tool_queues.queues
        ≡ elim (passes (owned browser_id) (lookup k d.sessions.inner)) [
          | true ↦ none
          | false ↦ lookup k d.tool_queues.queues
        ]
  pub interrupt :
      (k : String)
      → lookup k d'.session_interrupts
        ≡ elim (passes (owned browser_id) (lookup k d.sessions.inner)) [
          | true ↦ none
          | false ↦ lookup k d.session_interrupts
        ]
  pub inflight : d'.tool_inflight ≡ d.tool_inflight

pub purge-IsPurged :
    (browser_id : String) (d : Daemon)
    → Registry.IsSound d.sessions
    → IsPurged browser_id d (purge browser_id d)
purge-IsPurged browser_id d h =
    let ids = map id_of (keep (owned browser_id) (values d.sessions.inner)) in
    let listed : (k : String)
        → contains k ids ≡ passes (owned browser_id) (lookup k d.sessions.inner) =
      λ k. contains-keep id_of (owned browser_id) k d.sessions.inner h.named in
    rw (purge_lem browser_id d) (record {
      session = λ k. (purge_browser_lem browser_id k d.sessions h).0;
      activity = λ k. (purge_browser_lem browser_id k d.sessions h).1;
      queue = λ k. ground (arith, lookup-remove_all k ids d.tool_queues.queues, listed k);
      interrupt = λ k. ground (arith, lookup-remove_all k ids d.session_interrupts, listed k);
      inflight = refl;
    })

pub purge-IsSound :
    (browser_id : String) (d : Daemon)
    → Registry.IsSound d.sessions
    → Registry.IsSound (purge browser_id d).sessions
purge-IsSound browser_id d h =
    rw (purge_lem browser_id d) (purge_browser-IsSound browser_id d.sessions h)
