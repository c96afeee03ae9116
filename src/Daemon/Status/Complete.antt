-- ===== src/Daemon/Status/Complete.antt =====
-- What the status and the lists of a running daemon contain.
use browser_skill.Prelude.{
  ◌≡◌, refl, ◌∙◌, ap, true, List, [], ◌∷◌, map, String, arith, All, is_some, keep,
}
use browser_skill.Map.{lookup, values, contains, passes, All-values, contains-values, contains-keep}
use browser_skill.Daemon.Browsers.{BrowserClient}
use browser_skill.Daemon.Browsers.Select.{id_of}
use browser_skill.Daemon.Sessions.{Sessions}
use browser_skill.Daemon.State.{Daemon}
use browser_skill.Daemon.Sessions.Registry.{id_of as session_id_of}
use browser_skill.Daemon.System.Peopled.{IsPeopled}
use browser_skill.Daemon.System.{IsReachable}
use browser_skill.Daemon.System.Reachable.{reachable-IsWellFormed}
use browser_skill.Daemon.Status.{
  DaemonStatus, walk, session_entries, session_entry, browser_entry, skew_entry, snapshot_with,
}

-- The ids of the clients that a walk lists.
listed :
    (t : DaemonStatus) (r : Sessions) (cs : List BrowserClient)
    → map (λ e. e.instance_id) (walk t r cs).0 ≡ map id_of cs
unfolding walk browser_entry
listed t r [] = refl
listed t r (c ∷ cs) = ap (λ ids. c.id ∷ ids) (listed t r cs)

-- The ids of the entries of another protocol version.
skewed :
    (t : DaemonStatus) (r : Sessions) (cs : List BrowserClient)
    → map (λ e. e.instance_id) (walk t r cs).1 ≡ map id_of (keep (λ c. c.version_skew) cs)
unfolding walk skew_entry
skewed t r [] = refl
skewed t r (c ∷ cs) = ground (arith, skewed t r cs)

All-map :
    {A B : Type 0} (P : B → Type 0) (f : A → B) (xs : List A)
    → All (λ x. P (f x)) xs
    → All P (map f xs)
All-map P f [] h = tt
All-map P f (x ∷ xs) h = (h.0, All-map P f xs h.1)

sessions_owned :
    (t : DaemonStatus) (d : Daemon)
    → IsPeopled d
    → All
        (λ e.
          contains e.browser_instance_id
            (map (λ b. b.instance_id) (walk t d.sessions (values d.browsers)).0)
          ≡ true)
        (session_entries d.sessions)
unfolding session_entries session_entry
sessions_owned t d people = All-map _ session_entry (values d.sessions.inner) (
    All-values session_id_of
      (λ s.
        contains s.browser_id (map (λ b. b.instance_id) (walk t d.sessions (values d.browsers)).0)
        ≡ true)
      d.sessions.inner people.sessions.named
      (λ k s e.
        ap (contains s.browser_id) (listed t d.sessions (values d.browsers))
        ∙ contains-values id_of s.browser_id d.browsers people.clients
        ∙ people.owners k s e))

-- In every state that the daemon can come to, its status lists exactly the connected clients, and
-- names as those of another protocol version exactly the clients that were marked so; and each session
-- that it lists belongs to a client that it lists.
pub snapshot_with-IsReachable :
    (t : DaemonStatus) (d : Daemon) (id : String)
    → IsReachable d
    → let status = snapshot_with t d in
      (contains id (map (λ e. e.instance_id) status.browsers) ≡ is_some (lookup id d.browsers))
      × (contains id (map (λ e. e.instance_id) status.version_skew_browsers)
          ≡ passes (λ c. c.version_skew) (lookup id d.browsers))
      × All
          (λ e. contains e.browser_instance_id (map (λ b. b.instance_id) status.browsers) ≡ true)
          status.sessions
unfolding snapshot_with
snapshot_with-IsReachable t d id r =
    let people = (reachable-IsWellFormed r).people in
    (
      ap (contains id) (listed t d.sessions (values d.browsers))
          ∙ contains-values id_of id d.browsers people.clients,
      ap (contains id) (skewed t d.sessions (values d.browsers))
          ∙ contains-keep id_of (λ c. c.version_skew) id d.browsers people.clients,
      sessions_owned t d people,
    )
