-- ===== src/Daemon/System/Members.antt =====
-- The connected clients and the sessions that they own, and the operations that change them.
use browser_skill.Prelude.{
  ℕ, suc, ◌<◌, ◌≡◌, inl, inr, true, Option, some, List, [], String, arith, Option-cases, is_some,
}
use browser_skill.Map.{
  lookup, remove, lookup-insert, lookup-remove, Named, insert-Named, remove-Named,
}
use browser_skill.Daemon.Browsers.{BrowserClient, Registry, insert_client}
use browser_skill.Daemon.Browsers.Select.{id_of}
use browser_skill.Daemon.Sessions.{
  Session, Sessions, new, owned, touch, remove_session, cancel_reservation, commit_reservation,
  reserve_id, purge_browser,
}
use browser_skill.Daemon.Sessions.Registry.{
  IsSound, new-IsSound, touch-IsSound, remove_session-IsSound, cancel_reservation-IsSound,
  commit_reservation-IsSound, reserve_id-IsSound, purge_browser-IsSound, purge_browser_lem,
  reserve_id-fresh, reserve_id_complete,
}

-- Each client stands under its own id, the generations are allocated and no two clients share one,
-- the session registry is sound, and the owner of each session is connected.
pub record IsMember (b : Registry) (next : ℕ) (r : Sessions) : Type 0 where
  pub clients : Named id_of b
  pub allocated : (k : String) (c : BrowserClient) → lookup k b ≡ some c → c.generation < next
  pub distinct :
      (j k : String) (c c' : BrowserClient)
      → lookup j b ≡ some c
      → lookup k b ≡ some c'
      → c.generation ≡ c'.generation
      → j ≡ k
  pub sessions : IsSound r
  pub owners :
      (k : String) (s : Session)
      → lookup k r.inner ≡ some s
      → is_some (lookup s.browser_id b) ≡ true

pub new-IsMember : IsMember [] 1 new
unfolding new lookup
new-IsMember = record {
  clients = tt;
  allocated = λ k c e. absurd (cc);
  distinct = λ j k c c' d e same. absurd (cc);
  sessions = new-IsSound;
  owners = λ k s e. absurd (cc);
}

-- The sessions change, and each that is left has its owner from before.
pub sessions-IsMember :
    (b : Registry) (next : ℕ) (r r' : Sessions)
    → IsMember b next r
    → IsSound r'
    → ((k : String) (s : Session)
        → lookup k r'.inner ≡ some s
        → is_some (lookup s.browser_id b) ≡ true)
    → IsMember b next r'
sessions-IsMember b next r r' m sound owners = record {
  clients = m.clients;
  allocated = m.allocated;
  distinct = m.distinct;
  sessions = sound;
  owners = owners;
}

touch-owners :
    (sid k : String) (now : ℕ) (b : Registry) (next : ℕ) (r : Sessions) (s : Session)
    → IsMember b next r
    → lookup k (touch sid now r).0.inner ≡ some s
    → is_some (lookup s.browser_id b) ≡ true
unfolding touch
touch-owners sid k now b next r s m e = ground (arith, m.owners k s)

pub touch-IsMember :
    (sid : String) (now : ℕ) (b : Registry) (next : ℕ) (r : Sessions)
    → IsMember b next r
    → IsMember b next (touch sid now r).0
touch-IsMember sid now b next r m =
    sessions-IsMember b next r _ m (touch-IsSound sid now r m.sessions)
      (λ k s. touch-owners sid k now b next r s m)

pub remove_session-IsMember :
    (sid : String) (b : Registry) (next : ℕ) (r : Sessions)
    → IsMember b next r
    → IsMember b next (remove_session sid r).0
unfolding remove_session
remove_session-IsMember sid b next r m =
    sessions-IsMember b next r _ m (remove_session-IsSound sid r m.sessions)
      (λ k s e. ground (arith, m.owners k s, lookup-remove k sid r.inner))

pub cancel_reservation-IsMember :
    (sid : String) (b : Registry) (next : ℕ) (r : Sessions)
    → IsMember b next r
    → IsMember b next (cancel_reservation sid r)
unfolding cancel_reservation
cancel_reservation-IsMember sid b next r m =
    sessions-IsMember b next r _ m (cancel_reservation-IsSound sid r m.sessions)
      (λ k s e. ground (arith, m.owners k s, lookup-remove k sid r.inner))

commit-owners :
    (sid k : String) (window : Option ℕ) (b : Registry) (next : ℕ) (r : Sessions) (s : Session)
    → IsMember b next r
    → lookup k (commit_reservation sid window r).0.inner ≡ some s
    → is_some (lookup s.browser_id b) ≡ true
unfolding commit_reservation
commit-owners sid k window b next r s m e = elim (Option-cases (lookup sid r.inner)) [
  | inl missing ↦ ground (arith, m.owners k s)
  | inr (p, found) ↦
      let own = m.owners sid p found in
      ground
        (arith, m.owners k s, lookup-insert k sid (record p { agent_window_id = window }) r.inner)
]

pub commit_reservation-IsMember :
    (sid : String) (window : Option ℕ) (b : Registry) (next : ℕ) (r : Sessions)
    → IsMember b next r
    → IsMember b next (commit_reservation sid window r).0
commit_reservation-IsMember sid window b next r m =
    sessions-IsMember b next r _ m (commit_reservation-IsSound sid window r m.sessions)
      (λ k s. commit-owners sid k window b next r s m)

reserve_id-owners :
    (k : String) (c : BrowserClient) (attempts : ℕ) (draws : List String) (now_ms now : ℕ)
    (b : Registry) (next : ℕ) (r : Sessions) (s : Session)
    → IsMember b next r
    → lookup c.id b ≡ some c
    → lookup k (reserve_id c.id attempts draws now_ms now r).0.inner ≡ some s
    → is_some (lookup s.browser_id b) ≡ true
reserve_id-owners k c attempts draws now_ms now b next r s m connected e =
    let result = reserve_id c.id attempts draws now_ms now r in
    elim (Option-cases result.1) [
      | inl none_free ↦
          let kept = (reserve_id_complete c.id attempts draws now_ms now r).1 none_free in
          ground (arith, m.owners k s)
      | inr (sid, reserved) ↦
          let at_k = (reserve_id-fresh c.id sid k attempts draws now_ms now r reserved).1 in
          ground (arith, m.owners k s)
    ]

pub reserve_id-IsMember :
    (c : BrowserClient) (attempts : ℕ) (draws : List String) (now_ms now : ℕ) (b : Registry)
    (next : ℕ) (r : Sessions)
    → IsMember b next r
    → lookup c.id b ≡ some c
    → IsMember b next (reserve_id c.id attempts draws now_ms now r).0
reserve_id-IsMember c attempts draws now_ms now b next r m connected =
    sessions-IsMember b next r _ m (reserve_id-IsSound c.id attempts draws now_ms now r m.sessions)
      (λ k s. reserve_id-owners k c attempts draws now_ms now b next r s m connected)

-- A browser leaves, and its sessions with it.
pub leave-IsMember :
    (id : String) (b : Registry) (next : ℕ) (r : Sessions)
    → IsMember b next r
    → IsMember (remove id b) next (purge_browser id r).0
unfolding owned
leave-IsMember id b next r m = record {
  clients = remove-Named id_of id b m.clients;
  allocated = λ k c e. ground (arith, m.allocated k c, lookup-remove k id b);
  distinct = λ j k c c' d e.
      ground (arith, m.distinct j k c c', lookup-remove j id b, lookup-remove k id b);
  sessions = purge_browser-IsSound id r m.sessions;
  owners = λ k s e. owners k s e;
}
  where
    owners :
        (k : String) (s : Session)
        → lookup k (purge_browser id r).0.inner ≡ some s
        → is_some (lookup s.browser_id (remove id b)) ≡ true
    owners k s e = ground (
      arith,
      m.owners k s,
      (purge_browser_lem id k r m.sessions).0,
      lookup-remove s.browser_id id b,
    )

-- A new client replaces the one of its id, whose sessions go.
pub join-IsMember :
    (c : BrowserClient) (b : Registry) (next : ℕ) (r : Sessions)
    → c.generation ≡ next
    → IsMember b next r
    → IsMember (insert_client c b) (suc next) (purge_browser c.id r).0
unfolding insert_client owned
join-IsMember c b next r g m = record {
  clients = insert-Named id_of c b m.clients;
  allocated = λ k c' e. ground (arith, m.allocated k c', lookup-insert k c.id c b);
  distinct = λ j k c₁ c₂ d e. ground (
    arith,
    m.distinct j k c₁ c₂,
    m.allocated j c₁,
    m.allocated k c₂,
    lookup-insert j c.id c b,
    lookup-insert k c.id c b,
  );
  sessions = purge_browser-IsSound c.id r m.sessions;
  owners = λ k s e. ground (
    arith,
    m.owners k s,
    (purge_browser_lem c.id k r m.sessions).0,
    lookup-insert s.browser_id c.id c b,
  );
}
