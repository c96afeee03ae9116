-- ===== src/Examples/SessionRegistry.antt =====
-- Runs of the session registry.
use browser_skill.Prelude.{◌≡◌, none, some, [], ◌∷◌, List, text_discrete}
use browser_skill.Map.{insert}
use browser_skill.Daemon.Sessions
use browser_skill.Daemon.Sessions.{
  Session, Sessions, owned, insert_session, reserve_id, purge_browser, idle_ids_at,
}
use browser_skill.Daemon.Sessions.Registry.{IsSound, new-IsSound, insert_session-IsSound}
use browser_skill.Daemon.Sessions.Refinement.{
  Op, reserves, touches, commits, purges, gets, replies, specified, replies-new,
}
use browser_skill.Examples.{session_one, session_two, sessions}

pub sessions-IsSound : IsSound sessions
unfolding Sessions.new insert_session insert text_discrete
sessions-IsSound =
    insert_session-IsSound session_two 6 (insert_session session_one 5 Sessions.new)
      (insert_session-IsSound session_one 5 Sessions.new new-IsSound)

abbrev ops : List Op
ops =
    reserves "b1" 64 ("s1" ∷ "s3" ∷ []) 9 9
    ∷ touches "s1" 12
    ∷ commits "s1" (some 7)
    ∷ reserves "b2" 64 ("s1" ∷ "s3" ∷ []) 13 13
    ∷ purges "b1"
    ∷ gets "s1"
    ∷ gets "s3"
    ∷ []

replies-new_example : replies ops Sessions.new ≡ specified ops (λ k. none)
replies-new_example = replies-new ops
