-- ===== src/Daemon/Ws/Ownership.antt =====
-- An interrupt by the user, reported by the session's owner.
use browser_skill.Prelude.{◌≡◌, some, String}
use browser_skill.Protocol.Method.{Method}
use browser_skill.Daemon.Inflight.Cancels
use browser_skill.Daemon.Sessions.{Session, get}
use browser_skill.Daemon.State.{Daemon}

-- Whether a sender may speak for a session: it owns it, or nobody does.
abbrev pub IsAllowed : String → String → Daemon → Type 0
IsAllowed sender sid d = (s : Session) → get sid d.sessions ≡ some s → s.browser_id ≡ sender
