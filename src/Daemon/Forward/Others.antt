-- ===== src/Daemon/Forward/Others.antt =====
-- The cells of the other clients while a job is forwarded.
use browser_skill.Prelude.{ℕ, ◌≡◌, ◌≢◌, String, arith}
use browser_skill.Daemon.Queues.{ToolJob}
use browser_skill.Daemon.State.{Daemon}
use browser_skill.Daemon.Forward.{promote_and_send, plain_send}

pub promote_and_send-others :
    (g h : ℕ) (browser_id rpc_id : String) (a : ℕ) (job : ToolJob) (d : Daemon)
    → g ≢ h
    → (promote_and_send g browser_id a rpc_id job d).0.cell h ≡ d.cell h
unfolding promote_and_send
promote_and_send-others g h browser_id rpc_id a job d n = ground arith

pub plain_send-others :
    (g h : ℕ) (rpc_id : String) (job : ToolJob) (d : Daemon)
    → g ≢ h
    → (plain_send g rpc_id job d).0.cell h ≡ d.cell h
unfolding plain_send
plain_send-others g h rpc_id job d n = ground arith
