-- ===== src/Daemon/Times/Limits.antt =====
-- The bounds of the times that a request may ask for.
use browser_skill.Prelude.{ℕ, ◌≤◌, ◌≡◌, refl, ◌↔◌, ◌⊎◌, inl, inr, Option, none, some, arith}
use browser_skill.Digits.{u32_max}
use browser_skill.Daemon.Times.{
  within, tool_dispatch_timeout, default_tool_timeout, clamp_browser_wait, max_browser_wait,
}

-- The time limit of a tool call is accepted exactly if it is absent, which means thirty seconds, or a
-- number of milliseconds from 1 to the largest of 32 bits, which is then the limit.
pub tool_dispatch_timeout-within :
    (ms : Option (Option ℕ)) (limit : ℕ)
    → tool_dispatch_timeout ms ≡ within limit ↔ (
        ((ms ≡ none) × (limit ≡ default_tool_timeout))
        ⊎ ((ms ≡ some (some limit)) × (1 ≤ limit) × (limit ≤ u32_max)))
unfolding tool_dispatch_timeout
tool_dispatch_timeout-within none limit = (λ e. inl (refl, ground arith), λ h. ground arith)
tool_dispatch_timeout-within (some none) limit = (λ e. absurd (ground arith), λ h. ground arith)
tool_dispatch_timeout-within (some (some ms)) limit =
    (λ e. inr (ground arith, ground arith, ground arith), λ h. ground arith)

-- A wait for a browser that is accepted takes some time, and never longer than a minute or than what
-- was asked for.
pub clamp_browser_wait_bounds :
    (ms limit : ℕ)
    → clamp_browser_wait (some ms) ≡ some limit
    → (1 ≤ limit) × (limit ≤ max_browser_wait) × (limit ≤ ms)
unfolding clamp_browser_wait
clamp_browser_wait_bounds ms limit e = (ground arith, ground arith, ground arith)
