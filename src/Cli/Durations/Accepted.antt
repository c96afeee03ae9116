-- ===== src/Cli/Durations/Accepted.antt =====
-- The daemon's view of the durations that the commands accept.
use browser_skill.Prelude.{ℕ, ◌≤◌, ◌≡◌, refl, ◌⊎◌, inl, inr, some, arith}
use browser_skill.Digits.{u32_max}
use browser_skill.Cli.Targets.{Text}
use browser_skill.Cli.Durations.{
  DurationError, Parsed, parsed, bad, milliseconds, parse_duration_ms, parse_timeout_ms,
}
use browser_skill.Daemon.Times.{within, tool_dispatch_timeout}

Parsed-cases : (x : Parsed) → ((n : ℕ) × (x ≡ parsed n)) ⊎ ((e : DurationError) × (x ≡ bad e))
Parsed-cases (parsed n) = inl (n, refl)
Parsed-cases (bad e) = inr (e, refl)

-- A timeout that a command accepts is the duration that `bsk wait-ms` would read, is positive and fits
-- 32 bits, and the daemon takes it as the tool call's limit, as it is.
pub parse_timeout_ms-within :
    (arg : Text) (ms : ℕ)
    → parse_timeout_ms arg ≡ parsed ms
    → (parse_duration_ms arg ≡ parsed ms)
      × (1 ≤ ms)
      × (ms ≤ u32_max)
      × (tool_dispatch_timeout (some (some ms)) ≡ within ms)
unfolding parse_timeout_ms parse_duration_ms tool_dispatch_timeout
parse_timeout_ms-within arg ms e = elim (Parsed-cases (milliseconds arg)) [
  | inl (n, read) ↦ (ground arith, ground arith, ground arith, ground arith)
  | inr (x, failed) ↦ absurd (ground arith)
]

-- Each duration in these bounds is accepted as a timeout.
pub parse_timeout_ms_complete :
    (arg : Text) (ms : ℕ)
    → parse_duration_ms arg ≡ parsed ms
    → 1 ≤ ms
    → ms ≤ u32_max
    → parse_timeout_ms arg ≡ parsed ms
unfolding parse_timeout_ms parse_duration_ms
parse_timeout_ms_complete arg ms e low high = ground arith
