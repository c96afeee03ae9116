-- ===== src/Daemon/Process/Control.antt =====
-- Which process a stop signals.
use browser_skill.Prelude.{
  ℕ, ◌≡◌, ◌⊎◌, inl, inr, refl, Bool, true, false, not, Option, none, some, List, [], ◌∷◌, arith,
  All, ◌==◌, Bool-cases, Option-cases, if◌then◌else◌,
}
use browser_skill.Daemon.Process.{
  Status, InfoRead, absent, unreadable, info, Look, confirmed, Signal, term, kill, StopRun,
  run_stop, gone, stop_failed, stopped, killed,
}

-- A look that has found a daemon: daemon.json has the pid of a process that is alive, and the daemon
-- at its socket answers with that pid.
pub record IsVerified (l : Look) (pid : ℕ) (s : Status) : Type 0 where
  pub read : l.read ≡ info pid
  pub alive : l.alive ≡ true
  pub answers : l.confirm ≡ some s
  pub same : s.pid ≡ pid

abbrev pub target : Signal → ℕ
target (term pid) = pid
target (kill pid) = pid

pub confirmed-some :
    (pid : ℕ) (c : Option Status) (s : Status)
    → confirmed pid c ≡ some s
    → (c ≡ some s) × (s.pid ≡ pid)
unfolding confirmed
confirmed-some pid none s e = absurd (cc)
confirmed-some pid (some r) s e = elim (Bool-cases (r.pid == pid)) [
  | inl same ↦ (ground arith, ground arith)
  | inr other ↦ absurd (ground arith)
]

abbrev pub look : InfoRead → Bool → Option Status → Look
look read alive confirm = record { read = read; alive = alive; confirm = confirm }

-- What the signals of a stop, and its removal of daemon.json, rest on.
abbrev pub IsJustified : Look → StopRun → Type 0
IsJustified l run =
    All (λ x. (s : Status) × IsVerified l (target x) s) run.signals
    × ((run.removes_info ≡ false)
        ⊎ (l.alive ≡ false)
        ⊎ ((pid : ℕ) × (rest : List Signal) × (run.signals ≡ term pid ∷ rest)))

run_stop_at :
    (read : InfoRead) (alive : Bool) (confirm : Option Status) (term_sent : Bool)
    (polls : List Bool)
    → IsJustified (look read alive confirm) (run_stop (look read alive confirm) term_sent polls)
unfolding run_stop
run_stop_at absent alive confirm term_sent polls = (tt, inl refl)
run_stop_at unreadable alive confirm term_sent polls = (tt, inl refl)
run_stop_at (info pid) false confirm term_sent polls = (tt, inr (inl refl))
run_stop_at (info pid) true confirm term_sent polls = elim (Option-cases (confirmed pid confirm)) [
  | inl other ↦ rw other (tt, inl refl)
  | inr (s, e) ↦
      let (answers, same) = confirmed-some pid confirm s e in
      let v : IsVerified (look (info pid) true confirm) pid s = record {
        read = refl;
        alive = refl;
        answers = answers;
        same = same;
      } in
      rw e (from s v term_sent (gone polls))
]
  where
    from :
        (s : Status)
        → IsVerified (look (info pid) true confirm) pid s
        → (sent over : Bool)
        → let run : StopRun =
            if not sent
            then record { signals = term pid ∷ []; removes_info = false; end = stop_failed }
            else (if over
                then record { signals = term pid ∷ []; removes_info = true; end = stopped }
                else record {
                  signals = term pid ∷ kill pid ∷ [];
                  removes_info = true;
                  end = killed;
                }) in
          IsJustified (look (info pid) true confirm) run
    from s v false over = (((s, v), tt), inl refl)
    from s v true true = (((s, v), tt), inr (inr (pid, [], refl)))
    from s v true false = (((s, v), ((s, v), tt)), inr (inr (pid, kill pid ∷ [], refl)))

-- A stop sends signals only to the process of a daemon that has been verified: daemon.json has its
-- pid, it is alive, and the daemon at its socket answers with that pid. It deletes daemon.json only
-- if the process named there is dead, or has been sent SIGTERM first.
pub run_stop-IsJustified :
    (l : Look) (term_sent : Bool) (polls : List Bool) → IsJustified l (run_stop l term_sent polls)
run_stop-IsJustified l term_sent polls = run_stop_at l.read l.alive l.confirm term_sent polls
