-- ===== src/Daemon/Process/Starts.antt =====
-- Which daemon a start finds.
use browser_skill.Prelude.{
  ℕ, ◌≡◌, ◌⊎◌, inl, inr, refl, Bool, true, false, ◌||◌, Option, none, some, List, [], ◌∷◌, arith,
  Bool-cases, if◌then◌else◌,
}
use browser_skill.Daemon.Process.{
  StartArgs, Status, InfoRead, absent, unreadable, info, Look, valid, confirmed,
  verified_existing_daemon, validate_existing_start, wait_for_ready, fixed_port, asks_other,
  config_of, start_failed, Started, runs_here, already_running, ready, run_start,
}
use browser_skill.Daemon.Process.Control.{IsVerified, confirmed-some, look}

abbrev pub Any : (Look → Type 0) → List Look → Type 0
Any P [] = ⊥
Any P (l ∷ ls) = P l ⊎ Any P ls

-- The daemon that a start has found: one of the looks has verified it.
abbrev pub IsFound : List Look → Status → Type 0
IsFound ls s = Any (λ l. (pid : ℕ) × IsVerified l pid s) ls

-- It has the port that was asked for.
abbrev pub HasPort : Option ℕ → Status → Type 0
HasPort none s = Unit
HasPort (some p) s = s.ws_port ≡ p

valid_at :
    (read : InfoRead) (alive : Bool) (confirm : Option Status) (pid : ℕ) (s : Status)
    → valid alive read ≡ info pid
    → confirmed pid confirm ≡ some s
    → IsVerified (look read alive confirm) pid s
unfolding valid
valid_at (info p) true confirm pid s e c =
    let (answers, same) = confirmed-some pid confirm s c in
    record { read = e; alive = refl; answers = answers; same = same }
valid_at (info p) false confirm pid s e c = absurd (cc)
valid_at absent alive confirm pid s e c = absurd (cc)
valid_at unreadable alive confirm pid s e c = absurd (cc)

asks_other-HasPort : (p : Option ℕ) (s : Status) → asks_other p s.ws_port ≡ false → HasPort p s
unfolding asks_other
asks_other-HasPort none s e = tt
asks_other-HasPort (some p) s e = ground arith

-- One look of the loop, given what the rest of the loop comes to.
IsFound-later :
    (expected : Option ℕ) (l : Look) (ls : List Look) (rest : Option Status) (s : Status)
    (r : InfoRead)
    → valid l.alive l.read ≡ r
    → (rest ≡ some s → IsFound ls s × HasPort expected s)
    → (let end : Option Status = elim r [
      | unreadable ↦ none
      | absent ↦ rest
      | info pid ↦ elim (confirmed pid l.confirm) [
        | none ↦ rest
        | some t ↦ if asks_other expected t.ws_port then none else some t
      ]
    ] in
        end)
      ≡ some s
    → IsFound (l ∷ ls) s × HasPort expected s
IsFound-later expected l ls rest s unreadable v ih h = absurd (cc)
IsFound-later expected l ls rest s absent v ih h = (inr (ih h).0, (ih h).1)
IsFound-later expected l ls rest s (info pid) v ih h = from (confirmed pid l.confirm) refl h
  where
    from :
        (c : Option Status)
        → confirmed pid l.confirm ≡ c
        → (let end : Option Status = elim c [
          | none ↦ rest
          | some t ↦ if asks_other expected t.ws_port then none else some t
        ] in
            end)
          ≡ some s
        → IsFound (l ∷ ls) s × HasPort expected s
    from none e k = (inr (ih k).0, (ih k).1)
    from (some t) e k = elim (Bool-cases (asks_other expected t.ws_port)) [
      | inl other ↦ absurd (ground arith)
      | inr fits ↦
          let same : t ≡ s = ground arith in
          rw (← same) (
            inl (pid, valid_at l.read l.alive l.confirm pid t v e),
            asks_other-HasPort expected t fits,
          )
    ]

wait-IsFound :
    (expected : Option ℕ) (looks : List Look) (s : Status)
    → wait_for_ready expected looks ≡ some s
    → IsFound looks s × HasPort expected s
unfolding wait_for_ready
wait-IsFound expected [] s e = absurd (cc)
wait-IsFound expected (l ∷ ls) s e =
    IsFound-later expected l ls (wait_for_ready expected ls) s (valid l.alive l.read) refl
      (wait-IsFound expected ls s) e

existing-IsFound :
    (first : Look) (s : Status)
    → verified_existing_daemon first ≡ some (some s)
    → (pid : ℕ) × IsVerified first pid s
unfolding verified_existing_daemon
existing-IsFound first s e = from (valid first.alive first.read) refl e
  where
    from :
        (r : InfoRead)
        → valid first.alive first.read ≡ r
        → (let end : Option (Option Status) = elim r [
          | unreadable ↦ none
          | absent ↦ some none
          | info pid ↦ some (confirmed pid first.confirm)
        ] in
            end)
          ≡ some (some s)
        → (pid : ℕ) × IsVerified first pid s
    from unreadable v h = absurd (cc)
    from absent v h = absurd (cc)
    from (info pid) v h =
        (pid, valid_at first.read first.alive first.confirm pid s v (ground arith))

validate-HasPort :
    (args : StartArgs) (s : Status) → validate_existing_start args s ≡ true → HasPort args.port s
unfolding validate_existing_start
validate-HasPort args s e = asks_other-HasPort args.port s (ground arith)

-- What a start in the background has found, where it succeeds.
abbrev pub Serves : StartArgs → Look → List Look → Started → Type 0
Serves args first looks (already_running s) =
    ((pid : ℕ) × IsVerified first pid s) × HasPort args.port s
Serves args first looks (ready s) = IsFound looks s × HasPort (fixed_port args.port) s
Serves args first looks _ = Unit

-- A start in the background that succeeds has verified a daemon, before or after its spawn, and this
-- daemon has the port that was asked for (any, if a new one was asked to have port 0).
pub run_start-Serves :
    (args : StartArgs) (daemonized_child : Bool) (first : Look) (spawns : Bool) (looks : List Look)
    → Serves args first looks (run_start args daemonized_child first spawns looks)
unfolding run_start
run_start-Serves args daemonized_child first spawns looks =
    from (args.foreground || daemonized_child) (verified_existing_daemon first) refl spawns
  where
    waited : (o : Option Status) → Started
    waited o = elim o [ none ↦ start_failed | some s ↦ ready s ]

    at_wait :
        (o : Option Status)
        → wait_for_ready (fixed_port args.port) looks ≡ o
        → Serves args first looks (waited o)
    at_wait none w = tt
    at_wait (some s) w = wait-IsFound (fixed_port args.port) looks s w

    at_existing :
        (s : Status) (b : Bool)
        → validate_existing_start args s ≡ b
        → verified_existing_daemon first ≡ some (some s)
        → Serves args first looks (if b then already_running s else start_failed)
    at_existing s false b e = tt
    at_existing s true b e = (existing-IsFound first s e, validate-HasPort args s b)

    from :
        (here : Bool) (found : Option (Option Status))
        → verified_existing_daemon first ≡ found
        → (spawns : Bool)
        → let end : Started = if here then runs_here (config_of args) else elim found [
          | none ↦ start_failed
          | some (some s) ↦
              if validate_existing_start args s then already_running s else start_failed
          | some none ↦
              if spawns then waited (wait_for_ready (fixed_port args.port) looks) else start_failed
        ] in
          Serves args first looks end
    from true found e spawns = tt
    from false none e spawns = tt
    from false (some none) e false = tt
    from false (some none) e true = at_wait (wait_for_ready (fixed_port args.port) looks) refl
    from false (some (some s)) e spawns = at_existing s (validate_existing_start args s) refl e
