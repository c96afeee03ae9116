-- ===== src/Daemon/Inflight/Race/Order.antt =====
-- The order of the frames that one job sends.
use browser_skill.Prelude.{
  ◌≡◌, refl, Bool, true, false, Option, none, some, String, arith, List, [], ◌∷◌, ◌++◌, Bool-cases,
  inl, inr,
}
use browser_skill.Daemon.Inflight.{CancelReason}
use browser_skill.Daemon.Inflight.Race.{
  Sent, request, cancel_request, Race, Event, promote, cancel, forward, owed, forward_next, step,
  run, start,
}

abbrev AllCancels : String → List Sent → Type 0
AllCancels ws [] = Unit
AllCancels ws (request v ∷ rest) = ⊥
AllCancels ws (cancel_request v ∷ rest) = (v ≡ ws) × AllCancels ws rest

abbrev AllAre : String → List String → Type 0
AllAre ws [] = Unit
AllAre ws (v ∷ rest) = (v ≡ ws) × AllAre ws rest

-- What was sent for one job: nothing, or its request and then only cancels of that request.
abbrev pub IsOrdered : List Sent → Type 0
IsOrdered [] = Unit
IsOrdered (request ws ∷ rest) = AllCancels ws rest
IsOrdered (cancel_request ws ∷ rest) = ⊥

-- The three phases of a job.
data Phase (r : Race) : Type 0 where
  queued :
      r.attempted ≡ false → r.entry.browser_id ≡ none → r.wire ≡ [] → r.to_forward ≡ [] → Phase r
  stopped :
      r.attempted ≡ true → r.entry.browser_id ≡ none → r.wire ≡ [] → r.to_forward ≡ [] → Phase r
  forwarded :
      (browser ws : String) (cancels : List Sent)
      → r.attempted ≡ true
      → r.entry.browser_id ≡ some browser
      → r.entry.ws_rpc_id ≡ some ws
      → r.wire ≡ request ws ∷ cancels
      → AllCancels ws cancels
      → AllAre ws r.to_forward
      → Phase r

start-Phase : (sid : String) → Phase (start sid)
unfolding start
start-Phase sid = queued refl refl refl refl

AllCancels-snoc :
    (ws v : String) (cs : List Sent)
    → AllCancels ws cs
    → v ≡ ws
    → AllCancels ws (cs ++ cancel_request v ∷ [])
AllCancels-snoc ws v [] h e = (e, tt)
AllCancels-snoc ws v (request u ∷ cs) h e = h
AllCancels-snoc ws v (cancel_request u ∷ cs) h e = (h.0, AllCancels-snoc ws v cs h.1 e)

AllAre-append :
    (ws : String) (as_ bs : List String) → AllAre ws as_ → AllAre ws bs → AllAre ws (as_ ++ bs)
AllAre-append ws [] bs h k = k
AllAre-append ws (a ∷ as_) bs h k = (h.0, AllAre-append ws as_ bs h.1 k)

AllAre-nil : (ws : String) (l : List String) → l ≡ [] → AllAre ws l
AllAre-nil ws l e = rw e tt

promote_once :
    (r : Race) (browser ws : String) (sink_open : Bool)
    → r.attempted ≡ true
    → step r (promote browser ws sink_open) ≡ r
unfolding step
promote_once r browser ws sink_open h = ground arith

promote-Phase :
    (r : Race) (browser ws : String) (sink_open : Bool)
    → Phase r
    → Phase (step r (promote browser ws sink_open))
unfolding step
promote-Phase r browser ws true (queued a b w t) = elim (Bool-cases r.entry.is_cancelled) [
  | inl c ↦ stopped (ground arith) (ground arith) (ground arith) (ground arith)
  | inr c ↦
      forwarded browser ws [] (ground arith) (ground arith) (ground arith) (ground arith) tt
        (AllAre-nil ws _ (ground arith))
]
promote-Phase r browser ws false (queued a b w t) =
    stopped (ground arith) (ground arith) (ground arith) (ground arith)
promote-Phase r browser ws sink_open (stopped a b w t) =
    rw (promote_once r browser ws sink_open a) (stopped a b w t)
promote-Phase r browser ws sink_open (forwarded b v cs a j i w c t) =
    rw (promote_once r browser ws sink_open a) (forwarded b v cs a j i w c t)

owed-AllAre :
    (b w : Option String) (ws : String)
    → w ≡ some ws
    → AllAre ws (owed (record { browser_id = b; ws_rpc_id = w }))
unfolding owed
owed-AllAre none w ws e = tt
owed-AllAre (some b) none ws e = tt
owed-AllAre (some b) (some v) ws e = (cc, tt)

cancel-Phase : (r : Race) (reason : CancelReason) → Phase r → Phase (step r (cancel reason))
unfolding step
cancel-Phase r reason (queued a b w t) = queued a b w (ground arith)
cancel-Phase r reason (stopped a b w t) = stopped a b w (ground arith)
cancel-Phase r reason (forwarded b ws cs a j i w c t) =
    forwarded b ws cs a j i w c
      (AllAre-append ws r.to_forward _ t (owed-AllAre r.entry.browser_id r.entry.ws_rpc_id ws i))

forward_next-AllCancels :
    (sink_open : Bool) (ws : String) (l : List String) (cs : List Sent)
    → AllAre ws l
    → AllCancels ws cs
    → (cs' : List Sent) × ((forward_next sink_open l (request ws ∷ cs)).0 ≡ request ws ∷ cs')
      × AllCancels ws cs'
      × AllAre ws (forward_next sink_open l (request ws ∷ cs)).1
unfolding forward_next
forward_next-AllCancels sink_open ws [] cs h c = (cs, refl, c, tt)
forward_next-AllCancels true ws (v ∷ rest) cs h c =
    (cs ++ cancel_request v ∷ [], refl, AllCancels-snoc ws v cs c h.0, h.1)
forward_next-AllCancels false ws (v ∷ rest) cs h c = (cs, refl, c, h.1)

forward-Phase : (r : Race) (sink_open : Bool) → Phase r → Phase (step r (forward sink_open))
unfolding step forward_next
forward-Phase r sink_open (queued a b w t) = queued a b (ground arith) (ground arith)
forward-Phase r sink_open (stopped a b w t) = stopped a b (ground arith) (ground arith)
forward-Phase r sink_open (forwarded b ws cs a j i w c t) =
    let (cs', e, c', t') = forward_next-AllCancels sink_open ws r.to_forward cs t c in
    forwarded b ws cs' a j i (rw (w, forward_next) e) c' (rw (w, forward_next) t')

step-Phase : (r : Race) (e : Event) → Phase r → Phase (step r e)
step-Phase r (promote browser ws sink_open) p = promote-Phase r browser ws sink_open p
step-Phase r (cancel reason) p = cancel-Phase r reason p
step-Phase r (forward sink_open) p = forward-Phase r sink_open p

run-Phase : (r : Race) (es : List Event) → Phase r → Phase (run r es)
unfolding run
run-Phase r [] p = p
run-Phase r (e ∷ es) p = run-Phase (step r e) es (step-Phase r e p)

Phase-IsOrdered : (r : Race) → Phase r → IsOrdered r.wire
Phase-IsOrdered r (queued a b w t) = rw w tt
Phase-IsOrdered r (stopped a b w t) = rw w tt
Phase-IsOrdered r (forwarded b ws cs a j i w c t) = rw w c

-- Whatever the schedule of the promotion, the cancels and their forwards, the browser's sink gets
-- either nothing for the job, or its request first and then only cancels of that same request.
pub run-IsOrdered : (sid : String) (es : List Event) → IsOrdered (run (start sid) es).wire
run-IsOrdered sid es = Phase-IsOrdered _ (run-Phase (start sid) es (start-Phase sid))

-- A job that was cancelled before its request was sent.
record IsDoomed (r : Race) : Type 0 where
  marked : r.entry.is_cancelled ≡ true
  unsent : r.wire ≡ []
  unowed : r.to_forward ≡ []
  no_browser : r.entry.browser_id ≡ none

step-IsDoomed : (r : Race) (e : Event) → IsDoomed r → IsDoomed (step r e)
unfolding step
step-IsDoomed r (promote browser ws true) d = ground arith
step-IsDoomed r (promote browser ws false) d = ground arith
step-IsDoomed r (cancel reason) d = ground arith
step-IsDoomed r (forward sink_open) d = ground arith

run-IsDoomed : (r : Race) (es : List Event) → IsDoomed r → IsDoomed (run r es)
unfolding run
run-IsDoomed r [] d = d
run-IsDoomed r (e ∷ es) d = run-IsDoomed (step r e) es (step-IsDoomed r e d)

cancel-IsDoomed :
    (r : Race) (reason : CancelReason)
    → Phase r
    → r.attempted ≡ false
    → IsDoomed (step r (cancel reason))
unfolding step
cancel-IsDoomed r reason (queued a b w t) h = ground arith
cancel-IsDoomed r reason (stopped a b w t) h = ground arith
cancel-IsDoomed r reason (forwarded b ws cs a j i w c t) h = ground arith

-- If a cancel lands before the worker has tried to promote the job, then no frame is ever sent for
-- the job, whatever follows.
pub cancel_first_sends_nothing :
    (sid : String) (before after : List Event) (reason : CancelReason)
    → (run (start sid) before).attempted ≡ false
    → (run (step (run (start sid) before) (cancel reason)) after).wire ≡ []
cancel_first_sends_nothing sid before after reason h =
    (run-IsDoomed _ after
      (cancel-IsDoomed _ reason (run-Phase (start sid) before (start-Phase sid)) h)).unsent

-- The WS id of the request in the sink, if one was sent.
abbrev pub sent_id : List Sent → List String
sent_id [] = []
sent_id (request ws ∷ rest) = ws ∷ []
sent_id (cancel_request ws ∷ rest) = []

Phase-owed :
    (r : Race) (reason : CancelReason)
    → Phase r
    → (step r (cancel reason)).to_forward ≡ r.to_forward ++ sent_id r.wire
unfolding step
Phase-owed r reason (queued a b w t) = ground arith
Phase-owed r reason (stopped a b w t) = ground arith
Phase-owed r reason (forwarded b ws cs a j i w c t) = ground arith

-- A cancel adds a WS cancel to be forwarded exactly when the request has been sent, and it carries
-- the WS id of that request.
pub cancel_follows_request :
    (sid : String) (es : List Event) (reason : CancelReason)
    → let r = run (start sid) es in
      (step r (cancel reason)).to_forward ≡ r.to_forward ++ sent_id r.wire
cancel_follows_request sid es reason =
    Phase-owed _ reason (run-Phase (start sid) es (start-Phase sid))
