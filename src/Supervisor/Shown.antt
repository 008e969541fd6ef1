-- ===== src/Supervisor/Shown.antt =====
-- base_rpc/src/stream_supervisor.rs: the state shown is the task's, and a stale reporter is ignored.
use pigs.Prelude.{
  ℕ, ◌≤◌, Bool, true, false, Option, none, some, List, [], ◌∷◌, ◌==◌, if_intro, ◌≡◌, refl, sym, ap,
  ◌∙◌, subst, Bool-cases, inl, inr, arith, ==_iff,
}
use pigs.Supervisor.{
  ConnectionState, idle, connecting, connected, disconnected, stopped, RetryPolicy, permits, Phase,
  starting, running, delayed, ended, Supervisor, spawn, send, finish, saturating_suc, connect,
  start_round, connection_ends, is_current, look, tell, Event, begins, ends, slept, looks, tells,
  cancels, unwatched, leave_delay, advance, step, run,
}

-- The states that may be shown where the task stands, in its generation.
unfoldable pub shown : Phase → (generation : ℕ) → ConnectionState → Bool
shown starting g idle = g == 0
shown starting g (connecting h a) = false
shown starting g (connected h) = false
shown starting g (disconnected h r) = h == g
shown starting g stopped = false
shown running g idle = false
shown running g (connecting h a) = h == g
shown running g (connected h) = h == g
shown running g (disconnected h r) = false
shown running g stopped = false
shown delayed g idle = false
shown delayed g (connecting h a) = false
shown delayed g (connected h) = false
shown delayed g (disconnected h r) = h == g
shown delayed g stopped = false
shown ended g idle = false
shown ended g (connecting h a) = false
shown ended g (connected h) = false
shown ended g (disconnected h r) = false
shown ended g stopped = true

abbrev IsShown : Supervisor → Type 0
IsShown s = s.watched ≡ true → shown s.phase s.generation s.state ≡ true

finish-IsShown : (s : Supervisor) → IsShown (finish s)
unfolding finish send shown
finish-IsShown s watched = rw watched refl

connect-IsShown : (s : Supervisor) → IsShown (connect s)
unfolding connect send shown
connect-IsShown s watched = rw watched (ground arith)

start_round-IsShown : (retry : RetryPolicy) (s : Supervisor) → IsShown (start_round retry s)
unfolding start_round
start_round-IsShown retry s =
    let counted = record s { attempt = saturating_suc 32 s.attempt } in
    if_intro s.cancel IsShown (finish-IsShown s) (
      if_intro (permits retry counted.attempt) IsShown (connect-IsShown counted)
        (finish-IsShown counted))

connection_ends-IsShown : (s : Supervisor) (reason : Option ℕ) → IsShown (connection_ends s reason)
unfolding connection_ends send shown
connection_ends-IsShown s reason =
    if_intro s.cancel IsShown (finish-IsShown s) (λ watched. rw watched (ground arith))

shown-start :
    (g : ℕ) (state : ConnectionState) → shown delayed g state ≡ true → shown starting g state ≡ true
unfolding shown
shown-start g idle h = absurd (ground (arith, h))
shown-start g (connecting k a) h = absurd (ground (arith, h))
shown-start g (connected k) h = absurd (ground (arith, h))
shown-start g (disconnected k r) h = h
shown-start g stopped h = absurd (ground (arith, h))

leave_delay-IsShown : (s : Supervisor) → s.phase ≡ delayed → IsShown s → IsShown (leave_delay s)
unfolding leave_delay
leave_delay-IsShown s at h = if_intro s.cancel IsShown (finish-IsShown s) (λ watched.
    shown-start s.generation s.state
      (subst (λ p. shown p s.generation s.state ≡ true) at (h watched)))

shown-report :
    (p : Phase) (g k : ℕ) (state : ConnectionState)
    → shown p g state ≡ true
    → is_current state k ≡ true
    → shown p g (connected k) ≡ true
unfolding shown is_current
shown-report p g k idle h e = absurd (ground (arith, e))
shown-report starting g k (connecting j a) h e = absurd (ground (arith, h))
shown-report running g k (connecting j a) h e = ground (arith, h, e)
shown-report delayed g k (connecting j a) h e = absurd (ground (arith, h))
shown-report ended g k (connecting j a) h e = absurd (ground (arith, h))
shown-report starting g k (connected j) h e = absurd (ground (arith, h))
shown-report running g k (connected j) h e = ground (arith, h, e)
shown-report delayed g k (connected j) h e = absurd (ground (arith, h))
shown-report ended g k (connected j) h e = absurd (ground (arith, h))
shown-report p g k (disconnected j r) h e = absurd (ground (arith, e))
shown-report p g k stopped h e = absurd (ground (arith, e))

tell-IsShown :
    (s : Supervisor) (k : ℕ)
    → ((s.pending k == 0) ≡ false → is_current s.state k ≡ true)
    → IsShown s
    → IsShown (tell s k)
unfolding tell send
tell-IsShown s k current h = elim (Bool-cases (s.pending k == 0)) [
  | inl idle_one ↦ rw idle_one h
  | inr due ↦ rw due (λ watched.
      rw watched (shown-report s.phase s.generation k s.state (h watched) (current due)))
]

look-IsShown : (s : Supervisor) (k : ℕ) → IsShown s → IsShown (look s k)
unfolding look
look-IsShown s k h = if_intro (is_current s.state k) IsShown h h

-- The event may come: after a look the same reporter sends, and it sends at no other time.
abbrev pub IsAllowed : Option ℕ → Event → Type 0
IsAllowed none begins = Unit {0}
IsAllowed none (ends reason) = Unit {0}
IsAllowed none slept = Unit {0}
IsAllowed none (looks h) = Unit {0}
IsAllowed none (tells h) = ⊥
IsAllowed none cancels = Unit {0}
IsAllowed none unwatched = Unit {0}
IsAllowed (some g) begins = ⊥
IsAllowed (some g) (ends reason) = ⊥
IsAllowed (some g) slept = ⊥
IsAllowed (some g) (looks h) = ⊥
IsAllowed (some g) (tells h) = (g == h) ≡ true
IsAllowed (some g) cancels = ⊥
IsAllowed (some g) unwatched = ⊥

abbrev pub looked : Event → Option ℕ
looked begins = none
looked (ends reason) = none
looked slept = none
looked (looks h) = some h
looked (tells h) = none
looked cancels = none
looked unwatched = none

-- Every look of a reporter is followed at once by its sending; `o` is the one that looked last.
abbrev pub IsPrompt : (o : Option ℕ) → List Event → Type 0
IsPrompt o [] = Unit {0}
IsPrompt o (event ∷ events) = IsAllowed o event × IsPrompt (looked event) events

-- Who is to send: the reporter that looked last, if it found itself current.
abbrev Settled : Option ℕ → Supervisor → Type 0
Settled none s = (k : ℕ) → s.pending k ≡ 0
Settled (some g) s =
    ((k : ℕ) → (g == k) ≡ false → s.pending k ≡ 0)
    × (s.pending g ≤ 1)
    × ((s.pending g == 0) ≡ false → is_current s.state g ≡ true)

look-Settled : (s : Supervisor) (g : ℕ) → Settled none s → Settled (some g) (look s g)
unfolding look
look-Settled s g quiet = elim (Bool-cases (is_current s.state g)) [
  | inl current ↦
      rw current (λ k away. ground (arith, away, quiet k), ground (arith, quiet g), λ due. current)
  | inr stale ↦
      rw stale
        (λ k away. quiet k, ground (arith, quiet g), λ due. absurd (ground (arith, due, quiet g)))
]

tell-Settled : (s : Supervisor) (g : ℕ) → Settled (some g) s → Settled none (tell s g)
unfolding tell send
tell-Settled s g (others, most, current) = λ k. elim (Bool-cases (s.pending g == 0)) [
  | inl gone ↦ elim (Bool-cases (g == k)) [
    | inl here ↦
        rw gone (ap s.pending (sym ((==_iff g k).0 here)) ∙ (==_iff (s.pending g) 0).0 gone)
    | inr away ↦ rw gone (others k away)
  ]
  | inr due ↦ elim (Bool-cases (g == k)) [
    | inl here ↦ rw (due, here) (omega arith)
    | inr away ↦ rw (due, away) (others k away)
  ]
]

start_round-pending :
    (retry : RetryPolicy) (s : Supervisor) → (start_round retry s).pending ≡ s.pending
unfolding start_round connect finish send
start_round-pending retry s =
    if_intro s.cancel (λ (t : Supervisor). t.pending ≡ s.pending) refl
      (if_intro (permits retry (saturating_suc 32 s.attempt))
        (λ (t : Supervisor). t.pending ≡ s.pending) refl refl)

connection_ends-pending :
    (s : Supervisor) (reason : Option ℕ) → (connection_ends s reason).pending ≡ s.pending
unfolding connection_ends finish send
connection_ends-pending s reason =
    if_intro s.cancel (λ (t : Supervisor). t.pending ≡ s.pending) refl refl

leave_delay-pending : (s : Supervisor) → (leave_delay s).pending ≡ s.pending
unfolding leave_delay finish send
leave_delay-pending s = if_intro s.cancel (λ (t : Supervisor). t.pending ≡ s.pending) refl refl

advance-Settled :
    (retry : RetryPolicy) (p : Phase) (s : Supervisor) (o : Option ℕ) (event : Event)
    → IsAllowed o event
    → Settled o s
    → Settled (looked event) (advance retry p s event)
unfolding advance
advance-Settled retry starting s none begins allowed h =
    λ k. ap (λ f. f k) (start_round-pending retry s) ∙ h k
advance-Settled retry running s none begins allowed h = h
advance-Settled retry delayed s none begins allowed h = h
advance-Settled retry ended s none begins allowed h = h
advance-Settled retry starting s none (ends reason) allowed h = h
advance-Settled retry running s none (ends reason) allowed h =
    λ k. ap (λ f. f k) (connection_ends-pending s reason) ∙ h k
advance-Settled retry delayed s none (ends reason) allowed h = h
advance-Settled retry ended s none (ends reason) allowed h = h
advance-Settled retry starting s none slept allowed h = h
advance-Settled retry running s none slept allowed h = h
advance-Settled retry delayed s none slept allowed h =
    λ k. ap (λ f. f k) (leave_delay-pending s) ∙ h k
advance-Settled retry ended s none slept allowed h = h
advance-Settled retry p s none (looks k) allowed h = look-Settled s k h
advance-Settled retry p s none (tells k) allowed h = absurd allowed
advance-Settled retry p s none cancels allowed h = h
advance-Settled retry p s none unwatched allowed h = h
advance-Settled retry p s (some g) begins allowed h = absurd allowed
advance-Settled retry p s (some g) (ends reason) allowed h = absurd allowed
advance-Settled retry p s (some g) slept allowed h = absurd allowed
advance-Settled retry p s (some g) (looks k) allowed h = absurd allowed
advance-Settled retry p s (some g) (tells k) allowed h =
    tell-Settled s k (subst (λ j. Settled (some j) s) ((==_iff g k).0 allowed) h)
advance-Settled retry p s (some g) cancels allowed h = absurd allowed
advance-Settled retry p s (some g) unwatched allowed h = absurd allowed

-- A reporter that may send, and is to, finds the state as it saw it.
tells-current :
    (s : Supervisor) (o : Option ℕ) (k : ℕ)
    → IsAllowed o (tells k)
    → Settled o s
    → (s.pending k == 0) ≡ false
    → is_current s.state k ≡ true
tells-current s none k allowed h due = absurd allowed
tells-current s (some g) k allowed h due =
    (subst (λ j. Settled (some j) s) ((==_iff g k).0 allowed) h).2 due

advance-IsShown :
    (retry : RetryPolicy) (p : Phase) (s : Supervisor) (o : Option ℕ) (event : Event)
    → s.phase ≡ p
    → IsAllowed o event
    → Settled o s
    → IsShown s
    → IsShown (advance retry p s event)
unfolding advance
advance-IsShown retry starting s o begins at allowed settled h = start_round-IsShown retry s
advance-IsShown retry running s o begins at allowed settled h = h
advance-IsShown retry delayed s o begins at allowed settled h = h
advance-IsShown retry ended s o begins at allowed settled h = h
advance-IsShown retry starting s o (ends reason) at allowed settled h = h
advance-IsShown retry running s o (ends reason) at allowed settled h =
    connection_ends-IsShown s reason
advance-IsShown retry delayed s o (ends reason) at allowed settled h = h
advance-IsShown retry ended s o (ends reason) at allowed settled h = h
advance-IsShown retry starting s o slept at allowed settled h = h
advance-IsShown retry running s o slept at allowed settled h = h
advance-IsShown retry delayed s o slept at allowed settled h = leave_delay-IsShown s at h
advance-IsShown retry ended s o slept at allowed settled h = h
advance-IsShown retry p s o (looks k) at allowed settled h = look-IsShown s k h
advance-IsShown retry p s o (tells k) at allowed settled h =
    tell-IsShown s k (tells-current s o k allowed settled) h
advance-IsShown retry p s o cancels at allowed settled h = h
advance-IsShown retry p s o unwatched at allowed settled h =
    λ watched. absurd (ground (arith, watched))

run-IsShown :
    (retry : RetryPolicy) (s : Supervisor) (o : Option ℕ) (events : List Event)
    → IsPrompt o events
    → Settled o s
    → IsShown s
    → IsShown (run retry s events)
unfolding run step
run-IsShown retry s o [] prompt settled h = h
run-IsShown retry s o (event ∷ events) (allowed, prompt) settled h =
    run-IsShown retry (step retry s event) (looked event) events prompt
      (advance-Settled retry s.phase s o event allowed settled)
      (advance-IsShown retry s.phase s o event refl allowed settled h)

-- After any events since the spawning in which every reporter that looks at the state sends, if it
-- does, before anything else happens: if a receiver watches, the state shown tells where the task
-- stands: none before the first connection; that a connection of the task's own generation is being
-- made or is there, while it runs; that it was lost, from its end to the next; and that the
-- supervisor has stopped, at the end. Reports of earlier generations, and those whose look comes
-- after the connection's end, change nothing of that.
pub run-shown :
    (retry : RetryPolicy) (events : List Event)
    → IsPrompt none events
    → let s = run retry spawn events in s.watched ≡ true → shown s.phase s.generation s.state ≡ true
unfolding spawn shown
run-shown retry events prompt =
    run-IsShown retry spawn none events prompt (λ k. refl) (λ watched. refl)
