-- ===== src/Supervisor/Ending.antt =====
-- base_rpc/src/stream_supervisor.rs: the number of connections is bounded, and a shutdown ends.
use pigs.Prelude.{
  ℕ, ◌-◌, ◌^◌, ◌≤◌, ◌<◌, leb, ◌==◌, true, Option, none, some, List, [], ◌∷◌, if_intro, ◌≡◌, ◌≢◌,
  refl, sym, ap, subst, Bool-cases, inl, inr, arith,
}
use pigs.Supervisor.{
  RetryPolicy, permits, Phase, starting, running, delayed, ended, Supervisor, spawn, send, finish,
  saturating_suc, connect, start_round, connection_ends, is_current, look, tell, Event, begins,
  ends, slept, looks, tells, cancels, unwatched, leave_delay, advance, step, run,
}

record IsBounded (most : ℕ) (s : Supervisor) : Type 0 where
  within : s.generation ≤ most
  level : s.phase ≢ ended → s.generation ≡ s.attempt

over-IsBounded :
    (most : ℕ) (s : Supervisor) → s.phase ≡ ended → s.generation ≤ most → IsBounded most s
over-IsBounded most s over h = record { within = h; level = λ e. absurd (e over) }

permits-most :
    (retry : RetryPolicy) (most attempt : ℕ)
    → retry.max_attempts ≡ some most
    → permits retry attempt ≡ true
    → attempt ≤ most
unfolding permits
permits-most retry most attempt limit allowed =
    let eq : permits retry attempt ≡ leb attempt most =
      ap (λ (o : Option ℕ). elim o [ none ↦ true | some m ↦ leb attempt m ]) limit in
    ground (arith, eq, allowed)

connect-IsBounded :
    (most : ℕ) (s : Supervisor)
    → s.generation ≤ most
    → s.generation ≡ s.attempt
    → most < 2 ^ 32 - 1
    → saturating_suc 32 s.attempt ≤ most
    → IsBounded most (connect (record s { attempt = saturating_suc 32 s.attempt }))
unfolding connect send saturating_suc
connect-IsBounded most s within level small allowed = record {
  within = omega arith;
  level = λ e. omega arith;
}

start_round-IsBounded :
    (most : ℕ) (retry : RetryPolicy) (s : Supervisor)
    → retry.max_attempts ≡ some most
    → most < 2 ^ 32 - 1
    → s.phase ≡ starting
    → IsBounded most s
    → IsBounded most (start_round retry s)
unfolding start_round finish connect send saturating_suc
start_round-IsBounded most retry s limit small at h =
    let level = h.level (λ e. absurd (ground (arith, at, e))) in
    let within = h.within in
    let counted = record s { attempt = saturating_suc 32 s.attempt } in
    if_intro s.cancel (IsBounded most) (over-IsBounded most (finish s) refl within)
      (elim (Bool-cases (permits retry counted.attempt)) [
        | inl allowed ↦ rw allowed (
            connect-IsBounded most s within level small
              (permits-most retry most counted.attempt limit allowed))
        | inr refused ↦ rw refused (over-IsBounded most (finish counted) refl within)
      ])

connection_ends-IsBounded :
    (most : ℕ) (s : Supervisor) (reason : Option ℕ)
    → s.phase ≡ running
    → IsBounded most s
    → IsBounded most (connection_ends s reason)
unfolding connection_ends finish send
connection_ends-IsBounded most s reason at h =
    let level = h.level (λ e. absurd (ground (arith, at, e))) in
    if_intro s.cancel (IsBounded most) (over-IsBounded most (finish s) refl h.within)
      (record { within = h.within; level = λ e. level })

leave_delay-IsBounded :
    (most : ℕ) (s : Supervisor)
    → s.phase ≡ delayed
    → IsBounded most s
    → IsBounded most (leave_delay s)
unfolding leave_delay finish send
leave_delay-IsBounded most s at h =
    let level = h.level (λ e. absurd (ground (arith, at, e))) in
    if_intro s.cancel (IsBounded most) (over-IsBounded most (finish s) refl h.within)
      (record { within = h.within; level = λ e. level })

advance-IsBounded :
    (most : ℕ) (retry : RetryPolicy) (p : Phase) (s : Supervisor) (event : Event)
    → retry.max_attempts ≡ some most
    → most < 2 ^ 32 - 1
    → s.phase ≡ p
    → IsBounded most s
    → IsBounded most (advance retry p s event)
unfolding advance look tell send
advance-IsBounded most retry starting s begins limit small at h =
    start_round-IsBounded most retry s limit small at h
advance-IsBounded most retry running s begins limit small at h = h
advance-IsBounded most retry delayed s begins limit small at h = h
advance-IsBounded most retry ended s begins limit small at h = h
advance-IsBounded most retry starting s (ends reason) limit small at h = h
advance-IsBounded most retry running s (ends reason) limit small at h =
    connection_ends-IsBounded most s reason at h
advance-IsBounded most retry delayed s (ends reason) limit small at h = h
advance-IsBounded most retry ended s (ends reason) limit small at h = h
advance-IsBounded most retry starting s slept limit small at h = h
advance-IsBounded most retry running s slept limit small at h = h
advance-IsBounded most retry delayed s slept limit small at h = leave_delay-IsBounded most s at h
advance-IsBounded most retry ended s slept limit small at h = h
advance-IsBounded most retry p s (looks k) limit small at h =
    if_intro (is_current s.state k) (IsBounded most) (record { within = h.within; level = h.level })
      h
advance-IsBounded most retry p s (tells k) limit small at h =
    if_intro (s.pending k == 0) (IsBounded most) h (record { within = h.within; level = h.level })
advance-IsBounded most retry p s cancels limit small at h = record {
  within = h.within;
  level = h.level;
}
advance-IsBounded most retry p s unwatched limit small at h = record {
  within = h.within;
  level = h.level;
}

run-IsBounded :
    (most : ℕ) (retry : RetryPolicy) (s : Supervisor) (events : List Event)
    → retry.max_attempts ≡ some most
    → most < 2 ^ 32 - 1
    → IsBounded most s
    → IsBounded most (run retry s events)
unfolding run step
run-IsBounded most retry s [] limit small h = h
run-IsBounded most retry s (event ∷ events) limit small h =
    run-IsBounded most retry (step retry s event) events limit small
      (advance-IsBounded most retry s.phase s event limit small refl h)

-- If the policy permits at most `most` attempts, and that is not the largest `u32`, then the
-- supervisor makes at most that many connections, whatever happens: their generations, which are
-- counted from 1, do not go beyond it.
pub run-most :
    (most : ℕ) (retry : RetryPolicy) (events : List Event)
    → retry.max_attempts ≡ some most
    → most < 2 ^ 32 - 1
    → (run retry spawn events).generation ≤ most
unfolding spawn
run-most most retry events limit small =
    (run-IsBounded most retry spawn events limit small
      (record { within = omega arith; level = λ e. refl })).within

-- The states on the way of a cancelled task to its end.
begins-ended :
    (retry : RetryPolicy) (s : Supervisor)
    → s.cancel ≡ true
    → s.phase ≡ starting
    → (step retry s begins).phase ≡ ended
unfolding step advance start_round finish send
begins-ended retry s over at = rw at (rw over refl)

ends-ended :
    (retry : RetryPolicy) (s : Supervisor) (reason : Option ℕ)
    → s.cancel ≡ true
    → s.phase ≡ running
    → (step retry s (ends reason)).phase ≡ ended
unfolding step advance connection_ends finish send
ends-ended retry s reason over at = rw at (rw over refl)

slept-ended :
    (retry : RetryPolicy) (s : Supervisor)
    → s.cancel ≡ true
    → s.phase ≡ delayed
    → (step retry s slept).phase ≡ ended
unfolding step advance leave_delay finish send
slept-ended retry s over at = rw at (rw over refl)

-- What the task waits for where it stands.
abbrev pub awaited : Phase → Option ℕ → Event
awaited starting reason = begins
awaited running reason = ends reason
awaited delayed reason = slept
awaited ended reason = slept

ended_stays :
    (retry : RetryPolicy) (s : Supervisor) → s.phase ≡ ended → (step retry s slept).phase ≡ ended
unfolding step advance
ended_stays retry s at = subst (λ p. (advance retry p s slept).phase ≡ ended) (sym at) at

cancelled-phase :
    (retry : RetryPolicy) (s : Supervisor) (p : Phase)
    → s.phase ≡ p
    → ((step retry s cancels).cancel ≡ true) × ((step retry s cancels).phase ≡ s.phase)
unfolding step advance
cancelled-phase retry s p at = (refl, refl)

awaited-ended :
    (retry : RetryPolicy) (p : Phase) (s : Supervisor) (reason : Option ℕ)
    → s.cancel ≡ true
    → s.phase ≡ p
    → (step retry s (awaited p reason)).phase ≡ ended
awaited-ended retry starting s reason over at = begins-ended retry s over at
awaited-ended retry running s reason over at = ends-ended retry s reason over at
awaited-ended retry delayed s reason over at = slept-ended retry s over at
awaited-ended retry ended s reason over at = ended_stays retry s at

-- A shutdown ends: once the token is cancelled, wherever the task stands, the next thing that it
-- waits for is its last. Of a running connection it waits for the end, whatever its reason.
pub cancels-ended :
    (retry : RetryPolicy) (s : Supervisor) (reason : Option ℕ)
    → (run retry s (cancels ∷ awaited s.phase reason ∷ [])).phase ≡ ended
unfolding run
cancels-ended retry s reason =
    let s1 = step retry s cancels in
    let same = cancelled-phase retry s s.phase refl in
    subst (λ p. (step retry s1 (awaited p reason)).phase ≡ ended) same.1
      (awaited-ended retry s1.phase s1 reason same.0 refl)
