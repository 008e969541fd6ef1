-- ===== src/Managed/Listener/Account.antt =====
-- base/src/net/rw.rs: the accept loop counts every connection once, and ends.
use pigs.Prelude.{
  ℕ, ◌+◌, ◌-◌, ◌^◌, ◌<◌, true, false, List, [], ◌∷◌, ◌==◌, if◌then◌else◌, length, map, ◌≡◌, ◌≢◌,
  refl, sym, subst, arith, Bool-cases, inl, inr,
}
use pigs.Managed.Report.{
  ManagedTaskReport, Joined, returned_error, join_error, is_panic, is_cancelled, other_error,
  JoinError, plus, record_connection_join, no_tasks,
}
use pigs.Managed.Report
use pigs.Managed.Listener.{
  Phase, accepting, draining, Listener, Event, joined, accepted, accept_error, new, leave,
  count_cancelled, join_one, accept_round, drain_round, round_in, round, run_tcp_listener,
  next_accept_error_backoff,
}
use pigs.Managed.Listener

-- The connections that the report tells of.
abbrev pub told : ManagedTaskReport → ℕ
told r = r.completed + r.failed + r.panicked + r.remaining

-- Every connection accepted is in the report once or still runs; none runs after the end; the token
-- is cancelled from the break on.
pub record IsAccounted (n : ℕ) (l : Listener) : Type 0 where
  pub conserved : told l.report + l.connections ≡ n
  pub ended : l.phase ≡ Listener.returned → l.connections ≡ 0
  pub waits : l.phase ≡ draining → (l.connections == 0) ≡ false
  pub broken : l.phase ≢ accepting → l.cancel ≡ true

record_connection_join-told :
    (r : ManagedTaskReport) (j : Joined)
    → told r + 1 < 2 ^ 64
    → told (record_connection_join r j) ≡ told r + 1
unfolding record_connection_join
record_connection_join-told r Report.returned h = omega arith
record_connection_join-told r returned_error h = omega arith
record_connection_join-told r (join_error is_panic) h = omega arith
record_connection_join-told r (join_error is_cancelled) h = omega arith
record_connection_join-told r (join_error other_error) h = omega arith

-- The connections that one round accepts.
abbrev gained : Phase → Event → ℕ
gained accepting (accepted false) = 1
gained accepting (accepted true) = 0
gained accepting Listener.cancelled = 0
gained accepting (joined j) = 0
gained accepting (accept_error i) = 0
gained draining e = 0
gained Listener.returned e = 0

leave-IsAccounted :
    (n : ℕ) (l : Listener) → told l.report + l.connections ≡ n → IsAccounted n (leave l)
unfolding leave
leave-IsAccounted n l h = record {
  conserved = h;
  ended = λ e. ground arith;
  waits = λ e. ground arith;
  broken = λ e. refl;
}

join_one-told :
    (n : ℕ) (l : Listener) (j : Joined)
    → told l.report + l.connections ≡ n
    → n < 2 ^ 64
    → (l.connections == 0) ≡ false
    → told (join_one l j).report + (join_one l j).connections ≡ n
unfolding join_one
join_one-told n l j h small some_left =
    let positive : 0 < l.connections = ground arith in
    let one = record_connection_join-told l.report j (omega arith) in omega arith

open_IsAccounted :
    (n : ℕ) (l : Listener)
    → l.phase ≡ accepting
    → told l.report + l.connections ≡ n
    → IsAccounted n l
open_IsAccounted n l is_open h = record {
  conserved = h;
  ended = λ e. absurd (ground (arith, is_open, e));
  waits = λ e. absurd (ground (arith, is_open, e));
  broken = λ e. absurd (e is_open);
}

kept_IsAccounted : (n : ℕ) (l : Listener) → IsAccounted n l → IsAccounted (n + 0) l
kept_IsAccounted n l h = let e : n + 0 ≡ n = omega arith in rw e h

-- A round of the `while` after a join.
drained-IsAccounted :
    (n : ℕ) (l : Listener)
    → l.cancel ≡ true
    → told l.report + l.connections ≡ n
    → IsAccounted n
        (record l { phase = if l.connections == 0 then Listener.returned else draining })
drained-IsAccounted n l broken h = record {
  conserved = h;
  ended = λ e. ground arith;
  waits = λ e. ground arith;
  broken = λ e. broken;
}

round_in-IsAccounted :
    (n : ℕ) (l : Listener) (p : Phase) (e : Event)
    → l.phase ≡ p
    → IsAccounted n l
    → n + gained p e < 2 ^ 64
    → IsAccounted (n + gained p e) (round_in p l e)
unfolding round_in accept_round drain_round count_cancelled join_one
round_in-IsAccounted n l accepting Listener.cancelled at h small =
    leave-IsAccounted (n + 0) (count_cancelled (record l { cancel = true }))
      (let c = h.conserved in omega arith)
round_in-IsAccounted n l accepting (joined j) at h small = elim (Bool-cases (l.connections == 0)) [
  | inl none_left ↦
      rw none_left (open_IsAccounted (n + 0) l at (let c = h.conserved in omega arith))
  | inr some_left ↦ rw some_left (
      open_IsAccounted (n + 0) (join_one l j) at
        (let c = h.conserved in join_one-told (n + 0) l j (omega arith) small some_left))
]
round_in-IsAccounted n l accepting (accepted false) at h small =
    open_IsAccounted (n + 1)
      (record l { connections = l.connections + 1; accept_error_backoff = 0 }) at
      (let c = h.conserved in omega arith)
round_in-IsAccounted n l accepting (accepted true) at h small =
    leave-IsAccounted (n + 0) l (let c = h.conserved in omega arith)
round_in-IsAccounted n l accepting (accept_error false) at h small =
    open_IsAccounted (n + 0)
      (record l { accept_error_backoff = next_accept_error_backoff l.accept_error_backoff }) at
      (let c = h.conserved in omega arith)
round_in-IsAccounted n l accepting (accept_error true) at h small =
    leave-IsAccounted (n + 0)
      (count_cancelled (record l {
        accept_error_backoff = next_accept_error_backoff l.accept_error_backoff;
        cancel = true;
      }))
      (let c = h.conserved in omega arith)
round_in-IsAccounted n l draining (joined j) at h small =
    drained-IsAccounted (n + 0) (join_one l j) (h.broken (λ e. absurd (ground (arith, at, e))))
      (let c = h.conserved in join_one-told (n + 0) l j (omega arith) small (h.waits at))
round_in-IsAccounted n l draining Listener.cancelled at h small = kept_IsAccounted n l h
round_in-IsAccounted n l draining (accepted r) at h small = kept_IsAccounted n l h
round_in-IsAccounted n l draining (accept_error i) at h small = kept_IsAccounted n l h
round_in-IsAccounted n l Listener.returned e at h small = kept_IsAccounted n l h

-- The connections that a run of the loop accepts.
unfoldable pub accepted_in : Listener → List Event → ℕ
accepted_in l [] = 0
accepted_in l (e ∷ events) = gained l.phase e + accepted_in (round l e) events

run-IsAccounted :
    (n : ℕ) (l : Listener) (events : List Event)
    → IsAccounted n l
    → n + accepted_in l events < 2 ^ 64
    → IsAccounted (n + accepted_in l events) (run_tcp_listener l events)
unfolding run_tcp_listener round accepted_in
run-IsAccounted n l [] h small = kept_IsAccounted n l h
run-IsAccounted n l (e ∷ events) h small =
    let one = round_in-IsAccounted n l l.phase e refl h (omega arith) in
    let rest = run-IsAccounted (n + gained l.phase e) (round l e) events one (omega arith) in
    let sums : n + gained l.phase e + accepted_in (round l e) events
        ≡ n + (gained l.phase e + accepted_in (round l e) events) =
      omega arith in
    subst (λ k. IsAccounted k (run_tcp_listener (round l e) events)) sums rest

-- Whatever happens at the listener, if it accepts fewer than 2^64 connections, each of them still
-- runs or is in the report once, as completed, failed, panicked or remaining; none runs when the
-- loop has returned; and the token is cancelled from the break on.
pub run_tcp_listener-IsAccounted :
    (events : List Event)
    → accepted_in new events < 2 ^ 64
    → IsAccounted (accepted_in new events) (run_tcp_listener new events)
unfolding new no_tasks
run_tcp_listener-IsAccounted events small =
    let none_yet : 0 + accepted_in new events ≡ accepted_in new events = omega arith in
    subst (λ k. IsAccounted k (run_tcp_listener new events)) none_yet
      (run-IsAccounted 0 new events
        (record {
          conserved = refl;
          ended = λ e. refl;
          waits = λ e. absurd (ground arith);
          broken = λ e. absurd (e refl);
        })
        (omega arith))

-- The phase after the break goes by the tasks that are left.
abbrev Drains : Listener → Type 0
Drains l = l.phase ≡ (if l.connections == 0 then Listener.returned else draining)

drain_round-phase :
    (l : Listener) (j : Joined)
    → l.phase ≡ draining
    → Drains (round l (joined j)) × ((round l (joined j)).connections ≡ l.connections - 1)
unfolding round round_in drain_round join_one
drain_round-phase l j at =
    subst
      (λ p.
        Drains (round_in p l (joined j))
        × ((round_in p l (joined j)).connections ≡ l.connections - 1))
      (sym at) (refl, refl)

drain :
    (l : Listener) (results : List Joined)
    → Drains l
    → length results ≡ l.connections
    → (run_tcp_listener l (map joined results)).phase ≡ Listener.returned
unfolding run_tcp_listener
drain l [] at len = ground arith
drain l (j ∷ results) at len =
    let there : l.phase ≡ draining = ground arith in
    let next = drain_round-phase l j there in
    drain (round l (joined j)) results next.0 (let c = next.1 in omega arith)

phase-Drains :
    (n : ℕ) (l : Listener) (p : Phase) → l.phase ≡ p → IsAccounted n l → p ≢ accepting → Drains l
phase-Drains n l accepting at h broken = absurd (broken refl)
phase-Drains n l draining at h broken = let w = h.waits at in ground arith
phase-Drains n l Listener.returned at h broken = let w = h.ended at in ground arith

-- After the break, the loop returns once its tasks have been joined, whatever they return.
pub drain-returned :
    (n : ℕ) (l : Listener) (results : List Joined)
    → IsAccounted n l
    → l.phase ≢ accepting
    → length results ≡ l.connections
    → (run_tcp_listener l (map joined results)).phase ≡ Listener.returned
drain-returned n l results h broken len =
    drain l results (phase-Drains n l l.phase refl h broken) len
