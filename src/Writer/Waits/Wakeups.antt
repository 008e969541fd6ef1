-- ===== src/Writer/Waits/Wakeups.antt =====
-- base/src/net/rw.rs: no wakeup of `wait_tcp_sink` is lost.
use pigs.Prelude.{
  ℕ, zero, suc, ◌+◌, ◌≤◌, ◌<◌, true, false, Option, none, some, List, [], ◌∷◌, ltb, ◌==◌, if_intro,
  ◌≡◌, refl, sym, ap, ◌∙◌, arith, inl, inr, ◌⊎◌,
}
use pigs.Writer.{TcpPacketSink}
use pigs.Writer.Waits.{
  Peer, Point, starts, looks, listens, looks_again, waits, returns_sink, returns_error, found_or,
  wait_step, wait_tcp_sink, Happens, waiter, registers, notifies, removes, closes, passes,
  notify_waiters, peer_step, peer_steps,
}

-- A notification that the task has not seen is there or is to come, if a writer is registered.
abbrev Wakes : Peer → ℕ → Type 0
Wakes p seen = (seen ≤ p.notified) × (p.sink ≡ none ⊎ (seen < p.notified ⊎ 0 < p.to_notify))

abbrev IsSound : Peer × Point → Type 0
IsSound (p, looks_again seen) = seen ≤ p.notified
IsSound (p, waits seen) = Wakes p seen
IsSound (p, other) = Unit

-- Both ways on from a look-up.
looked_up :
    (P : Point → Type 0) (sink : Option TcpPacketSink) (otherwise : Point)
    → ((s : TcpPacketSink) → P (returns_sink s))
    → (sink ≡ none → P otherwise)
    → P (found_or sink otherwise)
unfolding found_or
looked_up P (some sink) otherwise found absent = found sink
looked_up P none otherwise found absent = absent refl

wait_step-IsSound : (p : Peer) (at : Point) → IsSound (p, at) → IsSound (p, wait_step p at)
unfolding wait_step
wait_step-IsSound p starts h = if_intro p.closed (λ (a : Point). IsSound (p, a)) _ _
wait_step-IsSound p looks h = looked_up (λ a. IsSound (p, a)) p.sink listens (λ s. _) (λ e. _)
wait_step-IsSound p listens h = omega arith
wait_step-IsSound p (looks_again seen) h =
    looked_up (λ a. IsSound (p, a)) p.sink (waits seen) (λ s. _) (λ absent. (h, inl absent))
wait_step-IsSound p (waits seen) h =
    if_intro p.closed (λ (a : Point). IsSound (p, a)) _
      (if_intro (ltb seen p.notified) (λ (a : Point). IsSound (p, a)) _
        (if_intro p.late (λ (a : Point). IsSound (p, a)) _ h))
wait_step-IsSound p (returns_sink sink) h = _
wait_step-IsSound p (returns_error error) h = _

-- A step of another task that a waiting one is not hurt by.
other-IsSound :
    (p p1 : Peer) (at : Point)
    → p.notified ≤ p1.notified
    → ((seen : ℕ) → Wakes p seen → Wakes p1 seen)
    → IsSound (p, at)
    → IsSound (p1, at)
other-IsSound p p1 starts more wakes h = _
other-IsSound p p1 looks more wakes h = _
other-IsSound p p1 listens more wakes h = _
other-IsSound p p1 (looks_again seen) more wakes h = omega (arith, h, more)
other-IsSound p p1 (waits seen) more wakes h = wakes seen h
other-IsSound p p1 (returns_sink sink) more wakes h = _
other-IsSound p p1 (returns_error error) more wakes h = _

notify-IsSound :
    (p : Peer) (n : ℕ) (at : Point) → IsSound (p, at) → IsSound (notify_waiters p n, at)
unfolding notify_waiters
notify-IsSound p zero at h = h
notify-IsSound p (suc n) at h =
    other-IsSound p (record p { notified = p.notified + 1; to_notify = n }) at (omega arith)
      (λ seen w. let before = w.0 in (omega (arith, before), inr (inl (omega (arith, before))))) h

peer_step-IsSound : (s : Peer × Point) (h : Happens) → IsSound s → IsSound (peer_step s h)
unfolding peer_step
peer_step-IsSound (p, at) waiter h = wait_step-IsSound p at h
peer_step-IsSound (p, at) (registers sink) h =
    other-IsSound p (record p { sink = some sink; to_notify = p.to_notify + 1 }) at (omega arith)
      (λ seen w. (w.0, inr (inr (omega arith)))) h
peer_step-IsSound (p, at) notifies h = notify-IsSound p p.to_notify at h
peer_step-IsSound (p, at) removes h =
    other-IsSound p (record p { sink = none }) at (omega arith) (λ seen w. (w.0, inl refl)) h
peer_step-IsSound (p, at) closes h =
    other-IsSound p (record p { closed = true }) at (omega arith) (λ seen w. w) h
peer_step-IsSound (p, at) passes h =
    other-IsSound p (record p { late = true }) at (omega arith) (λ seen w. w) h

peer_steps-IsSound :
    (s : Peer × Point) (events : List Happens) → IsSound s → IsSound (peer_steps s events)
unfolding peer_steps
peer_steps-IsSound s [] h = h
peer_steps-IsSound s (event ∷ events) h =
    peer_steps-IsSound (peer_step s event) events (peer_step-IsSound s event h)

abbrev pub IsRunning : Point → Type 0
IsRunning (returns_sink sink) = ⊥
IsRunning (returns_error error) = ⊥
IsRunning other = Unit

-- Three steps of the waiting task alone.
abbrev pub three_steps : Peer × Point → Peer × Point
three_steps s = peer_steps s (waiter ∷ waiter ∷ waiter ∷ [])

begins : (p : Peer) → p.closed ≡ false → wait_step p starts ≡ looks
unfolding wait_step
begins p is_open = simp is_open

finds :
    (p : Peer) (sink : TcpPacketSink) → p.sink ≡ some sink → wait_step p looks ≡ returns_sink sink
unfolding wait_step found_or
finds p sink here = ap (λ o. found_or o listens) here

finds_again :
    (p : Peer) (seen : ℕ) (sink : TcpPacketSink)
    → p.sink ≡ some sink
    → wait_step p (looks_again seen) ≡ returns_sink sink
unfolding wait_step found_or
finds_again p seen sink here = ap (λ o. found_or o (waits seen)) here

wakes :
    (p : Peer) (seen : ℕ) (sink : TcpPacketSink)
    → Wakes p seen
    → p.sink ≡ some sink
    → p.to_notify ≡ 0
    → p.closed ≡ false
    → wait_step p (waits seen) ≡ starts
unfolding wait_step
wakes p seen sink h here told is_open =
    let notified : ltb seen p.notified ≡ true = elim h.1 [
      | inl absent ↦ absurd (ground (arith, sym here ∙ absent))
      | inr (inl before) ↦ ground (arith, before)
      | inr (inr still) ↦ absurd (omega (arith, still, told))
    ] in
    simp (is_open, notified)

wakes_up :
    (p : Peer) (at : Point) (sink : TcpPacketSink)
    → IsSound (p, at)
    → IsRunning at
    → p.sink ≡ some sink
    → p.to_notify ≡ 0
    → p.closed ≡ false
    → three_steps (p, at) ≡ (p, returns_sink sink)
unfolding peer_steps peer_step wait_step found_or
wakes_up p starts sink h running here told is_open =
    ap (λ a. (p, wait_step p (wait_step p a))) (begins p is_open)
    ∙ ap (λ a. (p, wait_step p a)) (finds p sink here)
wakes_up p looks sink h running here told is_open =
    ap (λ a. (p, wait_step p (wait_step p a))) (finds p sink here)
wakes_up p listens sink h running here told is_open =
    ap (λ a. (p, wait_step p a)) (finds_again p p.notified sink here)
wakes_up p (looks_again seen) sink h running here told is_open =
    ap (λ a. (p, wait_step p (wait_step p a))) (finds_again p seen sink here)
wakes_up p (waits seen) sink h running here told is_open =
    ap (λ a. (p, wait_step p (wait_step p a))) (wakes p seen sink h here told is_open)
    ∙ ap (λ a. (p, wait_step p a)) (begins p is_open)
    ∙ ap (λ a. (p, a)) (finds p sink here)
wakes_up p (returns_sink s) sink h running here told is_open = absurd running
wakes_up p (returns_error error) sink h running here told is_open = absurd running

wait_tcp_sink-IsSound : (p : Peer) (timeout : ℕ) → IsSound (p, wait_tcp_sink timeout)
unfolding wait_tcp_sink
wait_tcp_sink-IsSound p timeout = if_intro (timeout == 0) (λ (a : Point). IsSound (p, a)) _ _

-- No wakeup of `wait_tcp_sink` is lost. However its steps and those of the tasks that register,
-- remove and close interleave: if the wait has not returned, a writer is registered, every task that
-- registered one has notified, and the registry is open, then the wait returns the writer's sink in
-- three steps of its own, also when the deadline has passed.
pub wait_tcp_sink-returns :
    (p : Peer) (timeout : ℕ) (events : List Happens) (sink : TcpPacketSink)
    → let s = peer_steps (p, wait_tcp_sink timeout) events in
      IsRunning s.1
      → s.0.sink ≡ some sink
      → s.0.to_notify ≡ 0
      → s.0.closed ≡ false
      → three_steps s ≡ (s.0, returns_sink sink)
wait_tcp_sink-returns p timeout events sink running here told is_open =
    let s = peer_steps (p, wait_tcp_sink timeout) events in
    wakes_up s.0 s.1 sink
      (peer_steps-IsSound (p, wait_tcp_sink timeout) events (wait_tcp_sink-IsSound p timeout))
      running here told is_open
