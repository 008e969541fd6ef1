-- ===== src/Reader/Ends.antt =====
-- base/src/net/rw.rs: how a connection's reader ends.
use pigs.Prelude.{
  ℕ, ◌<◌, ◌≤◌, ltb, ◌==◌, Bool, true, false, List, [], ◌∷◌, ◌++◌, length, none, some, lookup, ◌≡◌,
  ◌≢◌, refl, sym, ap, ◌∙◌, subst, arith, ◌⊎◌, inl, inr,
}
use pigs.Writer.{
  PacketWriter, TcpWriterRegistration, RegisteredTcpSink, token, tcp_sink, sink_of, expects,
  remove_registered_tcp_writer,
}
use pigs.Writer.Index.{IsIndexed}
use pigs.Writer.Remove.{remove-Removal}
use pigs.Reader.{
  Seen, read, read_failed, cancelled, Reading, Turn, goes_on, breaks, returns_error, Task, returned,
  max_buf_size, feed, after_read, read_round, next_rounds, leave, read_loop,
}

-- The registration is not in the registry, and if it was, its sink is cancelled.
abbrev pub Unregistered : PacketWriter → TcpWriterRegistration → PacketWriter → Type 0
Unregistered w g w1 =
    ((r : RegisteredTcpSink)
      → lookup w1.tcp_writers g.remote_addr ≡ some r
      → (g.writer_id == r.registration.writer_id) ≡ false)
    × ((r : RegisteredTcpSink)
        → lookup w.tcp_writers g.remote_addr ≡ some r
        → (g.writer_id == r.registration.writer_id) ≡ true
        → w1.cancelled (token r.sink) ≡ true)

lookup-none :
    (w : PacketWriter) (addr : ℕ) (r : RegisteredTcpSink)
    → tcp_sink w addr ≡ none
    → lookup w.tcp_writers addr ≢ some r
unfolding tcp_sink sink_of
lookup-none w addr r absent at = ground (arith, sym (ap sink_of at) ∙ absent)

module _ (ip_of : ℕ → ℕ) where
  remove-Unregistered :
      (w : PacketWriter) (g : TcpWriterRegistration)
      → IsIndexed ip_of w
      → Unregistered w g (remove_registered_tcp_writer ip_of w g)
  unfolding remove_registered_tcp_writer expects
  remove-Unregistered w g indexed =
      elim (remove-Removal ip_of w g.remote_addr (some g.writer_id) indexed) [
        | inl (r, at, expected_one, taken, shut) ↦ (
          λ s e.
              absurd
                (lookup-none (remove_registered_tcp_writer ip_of w g) g.remote_addr s taken.gone e),
          λ s e same.
              let eq : r ≡ s = ground (arith, sym at ∙ e) in
              subst
                (λ (t : RegisteredTcpSink).
                  (remove_registered_tcp_writer ip_of w g).cancelled (token t.sink) ≡ true)
                eq shut,
        )
        | inr (other_one, unchanged) ↦
            subst (Unregistered w g) (sym unchanged)
              (other_one, λ r at same. absurd (ground (arith, other_one r at, same)))
      ]

module _ {S D : Type 0}
    (feed_owned : S → List ℕ → (D → List ℕ → Bool × D) → D → Bool × S × List ℕ × D)
    (dispatch_owned : D → List ℕ → Bool × D) where
  -- What the task sees ends its loop: the end of the stream, a failed read, a cancellation, or bytes
  -- that make the buffer too long.
  abbrev pub EndsIt : Reading S D → Seen → Type 0
  EndsIt r (read []) = Unit {0}
  EndsIt r (read (b ∷ bytes)) = max_buf_size < length (r.buf ++ b ∷ bytes)
  EndsIt r read_failed = Unit {0}
  EndsIt r cancelled = Unit {0}

  -- The splitter or the dispatcher refuses the bytes read, which fit in the buffer.
  abbrev pub IsRefused : Reading S D → Seen → Type 0
  IsRefused r (read []) = ⊥
  IsRefused r (read (b ∷ bytes)) =
      (length (r.buf ++ b ∷ bytes) ≤ max_buf_size)
      × ((feed_owned r.splitter (r.buf ++ b ∷ bytes) dispatch_owned r.dispatcher).0 ≡ false)
  IsRefused r read_failed = ⊥
  IsRefused r cancelled = ⊥

  next_rounds-append :
      {r1 : Reading S D} (round rest rest2 z : Turn × Reading S D)
      → next_rounds feed_owned dispatch_owned round rest ≡ (goes_on, r1)
      → (rest ≡ (goes_on, r1) → rest2 ≡ z)
      → next_rounds feed_owned dispatch_owned round rest2 ≡ z
  unfolding next_rounds
  next_rounds-append (goes_on, r) rest rest2 z h k = k h
  next_rounds-append (breaks, r) rest rest2 z h k = absurd (ground (arith, ap (λ t. t.0) h))
  next_rounds-append (returns_error, r) rest rest2 z h k = absurd (ground (arith, ap (λ t. t.0) h))

  read_loop-append :
      (r r1 : Reading S D) (before rest : List Seen)
      → read_loop feed_owned dispatch_owned r before ≡ (goes_on, r1)
      → read_loop feed_owned dispatch_owned r (before ++ rest)
        ≡ read_loop feed_owned dispatch_owned r1 rest
  unfolding read_loop
  read_loop-append r r1 [] rest h = ap (λ t. read_loop feed_owned dispatch_owned t.1 rest) h
  read_loop-append r r1 (seen ∷ before) rest h =
      let round = read_round feed_owned dispatch_owned r seen in
      next_rounds-append round (read_loop feed_owned dispatch_owned round.1 before)
        (read_loop feed_owned dispatch_owned round.1 (before ++ rest))
        (read_loop feed_owned dispatch_owned r1 rest) h (read_loop-append round.1 r1 before rest)

  EndsIt-breaks :
      (r : Reading S D) (last : Seen) (after : List Seen)
      → EndsIt r last
      → (r2 : Reading S D) × (read_loop feed_owned dispatch_owned r (last ∷ after) ≡ (breaks, r2))
        × (r2.dispatcher ≡ r.dispatcher)
  unfolding read_loop read_round after_read next_rounds
  EndsIt-breaks r (read []) after h = (r, refl, refl)
  EndsIt-breaks r (read (b ∷ bytes)) after h =
      let filled : Reading S D = record r { buf = r.buf ++ b ∷ bytes } in
      let long : ltb max_buf_size (length filled.buf) ≡ true = ground arith in
      (filled, simp long, refl)
  EndsIt-breaks r read_failed after h = (r, refl, refl)
  EndsIt-breaks r cancelled after h = (r, refl, refl)

  -- What the splitter and the dispatcher leave of the bytes.
  abbrev pub refused : Reading S D → Seen → D
  refused r (read bytes) = (feed_owned r.splitter (r.buf ++ bytes) dispatch_owned r.dispatcher).3
  refused r read_failed = r.dispatcher
  refused r cancelled = r.dispatcher

  IsRefused-returns :
      (r : Reading S D) (last : Seen) (after : List Seen)
      → IsRefused r last
      → (r2 : Reading S D) × (read_loop feed_owned dispatch_owned r (last ∷ after)
          ≡ (returns_error, r2))
        × (r2.dispatcher ≡ refused r last)
  unfolding read_loop read_round after_read next_rounds feed
  IsRefused-returns r (read []) after h = absurd h
  IsRefused-returns r (read (b ∷ bytes)) after (fits, refusal) =
      let filled : Reading S D = record r { buf = r.buf ++ b ∷ bytes } in
      let short : ltb max_buf_size (length filled.buf) ≡ false = ground arith in
      ((feed feed_owned dispatch_owned filled).1, simp (short, refusal), refl)
  IsRefused-returns r read_failed after h = absurd h
  IsRefused-returns r cancelled after h = absurd h

  module _ (ip_of : ℕ → ℕ) (close_peer : D → Bool × D) where
    -- What is left of the registry and of the dispatcher.
    abbrev pub Left :
        (r : Reading S D) (last : Seen)
        → PacketWriter
        → TcpWriterRegistration
        → EndsIt r last ⊎ IsRefused r last
        → Task × PacketWriter × Reading S D
        → Type 0
    Left r last w g (inl ends) o =
        (o.0 ≡ returned (close_peer r.dispatcher).0)
        × Unregistered w g o.1
        × (o.2.dispatcher ≡ (close_peer r.dispatcher).1)
    Left r last w g (inr is_refused) o =
        (o.0 ≡ returned false) × (o.1 ≡ w) × (o.2.dispatcher ≡ refused r last)

    -- On a registry whose maps agree, when the task has gone through what it saw before: if what it
    -- sees then is the end of the stream, a failed read, a cancellation, or bytes that make the
    -- buffer too long, it ends, whatever would come after. Its registration is gone, the sink that it
    -- had is cancelled, nothing more has been dispatched, the dispatcher has closed the peer, and the
    -- task returns what that gives. If it is bytes that fit and that the splitter or the dispatcher
    -- refuses, the task returns an error: the registry stays as it is, with the task's writer, and
    -- the dispatcher is as the refusal left it, the peer not closed.
    pub read_loop-Left :
        (w : PacketWriter) (g : TcpWriterRegistration) (r r1 : Reading S D)
        (before after : List Seen) (last : Seen)
        → IsIndexed ip_of w
        → read_loop feed_owned dispatch_owned r before ≡ (goes_on, r1)
        → (h : EndsIt r1 last ⊎ IsRefused r1 last)
        → Left r1 last w g h (
            leave ip_of close_peer w g
              (read_loop feed_owned dispatch_owned r (before ++ last ∷ after)))
    unfolding leave
    read_loop-Left w g r r1 before after last indexed met (inl ends) =
        let (r2, broke, kept) = EndsIt-breaks r1 last after ends in
        let turn = read_loop-append r r1 before (last ∷ after) met ∙ broke in
        rw turn (
          ap (λ d. returned (close_peer d).0) kept,
          remove-Unregistered ip_of w g indexed,
          ap (λ d. (close_peer d).1) kept,
        )
    read_loop-Left w g r r1 before after last indexed met (inr is_refused) =
        let (r2, failed, kept) = IsRefused-returns r1 last after is_refused in
        let turn = read_loop-append r r1 before (last ∷ after) met ∙ failed in
        rw turn (refl, refl, kept)
