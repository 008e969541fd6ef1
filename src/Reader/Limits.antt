-- ===== src/Reader/Limits.antt =====
-- base/src/net/rw.rs: what a connection's reader gives to its splitter.
use pigs.Prelude.{
  ℕ, ◌≤◌, Bool, List, [], ◌∷◌, ◌++◌, ltb, length, ◌≡◌, refl, sym, ap, ◌∙◌, subst, arith, Bool-cases,
  inl, inr,
}
use mathlib.Core.List.{append_assoc, append-nil}
use pigs.Reader.{
  max_buf_size, Seen, read, read_failed, cancelled, Reading, Turn, goes_on, breaks, returns_error,
  feed, after_read, read_round, next_rounds, read_loop,
}
use pigs.Sink.Reading.{IsPrefix}

-- The bytes that the stream gives.
abbrev pub stream_bytes : List Seen → List ℕ
stream_bytes [] = []
stream_bytes (read bytes ∷ more) = bytes ++ stream_bytes more
stream_bytes (read_failed ∷ more) = stream_bytes more
stream_bytes (cancelled ∷ more) = stream_bytes more

module _ {S D : Type 0}
    (feed_owned : S → List ℕ → (D → List ℕ → Bool × D) → D → Bool × S × List ℕ × D)
    (dispatch_owned : D → List ℕ → Bool × D) where
  -- What a loop with bytes still to come keeps of a property.
  abbrev pub Fed : (List ℕ → Reading S D → Type 0) → Type 0
  Fed Holds =
      (seen : List ℕ) (r : Reading S D)
      → length r.buf ≤ max_buf_size
      → Holds seen r
      → Holds seen (feed feed_owned dispatch_owned r).1

  abbrev pub Filled : (List ℕ → Reading S D → Type 0) → Type 0
  Filled Holds =
      (seen bytes : List ℕ) (r : Reading S D)
      → Holds seen r
      → Holds (seen ++ bytes) (record r { buf = r.buf ++ bytes })

  after_read-Holds :
      (Holds : List ℕ → Reading S D → Type 0) (seen bytes : List ℕ) (r : Reading S D)
      → Filled Holds
      → Fed Holds
      → Holds seen r
      → Holds (seen ++ bytes) (after_read feed_owned dispatch_owned r bytes).1
  unfolding after_read
  after_read-Holds Holds seen [] r filled fed h = subst (λ b. Holds b r) (sym (append-nil seen)) h
  after_read-Holds Holds seen (b ∷ bytes) r filled fed h =
      let r1 : Reading S D = record r { buf = r.buf ++ b ∷ bytes } in
      let now = filled seen (b ∷ bytes) r h in
      elim (Bool-cases (ltb max_buf_size (length r1.buf))) [
        | inl long ↦
            let eq : after_read feed_owned dispatch_owned r (b ∷ bytes) ≡ (breaks, r1) =
              simp long in
            subst (λ (t : Turn × Reading S D). Holds (seen ++ b ∷ bytes) t.1) (sym eq) now
        | inr fits ↦
            let eq : after_read feed_owned dispatch_owned r (b ∷ bytes)
                ≡ feed feed_owned dispatch_owned r1 =
              simp fits in
            subst (λ (t : Turn × Reading S D). Holds (seen ++ b ∷ bytes) t.1) (sym eq)
              (fed (seen ++ b ∷ bytes) r1 (ground (arith, fits)) now)
      ]

  read_round-Holds :
      (Holds : List ℕ → Reading S D → Type 0) (seen : List ℕ) (r : Reading S D) (event : Seen)
      → Filled Holds
      → Fed Holds
      → Holds seen r
      → Holds (seen ++ stream_bytes (event ∷ [])) (read_round feed_owned dispatch_owned r event).1
  unfolding read_round
  read_round-Holds Holds seen r (read bytes) filled fed h =
      subst (λ b. Holds (seen ++ b) (after_read feed_owned dispatch_owned r bytes).1)
        (sym (append-nil bytes)) (after_read-Holds Holds seen bytes r filled fed h)
  read_round-Holds Holds seen r read_failed filled fed h =
      subst (λ b. Holds b r) (sym (append-nil seen)) h
  read_round-Holds Holds seen r cancelled filled fed h =
      subst (λ b. Holds b r) (sym (append-nil seen)) h

  stream_bytes-first :
      (event : Seen) (more : List Seen)
      → stream_bytes (event ∷ more) ≡ stream_bytes (event ∷ []) ++ stream_bytes more
  stream_bytes-first (read bytes) more = ap (λ b. b ++ stream_bytes more) (sym (append-nil bytes))
  stream_bytes-first read_failed more = refl
  stream_bytes-first cancelled more = refl

  -- The property holds of bytes that were seen before and the first of those to come.
  abbrev pub HoldsAfter :
      (List ℕ → Reading S D → Type 0) → (seen to_come : List ℕ) → Reading S D → Type 0
  HoldsAfter Holds seen to_come r = (more : List ℕ) × IsPrefix more to_come × Holds (seen ++ more) r

  stops-HoldsAfter :
      (Holds : List ℕ → Reading S D → Type 0) (seen first rest : List ℕ) (r : Reading S D)
      → Holds (seen ++ first) r
      → HoldsAfter Holds seen (first ++ rest) r
  stops-HoldsAfter Holds seen first rest r h = (first, (rest, refl), h)

  next_rounds-HoldsAfter :
      (Holds : List ℕ → Reading S D → Type 0) (seen first rest : List ℕ)
      (round later : Turn × Reading S D)
      → Holds (seen ++ first) round.1
      → HoldsAfter Holds (seen ++ first) rest later.1
      → HoldsAfter Holds seen (first ++ rest) (next_rounds feed_owned dispatch_owned round later).1
  unfolding next_rounds
  next_rounds-HoldsAfter Holds seen first rest (goes_on, r) later now (more, (others, e), h) = (
    first ++ more,
    (others, ap (λ b. first ++ b) e ∙ sym (append_assoc first more others)),
    subst (λ b. Holds b later.1) (append_assoc seen first more) h,
  )
  next_rounds-HoldsAfter Holds seen first rest (breaks, r) later now after =
      stops-HoldsAfter Holds seen first rest r now
  next_rounds-HoldsAfter Holds seen first rest (returns_error, r) later now after =
      stops-HoldsAfter Holds seen first rest r now

  -- A property of a connection's reader and of the bytes that it has seen is kept by the loop, if
  -- more bytes in the buffer keep it and if the splitter with its dispatcher keeps it on buffers of
  -- at most 2 MiB: the splitter never has a longer one. However the stream cuts its bytes, and
  -- whatever ends the loop, the property then holds of the first bytes of the stream.
  pub read_loop-HoldsAfter :
      (Holds : List ℕ → Reading S D → Type 0) (seen : List ℕ) (r : Reading S D) (events : List Seen)
      → Filled Holds
      → Fed Holds
      → Holds seen r
      → HoldsAfter Holds seen (stream_bytes events) (read_loop feed_owned dispatch_owned r events).1
  unfolding read_loop
  read_loop-HoldsAfter Holds seen r [] filled fed h =
      ([], ([], refl), subst (λ b. Holds b r) (sym (append-nil seen)) h)
  read_loop-HoldsAfter Holds seen r (event ∷ events) filled fed h =
      let first = stream_bytes (event ∷ []) in
      let round = read_round feed_owned dispatch_owned r event in
      let now = read_round-Holds Holds seen r event filled fed h in
      let later = read_loop feed_owned dispatch_owned round.1 events in
      subst (λ b. HoldsAfter Holds seen b (next_rounds feed_owned dispatch_owned round later).1)
        (sym (stream_bytes-first event events))
        (next_rounds-HoldsAfter Holds seen first (stream_bytes events) round later now
          (read_loop-HoldsAfter Holds (seen ++ first) round.1 events filled fed now))
