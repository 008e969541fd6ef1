-- ===== src/Packet/Vectored.antt =====
-- base/src/net/rw.rs: a write of two slices sends their bytes in order, and comes to its end.
use pigs.Prelude.{
  ℕ, zero, suc, ◌-◌, ◌≤◌, ◌<◌, min, true, false, ◌&&◌, List, [], ◌∷◌, ◌++◌, ltb, ◌==◌, if_intro,
  length, take, drop, length-drop, take-append-drop, ◌≡◌, ◌≢◌, refl, sym, ap, ◌∙◌, arith,
  Bool-cases, inl, inr, All,
}
use native.Mathlib.Nat.{suc-min-suc}
use mathlib.Core.List.{append_assoc, append-nil}
use pigs.Packet.{
  Answer, wrote, failed, Progress, finished, errored, pending, none_left, offered, advance,
  write_all_vectored_2,
}

offered-append : (first second : List ℕ) → offered first second ≡ first ++ second
unfolding offered none_left
offered-append [] second = refl
offered-append (x ∷ xs) [] = sym (append-nil (x ∷ xs))
offered-append (x ∷ xs) (y ∷ ys) = refl

drop-min : (n : ℕ) (xs : List ℕ) → drop (min n (length xs)) xs ≡ drop n xs
drop-min zero xs = let e : min 0 (length xs) ≡ 0 = omega arith in rw e refl
drop-min (suc n) [] = let e : min (suc n) 0 ≡ 0 = omega arith in rw e refl
drop-min (suc n) (x ∷ xs) = rw (suc-min-suc n (length xs)) (drop-min n xs)

drop-append_short : (n : ℕ) (xs ys : List ℕ) → n < length xs → drop n (xs ++ ys) ≡ drop n xs ++ ys
drop-append_short zero xs ys h = refl
drop-append_short (suc n) [] ys h = absurd (omega arith)
drop-append_short (suc n) (x ∷ xs) ys h = drop-append_short n xs ys (omega arith)

drop-append_long :
    (n : ℕ) (xs ys : List ℕ) → length xs ≤ n → drop n (xs ++ ys) ≡ drop (n - length xs) ys
drop-append_long n [] ys h = let e : n - 0 ≡ n = omega arith in rw e refl
drop-append_long zero (x ∷ xs) ys h = absurd (omega arith)
drop-append_long (suc n) (x ∷ xs) ys h =
    let e : suc n - suc (length xs) ≡ n - length xs = omega arith in
    rw e (drop-append_long n xs ys (omega arith))

-- The two slices after a round are what the stream did not take.
advance-drop :
    (n : ℕ) (first second : List ℕ)
    → (advance n first second).0 ++ (advance n first second).1 ≡ drop n (first ++ second)
unfolding advance
advance-drop n first second = elim (Bool-cases (ltb n (length first))) [
  | inl short ↦ rw short (sym (drop-append_short n first second (ground arith)))
  | inr long ↦
      rw (long, drop-min (n - length first) second)
        (sym (drop-append_long n first second (ground arith)))
]

-- The bytes sent and some bytes left are the bytes of the two slices, in order; none are left when
-- the write is finished.
pub record Sends (first second : List ℕ) (r : List ℕ × Progress) : Type 0 where
  pub left : List ℕ
  pub in_order : r.0 ++ left ≡ first ++ second
  pub all_sent : r.1 ≡ finished → left ≡ []

none_left-eq : (xs : List ℕ) → none_left xs ≡ true → xs ≡ []
unfolding none_left
none_left-eq [] h = refl
none_left-eq (x ∷ xs) h = absurd (ground arith)

both_empty :
    (first second : List ℕ) → (none_left first && none_left second) ≡ true → first ++ second ≡ []
both_empty first second h =
    let one = none_left-eq first (ground arith) in
    let two = none_left-eq second (ground arith) in rw (one, two) refl

-- A write whose two slices have nothing left is finished.
done-Sends :
    (first second : List ℕ)
    → (none_left first && none_left second) ≡ true
    → Sends first second ([], finished)
done-Sends first second h = record {
  left = [];
  in_order = sym (both_empty first second h);
  all_sent = λ e. refl;
}

stuck-Sends : (first second : List ℕ) (p : Progress) → p ≢ finished → Sends first second ([], p)
stuck-Sends first second p h = record {
  left = first ++ second;
  in_order = refl;
  all_sent = λ e. absurd (h e);
}

round-Sends :
    (n : ℕ) (first second : List ℕ) (r : List ℕ × Progress)
    → Sends (advance n first second).0 (advance n first second).1 r
    → Sends first second (take n (offered first second) ++ r.0, r.1)
round-Sends n first second r h = record {
  left = h.left;
  in_order =
      append_assoc (take n (offered first second)) r.0 h.left
      ∙ ap (λ m. take n (offered first second) ++ m) (h.in_order ∙ advance-drop n first second)
      ∙ ap (λ m. take n m ++ drop n (first ++ second)) (offered-append first second)
      ∙ take-append-drop n (first ++ second);
  all_sent = h.all_sent;
}

-- Whatever the stream answers, the bytes that it took are the first bytes of the two slices in
-- order, and all of them when the write succeeds.
pub write_all_vectored_2-Sends :
    (answers : List Answer) (first second : List ℕ)
    → Sends first second (write_all_vectored_2 answers first second)
unfolding write_all_vectored_2
write_all_vectored_2-Sends [] first second =
    elim (Bool-cases (none_left first && none_left second)) [
      | inl e ↦ rw e (done-Sends first second e)
      | inr e ↦ rw e (stuck-Sends first second pending (λ q. absurd (cc q)))
    ]
write_all_vectored_2-Sends (failed ∷ answers) first second =
    elim (Bool-cases (none_left first && none_left second)) [
      | inl e ↦ rw e (done-Sends first second e)
      | inr e ↦ rw e (stuck-Sends first second errored (λ q. absurd (cc q)))
    ]
write_all_vectored_2-Sends (wrote n ∷ answers) first second =
    let next = advance n first second in
    let rest = write_all_vectored_2-Sends answers next.0 next.1 in
    elim (Bool-cases (none_left first && none_left second)) [
      | inl e ↦ rw e (done-Sends first second e)
      | inr e ↦ rw e (
          if_intro (n == 0) (Sends first second)
            (stuck-Sends first second errored (λ q. absurd (cc q)))
            (round-Sends n first second (write_all_vectored_2 answers next.0 next.1) rest))
    ]

-- The stream takes at least one byte whenever it is asked.
abbrev Takes : Answer → Type 0
Takes (wrote n) = 0 < n
Takes failed = ⊥

length-none_left :
    (first second : List ℕ)
    → length (first ++ second) ≤ 0
    → (none_left first && none_left second) ≡ true
unfolding none_left
length-none_left [] [] h = refl
length-none_left [] (y ∷ ys) h = absurd (omega arith)
length-none_left (x ∷ xs) ys h = absurd (omega arith)

length-advance :
    (n k : ℕ) (first second : List ℕ)
    → 0 < n
    → length (first ++ second) ≤ suc k
    → length ((advance n first second).0 ++ (advance n first second).1) ≤ k
length-advance n k first second positive h =
    let same = ap length (advance-drop n first second) in
    let left = length-drop n (first ++ second) in omega arith

-- A write comes to its end, with success, when the stream takes at least one byte each time and
-- answers at least as often as there are bytes.
pub write_all_vectored_2-finished :
    (answers : List Answer) (first second : List ℕ)
    → All Takes answers
    → length (first ++ second) ≤ length answers
    → (write_all_vectored_2 answers first second).1 ≡ finished
unfolding write_all_vectored_2
write_all_vectored_2-finished [] first second takes h = rw (length-none_left first second h) refl
write_all_vectored_2-finished (failed ∷ answers) first second takes h = absurd takes.0
write_all_vectored_2-finished (wrote n ∷ answers) first second takes h =
    let next = advance n first second in
    let rest =
      write_all_vectored_2-finished answers next.0 next.1 takes.1
        (length-advance n (length answers) first second takes.0 h) in
    let positive : (n == 0) ≡ false = let q = takes.0 in ground arith in
    elim (Bool-cases (none_left first && none_left second)) [
      | inl e ↦ rw e refl
      | inr e ↦ rw (e, positive) rest
    ]
