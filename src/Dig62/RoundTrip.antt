-- ===== src/Dig62/RoundTrip.antt =====
-- base/src/utils/dig62.rs: `de` inverts `en` on every string of decimal digits, and `en` refuses
-- every other string.
use pigs.Prelude.{
  ℕ, ◌*◌, ◌-◌, ◌/◌, ◌%◌, ◌<◌, Bool, true, false, some, List, [], ◌∷◌, ◌++◌, ◌==◌, if◌then◌else◌,
  length, drop, replicate, ◌≡◌, refl, arith, check_below, check_below_lem, Bool-cases, inl, inr,
  ◌⊎◌, join, All, length-append, length-replicate, drop-append, ==_iff,
}
use pigs.Dig62.{
  ok, err, invalid_digit, is_ascii_digit, to_digit, from_digit, from_bin, format_bin, bits, bit_len,
  chunks, en_digits, en, de_chunks, de,
}
use pigs.Dig62.Bits.{AllLength, chunks_whole, chunks-join}
use pigs.Dig62.Letters.{letter_at, en_chunks-ReadsBack}

abbrev pub IsDigit : ℕ → Type 0
IsDigit c = is_ascii_digit c ≡ true

value_table : check_below (λ d. from_bin (format_bin 4 d) == d) 10 ≡ true
unfolding check_below from_bin format_bin bits bit_len
value_table = refl

width_table : check_below (λ d. length (format_bin 4 d) == 4) 10 ≡ true
unfolding check_below format_bin bits bit_len
width_table = refl

value_of_digit : (d : ℕ) → d < 10 → from_bin (format_bin 4 d) ≡ d
value_of_digit d h =
    (==_iff _ _).0 (check_below_lem (λ d. from_bin (format_bin 4 d) == d) 10 value_table h)

width_of_digit : (d : ℕ) → d < 10 → length (format_bin 4 d) ≡ 4
width_of_digit d h =
    (==_iff _ _).0 (check_below_lem (λ d. length (format_bin 4 d) == 4) 10 width_table h)

-- The digits' groups of four.
abbrev Nibbles : List ℕ → List (List Bool) → Type 0
Nibbles s gs = (en_digits s ≡ ok (join gs)) × AllLength 4 gs × (de_chunks gs ≡ ok s)

digit_back : (c : ℕ) → IsDigit c → from_digit (from_bin (format_bin 4 (c - 48))) ≡ some c
unfolding from_digit
digit_back c h =
    let small : c - 48 < 10 = ground (arith, h) in
    rw (value_of_digit (c - 48) small) (ground (arith, h))

en_digits-Nibbles : (s : List ℕ) → All IsDigit s → (gs : List (List Bool)) × Nibbles s gs
unfolding en_digits de_chunks to_digit
en_digits-Nibbles [] all = ([], (refl, tt, refl))
en_digits-Nibbles (c ∷ s) all =
    let (gs, (written, four, read)) = en_digits-Nibbles s all.1 in
    let small : c - 48 < 10 = ground (arith, all.0) in
    (
      format_bin 4 (c - 48) ∷ gs,
      (rw (all.0, written), (width_of_digit (c - 48) small, four), rw (digit_back c all.0, read)),
    )

-- What `en` writes behind its header, and what `de` makes of it.
module _ (s : List ℕ) (gs : List (List Bool)) (n : Nibbles s gs) where
  abbrev key : List Bool
  key = join gs

  -- The zeros that fill the last group of nine.
  abbrev pad : ℕ
  pad = if length key % 9 == 0 then 0 else 9 - length key % 9

  abbrev padded : List Bool
  padded = if length key % 9 == 0 then key else replicate (9 - length key % 9) false ++ key

  padded-whole : (length padded ≡ (length padded / 9) * 9) × (pad < 52) × (drop pad padded ≡ key)
  padded-whole = elim (Bool-cases (length key % 9 == 0)) [
    | inl z ↦ rw z (ground arith, omega arith, refl)
    | inr nz ↦
        let fill = replicate (9 - length key % 9) false in
        let len = length-append fill key in
        let len' = length-replicate (9 - length key % 9) false in
        rw nz
          (ground (arith, len, len'), omega arith, drop-append fill key (9 - length key % 9) len')
  ]

  RoundTrips : Type 0
  RoundTrips = (t : List ℕ) × (en s ≡ ok t) × (de t ≡ ok s)

  round_trip : RoundTrips
  unfolding RoundTrips en de
  round_trip =
      let (whole, small, rest) = padded-whole in
      let (nine, same) =
        chunks_whole (length padded) (length padded / 9) 9 padded (omega arith) whole
          (omega arith) in
      let (cs, written, read) = en_chunks-ReadsBack (chunks (length padded) 9 padded) nine in
      let (header, letter, at, _) = letter_at pad small in
      let fours = chunks-join (length key) 4 gs (omega arith) n.1 (omega arith) in
      (header ∷ cs, rw (n.0, letter, written), rw (at, read, same, rest, fours) n.2)

-- `en` succeeds on every string of decimal digits, and `de` reads the result back without an error
-- or a panic.
pub de-en : (s : List ℕ) → All IsDigit s → (t : List ℕ) × (en s ≡ ok t) × (de t ≡ ok s)
unfolding RoundTrips
de-en s all = let (gs, n) = en_digits-Nibbles s all in round_trip s gs n

en_digits_refused : (s : List ℕ) → (All IsDigit s) ⊎ (en_digits s ≡ err invalid_digit)
unfolding en_digits to_digit
en_digits_refused [] = inl tt
en_digits_refused (c ∷ s) = elim (Bool-cases (is_ascii_digit c)) [
  | inl digit ↦ elim (en_digits_refused s) [
    | inl all ↦ inl (digit, all)
    | inr e ↦ inr (rw (digit, e))
  ]
  | inr other ↦ inr (rw other)
]

-- A string with any other character is refused with an error, never with a panic.
pub en_refused : (s : List ℕ) → ¬ All IsDigit s → en s ≡ err invalid_digit
unfolding en
en_refused s other = elim (en_digits_refused s) [ inl all ↦ absurd (other all) | inr e ↦ rw e ]
