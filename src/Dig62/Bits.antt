-- ===== src/Dig62/Bits.antt =====
-- base/src/utils/dig62.rs: binary digits as numbers and back, and the chunks of a list.
use pigs.Prelude.{
  ℕ, zero, suc, ◌*◌, ◌-◌, ◌^◌, ◌≤◌, ◌<◌, max, Bool, true, false, List, [], ◌∷◌, leb, ◌==◌,
  if◌then◌else◌, length, drop, ◌≡◌, refl, arith, ap, subst, check_below, check_below_lem,
  length-append, All, take-append, drop-append, join, take-append-drop, length-take_of_le,
  length-drop, leb→le, ap₂,
}
use native.Mathlib.Nat.{pow-suc}
use pigs.Dig62.{bits, bit_len, format_bin, from_bin, chunks}

pub from_bin-lt : (g : List Bool) → from_bin g < 2 ^ length g
unfolding from_bin
from_bin-lt [] = omega arith
from_bin-lt (b ∷ g) = ground (arith, from_bin-lt g, pow-suc 2 (length g))

pub bits-from_bin : (g : List Bool) → bits (length g) (from_bin g) ≡ g
unfolding bits from_bin
bits-from_bin [] = refl
bits-from_bin (true ∷ g) = ground (arith, bits-from_bin g, from_bin-lt g)
bits-from_bin (false ∷ g) = ground (arith, bits-from_bin g, from_bin-lt g)

pub length-bits : (n v : ℕ) → length (bits n v) ≡ n
unfolding bits
length-bits zero v = refl
length-bits (suc n) v = ap suc (length-bits n (if leb (2 ^ n) v then v - 2 ^ n else v))

bit_len_table : check_below (λ v. leb (bit_len v v) 9) 512 ≡ true
unfolding check_below bit_len
bit_len_table = refl

bit_len-le : (v : ℕ) → v < 512 → bit_len v v ≤ 9
bit_len-le v h = leb→le _ _ (check_below_lem (λ v. leb (bit_len v v) 9) 512 bit_len_table h)

-- Nine binary digits are read as a number and written back.
pub format_bin-from_bin : (g : List Bool) → length g ≡ 9 → format_bin 9 (from_bin g) ≡ g
unfolding format_bin
format_bin-from_bin g e =
    let small : bit_len (from_bin g) (from_bin g) ≤ 9 =
      bit_len-le (from_bin g) (subst (λ n. from_bin g < 2 ^ n) e (from_bin-lt g)) in
    let width : max 9 (bit_len (from_bin g) (from_bin g)) ≡ length g = omega arith in
    rw width (bits-from_bin g)

digit_table : check_below (λ d. from_bin (format_bin 4 d) == d) 10 ≡ true
unfolding check_below bit_len format_bin bits from_bin
digit_table = refl

width_table : check_below (λ d. length (format_bin 4 d) == 4) 10 ≡ true
unfolding check_below bit_len format_bin bits from_bin
width_table = refl

module _ {ℓ} {A : Type ℓ} where
  abbrev pub AllLength : ℕ → List (List A) → Type 0
  AllLength n = All (λ g. length g ≡ n)

  -- A list of `m * n` items is cut into `m` chunks of `n`, and the chunks make up the list.
  pub chunks_whole :
      (fuel m n : ℕ) (xs : List A)
      → 0 < n
      → length xs ≡ m * n
      → length xs ≤ fuel
      → AllLength n (chunks fuel n xs) × (join (chunks fuel n xs) ≡ xs)
  unfolding chunks
  chunks_whole zero m n [] p e h = (tt, refl)
  chunks_whole zero m n (x ∷ xs) p e h = absurd (omega arith)
  chunks_whole (suc fuel) m n [] p e h = (tt, refl)
  chunks_whole (suc fuel) zero n (x ∷ xs) p e h = absurd (omega arith)
  chunks_whole (suc fuel) (suc m) n (x ∷ xs) p e h =
      let enough : n ≤ length (x ∷ xs) = grind arith in
      let shorter = length-drop n (x ∷ xs) in
      let (whole, same) = chunks_whole fuel m n (drop n (x ∷ xs)) p (grind arith) (omega arith) in
      ((length-take_of_le n (x ∷ xs) enough, whole), rw same (take-append-drop n (x ∷ xs)))

  -- Chunks of equal length are cut apart again.
  pub chunks-join :
      (fuel n : ℕ) (gs : List (List A))
      → 0 < n
      → AllLength n gs
      → length (join gs) ≤ fuel
      → chunks fuel n (join gs) ≡ gs
  unfolding chunks
  chunks-join zero n [] p all h = refl
  chunks-join (suc fuel) n [] p all h = refl
  chunks-join fuel n ([] ∷ gs) p all h = absurd (omega arith)
  chunks-join zero n ((x ∷ g) ∷ gs) p all h = absurd (omega arith)
  chunks-join (suc fuel) n ((x ∷ g) ∷ gs) p all h =
      let longer = length-append g (join gs) in
      ap₂ ◌∷◌ (take-append (x ∷ g) (join gs) n all.0)
        (rw (drop-append (x ∷ g) (join gs) n all.0) (chunks-join fuel n gs p all.1 (omega arith)))
