-- ===== src/Dig62.antt =====
-- base/src/utils/dig62.rs: `en` writes a string of decimal digits over an alphabet of 62
-- characters, and `de` reads it back. A string is the list of its characters' code points, a string
-- of binary digits a list of Booleans.
use pigs.Prelude.{
  ℕ, zero, suc, ◌+◌, ◌*◌, ◌-◌, ◌/◌, ◌%◌, ◌^◌, max, Bool, true, false, ◌&&◌, Option, none, some,
  List, [], ◌∷◌, ◌++◌, ltb, leb, ◌==◌, if◌then◌else◌, length, get_elem?, take, drop, replicate,
  codes,
}
pub mod Bits
pub mod Letters
pub mod RoundTrip
mod Tests

pub data Error : Type 0 where
  invalid_digit missing_header illegal_header illegal_digit digit_at_end illegal_letter : Error

-- A result, an error value, or a panic.
pub data Outcome {ℓ} (A : Type ℓ) : Type ℓ where
  ok : A → Outcome A
  err : Error → Outcome A
  panic : Outcome A

infixl 5 ◌>>=◌
abbrev pub ◌>>=◌ {ℓ κ} : {A : Type ℓ} {B : Type κ} → Outcome A → (A → Outcome B) → Outcome B
ok a >>= f = f a
err e >>= f = err e
panic >>= f = panic

abbrev pub ok_or {ℓ} : {A : Type ℓ} → Option A → Error → Outcome A
ok_or none e = err e
ok_or (some a) e = ok a

-- An index out of range, or `expect` on a missing value.
abbrev pub or_panic {ℓ} : {A : Type ℓ} → Option A → Outcome A
or_panic none = panic
or_panic (some a) = ok a

abbrev pub d_dic : List ℕ
d_dic = codes "0123456789"

abbrev pub a_dic : List ℕ
a_dic = codes "qazwsxedcrfvtgbyhnujmikolpQAZWSXEDCRFVTGBYHNUJMIKOLP"

-- `a_dic_map`, `d_dic_map`: where a character stands in a dictionary without repetitions.
unfoldable pub index_of : ℕ → List ℕ → Option ℕ
index_of c [] = none
index_of c (x ∷ xs) =
    let rest = index_of c xs in
    if x == c then some 0 else elim rest [ none ↦ none | some i ↦ some (suc i) ]

abbrev pub is_ascii_digit : ℕ → Bool
is_ascii_digit c = leb b'0' c && leb c b'9'

-- `char::to_digit(10)`.
unfoldable pub to_digit : ℕ → Option ℕ
to_digit c = if is_ascii_digit c then some (c - b'0') else none

-- `char::from_digit(num, 10)`.
unfoldable pub from_digit : ℕ → Option ℕ
from_digit num = if ltb num 10 then some (num + b'0') else none

-- How many binary digits `v` has, with fuel; `v` rounds are enough.
unfoldable pub bit_len : ℕ → ℕ → ℕ
bit_len zero v = 0
bit_len (suc fuel) v = let rest = bit_len fuel (v / 2) in if v == 0 then 0 else suc rest

-- The `n` binary digits of `v`, the highest first, for `v` below `2 ^ n`.
unfoldable pub bits : ℕ → ℕ → List Bool
bits zero v = []
bits (suc n) v = leb (2 ^ n) v ∷ bits n (if leb (2 ^ n) v then v - 2 ^ n else v)

-- `format!("{:0wb}", v)`: at least `w` digits.
unfoldable pub format_bin : ℕ → ℕ → List Bool
format_bin w v = bits (max w (bit_len v v)) v

-- `from_str_radix(.., 2)`.
unfoldable pub from_bin : List Bool → ℕ
from_bin [] = 0
from_bin (b ∷ bs) = (if b then 2 ^ length bs else 0) + from_bin bs

-- `slice::chunks(n)`, with fuel; the length of the list is enough.
unfoldable pub chunks {ℓ} : {A : Type ℓ} → ℕ → ℕ → List A → List (List A)
chunks zero n xs = []
chunks (suc fuel) n [] = []
chunks (suc fuel) n (x ∷ xs) = take n (x ∷ xs) ∷ chunks fuel n (drop n (x ∷ xs))

unfoldable pub en_digits : List ℕ → Outcome (List Bool)
en_digits [] = ok []
en_digits (ch ∷ chs) = do
  digit ← ok_or (to_digit ch) invalid_digit
  rest ← en_digits chs
  ok (format_bin 4 digit ++ rest)

unfoldable pub en_chunks : List (List Bool) → Outcome (List ℕ)
en_chunks [] = ok []
en_chunks (chunk ∷ rest) = do
  let val = from_bin chunk
  let circle = val / 52
  letter ← or_panic (get_elem? a_dic (val % 52))
  prefix ← if ltb 0 circle then (do d ← or_panic (get_elem? d_dic circle); ok (d ∷ [])) else ok []
  out ← en_chunks rest
  ok (prefix ++ letter ∷ out)

unfoldable pub en : List ℕ → Outcome (List ℕ)
en digit_str = do
  key ← en_digits digit_str
  let remainder = length key % 9
  let pad_len = 9 - remainder
  header ← or_panic (get_elem? a_dic (if remainder == 0 then 0 else pad_len))
  let padded = if remainder == 0 then key else replicate pad_len false ++ key
  out ← en_chunks (chunks (length padded) 9 padded)
  ok (header ∷ out)

-- The letter behind an optional digit `circle`: nine binary digits, mostly.
unfoldable pub de_letter : ℕ → ℕ → Outcome (List Bool)
de_letter circle c = do
  index ← ok_or (index_of c a_dic) illegal_letter
  ok (format_bin 9 (circle * 52 + index))

-- The `while` loop over the characters behind the header.
unfoldable pub de_chars : List ℕ → Outcome (List Bool)
de_chars [] = ok []
de_chars (c ∷ []) =
    if is_ascii_digit c
    then (do _ ← ok_or (index_of c d_dic) illegal_digit; err digit_at_end)
    else de_letter 0 c
de_chars (c ∷ c' ∷ cs) =
    let after_digit = (do
      circle ← ok_or (index_of c d_dic) illegal_digit
      b ← de_letter circle c'
      rest ← de_chars cs
      ok (b ++ rest)) in
    let after_letter = (do b ← de_letter 0 c; rest ← de_chars (c' ∷ cs); ok (b ++ rest)) in
    if is_ascii_digit c then after_digit else after_letter

unfoldable pub de_chunks : List (List Bool) → Outcome (List ℕ)
de_chunks [] = ok []
de_chunks (chunk ∷ rest) = do
  digit ← or_panic (from_digit (from_bin chunk))
  out ← de_chunks rest
  ok (digit ∷ out)

unfoldable pub de : List ℕ → Outcome (List ℕ)
de [] = err missing_header
de (header ∷ cs) = do
  pad_len ← ok_or (index_of header a_dic) illegal_header
  binary ← de_chars cs
  let rest = drop pad_len binary
  de_chunks (chunks (length rest) 4 rest)
