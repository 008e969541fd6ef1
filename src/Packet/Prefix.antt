-- ===== src/Packet/Prefix.antt =====
-- base/src/net/rw.rs: an inline prefix holds the bytes it is made from, and a number's bytes give the
-- number back.
use pigs.Prelude.{
  ℕ, zero, suc, ◌+◌, ◌*◌, ◌/◌, ◌%◌, ◌^◌, ◌≤◌, ◌<◌, List, [], ◌∷◌, ◌++◌, ltb, length, take,
  replicate, length-append, ◌≡◌, refl, ap, ◌∙◌, arith, Bool-cases, inl, inr, ◌⊎◌, ltb→lt,
}
use pigs.Packet.{
  Outcome, ok, refused, then_ok, InlinePrefix, copy_into, from_number_bytes, new, as_slice,
  to_le_bytes, to_be_bytes, from_be, from_le,
}

-- The prefix is made, without a panic, and its slice is the given bytes.
abbrev Holds : List ℕ → Outcome InlinePrefix → Type 0
Holds prefix r = (p : InlinePrefix) × (r ≡ ok p) × (as_slice p ≡ prefix)

-- A copy of at most as many bytes as there are fills the front.
copy_into-take :
    (bytes prefix : List ℕ)
    → length prefix ≤ length bytes
    → (filled : List ℕ) × (copy_into bytes prefix ≡ ok filled)
      × (take (length prefix) filled ≡ prefix)
unfolding copy_into then_ok
copy_into-take bytes [] h = (bytes, refl, refl)
copy_into-take [] (b ∷ bs) h = absurd (omega arith)
copy_into-take (a ∷ bytes) (b ∷ bs) h =
    let (filled, eq, same) = copy_into-take bytes bs (omega arith) in
    (b ∷ filled, rw eq refl, rw same refl)

pub from_number_bytes-Holds :
    (prefix : List ℕ) → length prefix ≤ 16 → Holds prefix (from_number_bytes prefix)
unfolding from_number_bytes as_slice then_ok
from_number_bytes-Holds prefix h =
    let (filled, eq, same) = copy_into-take (replicate 16 0) prefix h in
    let small : length prefix % 256 ≡ length prefix = omega arith in
    (
      record { len = length prefix % 256; bytes = filled },
      ap (λ r. then_ok r (λ bytes. ok (record { len = length prefix % 256; bytes = bytes }))) eq,
      rw small same,
    )

-- `new` refuses exactly the slices of more than 16 bytes; from any other it makes a prefix with
-- those bytes, and it never panics.
new-Holds :
    (prefix : List ℕ)
    → ((16 < length prefix) × (new prefix ≡ refused))
      ⊎ ((length prefix ≤ 16) × Holds prefix (new prefix))
unfolding new from_number_bytes
new-Holds prefix = elim (Bool-cases (ltb 16 (length prefix))) [
  | inl long ↦ inl (ltb→lt _ _ long, rw long refl)
  | inr short ↦
      let fits : length prefix ≤ 16 = ground arith in
      inr (fits, rw short (from_number_bytes-Holds prefix fits))
]

-- What the receiver makes of a slice of bytes, least or most significant first.
abbrev le_value : List ℕ → ℕ
le_value [] = 0
le_value (b ∷ bs) = b + 256 * le_value bs

abbrev be_value : ℕ → List ℕ → ℕ
be_value high [] = high
be_value high (b ∷ bs) = be_value (high * 256 + b) bs

be_value-append :
    (high b : ℕ) (bs : List ℕ) → be_value high (bs ++ b ∷ []) ≡ be_value high bs * 256 + b
be_value-append high b [] = refl
be_value-append high b (c ∷ bs) = be_value-append (high * 256 + c) b bs

length-to_le_bytes : (width v : ℕ) → length (to_le_bytes width v) ≡ width
unfolding to_le_bytes
length-to_le_bytes zero v = refl
length-to_le_bytes (suc width) v = omega (arith, length-to_le_bytes width (v / 256))

pub length-to_be_bytes : (width v : ℕ) → length (to_be_bytes width v) ≡ width
unfolding to_be_bytes
length-to_be_bytes zero v = refl
length-to_be_bytes (suc width) v =
    let front = length-to_be_bytes width (v / 256) in
    let both = length-append (to_be_bytes width (v / 256)) ((v % 256) ∷ []) in omega arith

div-lt : (k v : ℕ) → v < 256 ^ suc k → v / 256 < 256 ^ k
div-lt k v h = let e : 256 ^ suc k ≡ 256 * 256 ^ k = ground arith in omega arith

le_value-to_le_bytes : (width v : ℕ) → v < 256 ^ width → le_value (to_le_bytes width v) ≡ v
unfolding to_le_bytes
le_value-to_le_bytes zero v h = omega arith
le_value-to_le_bytes (suc width) v h =
    let rest = le_value-to_le_bytes width (v / 256) (div-lt width v h) in omega arith

be_value-to_be_bytes : (width v : ℕ) → v < 256 ^ width → be_value 0 (to_be_bytes width v) ≡ v
unfolding to_be_bytes
be_value-to_be_bytes zero v h = omega arith
be_value-to_be_bytes (suc width) v h =
    let front = be_value-to_be_bytes width (v / 256) (div-lt width v h) in
    let both = be_value-append 0 (v % 256) (to_be_bytes width (v / 256)) in omega arith

-- A number that fits into `width` bytes, which are at most 16, makes a prefix without a panic; its
-- slice is `width` bytes long, and the receiver reads the number from it in the same order.
from_be-value :
    (width v : ℕ)
    → width ≤ 16
    → v < 256 ^ width
    → (p : InlinePrefix) × (from_be width v ≡ ok p)
      × (length (as_slice p) ≡ width)
      × (be_value 0 (as_slice p) ≡ v)
unfolding from_be
from_be-value width v h small =
    let len = length-to_be_bytes width v in
    let (p, made, slice) = from_number_bytes-Holds (to_be_bytes width v) (omega arith) in
    (p, made, ap length slice ∙ len, ap (be_value 0) slice ∙ be_value-to_be_bytes width v small)

-- In the little-endian order too, a number that fits into `width` bytes, which are at most 16, makes
-- a prefix without a panic; its slice is `width` bytes long, and the receiver reads the number back.
from_le-value :
    (width v : ℕ)
    → width ≤ 16
    → v < 256 ^ width
    → (p : InlinePrefix) × (from_le width v ≡ ok p)
      × (length (as_slice p) ≡ width)
      × (le_value (as_slice p) ≡ v)
unfolding from_le
from_le-value width v h small =
    let len = length-to_le_bytes width v in
    let (p, made, slice) = from_number_bytes-Holds (to_le_bytes width v) (omega arith) in
    (p, made, ap length slice ∙ len, ap le_value slice ∙ le_value-to_le_bytes width v small)
