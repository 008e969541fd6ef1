-- ===== src/Packet/Framing.antt =====
-- base/src/net/rw.rs: the frames of the length prefix encoder, read back.
use pigs.Prelude.{
  ℕ, ◌+◌, ◌*◌, ◌/◌, ◌%◌, ◌^◌, ◌≤◌, ◌<◌, true, List, [], ◌∷◌, ◌++◌, ltb, leb, if◌then◌else◌, length,
  take, drop, length-append, take-append, drop-append, Option, none, some, ◌≡◌, refl, arith,
  Bool-cases, inl, inr, ltb→lt, le→leb, ◌⊎◌,
}
use pigs.Packet.{
  Outcome, ok, refused, then_ok, from_be, to_be_bytes, EncodedPacket, inline_prefix, encode_u16_be,
  wire,
}
use pigs.Packet.Prefix.{from_number_bytes-Holds, length-to_be_bytes}

-- A reader of frames: two bytes of length, the high one first, and as many bytes; `none` until a
-- frame is complete.
unfoldable pub read_frame : List ℕ → Option (List ℕ × List ℕ)
read_frame [] = none
read_frame (a ∷ []) = none
read_frame (a ∷ b ∷ rest) =
    if leb (a * 256 + b) (length rest)
    then some (take (a * 256 + b) rest, drop (a * 256 + b) rest)
    else none

-- The packet is made, and the reader gets the payload back from its bytes, whatever follows them.
abbrev pub IsFrame : List ℕ → Outcome EncodedPacket → Type 0
IsFrame payload r =
    (p : EncodedPacket) × (r ≡ ok p)
    × ((rest : List ℕ) → read_frame (wire p ++ rest) ≡ some (payload, rest))

read_frame-prefix :
    (payload rest : List ℕ)
    → length payload ≤ 65535
    → read_frame ((to_be_bytes 2 (length payload) ++ payload) ++ rest) ≡ some (payload, rest)
unfolding read_frame to_be_bytes
read_frame-prefix payload rest h =
    let value : length payload / 256 % 256 * 256 + length payload % 256 ≡ length payload =
      omega arith in
    let fits : leb (length payload) (length (payload ++ rest)) ≡ true =
      le→leb _ _ (let l = length-append payload rest in omega arith) in
    rw
      (
        value,
        fits,
        take-append payload rest (length payload) refl,
        drop-append payload rest (length payload) refl,
      )
      refl

-- The length prefix encoder refuses exactly the payloads of more than 65535 bytes; from the bytes of
-- any other a reader gets the payload back, with what follows left over.
pub encode_u16_be-IsFrame :
    (payload : List ℕ)
    → ((65535 < length payload) × (encode_u16_be payload ≡ refused))
      ⊎ ((length payload ≤ 65535) × IsFrame payload (encode_u16_be payload))
unfolding encode_u16_be from_be wire then_ok
encode_u16_be-IsFrame payload = elim (Bool-cases (ltb 65535 (length payload))) [
  | inl long ↦ inl (ltb→lt _ _ long, rw long refl)
  | inr short ↦
      let fits : length payload ≤ 65535 = ground arith in
      let small : length payload % 2 ^ 16 ≡ length payload = omega arith in
      let (prefix, made, slice) =
        from_number_bytes-Holds (to_be_bytes 2 (length payload))
          (omega (arith, length-to_be_bytes 2 (length payload))) in
      inr (
        fits,
        (
          inline_prefix prefix payload,
          rw (short, small, made) refl,
          λ rest. rw slice (read_frame-prefix payload rest fits),
        ),
      )
]
