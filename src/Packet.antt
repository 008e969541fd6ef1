-- ===== src/Packet.antt =====
-- base/src/net/rw.rs: packets, their prefixes and encoders, and how one is written to a stream.
use pigs.Prelude.{
  ℕ, zero, suc, ◌+◌, ◌-◌, ◌*◌, ◌/◌, ◌%◌, ◌^◌, min, Bool, true, false, ◌&&◌, List, [], ◌∷◌, ◌++◌,
  ltb, leb, ◌==◌, if◌then◌else◌, length, take, drop, replicate, Option, none, some,
}
pub mod Prefix
pub mod Framing
pub mod Vectored
pub mod Wire
mod Tests

-- A result, an error, or a panic.
pub data Outcome (A : Type 0) : Type 0 where
  ok : A → Outcome A
  refused : Outcome A
  panicked : Outcome A

unfoldable pub then_ok : {A B : Type 0} → Outcome A → (A → Outcome B) → Outcome B
then_ok (ok a) f = f a
then_ok refused f = refused
then_ok panicked f = panicked

-- Bytes are numbers below 256.
pub record InlinePrefix : Type 0 where
  pub len : ℕ
  pub bytes : List ℕ

abbrev inline_prefix_capacity : ℕ
inline_prefix_capacity = 16

-- `for (idx, byte) in prefix.iter().enumerate() { data[idx] = *byte; }`; `panicked` past the end.
unfoldable pub copy_into : List ℕ → List ℕ → Outcome (List ℕ)
copy_into bytes [] = ok bytes
copy_into [] (b ∷ bs) = panicked
copy_into (a ∷ as_is) (b ∷ bs) = then_ok (copy_into as_is bs) (λ rest. ok (b ∷ rest))

unfoldable pub from_number_bytes : List ℕ → Outcome InlinePrefix
from_number_bytes prefix =
    then_ok (copy_into (replicate inline_prefix_capacity 0) prefix)
      (λ bytes. ok (record { len = length prefix % 256; bytes = bytes }))

unfoldable pub new : List ℕ → Outcome InlinePrefix
new prefix =
    if ltb inline_prefix_capacity (length prefix)
    then refused
    else then_ok (copy_into (replicate inline_prefix_capacity 0) prefix)
        (λ bytes. ok (record { len = length prefix % 256; bytes = bytes }))

unfoldable pub as_slice : InlinePrefix → List ℕ
as_slice p = take p.len p.bytes

unfoldable pub is_empty : InlinePrefix → Bool
is_empty p = p.len == 0

-- `to_le_bytes` and `to_be_bytes` of the standard library, for a number of `width` bytes.
unfoldable pub to_le_bytes : ℕ → ℕ → List ℕ
to_le_bytes zero v = []
to_le_bytes (suc width) v = (v % 256) ∷ to_le_bytes width (v / 256)

unfoldable pub to_be_bytes : ℕ → ℕ → List ℕ
to_be_bytes zero v = []
to_be_bytes (suc width) v = to_be_bytes width (v / 256) ++ (v % 256) ∷ []

unfoldable pub from_be : ℕ → ℕ → Outcome InlinePrefix
from_be width v = from_number_bytes (to_be_bytes width v)

unfoldable pub from_le : ℕ → ℕ → Outcome InlinePrefix
from_le width v = from_number_bytes (to_le_bytes width v)

pub data EncodedPacket : Type 0 where
  single : List ℕ → EncodedPacket
  inline_prefix : InlinePrefix → List ℕ → EncodedPacket

-- What an implementation of `PacketEncoder` gives.
record PacketEncoder : Type 0 where
  pub encode_udp : List ℕ → Outcome (List ℕ)
  pub encode_tcp : List ℕ → Outcome EncodedPacket

unfoldable raw_packet_encoder : PacketEncoder
raw_packet_encoder = record {
  encode_udp = λ payload. ok payload;
  encode_tcp = λ payload. ok (single payload);
}

unfoldable pub encode_u16_be : List ℕ → Outcome EncodedPacket
encode_u16_be payload =
    if ltb 65535 (length payload)
    then refused
    else then_ok (from_be 2 (length payload % 2 ^ 16)) (λ prefix. ok (inline_prefix prefix payload))

unfoldable u16_be_length_prefix_encoder : PacketEncoder
u16_be_length_prefix_encoder = record {
  encode_udp = λ payload. ok payload;
  encode_tcp = encode_u16_be;
}

-- One answer of the stream to a call of `write` or `write_vectored`: how many bytes it took, or an
-- error.
pub data Answer : Type 0 where
  wrote : ℕ → Answer
  failed : Answer

-- How far a write came; `pending` when the stream gives no further answer.
pub data Progress : Type 0 where
  finished : Progress
  errored : Progress
  pending : Progress

unfoldable pub none_left : List ℕ → Bool
none_left [] = true
none_left (x ∷ xs) = false

-- The bytes that a round offers to the stream.
unfoldable pub offered : List ℕ → List ℕ → List ℕ
offered first second =
    if none_left first then second else if none_left second then first else first ++ second

-- The two slices after `written` bytes.
unfoldable pub advance : ℕ → List ℕ → List ℕ → List ℕ × List ℕ
advance written first second =
    if ltb written (length first)
    then (drop written first, second)
    else ([], drop (min (written - length first) (length second)) second)

-- The bytes that the stream took, and how far the write came.
unfoldable pub write_all_vectored_2 : List Answer → List ℕ → List ℕ → List ℕ × Progress
write_all_vectored_2 [] first second =
    if none_left first && none_left second then ([], finished) else ([], pending)
write_all_vectored_2 (failed ∷ answers) first second =
    if none_left first && none_left second then ([], finished) else ([], errored)
write_all_vectored_2 (wrote written ∷ answers) first second =
    let next = advance written first second in
    let rest = write_all_vectored_2 answers next.0 next.1 in
    if none_left first && none_left second
    then ([], finished)
    else if written == 0
    then ([], errored)
    else (take written (offered first second) ++ rest.0, rest.1)

-- `write_all` of the runtime's library.
unfoldable pub write_encoded_packet :
    (List Answer → List ℕ → List ℕ × Progress) → List Answer → EncodedPacket → List ℕ × Progress
write_encoded_packet write_all answers (single payload) = write_all answers payload
write_encoded_packet write_all answers (inline_prefix prefix payload) =
    write_all_vectored_2 answers (as_slice prefix) payload

-- The bytes of a packet on the wire.
unfoldable pub wire : EncodedPacket → List ℕ
wire (single payload) = payload
wire (inline_prefix prefix payload) = as_slice prefix ++ payload
