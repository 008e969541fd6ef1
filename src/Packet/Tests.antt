-- ===== src/Packet/Tests.antt =====
-- base/src/net/rw.rs: packets on small inputs.
use pigs.Prelude.{List, [], ◌∷◌, some, ◌≡◌, refl, arith}
use pigs.Packet.{
  ok, then_ok, copy_into, from_number_bytes, new, as_slice, is_empty, to_le_bytes, to_be_bytes,
  from_be, from_le, EncodedPacket, inline_prefix, encode_u16_be, Answer, wrote, finished, errored,
  none_left, offered, advance, write_all_vectored_2, write_encoded_packet, wire,
}
use pigs.Packet.Framing.{read_frame}
use pigs.Packet.Vectored.{Sends, write_all_vectored_2-Sends, write_all_vectored_2-finished}
use pigs.Packet.Wire.{read_frame-write_encoded_packet}

program : Unit {0}
unfolding then_ok copy_into from_number_bytes new as_slice is_empty to_le_bytes to_be_bytes from_be
    from_le encode_u16_be none_left offered advance write_all_vectored_2 write_encoded_packet wire
    read_frame
program = _

-- The stream takes two bytes, then five.
abbrev answers : List Answer
answers = wrote 2 ∷ wrote 5 ∷ []

sent :
    write_all_vectored_2 answers (1 ∷ 2 ∷ 3 ∷ []) (4 ∷ 5 ∷ []) ≡ (1 ∷ 2 ∷ 3 ∷ 4 ∷ 5 ∷ [], finished)
unfolding program
sent = refl

broken :
    write_all_vectored_2 (wrote 4 ∷ wrote 0 ∷ []) (1 ∷ 2 ∷ 3 ∷ []) (4 ∷ 5 ∷ [])
    ≡ (1 ∷ 2 ∷ 3 ∷ 4 ∷ [], errored)
unfolding program
broken = refl

abbrev frame : EncodedPacket
frame =
    inline_prefix
      (record {
        len = 2;
        bytes = 0 ∷ 3 ∷ 0 ∷ 0 ∷ 0 ∷ 0 ∷ 0 ∷ 0 ∷ 0 ∷ 0 ∷ 0 ∷ 0 ∷ 0 ∷ 0 ∷ 0 ∷ 0 ∷ [];
      })
      (7 ∷ 8 ∷ 9 ∷ [])

encoded : encode_u16_be (7 ∷ 8 ∷ 9 ∷ []) ≡ ok frame
unfolding program
encoded = refl

written : (write_encoded_packet (λ a p. write_all_vectored_2 a p []) answers frame).1 ≡ finished
unfolding program
written = refl

write_all_vectored_2-Sends_example :
    Sends (1 ∷ 2 ∷ 3 ∷ []) (4 ∷ 5 ∷ []) (write_all_vectored_2 answers (1 ∷ 2 ∷ 3 ∷ []) (4 ∷ 5 ∷ []))
write_all_vectored_2-Sends_example =
    write_all_vectored_2-Sends answers (1 ∷ 2 ∷ 3 ∷ []) (4 ∷ 5 ∷ [])

write_all_vectored_2-finished_example :
    (write_all_vectored_2 answers (1 ∷ []) (4 ∷ [])).1 ≡ finished
write_all_vectored_2-finished_example =
    write_all_vectored_2-finished answers (1 ∷ []) (4 ∷ []) (omega arith, (omega arith, _))
      (omega arith)

read_frame-write_encoded_packet_example :
    read_frame (write_encoded_packet (λ a p. write_all_vectored_2 a p []) answers frame).0
    ≡ some (7 ∷ 8 ∷ 9 ∷ [], [])
read_frame-write_encoded_packet_example =
    read_frame-write_encoded_packet (λ a p. write_all_vectored_2 a p [])
      (λ a p. write_all_vectored_2-Sends a p []) answers (7 ∷ 8 ∷ 9 ∷ []) frame encoded written
