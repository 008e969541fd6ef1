-- ===== src/Packet/Wire.antt =====
-- base/src/net/rw.rs: a payload that is encoded and written is read back by the peer.
use pigs.Prelude.{ℕ, List, [], ◌++◌, some, ◌≡◌, sym, ap, ◌∙◌, subst, inl, inr, arith}
use mathlib.Core.List.{append-nil}
use pigs.Packet.{
  ok, EncodedPacket, single, inline_prefix, as_slice, Answer, Progress, finished,
  write_encoded_packet, wire, encode_u16_be,
}
use pigs.Packet.Framing.{read_frame, encode_u16_be-IsFrame}
use pigs.Packet.Vectored.{Sends, write_all_vectored_2-Sends}

module _ (write_all : List Answer → List ℕ → List ℕ × Progress)
    (write_all_lem : (answers : List Answer) (payload : List ℕ)
      → Sends payload [] (write_all answers payload)) where
  Sends-finished :
      (first second : List ℕ) (r : List ℕ × Progress)
      → Sends first second r
      → r.1 ≡ finished
      → r.0 ≡ first ++ second
  Sends-finished first second r h e =
      sym (append-nil r.0) ∙ ap (λ l. r.0 ++ l) (sym (h.all_sent e)) ∙ h.in_order

  written-wire :
      (answers : List Answer) (p : EncodedPacket)
      → (write_encoded_packet write_all answers p).1 ≡ finished
      → (write_encoded_packet write_all answers p).0 ≡ wire p
  unfolding write_encoded_packet wire
  written-wire answers (single payload) e =
      Sends-finished payload [] _ (write_all_lem answers payload) e ∙ append-nil payload
  written-wire answers (inline_prefix prefix payload) e =
      Sends-finished (as_slice prefix) payload _
        (write_all_vectored_2-Sends answers (as_slice prefix) payload) e

  -- If the library's `write_all` sends what it is given, in order and all of it on success, then a
  -- payload that the length prefix encoder encodes, and whose packet is written with success, is
  -- what a reader makes of the bytes that the stream took, with nothing left over.
  pub read_frame-write_encoded_packet :
      (answers : List Answer) (payload : List ℕ) (p : EncodedPacket)
      → encode_u16_be payload ≡ ok p
      → (write_encoded_packet write_all answers p).1 ≡ finished
      → read_frame (write_encoded_packet write_all answers p).0 ≡ some (payload, [])
  read_frame-write_encoded_packet answers payload p encoded done =
      elim (encode_u16_be-IsFrame payload) [
        | inl (long, no_packet) ↦ absurd (ground (arith, no_packet, encoded))
        | inr (fits, (q, made, reads)) ↦
            let same : q ≡ p = ground arith in
            ap read_frame (written-wire answers p done ∙ sym (append-nil (wire p)))
            ∙ subst (λ x. read_frame (wire x ++ []) ≡ some (payload, [])) same (reads [])
      ]
