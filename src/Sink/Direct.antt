-- ===== src/Sink/Direct.antt =====
-- base/src/net/rw.rs: what a direct sink acknowledges is on its stream.
use pigs.Prelude.{
  ℕ, true, false, List, [], ◌∷◌, ◌++◌, length, Option, some, ◌≡◌, refl, sym, ap, ◌∙◌, subst, arith,
  Bool-cases, inl, inr, All, All-append,
}
use mathlib.Core.List.{append_assoc, append-nil}
use pigs.Packet.{
  Outcome, ok, refused, panicked, EncodedPacket, Answer, Progress, finished, errored, pending,
  encode_u16_be, wire, write_encoded_packet,
}
use pigs.Packet.Vectored.{Sends}
use pigs.Sink.{
  Written, sink_closed, DirectTcpSink, after_direct, write_locked, direct_encoded, DirectEvent,
  locks, drops, shuts, shut, direct_step,
}
use pigs.Sink.Bytes.{
  acknowledged, packet_bytes, payload_bytes, payload_bytes-append, Takes,
  write_encoded_packet-Takes,
}
use pigs.Sink.Reading.{IsEncoded, read_all, read_all-exact}

abbrev pub direct_told : DirectEvent → Option Written → List (List ℕ)
direct_told (locks payload answers) result = acknowledged payload result
direct_told (drops payload answers) result = []
direct_told shuts result = []

-- The event is not a write dropped by its client.
abbrev pub IsAwaited : DirectEvent → Type 0
IsAwaited (locks payload answers) = Unit {0}
IsAwaited (drops payload answers) = ⊥
IsAwaited shuts = Unit {0}

module _ (write_all : List Answer → List ℕ → List ℕ × Progress) where
  -- The payloads that were acknowledged, in order, and the sink after the events.
  unfoldable pub run_direct : DirectTcpSink → List DirectEvent → List (List ℕ) × DirectTcpSink
  run_direct d [] = ([], d)
  run_direct d (event ∷ events) =
      let r = direct_step encode_u16_be write_all d event in
      let rest = run_direct r.1 events in (direct_told event r.0 ++ rest.0, rest.1)

-- The bytes of the acknowledged payloads are the first of the stream; while the sink is open, they
-- are all.
record Holds (payloads : List (List ℕ)) (d : DirectTcpSink) : Type 0 where
  part : List ℕ
  in_order : d.sent ≡ payload_bytes encode_u16_be payloads ++ part
  whole : d.cancel ≡ false → part ≡ []
  encoded : All IsEncoded payloads

module _ (write_all : List Answer → List ℕ → List ℕ × Progress)
    (write_all_lem : (answers : List Answer) (payload : List ℕ)
      → Sends payload [] (write_all answers payload)) where
  abbrev Stays : List (List ℕ) → List ℕ → Written × DirectTcpSink → Type 0
  Stays payloads payload r = Holds (payloads ++ acknowledged payload (some r.0)) r.1

  same-Stays :
      (payloads : List (List ℕ)) (d : DirectTcpSink) → Holds payloads d → Holds (payloads ++ []) d
  same-Stays payloads d h = rw (append-nil payloads) h

  sent_whole :
      (payloads : List (List ℕ)) (d : DirectTcpSink)
      → d.cancel ≡ false
      → Holds payloads d
      → d.sent ≡ payload_bytes encode_u16_be payloads
  sent_whole payloads d is_open h =
      h.in_order
      ∙ ap (λ b. payload_bytes encode_u16_be payloads ++ b) (h.whole is_open)
      ∙ append-nil (payload_bytes encode_u16_be payloads)

  -- A write that fails leaves a part of its packet on the stream, and the sink closed.
  broken :
      (payloads : List (List ℕ)) (d : DirectTcpSink) (bytes : List ℕ)
      → d.cancel ≡ false
      → Holds payloads d
      → Holds payloads (record d { sent = d.sent ++ bytes; cancel = true })
  broken payloads d bytes is_open h = record {
    part = bytes;
    in_order = ap (λ b. b ++ bytes) (sent_whole payloads d is_open h);
    whole = λ e. absurd (ground (arith, e));
    encoded = h.encoded;
  }

  after_direct-Stays :
      (payloads : List (List ℕ)) (d : DirectTcpSink) (payload : List ℕ) (packet : EncodedPacket)
      (r : List ℕ × Progress)
      → encode_u16_be payload ≡ ok packet
      → Takes packet r
      → d.cancel ≡ false
      → Holds payloads d
      → Stays payloads payload (after_direct (record d { sent = d.sent ++ r.0 }) r.1)
  unfolding after_direct
  after_direct-Stays payloads d payload packet (bytes, finished) made takes is_open h =
      let left_none = takes.all_sent refl in
      let sent_all : bytes ≡ wire packet =
        sym (append-nil bytes) ∙ ap (λ b. bytes ++ b) (sym left_none) ∙ takes.in_order in
      let frame : payload_bytes encode_u16_be (payload ∷ []) ≡ bytes =
        append-nil (packet_bytes (encode_u16_be payload)) ∙ ap packet_bytes made ∙ sym sent_all in
      let before : d.sent ≡ payload_bytes encode_u16_be payloads =
        sent_whole payloads d is_open h in
      record {
        part = [];
        in_order =
            ap (λ b. b ++ bytes) before
            ∙ ap (λ b. payload_bytes encode_u16_be payloads ++ b) (sym frame)
            ∙ sym (payload_bytes-append encode_u16_be payloads (payload ∷ []))
            ∙ sym (append-nil (payload_bytes encode_u16_be (payloads ++ payload ∷ [])));
        whole = λ e. refl;
        encoded = All-append IsEncoded payloads (payload ∷ []) h.encoded ((packet, made), _);
      }
  after_direct-Stays payloads d payload packet (bytes, errored) made takes is_open h =
      same-Stays payloads _ (broken payloads d bytes is_open h)
  after_direct-Stays payloads d payload packet (bytes, pending) made takes is_open h =
      same-Stays payloads _ (broken payloads d bytes is_open h)

  direct_encoded-Stays :
      (payloads : List (List ℕ)) (d : DirectTcpSink) (payload : List ℕ) (answers : List Answer)
      (o : Outcome EncodedPacket)
      → encode_u16_be payload ≡ o
      → Holds payloads d
      → Stays payloads payload (direct_encoded write_all d answers o)
  unfolding direct_encoded write_locked
  direct_encoded-Stays payloads d payload answers (ok packet) made h = elim (Bool-cases d.cancel) [
    | inl shut_down ↦
        let eq : write_locked write_all d answers packet ≡ (sink_closed, d) = simp shut_down in
        subst (Stays payloads payload) (sym eq) (same-Stays payloads d h)
    | inr is_open ↦
        let r = write_encoded_packet write_all answers packet in
        let takes = write_encoded_packet-Takes write_all write_all_lem answers packet in
        let eq : write_locked write_all d answers packet
            ≡ after_direct (record d { sent = d.sent ++ r.0 }) r.1 =
          simp is_open in
        subst (Stays payloads payload) (sym eq)
          (after_direct-Stays payloads d payload packet r made takes is_open h)
  ]
  direct_encoded-Stays payloads d payload answers refused made h = same-Stays payloads d h
  direct_encoded-Stays payloads d payload answers panicked made h = same-Stays payloads d h

  direct_step-Holds :
      (payloads : List (List ℕ)) (d : DirectTcpSink) (event : DirectEvent)
      → IsAwaited event
      → Holds payloads d
      → let r = direct_step encode_u16_be write_all d event in
        Holds (payloads ++ direct_told event r.0) r.1
  unfolding direct_step shut
  direct_step-Holds payloads d (locks payload answers) awaited h =
      direct_encoded-Stays payloads d payload answers (encode_u16_be payload) refl h
  direct_step-Holds payloads d (drops payload answers) awaited h = absurd awaited
  direct_step-Holds payloads d shuts awaited h =
      same-Stays payloads (record d { cancel = true })
        (record {
          part = h.part;
          in_order = h.in_order;
          whole = λ e. absurd (ground (arith, e));
          encoded = h.encoded;
        })

  run_direct-Holds :
      (payloads : List (List ℕ)) (d : DirectTcpSink) (events : List DirectEvent)
      → All IsAwaited events
      → Holds payloads d
      → let r = run_direct write_all d events in Holds (payloads ++ r.0) r.1
  unfolding run_direct
  run_direct-Holds payloads d [] awaited h = same-Stays payloads d h
  run_direct-Holds payloads d (event ∷ events) (first, others) h =
      let r = direct_step encode_u16_be write_all d event in
      let rest = run_direct write_all r.1 events in
      subst (λ l. Holds l rest.1) (append_assoc payloads (direct_told event r.0) rest.0)
        (run_direct-Holds (payloads ++ direct_told event r.0) r.1 events others
          (direct_step-Holds payloads d event first h))

  -- If the library's `write_all` sends what it is given, in order and all of it on success, then a
  -- reader at the other end of a direct sink with the length prefix encoder has every payload whose
  -- write was told to be accepted, in their order, before anything else: a write that fails or is cut
  -- short by a closing comes after them all. That is for clients that await their writes to the end,
  -- and closings and answers of the stream at any time.
  pub run_direct-read_all :
      (events : List DirectEvent)
      → All IsAwaited events
      → let r = run_direct write_all (record { sent = []; cancel = false }) events in
        read_all (length r.0) r.1.sent ≡ r.0
  run_direct-read_all events awaited =
      let d : DirectTcpSink = record { sent = []; cancel = false } in
      let r = run_direct write_all d events in
      let h =
        run_direct-Holds [] d events awaited
          (record { part = []; in_order = refl; whole = λ e. refl; encoded = _ }) in
      ap (read_all (length r.0)) h.in_order ∙ read_all-exact r.0 h.part h.encoded
