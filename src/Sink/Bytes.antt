-- ===== src/Sink/Bytes.antt =====
-- base/src/net/rw.rs: the bytes that a queued sink's stream has taken.
use pigs.Prelude.{
  ℕ, List, [], ◌∷◌, ◌++◌, if_intro, Option, none, some, ◌≡◌, ◌≢◌, refl, sym, ap, ◌∙◌, arith,
}
use mathlib.Core.List.{append_assoc, append-nil}
use pigs.Packet.{
  Outcome, ok, refused, panicked, EncodedPacket, single, inline_prefix, as_slice, Answer, Progress,
  finished, errored, pending, write_encoded_packet, wire,
}
use pigs.Packet.Vectored.{Sends, write_all_vectored_2-Sends}
use pigs.Sink.{
  Written, written, push, Phase, serving, waiting, over, Line, leave_loop, leave_if_empty,
  after_write, Event, tries, turns, closes, serves, cancelled, senders_gone, serve_packet,
  task_round,
}

abbrev pub wires : List EncodedPacket → List ℕ
wires [] = []
wires (packet ∷ packets) = wire packet ++ wires packets

wires-append :
    (packets : List EncodedPacket) (packet : EncodedPacket)
    → wires (packets ++ packet ∷ []) ≡ wires packets ++ wire packet
wires-append [] packet = append-nil (wire packet)
wires-append (p ∷ packets) packet =
    ap (λ b. wire p ++ b) (wires-append packets packet)
    ∙ sym (append_assoc (wire p) (wires packets) (wire packet))

-- The bytes `total` begin with those that were sent; while the task serves, the packets of the queue
-- are the rest.
pub record Carries (total : List ℕ) (l : Line) : Type 0 where
  pub rest : List ℕ
  pub in_order : l.sent ++ rest ≡ total
  pub queued : l.phase ≡ serving → rest ≡ wires l.sink.queue

-- The bytes taken of one packet, and those left.
pub record Takes (packet : EncodedPacket) (r : List ℕ × Progress) : Type 0 where
  pub left : List ℕ
  pub in_order : r.0 ++ left ≡ wire packet
  pub all_sent : r.1 ≡ finished → left ≡ []

-- The payload of a write that was told to be accepted.
abbrev pub acknowledged : List ℕ → Option Written → List (List ℕ)
acknowledged payload none = []
acknowledged payload (some written) = payload ∷ []
acknowledged payload (some other) = []

abbrev pub told : Event → Option Written → List (List ℕ)
told (tries payload) result = acknowledged payload result
told (turns payload) result = acknowledged payload result
told closes result = []
told (serves answers) result = []
told cancelled result = []
told senders_gone result = []

abbrev pub packet_bytes : Outcome EncodedPacket → List ℕ
packet_bytes (ok packet) = wire packet
packet_bytes refused = []
packet_bytes panicked = []

abbrev pub payload_bytes : (List ℕ → Outcome EncodedPacket) → List (List ℕ) → List ℕ
payload_bytes encode_tcp [] = []
payload_bytes encode_tcp (payload ∷ payloads) =
    packet_bytes (encode_tcp payload) ++ payload_bytes encode_tcp payloads

pub payload_bytes-append :
    (encode_tcp : List ℕ → Outcome EncodedPacket) (xs ys : List (List ℕ))
    → payload_bytes encode_tcp (xs ++ ys)
      ≡ payload_bytes encode_tcp xs ++ payload_bytes encode_tcp ys
payload_bytes-append encode_tcp [] ys = refl
payload_bytes-append encode_tcp (x ∷ xs) ys =
    ap (λ b. packet_bytes (encode_tcp x) ++ b) (payload_bytes-append encode_tcp xs ys)
    ∙ sym (
        append_assoc (packet_bytes (encode_tcp x)) (payload_bytes encode_tcp xs)
          (payload_bytes encode_tcp ys))

module _ (write_all : List Answer → List ℕ → List ℕ × Progress)
    (write_all_lem : (answers : List Answer) (payload : List ℕ)
      → Sends payload [] (write_all answers payload)) where
  pub write_encoded_packet-Takes :
      (answers : List Answer) (packet : EncodedPacket)
      → Takes packet (write_encoded_packet write_all answers packet)
  unfolding write_encoded_packet wire
  write_encoded_packet-Takes answers (single payload) =
      let h = write_all_lem answers payload in
      record { left = h.left; in_order = h.in_order ∙ append-nil payload; all_sent = h.all_sent }
  write_encoded_packet-Takes answers (inline_prefix prefix payload) =
      let h = write_all_vectored_2-Sends answers (as_slice prefix) payload in
      record { left = h.left; in_order = h.in_order; all_sent = h.all_sent }

  -- Any change of the token, the channel's end or the capacity leaves the bytes.
  pub push-Carries :
      (total : List ℕ) (l : Line) (packet : EncodedPacket)
      → Carries total l
      → Carries (total ++ wire packet) (record l { sink = push l.sink packet })
  unfolding push
  push-Carries total l packet h = record {
    rest = h.rest ++ wire packet;
    in_order =
        sym (append_assoc l.sent h.rest (wire packet)) ∙ ap (λ b. b ++ wire packet) h.in_order;
    queued = λ e. ap (λ b. b ++ wire packet) (h.queued e) ∙ sym (wires-append l.sink.queue packet);
  }

  over-Carries :
      (total : List ℕ) (l l1 : Line)
      → l1.sent ≡ l.sent
      → l1.phase ≢ serving
      → Carries total l
      → Carries total l1
  over-Carries total l l1 same gone h = record {
    rest = h.rest;
    in_order = ap (λ b. b ++ h.rest) same ∙ h.in_order;
    queued = λ e. absurd (gone e);
  }

  progress-Carries :
      (total : List ℕ) (l : Line) (rest : List ℕ) (p : Progress)
      → l.sent ++ rest ≡ total
      → (p ≡ finished → rest ≡ wires l.sink.queue)
      → Carries total (after_write l p)
  unfolding after_write leave_loop
  progress-Carries total l rest finished in_order h = record {
    rest = rest;
    in_order = in_order;
    queued = λ e. h refl;
  }
  progress-Carries total l rest errored in_order h = record {
    rest = rest;
    in_order = in_order;
    queued = λ e. absurd (ground (arith, e));
  }
  progress-Carries total l rest pending in_order h = record {
    rest = rest;
    in_order = in_order;
    queued = λ e. absurd (ground (arith, e));
  }

  after_write-Carries :
      (total : List ℕ) (l : Line) (packet : EncodedPacket) (queue : List EncodedPacket)
      (r : List ℕ × Progress)
      → Carries total l
      → l.phase ≡ serving
      → l.sink.queue ≡ packet ∷ queue
      → Takes packet r
      → Carries total (
          after_write
            (record l { sink = record (l.sink) { queue = queue }; sent = l.sent ++ r.0 })
            r.1)
  after_write-Carries total l packet queue r h at head takes =
      let others = wires queue in
      let all : wire packet ++ others ≡ h.rest = sym (h.queued at ∙ ap wires head) in
      let taken : r.0 ++ (takes.left ++ others) ≡ h.rest =
        sym (append_assoc r.0 takes.left others) ∙ ap (λ b. b ++ others) takes.in_order ∙ all in
      progress-Carries total
        (record l { sink = record (l.sink) { queue = queue }; sent = l.sent ++ r.0 })
        (takes.left ++ others) r.1
        (append_assoc l.sent r.0 (takes.left ++ others) ∙ ap (λ b. l.sent ++ b) taken ∙ h.in_order)
        (λ e. ap (λ b. b ++ others) (takes.all_sent e))

  serve_packet-Carries :
      (total : List ℕ) (l : Line) (answers : List Answer) (queue : List EncodedPacket)
      → Carries total l
      → l.phase ≡ serving
      → l.sink.queue ≡ queue
      → Carries total (serve_packet write_all l answers queue)
  unfolding serve_packet
  serve_packet-Carries total l answers [] h at e = h
  serve_packet-Carries total l answers (packet ∷ queue) h at e =
      after_write-Carries total l packet queue (write_encoded_packet write_all answers packet) h at
        e (write_encoded_packet-Takes answers packet)

  leave_if_empty-Carries :
      (total : List ℕ) (l : Line) (queue : List EncodedPacket)
      → Carries total l
      → Carries total (leave_if_empty l queue)
  unfolding leave_if_empty leave_loop
  leave_if_empty-Carries total l [] h =
      over-Carries total l (leave_loop l) refl (λ e. absurd (ground (arith, e))) h
  leave_if_empty-Carries total l (packet ∷ queue) h = h

  pub task_round-Carries :
      (total : List ℕ) (p : Phase) (l : Line) (event : Event)
      → l.phase ≡ p
      → Carries total l
      → Carries total (task_round write_all p l event)
  unfolding task_round leave_loop
  task_round-Carries total serving l (serves answers) at h =
      serve_packet-Carries total l answers l.sink.queue h at refl
  task_round-Carries total serving l cancelled at h =
      if_intro l.sink.cancel (Carries total)
        (over-Carries total l (leave_loop l) refl (λ e. absurd (ground (arith, e))) h) h
  task_round-Carries total serving l senders_gone at h =
      leave_if_empty-Carries total l l.sink.queue h
  task_round-Carries total serving l (tries payload) at h = h
  task_round-Carries total serving l (turns payload) at h = h
  task_round-Carries total serving l closes at h = h
  task_round-Carries total waiting l event at h = h
  task_round-Carries total over l event at h = h
