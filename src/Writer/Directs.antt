-- ===== src/Writer/Directs.antt =====
-- base/src/net/rw.rs: where the writes of a `PacketWriter` go as its registry changes.
use pigs.Prelude.{
  ℕ, Bool, true, false, Option, none, some, List, lookup, ◌≡◌, ◌≢◌, sym, ap, ◌∙◌, arith,
  Option-cases, inl, inr,
}
use pigs.Writer.{
  TcpPacketSink, PacketWriter, sink_of, tcp_sink, tcp_sink_by_ip, insert_tcp_sink, expects,
  remove_tcp_writer, close,
}
use pigs.Writer.Index.{IsIndexed}
use pigs.Writer.Insert.{insert_tcp_sink-Outcome}
use pigs.Writer.Remove.{remove-Removal}
use pigs.Writer.Close.{close-IsClosed}
use pigs.Writer.Writes.{
  Protocol, tcp, packet_writer_closed, tcp_not_available, Directed, fails, writes_tcp, when_open,
  to_sink, by_protocol, write_to, try_by_protocol, try_write_to, write_slice_to, slice_by_protocol,
  write_tcp_to_ip,
}

when_open-closed :
    (w : PacketWriter) (next : Directed)
    → w.closed ≡ true
    → when_open w next ≡ fails packet_writer_closed
unfolding when_open
when_open-closed w next is_closed = simp is_closed

when_open-open : (w : PacketWriter) (next : Directed) → w.closed ≡ false → when_open w next ≡ next
unfolding when_open
when_open-open w next is_open = simp is_open

module _ (encode_udp : List ℕ → Option (List ℕ)) where
  -- Every write to the address, and to its number, does what is said.
  pub record AllTo (w : PacketWriter) (addr ip : ℕ) (payload : List ℕ) (d : Directed) : Type 0 where
    pub by_address : (s : Bool) → write_to encode_udp w s payload addr tcp ≡ d
    pub tried : (l s : Bool) → try_write_to encode_udp w l s payload addr tcp ≡ d
    pub by_number : write_tcp_to_ip w payload ip ≡ d

  found-AllTo :
      (w : PacketWriter) (addr ip : ℕ) (payload : List ℕ) (sink : Option TcpPacketSink)
      → w.closed ≡ false
      → tcp_sink w addr ≡ sink
      → tcp_sink_by_ip w ip ≡ sink
      → AllTo w addr ip payload (to_sink sink payload)
  unfolding write_to try_write_to write_tcp_to_ip by_protocol try_by_protocol
  found-AllTo w addr ip payload sink is_open own by_ip =
      let here = ap (λ o. to_sink o payload) own in
      record {
        by_address = λ s. when_open-open w (to_sink (tcp_sink w addr) payload) is_open ∙ here;
        tried = λ l s. when_open-open w (to_sink (tcp_sink w addr) payload) is_open ∙ here;
        by_number =
            when_open-open w (to_sink (tcp_sink_by_ip w ip) payload) is_open
            ∙ ap (λ o. to_sink o payload) by_ip;
      }

  -- No write at all gets out.
  pub record NoneOut (w : PacketWriter) (payload : List ℕ) : Type 0 where
    pub writes :
        (s : Bool) (addr : ℕ) (p : Protocol)
        → write_to encode_udp w s payload addr p ≡ fails packet_writer_closed
    pub slices :
        (s : Bool) (addr : ℕ) (p : Protocol)
        → write_slice_to w s payload addr p ≡ fails packet_writer_closed
    pub tries :
        (l s : Bool) (addr : ℕ) (p : Protocol)
        → try_write_to encode_udp w l s payload addr p ≡ fails packet_writer_closed
    pub by_number : (ip : ℕ) → write_tcp_to_ip w payload ip ≡ fails packet_writer_closed

  closed-NoneOut : (w : PacketWriter) (payload : List ℕ) → w.closed ≡ true → NoneOut w payload
  unfolding write_to write_slice_to try_write_to write_tcp_to_ip
  closed-NoneOut w payload is_closed = record {
    writes = λ s addr p. when_open-closed w (by_protocol encode_udp w s payload addr p) is_closed;
    slices = λ s addr p. when_open-closed w (slice_by_protocol s payload addr p) is_closed;
    tries = λ l s addr p.
        when_open-closed w (try_by_protocol encode_udp w l s payload addr p) is_closed;
    by_number = λ ip. when_open-closed w (to_sink (tcp_sink_by_ip w ip) payload) is_closed;
  }

module _ (ip_of : ℕ → ℕ) where
  removed :
      (w : PacketWriter) (addr : ℕ) (sink : TcpPacketSink)
      → IsIndexed ip_of w
      → tcp_sink w addr ≡ some sink
      → (tcp_sink (remove_tcp_writer ip_of w addr) addr ≡ none)
        × ((remove_tcp_writer ip_of w addr).closed ≡ w.closed)
  unfolding remove_tcp_writer expects tcp_sink sink_of
  removed w addr sink indexed own = elim (remove-Removal ip_of w addr none indexed) [
    | inl (r, at, expected_one, taken, shut) ↦ (taken.gone, taken.still_open)
    | inr (other_one, unchanged) ↦ elim (Option-cases (lookup w.tcp_writers addr)) [
      | inl absent ↦ absurd (ground (arith, sym (ap sink_of absent) ∙ own))
      | inr (r, at) ↦ absurd (ground (arith, other_one r at))
    ]
  ]

module _ (ip_of : ℕ → ℕ) (encode_udp : List ℕ → Option (List ℕ)) where
  -- On an open registry whose maps agree: once a peer's sink is inserted, `write_to` and
  -- `try_write_to` with its address over TCP and `write_tcp_to_ip` with its number all go on in that
  -- sink; `write_to` and `try_write_to` with another address over TCP go where they went; once the peer is removed, both writes to
  -- its address fail because there is no writer; and after the close every write fails, over every
  -- protocol.
  pub insert_tcp_sink-AllTo :
      (w : PacketWriter) (addr : ℕ) (sink : TcpPacketSink) (payload : List ℕ)
      → IsIndexed ip_of w
      → w.closed ≡ false
      → let w1 = (insert_tcp_sink ip_of w addr sink).1 in
        AllTo encode_udp w1 addr (ip_of addr) payload (writes_tcp sink payload)
        × ((l s : Bool) (a : ℕ)
            → a ≢ addr
            → (write_to encode_udp w1 s payload a tcp ≡ write_to encode_udp w s payload a tcp)
              × (try_write_to encode_udp w1 l s payload a tcp
                  ≡ try_write_to encode_udp w l s payload a tcp))
        × ((l s : Bool)
            → let w2 = remove_tcp_writer ip_of w1 addr in
              (write_to encode_udp w2 s payload addr tcp ≡ fails tcp_not_available)
              × (try_write_to encode_udp w2 l s payload addr tcp ≡ fails tcp_not_available))
        × NoneOut encode_udp (close w1) payload
  unfolding write_to try_write_to by_protocol try_by_protocol to_sink
  insert_tcp_sink-AllTo w addr sink payload indexed is_open =
      let w1 = (insert_tcp_sink ip_of w addr sink).1 in
      let h = (insert_tcp_sink-Outcome ip_of w addr sink indexed is_open).1 in
      let open_still : w1.closed ≡ false = h.still_open ∙ is_open in
      let w2 = remove_tcp_writer ip_of w1 addr in
      let (gone, same) = removed ip_of w1 addr sink h.indexed h.own in
      let open_after : w2.closed ≡ false = same ∙ open_still in
      (
        found-AllTo encode_udp w1 addr (ip_of addr) payload (some sink) open_still h.own h.by_ip,
        λ l s a other.
            let same_sink =
              when_open-open w1 (to_sink (tcp_sink w1 a) payload) open_still
              ∙ ap (λ o. to_sink o payload) (h.others a other)
              ∙ sym (when_open-open w (to_sink (tcp_sink w a) payload) is_open) in
            (same_sink, same_sink),
        λ l s. (
          when_open-open w2 (to_sink (tcp_sink w2 addr) payload) open_after
              ∙ ap (λ o. to_sink o payload) gone,
          when_open-open w2 (to_sink (tcp_sink w2 addr) payload) open_after
              ∙ ap (λ o. to_sink o payload) gone,
        ),
        closed-NoneOut encode_udp (close w1) payload (close-IsClosed w1).0.flag,
      )
