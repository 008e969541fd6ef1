-- ===== src/Writer/Insert.antt =====
-- base/src/net/rw.rs: what an insertion into the TCP writer registry does.
use pigs.Prelude.{
  ℕ, ◌+◌, ◌%◌, ◌^◌, true, false, Option, none, some, ◌==◌, lookup-erase, ◌≡◌, ◌≢◌, refl, sym, arith,
  subst, if_intro,
}
use pigs.Writer.{
  TcpPacketSink, TcpWriterRegistration, PacketWriter, probe, same, listed, tcp_sink_by_ip, tcp_sink,
  sink_of, token, close_sink, close_some, reserve, commit, commit_reserved, insert_tcp_sink,
  register,
}
use pigs.Writer.Index.{registration, IsIndexed, IsIndexed-maps}
use pigs.Writer.Register.{close_some-IsIndexed, register-IsIndexed, find_last-append}

module _ (ip_of : ℕ → ℕ) where
  -- What the insertion at an open registry leaves.
  pub record Placed (w : PacketWriter) (addr : ℕ) (sink : TcpPacketSink) (w2 : PacketWriter)
      : Type 0 where
    pub indexed : IsIndexed ip_of w2
    pub own : tcp_sink w2 addr ≡ some sink
    pub by_ip : tcp_sink_by_ip w2 (ip_of addr) ≡ some sink
    pub others : (a : ℕ) → a ≢ addr → tcp_sink w2 a ≡ tcp_sink w a
    pub other_ips :
        (ip : ℕ) → ip ≢ ip_of addr → w2.tcp_writer_addrs_by_ip ip ≡ w.tcp_writer_addrs_by_ip ip
    pub still_open : w2.closed ≡ w.closed
    pub once_cancelled : (t : ℕ) → w.cancelled t ≡ true → w2.cancelled t ≡ true

  register-by_ip :
      (w : PacketWriter) (addr : ℕ) (sink : TcpPacketSink) (id : ℕ)
      → tcp_sink_by_ip (register ip_of w addr sink (registration addr id)) (ip_of addr) ≡ some sink
  unfolding register listed tcp_sink_by_ip probe same
  register-by_ip w addr sink id =
      let self : (ip_of addr == ip_of addr) ≡ true = ground arith in
      let w2 = register ip_of w addr sink (registration addr id) in
      rw self (find_last-append w2.tcp_writers _ (registration addr id) sink (ground arith))

  register-others :
      (w : PacketWriter) (addr a : ℕ) (sink : TcpPacketSink) (id : ℕ)
      → a ≢ addr
      → tcp_sink (register ip_of w addr sink (registration addr id)) a ≡ tcp_sink w a
  unfolding register tcp_sink sink_of
  register-others w addr a sink id other = ground (arith, lookup-erase w.tcp_writers addr a)

  register-own_sink :
      (w : PacketWriter) (addr : ℕ) (sink : TcpPacketSink) (id : ℕ)
      → tcp_sink (register ip_of w addr sink (registration addr id)) addr ≡ some sink
  unfolding register tcp_sink sink_of
  register-own_sink w addr sink id = ground arith

  register-other_ips :
      (w : PacketWriter) (addr ip : ℕ) (sink : TcpPacketSink) (id : ℕ)
      → ip ≢ ip_of addr
      → (register ip_of w addr sink (registration addr id)).tcp_writer_addrs_by_ip ip
        ≡ w.tcp_writer_addrs_by_ip ip
  unfolding register
  register-other_ips w addr ip sink id other = ground arith

  register-Placed :
      (w : PacketWriter) (addr : ℕ) (sink : TcpPacketSink) (id : ℕ)
      → IsIndexed ip_of w
      → Placed w addr sink (register ip_of w addr sink (registration addr id))
  unfolding register
  register-Placed w addr sink id h = record {
    indexed = register-IsIndexed ip_of w addr sink id h;
    own = register-own_sink w addr sink id;
    by_ip = register-by_ip w addr sink id;
    others = λ a other. register-others w addr a sink id other;
    other_ips = λ ip other. register-other_ips w addr ip sink id other;
    still_open = refl;
    once_cancelled = λ t e. e;
  }

  close_some-Placed :
      (w w2 : PacketWriter) (addr : ℕ) (sink : TcpPacketSink) (o : Option TcpPacketSink)
      → Placed w addr sink w2
      → Placed w addr sink (close_some w2 o)
  unfolding close_some close_sink tcp_sink tcp_sink_by_ip
  close_some-Placed w w2 addr sink none h = h
  close_some-Placed w w2 addr sink (some old) h = record {
    indexed = close_some-IsIndexed ip_of w2 (some old) h.indexed;
    own = h.own;
    by_ip = h.by_ip;
    others = h.others;
    other_ips = h.other_ips;
    still_open = h.still_open;
    once_cancelled = λ t e. ground (arith, h.once_cancelled t e);
  }

  -- The sink of the address before, if there was one, is cancelled.
  abbrev pub Replaced : PacketWriter → ℕ → PacketWriter → Type 0
  Replaced w addr w2 =
      (s : TcpPacketSink) → tcp_sink w addr ≡ some s → w2.cancelled (token s) ≡ true

  close_some-cancelled :
      (w : PacketWriter) (s : TcpPacketSink) (o : Option TcpPacketSink)
      → o ≡ some s
      → (close_some w o).cancelled (token s) ≡ true
  unfolding close_some close_sink
  close_some-cancelled w s o e =
      subst (λ o. (close_some w o).cancelled (token s) ≡ true) (sym e) (ground arith)

  abbrev numbered : PacketWriter → ℕ → PacketWriter
  numbered w n = record w { next_tcp_writer_id = n }

  numbered-IsIndexed :
      (w : PacketWriter) (n : ℕ) → IsIndexed ip_of w → IsIndexed ip_of (numbered w n)
  numbered-IsIndexed w n h = IsIndexed-maps ip_of w (numbered w n) refl refl h

  numbered-Placed :
      (w w2 : PacketWriter) (n addr : ℕ) (sink : TcpPacketSink)
      → Placed (numbered w n) addr sink w2
      → Placed w addr sink w2
  unfolding tcp_sink
  numbered-Placed w w2 n addr sink h = record {
    indexed = h.indexed;
    own = h.own;
    by_ip = h.by_ip;
    others = h.others;
    other_ips = h.other_ips;
    still_open = h.still_open;
    once_cancelled = h.once_cancelled;
  }

  reserve-eq :
      (w : PacketWriter) (sink : TcpPacketSink)
      → w.closed ≡ false
      → reserve w sink
        ≡ (some w.next_tcp_writer_id, numbered w ((w.next_tcp_writer_id + 1) % 2 ^ 64))
  unfolding reserve
  reserve-eq w sink is_open = simp is_open

  commit-eq :
      (w : PacketWriter) (addr : ℕ) (sink : TcpPacketSink) (id : ℕ)
      → w.closed ≡ false
      → commit ip_of w addr sink id ≡ (
        some (registration addr id),
        close_some (register ip_of w addr sink (registration addr id)) (tcp_sink w addr),
      )
  unfolding commit
  commit-eq w addr sink id is_open = simp is_open

  -- Either half of an insertion, at any time, keeps the agreement of the maps.
  pub reserve-IsIndexed :
      (w : PacketWriter) (sink : TcpPacketSink)
      → IsIndexed ip_of w
      → IsIndexed ip_of (reserve w sink).1
  unfolding reserve close_sink
  reserve-IsIndexed w sink h =
      if_intro {A = Option ℕ × PacketWriter} w.closed (λ p. IsIndexed ip_of p.1)
        (IsIndexed-maps ip_of w (close_sink w sink) refl refl h)
        (numbered-IsIndexed w ((w.next_tcp_writer_id + 1) % 2 ^ 64) h)

  pub commit-IsIndexed :
      (w : PacketWriter) (addr : ℕ) (sink : TcpPacketSink) (id : ℕ)
      → IsIndexed ip_of w
      → IsIndexed ip_of (commit ip_of w addr sink id).1
  unfolding commit close_sink
  commit-IsIndexed w addr sink id h =
      if_intro {A = Option TcpWriterRegistration × PacketWriter} w.closed (λ p. IsIndexed ip_of p.1)
        (IsIndexed-maps ip_of w (close_sink w sink) refl refl h)
        (close_some-IsIndexed ip_of (register ip_of w addr sink (registration addr id))
          (tcp_sink w addr) (register-IsIndexed ip_of w addr sink id h))

  -- What an insertion that is not refused returns.
  abbrev pub Outcome :
      PacketWriter → ℕ → TcpPacketSink → Option TcpWriterRegistration × PacketWriter → Type 0
  Outcome w addr sink r =
      (r.0 ≡ some (registration addr w.next_tcp_writer_id))
      × Placed w addr sink r.1
      × Replaced w addr r.1

  commit-Outcome :
      (w : PacketWriter) (addr : ℕ) (sink : TcpPacketSink)
      → IsIndexed ip_of w
      → w.closed ≡ false
      → Outcome w addr sink (
          commit ip_of
            (numbered w ((w.next_tcp_writer_id + 1) % 2 ^ 64))
            addr
            sink
            w.next_tcp_writer_id)
  unfolding tcp_sink
  commit-Outcome w addr sink h is_open =
      let w1 = numbered w ((w.next_tcp_writer_id + 1) % 2 ^ 64) in
      let id = w.next_tcp_writer_id in
      subst (Outcome w addr sink) (sym (commit-eq w1 addr sink id is_open)) (
        refl,
        numbered-Placed w _ ((id + 1) % 2 ^ 64) addr sink (
            close_some-Placed w1 _ addr sink (tcp_sink w1 addr)
              (register-Placed w1 addr sink id (numbered-IsIndexed w ((id + 1) % 2 ^ 64) h))),
        λ s e.
            close_some-cancelled (register ip_of w1 addr sink (registration addr id)) s
              (tcp_sink w1 addr) e,
      )

  -- While the registry is open and its two maps agree, an insertion returns a registration with
  -- the next writer's number, gives the address the new sink and cancels the one it had; the
  -- look-up by the address's number gives the new sink; the sinks of other addresses and the lists
  -- of other numbers stay; a cancelled token stays so; the two maps agree afterwards.
  pub insert_tcp_sink-Outcome :
      (w : PacketWriter) (addr : ℕ) (sink : TcpPacketSink)
      → IsIndexed ip_of w
      → w.closed ≡ false
      → Outcome w addr sink (insert_tcp_sink ip_of w addr sink)
  unfolding insert_tcp_sink commit_reserved
  insert_tcp_sink-Outcome w addr sink h is_open =
      subst (λ r. Outcome w addr sink (commit_reserved ip_of r addr sink))
        (sym (reserve-eq w sink is_open)) (commit-Outcome w addr sink h is_open)

  -- A closed registry refuses the sink and cancels it; the maps stay.
  pub insert_tcp_sink_refused :
      (w : PacketWriter) (addr : ℕ) (sink : TcpPacketSink)
      → w.closed ≡ true
      → insert_tcp_sink ip_of w addr sink ≡ (none, close_sink w sink)
  unfolding insert_tcp_sink commit_reserved reserve
  insert_tcp_sink_refused w addr sink is_closed = simp is_closed

  -- Closed, either half of an insertion only cancels the sink.
  pub reserve_refused :
      (w : PacketWriter) (sink : TcpPacketSink)
      → w.closed ≡ true
      → reserve w sink ≡ (none, close_sink w sink)
  unfolding reserve
  reserve_refused w sink is_closed = simp is_closed

  pub commit_refused :
      (w : PacketWriter) (addr : ℕ) (sink : TcpPacketSink) (id : ℕ)
      → w.closed ≡ true
      → commit ip_of w addr sink id ≡ (none, close_sink w sink)
  unfolding commit
  commit_refused w addr sink id is_closed = simp is_closed
