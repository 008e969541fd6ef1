-- ===== src/Writer/Remove.antt =====
-- base/src/net/rw.rs: what a removal from the TCP writer registry does.
use pigs.Prelude.{
  ℕ, true, false, not, Option, none, some, List, ◌==◌, if◌then◌else◌, retain, lookup, lookup-erase,
  ◌≡◌, ◌≢◌, refl, sym, ap, ◌∙◌, ◌⊎◌, inl, inr, arith, All, ==_iff, Bool-cases, Option-cases, subst,
  All-mono, retain-All,
}
use pigs.Writer.{
  TcpWriterRegistration, RegisteredTcpSink, PacketWriter, same, listed, tcp_sink, sink_of, token,
  close_sink, close_some, without, expects, take_registered, remove_tcp_writer_inner, close_taken,
}
use pigs.Writer.Index.{Has, IsLive, IsIndexed, same_refl, same-false}
use pigs.Writer.Register.{Has-retain, close_some-IsIndexed}

listed-without :
    (o : Option (List TcpWriterRegistration)) (g : TcpWriterRegistration)
    → listed (without o g) ≡ retain (λ item. not (same item g)) (listed o)
unfolding listed without
listed-without none g = refl
listed-without (some gs) g = ground arith

module _ (ip_of : ℕ → ℕ) where
  -- A registration of another address stays live when an address is taken out.
  take-IsLive :
      (w : PacketWriter) (addr ip : ℕ) (r : RegisteredTcpSink) (g : TcpWriterRegistration)
      → g.remote_addr ≢ addr
      → IsLive ip_of w ip g
      → IsLive ip_of (take_registered ip_of w addr r) ip g
  unfolding take_registered
  take-IsLive w addr ip r g other h = record {
    at_ip = h.at_ip;
    registered = h.registered;
    found = ground (arith, lookup-erase w.tcp_writers addr g.remote_addr, h.found);
    same_registration = h.same_registration;
  }

  -- A live registration that is not the one taken has another address.
  live-other :
      (w : PacketWriter) (addr ip : ℕ) (r : RegisteredTcpSink) (g : TcpWriterRegistration)
      → lookup w.tcp_writers addr ≡ some r
      → IsLive ip_of w ip g
      → same g r.registration ≡ false
      → g.remote_addr ≢ addr
  live-other w addr ip r g at h differ e =
      let there : lookup w.tcp_writers g.remote_addr ≡ some r =
        subst (λ a. lookup w.tcp_writers a ≡ some r) (sym e) at in
      let both : some r ≡ some h.registered = sym there ∙ h.found in
      let eq : r ≡ h.registered = ground arith in
      let own : r.registration ≡ g = ap (λ x. x.registration) eq ∙ h.same_registration in
      let same_one : same g r.registration ≡ true =
        subst (λ x. same g x ≡ true) (sym own) (same_refl g) in
      ground arith

  take-live :
      (w : PacketWriter) (addr ip : ℕ) (r : RegisteredTcpSink)
      → IsIndexed ip_of w
      → lookup w.tcp_writers addr ≡ some r
      → let w2 = take_registered ip_of w addr r in
        All (IsLive ip_of w2 ip) (listed (w2.tcp_writer_addrs_by_ip ip))
  unfolding take_registered
  take-live w addr ip r h at =
      let w2 = take_registered ip_of w addr r in
      elim (Bool-cases (ip_of addr == ip)) [
        | inl here ↦
            let eq = (==_iff (ip_of addr) ip).0 here in
            let old : All (IsLive ip_of w ip) (listed (w.tcp_writer_addrs_by_ip (ip_of addr))) =
              subst (λ i. All (IsLive ip_of w ip) (listed (w.tcp_writer_addrs_by_ip i))) (sym eq)
                (h.live ip) in
            rw (here, listed-without (w.tcp_writer_addrs_by_ip (ip_of addr)) r.registration)
              (retain-All (IsLive ip_of w ip) (IsLive ip_of w2 ip)
                (λ item. not (same item r.registration))
                (λ g keep l.
                  take-IsLive w addr ip r g (live-other w addr ip r g at l (ground arith)) l)
                _ old)
        | inr away ↦ rw away (
            All-mono (IsLive ip_of w ip) (IsLive ip_of w2 ip)
              (λ g l.
                take-IsLive w addr ip r g
                  (λ e. let q : ip_of addr ≡ ip = ap ip_of (sym e) ∙ l.at_ip in ground arith) l)
              _ (h.live ip))
      ]

  take-complete :
      (w : PacketWriter) (addr a : ℕ) (r s : RegisteredTcpSink)
      → IsIndexed ip_of w
      → lookup w.tcp_writers addr ≡ some r
      → addr ≢ a
      → lookup w.tcp_writers a ≡ some s
      → Has s.registration
          (listed ((take_registered ip_of w addr r).tcp_writer_addrs_by_ip (ip_of a)))
  unfolding take_registered
  take-complete w addr a r s h at other found =
      let differ : same s.registration r.registration ≡ false =
        same-false s.registration r.registration
          (λ e. let u = h.own_addr a s found in let v = h.own_addr addr r at in ground arith) in
      elim (Bool-cases (ip_of addr == ip_of a)) [
        | inl here ↦
            let eq = (==_iff (ip_of addr) (ip_of a)).0 here in
            rw (here, listed-without (w.tcp_writer_addrs_by_ip (ip_of addr)) r.registration)
              (Has-retain (λ item. not (same item r.registration)) s.registration _ (ground arith)
                (subst (λ i. Has s.registration (listed (w.tcp_writer_addrs_by_ip i))) (sym eq)
                  (h.complete a s found)))
        | inr away ↦ rw away (h.complete a s found)
      ]

  take-own :
      (w : PacketWriter) (addr a : ℕ) (r s : RegisteredTcpSink)
      → lookup (take_registered ip_of w addr r).tcp_writers a ≡ some s
      → (addr ≢ a) × (lookup w.tcp_writers a ≡ some s)
  unfolding take_registered
  take-own w addr a r s e = ground (arith, lookup-erase w.tcp_writers addr a)

  take-IsIndexed :
      (w : PacketWriter) (addr : ℕ) (r : RegisteredTcpSink)
      → IsIndexed ip_of w
      → lookup w.tcp_writers addr ≡ some r
      → IsIndexed ip_of (take_registered ip_of w addr r)
  take-IsIndexed w addr r h at = record {
    own_addr = λ a s e. h.own_addr a s (take-own w addr a r s e).1;
    live = λ ip. take-live w addr ip r h at;
    complete = λ a s e.
        take-complete w addr a r s h at (take-own w addr a r s e).0 (take-own w addr a r s e).1;
  }

  -- The writer of the address is gone, and nothing else changed.
  pub record Taken (w : PacketWriter) (addr : ℕ) (w2 : PacketWriter) : Type 0 where
    pub indexed : IsIndexed ip_of w2
    pub gone : tcp_sink w2 addr ≡ none
    pub others : (a : ℕ) → a ≢ addr → tcp_sink w2 a ≡ tcp_sink w a
    pub other_ips :
        (ip : ℕ) → ip ≢ ip_of addr → w2.tcp_writer_addrs_by_ip ip ≡ w.tcp_writer_addrs_by_ip ip
    pub still_open : w2.closed ≡ w.closed
    pub once_cancelled : (t : ℕ) → w.cancelled t ≡ true → w2.cancelled t ≡ true

  take-gone :
      (w : PacketWriter) (addr : ℕ) (r : RegisteredTcpSink)
      → tcp_sink (take_registered ip_of w addr r) addr ≡ none
  unfolding take_registered tcp_sink sink_of
  take-gone w addr r = ground (arith, lookup-erase w.tcp_writers addr addr)

  take-others :
      (w : PacketWriter) (addr a : ℕ) (r : RegisteredTcpSink)
      → a ≢ addr
      → tcp_sink (take_registered ip_of w addr r) a ≡ tcp_sink w a
  unfolding take_registered tcp_sink sink_of
  take-others w addr a r other = ground (arith, lookup-erase w.tcp_writers addr a)

  take-other_ips :
      (w : PacketWriter) (addr ip : ℕ) (r : RegisteredTcpSink)
      → ip ≢ ip_of addr
      → (take_registered ip_of w addr r).tcp_writer_addrs_by_ip ip ≡ w.tcp_writer_addrs_by_ip ip
  unfolding take_registered
  take-other_ips w addr ip r other = ground arith

  take-Taken :
      (w : PacketWriter) (addr : ℕ) (r : RegisteredTcpSink)
      → IsIndexed ip_of w
      → lookup w.tcp_writers addr ≡ some r
      → Taken w addr (close_some (take_registered ip_of w addr r) (some r.sink))
  unfolding close_some close_sink tcp_sink take_registered
  take-Taken w addr r h at = record {
    indexed =
        close_some-IsIndexed ip_of (take_registered ip_of w addr r) (some r.sink)
          (take-IsIndexed w addr r h at);
    gone = take-gone w addr r;
    others = λ a other. take-others w addr a r other;
    other_ips = λ ip other. take-other_ips w addr ip r other;
    still_open = refl;
    once_cancelled = λ t e. ground arith;
  }

  -- The outcome of a removal that expects a writer: it takes the writer of the address and cancels
  -- its sink, or there is none that it expects.
  abbrev pub Removal : PacketWriter → ℕ → Option ℕ → PacketWriter → Type 0
  Removal w addr expected w2 =
      ((r : RegisteredTcpSink) × (lookup w.tcp_writers addr ≡ some r)
        × (expects expected r.registration.writer_id ≡ true)
        × Taken w addr w2
        × (w2.cancelled (token r.sink) ≡ true))
      ⊎ (((r : RegisteredTcpSink)
            → lookup w.tcp_writers addr ≡ some r
            → expects expected r.registration.writer_id ≡ false)
          × (w2 ≡ w))

  remove-eq :
      (w : PacketWriter) (addr : ℕ) (expected : Option ℕ) (r : RegisteredTcpSink)
      → lookup w.tcp_writers addr ≡ some r
      → remove_tcp_writer_inner ip_of w addr expected ≡ (
          if expects expected r.registration.writer_id
          then (some r.sink, take_registered ip_of w addr r)
          else (none, w))
  unfolding remove_tcp_writer_inner
  remove-eq w addr expected r at = rw (at, remove_tcp_writer_inner)

  pub remove_none :
      (w : PacketWriter) (addr : ℕ) (expected : Option ℕ)
      → lookup w.tcp_writers addr ≡ none
      → remove_tcp_writer_inner ip_of w addr expected ≡ (none, w)
  unfolding remove_tcp_writer_inner
  remove_none w addr expected at = rw (at, remove_tcp_writer_inner)

  remove_expected :
      (w : PacketWriter) (addr : ℕ) (expected : Option ℕ) (r : RegisteredTcpSink)
      → lookup w.tcp_writers addr ≡ some r
      → expects expected r.registration.writer_id ≡ true
      → remove_tcp_writer_inner ip_of w addr expected
        ≡ (some r.sink, take_registered ip_of w addr r)
  remove_expected w addr expected r at expected_one =
      remove-eq w addr expected r at ∙ simp expected_one

  remove_other :
      (w : PacketWriter) (addr : ℕ) (expected : Option ℕ) (r : RegisteredTcpSink)
      → lookup w.tcp_writers addr ≡ some r
      → expects expected r.registration.writer_id ≡ false
      → remove_tcp_writer_inner ip_of w addr expected ≡ (none, w)
  remove_other w addr expected r at other_one = remove-eq w addr expected r at ∙ simp other_one

  -- On a registry whose maps agree, a removal takes the writer of the address and cancels its sink
  -- if there is one and it has the expected number, and otherwise changes nothing. After a taking
  -- the address has no sink, the sinks of other addresses and the lists of other numbers stay, and
  -- the maps agree.
  pub remove-Removal :
      (w : PacketWriter) (addr : ℕ) (expected : Option ℕ)
      → IsIndexed ip_of w
      → Removal w addr expected (close_taken (remove_tcp_writer_inner ip_of w addr expected))
  unfolding close_taken close_some close_sink
  remove-Removal w addr expected h = elim (Option-cases (lookup w.tcp_writers addr)) [
    | inl at ↦ inr (λ r e. ground arith, ap (close_taken) (remove_none w addr expected at))
    | inr (r, at) ↦ elim (Bool-cases (expects expected r.registration.writer_id)) [
      | inl expected_one ↦
          let eq = ap close_taken (remove_expected w addr expected r at expected_one) in
          inl (
            r,
            at,
            expected_one,
            subst (Taken w addr) (sym eq) (take-Taken w addr r h at),
            subst (λ v. v.cancelled (token r.sink) ≡ true) (sym eq) (ground arith),
          )
      | inr other_one ↦ inr (
        λ s e.
            let eq : s ≡ r = ground arith in
            subst (λ x. expects expected x.registration.writer_id ≡ false) (sym eq) other_one,
        ap close_taken (remove_other w addr expected r at other_one),
      )
    ]
  ]
