-- ===== src/Writer/Register.antt =====
-- base/src/net/rw.rs: the two maps agree after a registration.
use pigs.Prelude.{
  ℕ, Bool, true, not, Option, none, some, List, [], ◌∷◌, ◌++◌, ◌==◌, retain, lookup, lookup-erase,
  ◌≡◌, ◌≢◌, refl, sym, ap, ◌∙◌, ◌⊎◌, inl, inr, arith, All, All-append, ==_iff, Bool-cases, subst,
  All-mono, retain-All, if_intro,
}
use pigs.Writer.{
  TcpPacketSink, TcpWriterRegistration, RegisteredTcpSink, PacketWriter, find_last, probe, listed,
  close_sink, close_some, register,
}
use pigs.Writer.Index.{Has, registration, IsLive, IsIndexed, IsIndexed-maps}

-- Cancelling a token leaves the two maps alone.
pub close_some-tcp_writers :
    (w : PacketWriter) (o : Option TcpPacketSink) → (close_some w o).tcp_writers ≡ w.tcp_writers
unfolding close_some close_sink
close_some-tcp_writers w none = refl
close_some-tcp_writers w (some s) = refl

pub close_some-by_ip :
    (w : PacketWriter) (o : Option TcpPacketSink)
    → (close_some w o).tcp_writer_addrs_by_ip ≡ w.tcp_writer_addrs_by_ip
unfolding close_some close_sink
close_some-by_ip w none = refl
close_some-by_ip w (some s) = refl

-- The last registration of a list is the one a search finds, if it is live.
pub find_last-append :
    (m : List (ℕ × RegisteredTcpSink)) (gs : List TcpWriterRegistration) (g : TcpWriterRegistration)
    (s : TcpPacketSink)
    → probe g (lookup m g.remote_addr) ≡ some s
    → find_last m (gs ++ g ∷ []) ≡ some s
unfolding find_last
find_last-append m [] g s h = h
find_last-append m (x ∷ gs) g s h = rw (find_last-append m gs g s h)

pub Has-append :
    (g : TcpWriterRegistration) (gs : List TcpWriterRegistration) → Has g (gs ++ g ∷ [])
Has-append g [] = inl refl
Has-append g (x ∷ gs) = inr (Has-append g gs)

pub Has-appendl :
    (g : TcpWriterRegistration) (gs hs : List TcpWriterRegistration) → Has g gs → Has g (gs ++ hs)
Has-appendl g [] hs h = absurd h
Has-appendl g (x ∷ gs) hs (inl e) = inl e
Has-appendl g (x ∷ gs) hs (inr h) = inr (Has-appendl g gs hs h)

pub Has-retain :
    (p : TcpWriterRegistration → Bool) (g : TcpWriterRegistration) (gs : List TcpWriterRegistration)
    → p g ≡ true
    → Has g gs
    → Has g (retain p gs)
Has-retain p g [] k h = absurd h
Has-retain p g (x ∷ gs) k (inl e) =
    let keep : p x ≡ true = subst (λ y. p y ≡ true) (sym e) k in rw keep (inl e)
Has-retain p g (x ∷ gs) k (inr h) =
    let rest = Has-retain p g gs k h in if_intro (p x) (Has g) (inr rest) rest

module _ (ip_of : ℕ → ℕ) where
  pub close_some-IsIndexed :
      (w : PacketWriter) (o : Option TcpPacketSink)
      → IsIndexed ip_of w
      → IsIndexed ip_of (close_some w o)
  unfolding close_some close_sink
  close_some-IsIndexed w none h = h
  close_some-IsIndexed w (some s) h = IsIndexed-maps ip_of w (close_sink w s) refl refl h

  -- A registration of another address stays live.
  register-IsLive :
      (w : PacketWriter) (addr ip : ℕ) (sink : TcpPacketSink) (id : ℕ) (g : TcpWriterRegistration)
      → g.remote_addr ≢ addr
      → IsLive ip_of w ip g
      → IsLive ip_of (register ip_of w addr sink (registration addr id)) ip g
  unfolding register
  register-IsLive w addr ip sink id g other h = record {
    at_ip = h.at_ip;
    registered = h.registered;
    found = ground (arith, lookup-erase w.tcp_writers addr g.remote_addr, h.found);
    same_registration = h.same_registration;
  }

  -- The registration made is live.
  registered-IsLive :
      (w : PacketWriter) (addr ip : ℕ) (sink : TcpPacketSink) (id : ℕ)
      → ip_of addr ≡ ip
      → IsLive ip_of (register ip_of w addr sink (registration addr id)) ip (registration addr id)
  unfolding register
  registered-IsLive w addr ip sink id e = record {
    at_ip = e;
    registered = record { registration = registration addr id; sink = sink };
    found = ground arith;
    same_registration = refl;
  }

  -- The list of one number after an insertion.
  register-live :
      (w : PacketWriter) (addr ip : ℕ) (sink : TcpPacketSink) (id : ℕ)
      → IsIndexed ip_of w
      → let w2 = register ip_of w addr sink (registration addr id) in
        All (IsLive ip_of w2 ip) (listed (w2.tcp_writer_addrs_by_ip ip))
  unfolding register listed
  register-live w addr ip sink id h =
      let w2 = register ip_of w addr sink (registration addr id) in
      elim (Bool-cases (ip_of addr == ip)) [
        | inl at ↦
            let eq = (==_iff (ip_of addr) ip).0 at in
            let old : All (IsLive ip_of w ip) (listed (w.tcp_writer_addrs_by_ip (ip_of addr))) =
              subst (λ i. All (IsLive ip_of w ip) (listed (w.tcp_writer_addrs_by_ip i))) (sym eq)
                (h.live ip) in
            rw at (
              All-append (IsLive ip_of w2 ip) _ _
                (retain-All (IsLive ip_of w ip) (IsLive ip_of w2 ip)
                  (λ item. not (item.remote_addr == addr))
                  (λ g keep l. register-IsLive w addr ip sink id g (ground arith) l) _ old)
                (registered-IsLive w addr ip sink id eq, _))
        | inr away ↦ rw away (
            All-mono (IsLive ip_of w ip) (IsLive ip_of w2 ip)
              (λ g l.
                register-IsLive w addr ip sink id g
                  (λ e. let q : ip_of addr ≡ ip = ap ip_of (sym e) ∙ l.at_ip in ground arith) l)
              _ (h.live ip))
      ]

  register-own :
      (w : PacketWriter) (addr : ℕ) (sink : TcpPacketSink) (id a : ℕ) (r : RegisteredTcpSink)
      → lookup (register ip_of w addr sink (registration addr id)).tcp_writers a ≡ some r
      → ((addr ≡ a) × (registration addr id ≡ r.registration))
        ⊎ ((addr ≢ a) × (lookup w.tcp_writers a ≡ some r))
  unfolding register
  register-own w addr sink id a r e = ground (arith, lookup-erase w.tcp_writers addr a)

  register-has :
      (w : PacketWriter) (addr : ℕ) (sink : TcpPacketSink) (id : ℕ)
      → Has (registration addr id) (
          listed (
            (register ip_of w addr sink (registration addr id)).tcp_writer_addrs_by_ip
              (ip_of addr)))
  unfolding register listed
  register-has w addr sink id =
      let self : (ip_of addr == ip_of addr) ≡ true = ground arith in
      rw self (Has-append (registration addr id) _)

  register-complete :
      (w : PacketWriter) (addr : ℕ) (sink : TcpPacketSink) (id a : ℕ) (g : TcpWriterRegistration)
      → g.remote_addr ≡ a
      → addr ≢ a
      → Has g (listed (w.tcp_writer_addrs_by_ip (ip_of a)))
      → Has g (
          listed
            ((register ip_of w addr sink (registration addr id)).tcp_writer_addrs_by_ip (ip_of a)))
  unfolding register listed
  register-complete w addr sink id a g own other has = elim (Bool-cases (ip_of addr == ip_of a)) [
    | inl at ↦
        let eq = (==_iff (ip_of addr) (ip_of a)).0 at in
        rw at (
          Has-appendl g _ _ (
            Has-retain (λ item. not (item.remote_addr == addr)) g _ (ground arith)
              (subst (λ i. Has g (listed (w.tcp_writer_addrs_by_ip i))) (sym eq) has)))
    | inr away ↦ rw away has
  ]

  pub register-IsIndexed :
      (w : PacketWriter) (addr : ℕ) (sink : TcpPacketSink) (id : ℕ)
      → IsIndexed ip_of w
      → IsIndexed ip_of (register ip_of w addr sink (registration addr id))
  register-IsIndexed w addr sink id h =
      let w2 = register ip_of w addr sink (registration addr id) in
      record {
        own_addr = λ a r e. elim (register-own w addr sink id a r e) [
          | inl (ea, er) ↦ ap (λ g. g.remote_addr) (sym er) ∙ ea
          | inr (ne, old) ↦ h.own_addr a r old
        ];
        live = λ ip. register-live w addr ip sink id h;
        complete = λ a r e. elim (register-own w addr sink id a r e) [
          | inl (ea, er) ↦
              subst (λ g. Has g (listed (w2.tcp_writer_addrs_by_ip (ip_of a)))) er
                (subst
                  (λ b. Has (registration addr id) (listed (w2.tcp_writer_addrs_by_ip (ip_of b))))
                  ea (register-has w addr sink id))
          | inr (ne, old) ↦
              register-complete w addr sink id a r.registration (h.own_addr a r old) ne
                (h.complete a r old)
        ];
      }
