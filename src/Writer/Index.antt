-- ===== src/Writer/Index.antt =====
-- base/src/net/rw.rs: the two maps of the TCP writer registry agree.
use pigs.Prelude.{
  ℕ, true, false, none, some, List, [], ◌∷◌, lookup, ◌≡◌, refl, sym, ap₂, ◌≢◌, ◌⊎◌, inl, inr, arith,
  All, All-mono, Option-cases, subst,
}
use pigs.Writer.{
  TcpPacketSink, TcpWriterRegistration, RegisteredTcpSink, PacketWriter, same, probe, find_last,
  listed, tcp_sink_by_ip, tcp_sink, sink_of, new,
}

-- The registration stands in the list.
abbrev pub Has : TcpWriterRegistration → List TcpWriterRegistration → Type 0
Has g [] = ⊥
Has g (x ∷ xs) = (x ≡ g) ⊎ Has g xs

pub same_refl : (g : TcpWriterRegistration) → same g g ≡ true
unfolding same
same_refl g = ground arith

abbrev pub registration : ℕ → ℕ → TcpWriterRegistration
registration addr id = record { remote_addr = addr; writer_id = id }

pub same-eq : (a b : TcpWriterRegistration) → same a b ≡ true → a ≡ b
unfolding same
same-eq a b h =
    let addr : a.remote_addr ≡ b.remote_addr = ground arith in
    let id : a.writer_id ≡ b.writer_id = ground arith in ap₂ registration addr id

pub same-false : (a b : TcpWriterRegistration) → a.remote_addr ≢ b.remote_addr → same a b ≡ false
unfolding same
same-false a b h = ground arith

module _ (ip_of : ℕ → ℕ) where
  -- The registration is the one of a registered writer, whose address has this number.
  pub record IsLive (w : PacketWriter) (ip : ℕ) (g : TcpWriterRegistration) : Type 0 where
    pub at_ip : ip_of g.remote_addr ≡ ip
    pub registered : RegisteredTcpSink
    pub found : lookup w.tcp_writers g.remote_addr ≡ some registered
    pub same_registration : registered.registration ≡ g

  pub record IsIndexed (w : PacketWriter) : Type 0 where
    pub own_addr :
        (a : ℕ) (r : RegisteredTcpSink)
        → lookup w.tcp_writers a ≡ some r
        → r.registration.remote_addr ≡ a
    pub live : (ip : ℕ) → All (IsLive w ip) (listed (w.tcp_writer_addrs_by_ip ip))
    pub complete :
        (a : ℕ) (r : RegisteredTcpSink)
        → lookup w.tcp_writers a ≡ some r
        → Has r.registration (listed (w.tcp_writer_addrs_by_ip (ip_of a)))

  pub new-IsIndexed : IsIndexed new
  unfolding new listed
  new-IsIndexed = record {
    own_addr = λ a r e. ground arith;
    live = λ ip. _;
    complete = λ a r e. ground arith;
  }

  -- The agreement is one of the two maps alone.
  pub IsIndexed-maps :
      (w v : PacketWriter)
      → v.tcp_writers ≡ w.tcp_writers
      → v.tcp_writer_addrs_by_ip ≡ w.tcp_writer_addrs_by_ip
      → IsIndexed w
      → IsIndexed v
  IsIndexed-maps w v em ei h = record {
    own_addr = λ a r e. h.own_addr a r (subst (λ m. lookup m a ≡ some r) em e);
    live = λ ip.
        All-mono (IsLive w ip) (IsLive v ip)
          (λ g l. record {
            at_ip = l.at_ip;
            registered = l.registered;
            found = subst (λ m. lookup m g.remote_addr ≡ some l.registered) (sym em) l.found;
            same_registration = l.same_registration;
          })
          (listed (v.tcp_writer_addrs_by_ip ip))
          (subst (λ f. All (IsLive w ip) (listed (f ip))) (sym ei) (h.live ip));
    complete = λ a r e.
        subst (λ f. Has r.registration (listed (f (ip_of a)))) (sym ei)
          (h.complete a r (subst (λ m. lookup m a ≡ some r) em e));
  }

  -- A live registration is found.
  probe-IsLive :
      (w : PacketWriter) (ip : ℕ) (g : TcpWriterRegistration) (h : IsLive w ip g)
      → probe g (lookup w.tcp_writers g.remote_addr) ≡ some h.registered.sink
  unfolding probe
  probe-IsLive w ip g h =
      let eq : same h.registered.registration g ≡ true =
        subst (λ r. same r g ≡ true) (sym h.same_registration) (same_refl g) in
      rw (h.found, eq)

  -- The sink is the one of some writer with this number.
  abbrev pub At : PacketWriter → ℕ → TcpPacketSink → Type 0
  At w ip s = (a : ℕ) × (ip_of a ≡ ip) × (tcp_sink w a ≡ some s)

  IsLive-At :
      (w : PacketWriter) (ip : ℕ) (g : TcpWriterRegistration) (h : IsLive w ip g)
      → At w ip h.registered.sink
  unfolding tcp_sink sink_of
  IsLive-At w ip g h = (g.remote_addr, h.at_ip, rw (h.found))

  -- A list of live registrations gives the sink of one of them, unless it is empty.
  Found : PacketWriter → ℕ → List TcpWriterRegistration → Type 0
  Found w ip gs =
      ((s : TcpPacketSink) × (find_last w.tcp_writers gs ≡ some s) × At w ip s) ⊎ (gs ≡ [])

  find_last-Found :
      (w : PacketWriter) (ip : ℕ) (gs : List TcpWriterRegistration)
      → All (IsLive w ip) gs
      → Found w ip gs
  unfolding find_last Found
  find_last-Found w ip [] h = inr refl
  find_last-Found w ip (g ∷ gs) (live, rest) = elim (find_last-Found w ip gs rest) [
    | inl (s, eq, at) ↦ inl (s, rw eq, at)
    | inr empty ↦
        let none_left : find_last w.tcp_writers gs ≡ none =
          subst (λ l. find_last w.tcp_writers l ≡ none) (sym empty) refl in
        inl (live.registered.sink, rw (none_left, probe-IsLive w ip g live), IsLive-At w ip g live)
  ]

  -- Nothing is registered under the number.
  abbrev pub Absent : PacketWriter → ℕ → Type 0
  Absent w ip = (a : ℕ) → ip_of a ≡ ip → tcp_sink w a ≡ none

  empty-Absent :
      (w : PacketWriter) (ip : ℕ)
      → IsIndexed w
      → listed (w.tcp_writer_addrs_by_ip ip) ≡ []
      → Absent w ip
  unfolding tcp_sink sink_of
  empty-Absent w ip h empty a at = elim (Option-cases (lookup w.tcp_writers a)) [
    | inl eq ↦ rw eq
    | inr (r, eq) ↦
        let has : Has r.registration (listed (w.tcp_writer_addrs_by_ip ip)) =
          subst (λ i. Has r.registration (listed (w.tcp_writer_addrs_by_ip i))) at
            (h.complete a r eq) in
        absurd (subst (λ l. Has r.registration l) empty has)
  ]

  -- When the two maps agree, a look-up by number gives the sink of a registered writer whose
  -- address has the number, and gives none only if there is no such writer.
  pub tcp_sink_by_ip-At :
      (w : PacketWriter) (ip : ℕ)
      → IsIndexed w
      → ((s : TcpPacketSink) × (tcp_sink_by_ip w ip ≡ some s) × At w ip s)
        ⊎ ((tcp_sink_by_ip w ip ≡ none) × Absent w ip)
  unfolding tcp_sink_by_ip Found find_last
  tcp_sink_by_ip-At w ip h =
      elim (find_last-Found w ip (listed (w.tcp_writer_addrs_by_ip ip)) (h.live ip)) [
        | inl found ↦ inl found
        | inr empty ↦ inr (
          subst (λ l. find_last w.tcp_writers l ≡ none) (sym empty) refl,
          empty-Absent w ip h empty,
        )
      ]
