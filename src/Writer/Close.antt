-- ===== src/Writer/Close.antt =====
-- base/src/net/rw.rs: what the closing of the TCP writer registry does.
use pigs.Prelude.{
  ℕ, true, none, some, List, [], ◌∷◌, ◌==◌, lookup, ◌≡◌, refl, sym, ap, ◌∙◌, inl, inr, arith, All,
  Bool-cases, Option-cases, subst, map,
}
use pigs.Writer.{
  TcpPacketSink, RegisteredTcpSink, PacketWriter, listed, tcp_sink, sink_of, token, close_sink,
  close_all, cancel, drain, close,
}
use pigs.Writer.Index.{IsLive, IsIndexed}

close_all-cancelled :
    (w : PacketWriter) (sinks : List TcpPacketSink) (k : ℕ)
    → w.cancelled k ≡ true
    → (close_all w sinks).cancelled k ≡ true
unfolding close_all close_sink
close_all-cancelled w [] k h = h
close_all-cancelled w (s ∷ sinks) k h = close_all-cancelled (close_sink w s) sinks k (ground arith)

close_all-registered :
    (w : PacketWriter) (m : List (ℕ × RegisteredTcpSink)) (a : ℕ) (r : RegisteredTcpSink)
    → lookup m a ≡ some r
    → (close_all w (map (λ entry. entry.1.sink) m)).cancelled (token r.sink) ≡ true
unfolding close_all close_sink
close_all-registered w [] a r e = ground arith
close_all-registered w (x ∷ m) a r e = elim (Bool-cases (x.0 == a)) [
  | inl here ↦
      let eq : x.1 ≡ r = ground arith in
      close_all-cancelled (close_sink w x.1.sink) (map (λ entry. entry.1.sink) m) (token r.sink)
        (subst (λ y. (close_sink w x.1.sink).cancelled (token y.sink) ≡ true) eq (ground arith))
  | inr away ↦ close_all-registered (close_sink w x.1.sink) m a r (ground arith)
]

close_all-maps :
    (w : PacketWriter) (sinks : List TcpPacketSink)
    → ((close_all w sinks).tcp_writers ≡ w.tcp_writers)
      × ((close_all w sinks).tcp_writer_addrs_by_ip ≡ w.tcp_writer_addrs_by_ip)
      × ((close_all w sinks).closed ≡ w.closed)
unfolding close_all close_sink
close_all-maps w [] = (refl, refl, refl)
close_all-maps w (s ∷ sinks) = close_all-maps (close_sink w s) sinks

-- The registry is closed for good: the flag is set and both maps are empty.
pub record IsClosed (w : PacketWriter) : Type 0 where
  pub flag : w.closed ≡ true
  pub none_by_addr : w.tcp_writers ≡ []
  pub none_by_ip : (ip : ℕ) → w.tcp_writer_addrs_by_ip ip ≡ none

pub drain-IsClosed : (w : PacketWriter) → w.closed ≡ true → IsClosed (drain w)
unfolding drain
drain-IsClosed w h =
    let maps =
      close_all-maps (record w { tcp_writers = []; tcp_writer_addrs_by_ip = λ ip. none })
        (map (λ entry. entry.1.sink) w.tcp_writers) in
    record { flag = maps.2 ∙ h; none_by_addr = maps.0; none_by_ip = λ ip. ap (λ f. f ip) maps.1 }

-- After `close` the registry is closed for good, with both maps empty, and every sink that
-- was registered is cancelled.
pub close-IsClosed :
    (w : PacketWriter)
    → IsClosed (close w)
      × ((a : ℕ) (s : TcpPacketSink) → tcp_sink w a ≡ some s → (close w).cancelled (token s) ≡ true)
unfolding close cancel drain tcp_sink sink_of
close-IsClosed w = (
  drain-IsClosed (record w { closed = true }) refl,
  λ a s e. elim (Option-cases (lookup w.tcp_writers a)) [
    | inl missing ↦ ground arith
    | inr (r, at) ↦
        let eq : r.sink ≡ s = ground arith in
        subst (λ x. (close w).cancelled (token x) ≡ true) eq
          (close_all-registered
            (record w { tcp_writers = []; tcp_writer_addrs_by_ip = λ ip. none; closed = true })
            w.tcp_writers a r at)
  ],
)

module _ (ip_of : ℕ → ℕ) where
  pub IsClosed-IsIndexed : (w : PacketWriter) → IsClosed w → IsIndexed ip_of w
  unfolding listed
  IsClosed-IsIndexed w h = record {
    own_addr = λ a r e.
        let missing : lookup w.tcp_writers a ≡ none =
          subst (λ m. lookup m a ≡ none) (sym h.none_by_addr) refl in
        ground arith;
    live = λ ip. subst (λ o. All (IsLive ip_of w ip) (listed o)) (sym (h.none_by_ip ip)) _;
    complete = λ a r e.
        let missing : lookup w.tcp_writers a ≡ none =
          subst (λ m. lookup m a ≡ none) (sym h.none_by_addr) refl in
        absurd (ground arith);
  }
