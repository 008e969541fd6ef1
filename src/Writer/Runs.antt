-- ===== src/Writer/Runs.antt =====
-- base/src/net/rw.rs: every interleaving of the calls on one TCP writer registry.
use pigs.Prelude.{ℕ, true, Option, none, some, lookup, ◌≡◌, refl, sym, ap, subst, ◌⊎◌, inl, inr}
use pigs.Writer.{
  TcpPacketSink, PacketWriter, new, close_sink, close_some, close_taken, reserve, commit,
  remove_tcp_writer_inner, cancel, drain, tcp_sink_by_ip,
}
use pigs.Writer.Index.{IsIndexed, new-IsIndexed, IsIndexed-maps, At, Absent, tcp_sink_by_ip-At}
use pigs.Writer.Insert.{reserve_refused, commit_refused, reserve-IsIndexed, commit-IsIndexed}
use pigs.Writer.Remove.{remove-Removal, remove_none}
use pigs.Writer.Close.{IsClosed, IsClosed-IsIndexed, drain-IsClosed}

module _ (ip_of : ℕ → ℕ) where
  -- One atomic step of some task: the halves of an insertion, a removal, the halves of `close`, or
  -- the cancelling of a sink by anyone who holds it. A `commit` may have any number, since others
  -- may run between the two halves; `drain` follows a `cancel`.
  pub data Step : PacketWriter → PacketWriter → Type 0 where
    reserves : (w : PacketWriter) (sink : TcpPacketSink) → Step w (reserve w sink).1
    commits :
        (w : PacketWriter) (addr : ℕ) (sink : TcpPacketSink) (id : ℕ)
        → Step w (commit ip_of w addr sink id).1
    removes :
        (w : PacketWriter) (addr : ℕ) (expected : Option ℕ)
        → Step w (close_taken (remove_tcp_writer_inner ip_of w addr expected))
    closes_sink : (w : PacketWriter) (sink : TcpPacketSink) → Step w (close_sink w sink)
    cancels : (w : PacketWriter) → Step w (cancel w)
    drains : (w : PacketWriter) → w.closed ≡ true → Step w (drain w)

  pub data Steps : PacketWriter → PacketWriter → Type 0 where
    done : (w : PacketWriter) → Steps w w
    more : (w x v : PacketWriter) → Step w x → Steps x v → Steps w v

  Step-IsIndexed : (w v : PacketWriter) → Step w v → IsIndexed ip_of w → IsIndexed ip_of v
  unfolding close_sink cancel
  Step-IsIndexed _ _ (reserves w sink) h = reserve-IsIndexed ip_of w sink h
  Step-IsIndexed _ _ (commits w addr sink id) h = commit-IsIndexed ip_of w addr sink id h
  Step-IsIndexed _ _ (removes w addr expected) h = elim (remove-Removal ip_of w addr expected h) [
    | inl (r, found, expected_one, taken, cancelled) ↦ taken.indexed
    | inr (other_one, eq) ↦ subst (IsIndexed ip_of) (sym eq) h
  ]
  Step-IsIndexed _ _ (closes_sink w sink) h = IsIndexed-maps ip_of w _ refl refl h
  Step-IsIndexed _ _ (cancels w) h = IsIndexed-maps ip_of w _ refl refl h
  Step-IsIndexed _ _ (drains w closed) h =
      IsClosed-IsIndexed ip_of (drain w) (drain-IsClosed w closed)

  -- Steps of any tasks in any order, the halves of the calls interleaved, keep the agreement of the
  -- two maps.
  pub Steps-IsIndexed : (w v : PacketWriter) → Steps w v → IsIndexed ip_of w → IsIndexed ip_of v
  Steps-IsIndexed _ _ (done w) h = h
  Steps-IsIndexed _ _ (more w x v step steps) h =
      Steps-IsIndexed x v steps (Step-IsIndexed w x step h)

  sink-IsClosed :
      (w : PacketWriter) (sink : TcpPacketSink) → IsClosed w → IsClosed (close_sink w sink)
  unfolding close_sink
  sink-IsClosed w sink h = record {
    flag = h.flag;
    none_by_addr = h.none_by_addr;
    none_by_ip = h.none_by_ip;
  }

  Step-IsClosed : (w v : PacketWriter) → Step w v → IsClosed w → IsClosed v
  unfolding cancel close_taken close_some
  Step-IsClosed _ _ (reserves w sink) h =
      subst (λ p. IsClosed p.1) (sym (reserve_refused ip_of w sink h.flag)) (sink-IsClosed w sink h)
  Step-IsClosed _ _ (commits w addr sink id) h =
      subst (λ p. IsClosed p.1) (sym (commit_refused ip_of w addr sink id h.flag))
        (sink-IsClosed w sink h)
  Step-IsClosed _ _ (removes w addr expected) h =
      let missing : lookup w.tcp_writers addr ≡ none =
        subst (λ m. lookup m addr ≡ none) (sym h.none_by_addr) refl in
      subst IsClosed (sym (ap close_taken (remove_none ip_of w addr expected missing))) h
  Step-IsClosed _ _ (closes_sink w sink) h = sink-IsClosed w sink h
  Step-IsClosed _ _ (cancels w) h = record {
    flag = refl;
    none_by_addr = h.none_by_addr;
    none_by_ip = h.none_by_ip;
  }
  Step-IsClosed _ _ (drains w closed) h = drain-IsClosed w closed

  -- Once the registry is closed for good, it stays so through steps of any tasks in any order: an
  -- insertion that had begun before the closing leaves no writer behind.
  pub Steps-IsClosed : (w v : PacketWriter) → Steps w v → IsClosed w → IsClosed v
  Steps-IsClosed _ _ (done w) h = h
  Steps-IsClosed _ _ (more w x v step steps) h = Steps-IsClosed x v steps (Step-IsClosed w x step h)

  -- From the empty registry, after steps of any tasks in any order, a look-up by number gives the
  -- sink of a registered writer whose address has the number, and gives none only if there is no
  -- such writer.
  pub Steps-At :
      (w : PacketWriter) (ip : ℕ)
      → Steps new w
      → ((s : TcpPacketSink) × (tcp_sink_by_ip w ip ≡ some s) × At ip_of w ip s)
        ⊎ ((tcp_sink_by_ip w ip ≡ none) × Absent ip_of w ip)
  Steps-At w ip steps =
      tcp_sink_by_ip-At ip_of w ip (Steps-IsIndexed new w steps (new-IsIndexed ip_of))
