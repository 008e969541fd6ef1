-- ===== src/Writer/Tests.antt =====
-- base/src/net/rw.rs: runs of the TCP writer registry on small inputs.
use pigs.Prelude.{List, [], ◌∷◌, Bool, Option, ◌≢◌, ℕ, ◌/◌, true, false, none, some, ◌≡◌, refl, ◌⊎◌}
use pigs.Writer.{
  TcpPacketSink, queued, direct, PacketWriter, token, new, close_sink, close_some, close_all, same,
  sink_of, tcp_sink, probe, find_last, listed, tcp_sink_by_ip, reserve, expects, without, register,
  commit, commit_reserved, insert_tcp_sink, take_registered, remove_tcp_writer_inner, close_taken,
  remove_tcp_writer, remove_registered_tcp_writer, cancel, drain, close,
}
use pigs.Writer.Index.{registration, IsIndexed, new-IsIndexed, At, Absent}
use pigs.Writer.Insert.{insert_tcp_sink-Outcome, Outcome}
use pigs.Writer.Remove.{Removal, remove-Removal}
use pigs.Writer.Close.{IsClosed, close-IsClosed}
use pigs.Writer.Directs.{AllTo, NoneOut, insert_tcp_sink-AllTo}
use pigs.Writer.Writes.{
  udp, tcp, all, udp_not_available, udp_closing, protocol_all, fails, sends_udp, writes_tcp,
  tcp_not_available, when_open, to_sink, to_socket, by_protocol, write_to, try_by_protocol,
  try_write_to, slice_by_protocol, write_slice_to, write_tcp_to_ip,
}
use pigs.Writer.Runs.{reserves, commits, Steps, done, more, Steps-At, Steps-IsClosed}

program : Unit {0}
unfolding token close_sink close_some close_all same sink_of tcp_sink probe find_last listed
    tcp_sink_by_ip reserve expects without register commit commit_reserved insert_tcp_sink
    take_registered remove_tcp_writer_inner close_taken remove_tcp_writer
    remove_registered_tcp_writer cancel drain close new
program = _

-- Ten ports for each number.
abbrev ip_of : ℕ → ℕ
ip_of a = a / 10

abbrev one : PacketWriter
one = (insert_tcp_sink ip_of new 11 (queued 11 1)).1

abbrev two : PacketWriter
two = (insert_tcp_sink ip_of one 12 (direct 12 2)).1

newest_first : tcp_sink_by_ip two 1 ≡ some (direct 12 2)
unfolding program
newest_first = refl

falls_back : tcp_sink_by_ip (remove_tcp_writer ip_of two 12) 1 ≡ some (queued 11 1)
unfolding program
falls_back = refl

stale_kept : remove_registered_tcp_writer ip_of two (registration 12 1) ≡ two
unfolding program
stale_kept = refl

closed_refuses : (insert_tcp_sink ip_of (close two) 13 (queued 13 3)).0 ≡ none
unfolding program
closed_refuses = refl

new_open : new.closed ≡ false
unfolding new
new_open = refl

insert_tcp_sink-Outcome_example :
    Outcome ip_of new 11 (queued 11 1) (insert_tcp_sink ip_of new 11 (queued 11 1))
insert_tcp_sink-Outcome_example =
    insert_tcp_sink-Outcome ip_of new 11 (queued 11 1) (new-IsIndexed ip_of) new_open

one-IsIndexed : IsIndexed ip_of one
one-IsIndexed = insert_tcp_sink-Outcome_example.1.indexed

remove-Removal_example :
    Removal ip_of one 11 (some 1) (close_taken (remove_tcp_writer_inner ip_of one 11 (some 1)))
remove-Removal_example = remove-Removal ip_of one 11 (some 1) one-IsIndexed

one_run : Steps ip_of new (commit ip_of (reserve new (queued 11 1)).1 11 (queued 11 1) 1).1
one_run =
    more new _ _ (reserves new (queued 11 1))
      (more _ _ _ (commits (reserve new (queued 11 1)).1 11 (queued 11 1) 1) (done _))

Steps-At_example :
    ((s : TcpPacketSink) × (tcp_sink_by_ip
          (commit ip_of (reserve new (queued 11 1)).1 11 (queued 11 1) 1).1
          1
        ≡ some s)
      × At ip_of (commit ip_of (reserve new (queued 11 1)).1 11 (queued 11 1) 1).1 1 s)
    ⊎ ((tcp_sink_by_ip (commit ip_of (reserve new (queued 11 1)).1 11 (queued 11 1) 1).1 1 ≡ none)
        × Absent ip_of (commit ip_of (reserve new (queued 11 1)).1 11 (queued 11 1) 1).1 1)
Steps-At_example =
    Steps-At ip_of (commit ip_of (reserve new (queued 11 1)).1 11 (queued 11 1) 1).1 1 one_run

late_commit : Steps ip_of (close one) (commit ip_of (close one) 12 (direct 12 2) 2).1
late_commit = more (close one) _ _ (commits (close one) 12 (direct 12 2) 2) (done _)

Steps-IsClosed_example : IsClosed (commit ip_of (close one) 12 (direct 12 2) 2).1
Steps-IsClosed_example =
    Steps-IsClosed ip_of (close one) (commit ip_of (close one) 12 (direct 12 2) 2).1 late_commit
      (close-IsClosed one).0

writes : Unit {0}
unfolding program when_open to_sink to_socket by_protocol write_to try_by_protocol try_write_to
    slice_by_protocol write_slice_to write_tcp_to_ip
writes = _

abbrev as_is : List ℕ → Option (List ℕ)
as_is bytes = some bytes

directed :
    (write_to as_is two false (7 ∷ []) 12 udp ≡ fails udp_not_available)
    × (try_write_to as_is two true true (7 ∷ []) 12 udp ≡ fails udp_closing)
    × (write_slice_to two true (7 ∷ []) 12 udp ≡ sends_udp (7 ∷ []) 12)
    × (write_to as_is two true (7 ∷ []) 12 all ≡ fails protocol_all)
    × (write_tcp_to_ip two (7 ∷ []) 1 ≡ writes_tcp (direct 12 2) (7 ∷ []))
unfolding writes
directed = (refl, refl, refl, refl, refl)

insert_tcp_sink-AllTo_example :
    let w1 = (insert_tcp_sink ip_of new 11 (queued 11 1)).1 in
    AllTo as_is w1 11 1 (7 ∷ []) (writes_tcp (queued 11 1) (7 ∷ []))
    × ((l s : Bool) (a : ℕ)
        → a ≢ 11
        → (write_to as_is w1 s (7 ∷ []) a tcp ≡ write_to as_is new s (7 ∷ []) a tcp)
          × (try_write_to as_is w1 l s (7 ∷ []) a tcp ≡ try_write_to as_is new l s (7 ∷ []) a tcp))
    × ((l s : Bool)
        → let w2 = remove_tcp_writer ip_of w1 11 in
          (write_to as_is w2 s (7 ∷ []) 11 tcp ≡ fails tcp_not_available)
          × (try_write_to as_is w2 l s (7 ∷ []) 11 tcp ≡ fails tcp_not_available))
    × NoneOut as_is (close w1) (7 ∷ [])
insert_tcp_sink-AllTo_example =
    insert_tcp_sink-AllTo ip_of as_is new 11 (queued 11 1) (7 ∷ []) (new-IsIndexed ip_of) new_open
