-- ===== src/Writer.antt =====
-- base/src/net/rw.rs: the registry of TCP writers that a `PacketWriter` keeps.
use pigs.Prelude.{
  ℕ, ◌+◌, ◌%◌, ◌^◌, Bool, true, false, not, ◌&&◌, Option, none, some, List, [], ◌∷◌, ◌++◌, ◌==◌,
  if◌then◌else◌, retain, update, lookup, erase, put, map,
}
pub mod Index
pub mod Register
pub mod Insert
pub mod Remove
pub mod Close
pub mod Runs
pub mod Waits
pub mod Writes
pub mod Directs
mod Tests

-- A token is a number, and the registry's state says which tokens are cancelled.
pub data TcpPacketSink : Type 0 where
  queued : (remote_addr cancel : ℕ) → TcpPacketSink
  direct : (remote_addr cancel : ℕ) → TcpPacketSink

pub record TcpWriterRegistration : Type 0 where
  pub remote_addr : ℕ
  pub writer_id : ℕ

pub record RegisteredTcpSink : Type 0 where
  pub registration : TcpWriterRegistration
  pub sink : TcpPacketSink

pub record PacketWriter : Type 0 where
  pub tcp_writers : List (ℕ × RegisteredTcpSink)
  pub tcp_writer_addrs_by_ip : ℕ → Option (List TcpWriterRegistration)
  pub next_tcp_writer_id : ℕ
  pub closed : Bool
  pub cancelled : ℕ → Bool

unfoldable pub token : TcpPacketSink → ℕ
token (queued a c) = c
token (direct a c) = c

unfoldable pub new : PacketWriter
new = record {
  tcp_writers = [];
  tcp_writer_addrs_by_ip = λ ip. none;
  next_tcp_writer_id = 1;
  closed = false;
  cancelled = λ t. false;
}

-- `sink.close()`.
unfoldable pub close_sink : PacketWriter → TcpPacketSink → PacketWriter
close_sink w sink = record w { cancelled = update w.cancelled (token sink) true }

unfoldable pub close_some : PacketWriter → Option TcpPacketSink → PacketWriter
close_some w none = w
close_some w (some sink) = close_sink w sink

unfoldable pub close_all : PacketWriter → List TcpPacketSink → PacketWriter
close_all w [] = w
close_all w (sink ∷ sinks) = close_all (close_sink w sink) sinks

-- `a == b` of registrations.
unfoldable pub same : TcpWriterRegistration → TcpWriterRegistration → Bool
same a b = (a.remote_addr == b.remote_addr) && (a.writer_id == b.writer_id)

unfoldable pub sink_of : Option RegisteredTcpSink → Option TcpPacketSink
sink_of none = none
sink_of (some registered) = some registered.sink

unfoldable pub tcp_sink : PacketWriter → ℕ → Option TcpPacketSink
tcp_sink w addr = sink_of (lookup w.tcp_writers addr)

unfoldable pub has_tcp_writer : PacketWriter → ℕ → Bool
has_tcp_writer w addr = elim (lookup w.tcp_writers addr) [ none ↦ false | some registered ↦ true ]

unfoldable pub probe : TcpWriterRegistration → Option RegisteredTcpSink → Option TcpPacketSink
probe g none = none
probe g (some registered) = if same registered.registration g then some registered.sink else none

-- `registrations.iter().rev().find_map(..)`.
unfoldable pub find_last :
    List (ℕ × RegisteredTcpSink) → List TcpWriterRegistration → Option TcpPacketSink
find_last writers [] = none
find_last writers (g ∷ gs) = elim (find_last writers gs) [
  | some sink ↦ some sink
  | none ↦ probe g (lookup writers g.remote_addr)
]

-- The registrations of an address, empty without an entry.
unfoldable pub listed : Option (List TcpWriterRegistration) → List TcpWriterRegistration
listed none = []
listed (some gs) = gs

unfoldable pub tcp_sink_by_ip : PacketWriter → ℕ → Option TcpPacketSink
tcp_sink_by_ip w ip = find_last w.tcp_writers (listed (w.tcp_writer_addrs_by_ip ip))

-- The first half of an insertion: without the lock, the closed flag and the next writer's number.
unfoldable pub reserve : PacketWriter → TcpPacketSink → Option ℕ × PacketWriter
reserve w sink = if w.closed then (none, close_sink w sink) else (
  some w.next_tcp_writer_id,
  record w { next_tcp_writer_id = (w.next_tcp_writer_id + 1) % 2 ^ 64 },
)

unfoldable pub expects : Option ℕ → ℕ → Bool
expects none current = true
expects (some expected) current = expected == current

unfoldable pub without :
    Option (List TcpWriterRegistration)
    → TcpWriterRegistration
    → Option (List TcpWriterRegistration)
without none g = none
without (some gs) g = elim (retain (λ item. not (same item g)) gs) [
  | [] ↦ none
  | x ∷ xs ↦ some (x ∷ xs)
]

unfoldable pub close_taken : Option TcpPacketSink × PacketWriter → PacketWriter
close_taken (sink, w) = close_some w sink

-- `SocketAddr::ip` of the standard library.
module _ (ip_of : ℕ → ℕ) where
  unfoldable pub register : PacketWriter → ℕ → TcpPacketSink → TcpWriterRegistration → PacketWriter
  register w addr sink registration =
      let gs = listed (w.tcp_writer_addrs_by_ip (ip_of addr)) in
      record w {
        tcp_writers = put w.tcp_writers addr (record { registration = registration; sink = sink });
        tcp_writer_addrs_by_ip =
            update w.tcp_writer_addrs_by_ip (ip_of addr)
              (some (retain (λ item. not (item.remote_addr == addr)) gs ++ registration ∷ []));
      }

  -- The second half, which holds the lock.
  unfoldable pub commit :
      PacketWriter → ℕ → TcpPacketSink → ℕ → Option TcpWriterRegistration × PacketWriter
  commit w addr sink writer_id =
      if w.closed
      then (none, close_sink w sink)
      else let registration : TcpWriterRegistration = record {
        remote_addr = addr;
        writer_id = writer_id;
      } in
        (some registration, close_some (register w addr sink registration) (tcp_sink w addr))

  unfoldable pub commit_reserved :
      Option ℕ × PacketWriter → ℕ → TcpPacketSink → Option TcpWriterRegistration × PacketWriter
  commit_reserved (none, w) addr sink = (none, w)
  commit_reserved (some writer_id, w) addr sink = commit w addr sink writer_id

  unfoldable pub insert_tcp_sink :
      PacketWriter → ℕ → TcpPacketSink → Option TcpWriterRegistration × PacketWriter
  insert_tcp_sink w addr sink = commit_reserved (reserve w sink) addr sink

  unfoldable pub take_registered : PacketWriter → ℕ → RegisteredTcpSink → PacketWriter
  take_registered w addr registered = record w {
    tcp_writers = erase w.tcp_writers addr;
    tcp_writer_addrs_by_ip =
        update w.tcp_writer_addrs_by_ip (ip_of addr)
          (without (w.tcp_writer_addrs_by_ip (ip_of addr)) registered.registration);
  }

  unfoldable pub remove_tcp_writer_inner :
      PacketWriter → ℕ → Option ℕ → Option TcpPacketSink × PacketWriter
  remove_tcp_writer_inner w addr expected = elim (lookup w.tcp_writers addr) [
    | none ↦ (none, w)
    | some registered ↦
        if expects expected registered.registration.writer_id
        then (some registered.sink, take_registered w addr registered)
        else (none, w)
  ]

  unfoldable pub remove_tcp_writer : PacketWriter → ℕ → PacketWriter
  remove_tcp_writer w addr = close_taken (remove_tcp_writer_inner w addr none)

  unfoldable pub remove_registered_tcp_writer : PacketWriter → TcpWriterRegistration → PacketWriter
  remove_registered_tcp_writer w g =
      close_taken (remove_tcp_writer_inner w g.remote_addr (some g.writer_id))

-- `self.closed.cancel()`, the start of `close`.
unfoldable pub cancel : PacketWriter → PacketWriter
cancel w = record w { closed = true }

-- The rest of `close`: the sinks are taken under the lock and closed one by one.
unfoldable pub drain : PacketWriter → PacketWriter
drain w =
    close_all (record w { tcp_writers = []; tcp_writer_addrs_by_ip = λ ip. none })
      (map (λ entry. entry.1.sink) w.tcp_writers)

unfoldable pub close : PacketWriter → PacketWriter
close w = drain (cancel w)
