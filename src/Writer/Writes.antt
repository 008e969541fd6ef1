-- ===== src/Writer/Writes.antt =====
-- base/src/net/rw.rs: how a `PacketWriter` directs a write to a socket or to a peer's sink.
use pigs.Prelude.{ℕ, Bool, Option, none, some, List, if◌then◌else◌}
use pigs.Writer.{TcpPacketSink, PacketWriter, tcp_sink, tcp_sink_by_ip}

pub data Protocol : Type 0 where
  udp : Protocol
  tcp : Protocol
  all : Protocol

pub data WriteError : Type 0 where
  packet_writer_closed : WriteError
  not_encoded : WriteError
  udp_closing : WriteError
  udp_not_available : WriteError
  tcp_not_available : WriteError
  tcp_needs_bytes : WriteError
  protocol_all : WriteError

-- What a write does: it ends with an error, gives a packet to the udp socket, or goes on in a sink.
pub data Directed : Type 0 where
  fails : WriteError → Directed
  sends_udp : (packet : List ℕ) (remote_addr : ℕ) → Directed
  writes_tcp : TcpPacketSink → (payload : List ℕ) → Directed

-- `ensure_open`, and what follows it.
unfoldable pub when_open : PacketWriter → Directed → Directed
when_open w next = if w.closed then fails packet_writer_closed else next

unfoldable pub to_sink : Option TcpPacketSink → List ℕ → Directed
to_sink none payload = fails tcp_not_available
to_sink (some sink) payload = writes_tcp sink payload

-- `has_socket` says whether `udp_socket` has one.
unfoldable pub to_socket : (has_socket : Bool) → (remote_addr : ℕ) → Option (List ℕ) → Directed
to_socket has_socket remote_addr none = fails not_encoded
to_socket has_socket remote_addr (some packet) =
    if has_socket then sends_udp packet remote_addr else fails udp_not_available

module _ (encode_udp : List ℕ → Option (List ℕ)) where
  unfoldable pub by_protocol : PacketWriter → Bool → List ℕ → ℕ → Protocol → Directed
  by_protocol w has_socket payload addr udp = to_socket has_socket addr (encode_udp payload)
  by_protocol w has_socket payload addr tcp = to_sink (tcp_sink w addr) payload
  by_protocol w has_socket payload addr all = fails protocol_all

  unfoldable pub write_to : PacketWriter → Bool → List ℕ → ℕ → Protocol → Directed
  write_to w has_socket payload addr protocol =
      when_open w (by_protocol w has_socket payload addr protocol)

  -- `socket_locked` says that another task holds the socket for writing.
  unfoldable pub try_by_protocol :
      PacketWriter → (socket_locked has_socket : Bool) → List ℕ → ℕ → Protocol → Directed
  try_by_protocol w socket_locked has_socket payload addr udp =
      let sent = to_socket has_socket addr (encode_udp payload) in
      elim (encode_udp payload) [
        | none ↦ fails not_encoded
        | some packet ↦ if socket_locked then fails udp_closing else sent
      ]
  try_by_protocol w socket_locked has_socket payload addr tcp = to_sink (tcp_sink w addr) payload
  try_by_protocol w socket_locked has_socket payload addr all = fails protocol_all

  unfoldable pub try_write_to :
      PacketWriter → (socket_locked has_socket : Bool) → List ℕ → ℕ → Protocol → Directed
  try_write_to w socket_locked has_socket payload addr protocol =
      when_open w (try_by_protocol w socket_locked has_socket payload addr protocol)

unfoldable pub slice_by_protocol : (has_socket : Bool) → List ℕ → ℕ → Protocol → Directed
slice_by_protocol has_socket payload addr udp = to_socket has_socket addr (some payload)
slice_by_protocol has_socket payload addr tcp = fails tcp_needs_bytes
slice_by_protocol has_socket payload addr all = fails protocol_all

unfoldable pub write_slice_to : PacketWriter → Bool → List ℕ → ℕ → Protocol → Directed
write_slice_to w has_socket payload addr protocol =
    when_open w (slice_by_protocol has_socket payload addr protocol)

unfoldable pub write_tcp_to_ip : PacketWriter → List ℕ → (remote_ip : ℕ) → Directed
write_tcp_to_ip w payload remote_ip = when_open w (to_sink (tcp_sink_by_ip w remote_ip) payload)
