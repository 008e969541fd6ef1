-- ===== src/Lib.antt =====
-- Verification library of pigs, a Rust application scaffold. Each module models one part of the
-- program, translated from its source; paths are those of the repository.
--
--   Wheel      base/src/cache/c100k.rs: one shard of the expiry cache. `Wheel.State` has its data,
--              `Wheel.Table` the entry slots with free list and hash index, `Wheel.Ops` the three
--              wheels and their cascades, `Wheel.Run` expiry, the clock, the commands and the task.
--   Dig62      base/src/utils/dig62.rs: the codec between decimal digits and 62 characters.
--   Writer     base/src/net/rw.rs: the registry of TCP writers in `PacketWriter`. `Writer.Index` has
--              the agreement of its two maps, `Writer.Register`, `Insert`, `Remove` and `Close` the
--              operations, `Writer.Runs` every interleaving of their atomic parts, `Writer.Waits` the
--              wait for a writer, `Writer.Writes` and `Writer.Directs` where the writes go.
--   Sink       base/src/net/rw.rs: the sinks. `Sink.Bytes` and `Sink.Runs` have the bytes of a queued
--              sink's line, `Sink.Reading` and `Sink.Delivery` what a reader has from them,
--              `Sink.Direct` the direct sink.
--   Reader     base/src/net/rw.rs: the task that reads a connection. `Reader.Limits` has what its
--              splitter is given, `Reader.Ends` what it leaves in the registry of `Writer`.
--   Runtime    base/src/utils/rt.rs: the tasks of a managed runtime, from `spawn` to their end or
--              the shutdown, and the order of the shutdown's stages. `Runtime.Registry` has the
--              registry, `Runtime.Shutdown` the shutdown of the application, and `Shutdown.Budget`
--              its division of time.
--   Migration  base_db/src/migration.rs: the schema migrations, over a parameter that executes SQL.
--   Packet     base/src/net/rw.rs: prefixes, the encoders, and the writing of an encoded packet.
--              `Packet.Framing` has the reading of a frame, `Packet.Vectored` the write loop.
--   Managed    base/src/net/rw.rs: endpoints. `Managed.Report` has the reports of stopped tasks,
--              `Managed.Root` the root task, `Managed.Listener` the accept loop with its backoff,
--              `Managed.Receiver` the udp receiver, `Managed.Endpoint` the reaping and closing
--              of connections; it closes the registry of `Writer`.
--   Cache      base/src/cache/mod.rs: the cache with its purge task, over an interface for the delay
--              queue of tokio-util. `Cache.Agree` has the task's two maps, `Cache.Tokens` what each
--              command does to them, `Cache.Sound` and `Cache.Waiting` runs.
--   Bus        base/src/bus/mpsc.rs: the bus of typed messages. `Bus.Calls` has what a call does to the
--              channel of its type, `Bus.Order` runs of calls for all types.
--   Supervisor base_rpc/src/stream_supervisor.rs and retry.rs: the loop that keeps a stream
--              connected, the state it shows, and the reporters.
--   Metadata   base_rpc/src/interceptor.rs: the metadata of a request, from the client's interceptor
--              to the server's extraction, over an interface for tonic's map.
--   Episode    base/src/logger/episode.rs: the accounting of a run of failures for the log.
--
-- Prelude has the shared names: Boolean tests, lists over the native numbers, the fault monad.
--
-- Correspondence. A method of the source is the function of its name; a method that changes its
-- object returns the new state. `Shard::insert`, `refresh` and `delete` are `insert_key`,
-- `refresh_key` and `delete_key`; the fields of `Shard` are grouped into `table` and `wheels`. An
-- array or a map is a function on its indices or keys; `none`, or `panic`, is a panic. Integers are
-- natural numbers with `% 2 ^ 32` or `% 2 ^ 64` written out where the source's type can wrap, as a
-- release build does. Time enters as the milliseconds that have passed. Equality and hash of keys
-- and the event channel's `try_send` are parameters (`Env`), as is what other crates provide.
--
-- Fuel. `catch_up` runs as many rounds as its first argument says, which `on_tick` computes and
-- bounds by 1024; `chunks` has the length of its list as fuel, `bit_len` the number it measures,
-- and `read_all` the number of frames that a reader looks for.
-- `close_active` has fuel for its passes; one is enough, as a pass takes every connection out of the
-- map. Loops that wait for the world (`run_tcp_listener`, `write_all_vectored_2`, the cache's task,
-- the supervisor) recurse on the list of what they meet: events, answers of a stream, commands.
--
-- Shared state. An operation that the source runs in two parts, of which only the second holds the
-- lock (`insert_tcp_sink`, `PacketWriter::close`), is two functions, and `Step` has each of them as
-- a step. `QueuedTcpSink::write` waits in turns of its `select!`; `try_write`, and a direct write
-- with the lock, awaited or dropped, are one step. A `DashMap` is an association list or a function; a cancellation
-- token is a number that the state knows as cancelled or not. Socket addresses are numbers with `ip`
-- as a parameter. What a task is going to return is part of the state that holds it (`Connection`):
-- the endpoint's closing, which awaits its tasks without a limit, is modelled for tasks that do
-- return.
-- The cache's `Event` has the two parts of a client's call apart, `Call` has them together; a report
-- of the supervisor's `Event` is two steps, the look at the state and the send. A stage of the
-- application's shutdown meets lists of what the rest of the program does while it waits (`Meeting`).
--
-- Not modelled: what runs in other crates (channels, sockets, SQL, ciphers), the making of a managed
-- connection (`connect_tcp`), whose steps wait while others run, the task that joins a
-- connection's reader and writer, the task that runs the cache's callbacks, floating point delays,
-- the capacities of buffers, the other files of base and the crates around it.
pub mod Prelude
pub mod Wheel
pub mod Dig62
pub mod Writer
pub mod Episode
pub mod Reader
pub mod Runtime
pub mod Migration
pub mod Packet
pub mod Managed
pub mod Bus
pub mod Cache
pub mod Supervisor
pub mod Metadata
pub mod Sink
