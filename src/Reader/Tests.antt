-- ===== src/Reader/Tests.antt =====
-- base/src/net/rw.rs: a connection's reader on small inputs, with the splitter of the source's tests
-- and dispatchers that keep the packets.
use pigs.Prelude.{
  ◌⊎◌, inl, ℕ, Bool, true, false, not, ◌==◌, List, [], ◌∷◌, ◌++◌, ◌≡◌, refl, sym, ap, ◌∙◌,
}
use mathlib.Core.List.{append_assoc, append-nil}
use pigs.Writer.{PacketWriter, TcpWriterRegistration, queued, new, insert_tcp_sink}
use pigs.Writer.Insert.{insert_tcp_sink-Outcome}
use pigs.Writer.Index.{new-IsIndexed}
use pigs.Reader.{
  read, cancelled, Reading, breaks, returns_error, feed, after_read, read_round, next_rounds,
  read_loop, leave,
}
use pigs.Reader.Limits.{HoldsAfter, read_loop-HoldsAfter}
use pigs.Reader.Ends.{EndsIt, IsRefused, Left, read_loop-Left}

program : Unit {0}
unfolding feed after_read read_round next_rounds read_loop leave
program = _

-- `DrainSplitter` of the tests: all of the buffer is a packet.
abbrev drain_all :
    Unit {0}
    → List ℕ
    → (List ℕ → List ℕ → Bool × List ℕ)
    → List ℕ
    → Bool × Unit {0} × List ℕ × List ℕ
drain_all s [] dispatch d = (true, s, [], d)
drain_all s (b ∷ bytes) dispatch d = let r = dispatch d (b ∷ bytes) in (r.0, s, [], r.1)

-- It refuses a packet that begins with 9.
abbrev keep : List ℕ → List ℕ → Bool × List ℕ
keep d [] = (true, d)
keep d (b ∷ bytes) = (not (b == 9), d ++ b ∷ bytes)

abbrev empty : Reading (Unit {0}) (List ℕ)
empty = record { buf = []; splitter = _; dispatcher = [] }

abbrev close_peer : List ℕ → Bool × List ℕ
close_peer d = (true, d ++ 0 ∷ [])

ended :
    read_loop drain_all keep empty
      (read (1 ∷ 2 ∷ []) ∷ read (3 ∷ []) ∷ read [] ∷ read (4 ∷ []) ∷ [])
    ≡ (breaks, record { buf = []; splitter = _; dispatcher = 1 ∷ 2 ∷ 3 ∷ [] })
unfolding program
ended = refl

refused :
    read_loop drain_all keep empty (read (1 ∷ []) ∷ read (9 ∷ 2 ∷ []) ∷ read (4 ∷ []) ∷ [])
    ≡ (returns_error, record { buf = []; splitter = _; dispatcher = 1 ∷ 9 ∷ 2 ∷ [] })
unfolding program
refused = refl

-- The bytes of the packets and of the buffer are those that were seen.
abbrev AllSeen : List ℕ → Reading (Unit {0}) (List ℕ) → Type 0
AllSeen seen r = r.dispatcher ++ r.buf ≡ seen

filled :
    (seen bytes : List ℕ) (r : Reading (Unit {0}) (List ℕ))
    → AllSeen seen r
    → AllSeen (seen ++ bytes) (record r { buf = r.buf ++ bytes })
filled seen bytes r h = sym (append_assoc r.dispatcher r.buf bytes) ∙ ap (λ b. b ++ bytes) h

drained :
    (s : Unit {0}) (buf d : List ℕ)
    → (drain_all s buf keep d).3 ++ (drain_all s buf keep d).2 ≡ d ++ buf
drained s [] d = refl
drained s (b ∷ bytes) d = append-nil (d ++ b ∷ bytes)

read_loop-HoldsAfter_example :
    HoldsAfter drain_all keep AllSeen []
      (1 ∷ 2 ∷ 3 ∷ [])
      (read_loop drain_all keep empty (read (1 ∷ 2 ∷ []) ∷ read (3 ∷ []) ∷ [])).1
unfolding feed
read_loop-HoldsAfter_example =
    read_loop-HoldsAfter drain_all keep AllSeen [] empty (read (1 ∷ 2 ∷ []) ∷ read (3 ∷ []) ∷ [])
      filled (λ seen r fits h. drained r.splitter r.buf r.dispatcher ∙ h) refl

abbrev ip_of : ℕ → ℕ
ip_of addr = addr

abbrev registration : TcpWriterRegistration
registration = record { remote_addr = 11; writer_id = 1 }

abbrev one : PacketWriter
one = (insert_tcp_sink ip_of new 11 (queued 11 7)).1

new_open : new.closed ≡ false
unfolding new
new_open = refl

abbrev after_one : Reading (Unit {0}) (List ℕ)
after_one = record { buf = []; splitter = _; dispatcher = 1 ∷ [] }

-- One byte was dispatched, and the cancellation ends the loop.
abbrev cancels :
    EndsIt drain_all keep after_one cancelled ⊎ IsRefused drain_all keep after_one cancelled
cancels = inl _

read_loop-Left_example :
    Left drain_all keep ip_of close_peer after_one cancelled one registration cancels (
      leave ip_of close_peer one registration
        (read_loop drain_all keep empty (read (1 ∷ []) ∷ cancelled ∷ read (2 ∷ []) ∷ [])))
unfolding read_loop next_rounds read_round after_read feed
read_loop-Left_example =
    read_loop-Left drain_all keep ip_of close_peer one registration empty after_one
      (read (1 ∷ []) ∷ []) (read (2 ∷ []) ∷ []) cancelled
      (insert_tcp_sink-Outcome ip_of new 11 (queued 11 7) (new-IsIndexed ip_of) new_open).1.indexed
      refl cancels
