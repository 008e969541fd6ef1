-- ===== src/Bus/Calls.antt =====
-- base/src/bus/mpsc.rs: what a call does to the queue of its type.
use pigs.Prelude.{
  ℕ, Bool, true, false, not, List, [], ◌∷◌, ◌++◌, leb, if◌then◌else◌, if_intro, length, map, Option,
  none, some, ◌≡◌, refl, sym, ap, ◌∙◌, subst, arith, Bool-cases, inl, inr,
}
use mathlib.Core.List.{append_assoc, append-nil}
use pigs.Bus.{
  already_exists, not_found, full, channel_closed, empty, timeout, type_mismatch, Boxed, Channel,
  default_channel_size, Given, waits, subscribed, accepted, received, error, sub_type_channel, push,
  send_or, send_to, try_publish, publish, try_cast, receive_or, on_receiver, drop_receiver, Call,
  subscribes, tries, publishes, tries_recv, receives, receives_by, drops, call,
}

abbrev pub taken_in : Given → List ℕ
taken_in (accepted value) = value ∷ []
taken_in other = []

abbrev pub given_out : Given → List ℕ
given_out (received value) = value ∷ []
given_out other = []

abbrev pub is_mismatch : Given → Bool
is_mismatch (error type_mismatch) = true
is_mismatch other = false

abbrev pub boxes : ℕ → List ℕ → List Boxed
boxes t values = map (λ value. record { type_id = t; value = value }) values

-- The values that are still to come of a channel, none before its subscription.
abbrev pub Waiting : ℕ → List ℕ → Option Channel → Type 0
Waiting t rest none = rest ≡ []
Waiting t rest (some channel) = channel.receiving ≡ true → channel.queue ≡ boxes t rest

-- What went into the channel of a type is what came out, then the rest.
pub record Carries (t : ℕ) (ins outs : List ℕ) (channel : Option Channel) : Type 0 where
  pub rest : List ℕ
  pub in_order : outs ++ rest ≡ ins
  pub waiting : Waiting t rest channel

-- After a call, with what it gave.
abbrev pub Keeps : ℕ → (ins outs : List ℕ) → Given × Option Channel → Type 0
Keeps t ins outs r =
    Carries t (ins ++ taken_in r.0) (outs ++ given_out r.0) r.1 × (is_mismatch r.0 ≡ false)

-- An answer that moves no message.
abbrev IsQuiet : Given → Type 0
IsQuiet g = (taken_in g ≡ []) × (given_out g ≡ []) × (is_mismatch g ≡ false)

quiet-Keeps :
    (t : ℕ) (ins outs : List ℕ) (g : Given) (channel : Option Channel)
    → IsQuiet g
    → Carries t ins outs channel
    → Keeps t ins outs (g, channel)
quiet-Keeps t ins outs g channel (no_in, no_out, fine) h = (
  subst (λ o. Carries t (ins ++ taken_in g) o channel)
      (sym (ap (λ l. outs ++ l) no_out ∙ append-nil outs))
      (subst (λ i. Carries t i outs channel) (sym (ap (λ l. ins ++ l) no_in ∙ append-nil ins)) h),
  fine,
)

boxes-append :
    (t : ℕ) (rest : List ℕ) (value : ℕ)
    → boxes t rest ++ record { type_id = t; value = value } ∷ [] ≡ boxes t (rest ++ value ∷ [])
boxes-append t [] value = refl
boxes-append t (x ∷ rest) value =
    ap (λ l. record { type_id = t; value = x } ∷ l) (boxes-append t rest value)

send_or-Keeps :
    (at_full : Given) (t value : ℕ) (ins outs : List ℕ) (channel : Channel)
    → IsQuiet at_full
    → Carries t ins outs (some channel)
    → Keeps t ins outs (send_or at_full t value channel)
unfolding send_or push
send_or-Keeps at_full t value ins outs channel quiet h =
    let message : Boxed = record { type_id = t; value = value } in
    if_intro (not channel.receiving) (Keeps t ins outs)
      (quiet-Keeps t ins outs (error channel_closed) (some channel) (refl, refl, refl) h)
      (if_intro (leb default_channel_size (length channel.queue)) (Keeps t ins outs)
        (quiet-Keeps t ins outs at_full (some channel) quiet h)
        (
          record {
            rest = h.rest ++ value ∷ [];
            in_order =
                ap (λ o. o ++ (h.rest ++ value ∷ [])) (append-nil outs)
                ∙ sym (append_assoc outs h.rest (value ∷ []))
                ∙ ap (λ l. l ++ value ∷ []) h.in_order;
            waiting = λ alive.
                ap (λ q. q ++ message ∷ []) (h.waiting alive) ∙ boxes-append t h.rest value;
          },
          refl,
        ))

try_cast-own : (t value : ℕ) → try_cast t (record { type_id = t; value = value }) ≡ received value
unfolding try_cast
try_cast-own t value = ground arith

receive_or-Keeps :
    (at_empty : Given) (t : ℕ) (ins outs rest : List ℕ) (channel : Channel)
    → IsQuiet at_empty
    → outs ++ rest ≡ ins
    → channel.queue ≡ boxes t rest
    → let r = receive_or at_empty t channel (boxes t rest) in Keeps t ins outs (r.0, some r.1)
unfolding receive_or
receive_or-Keeps at_empty t ins outs [] channel quiet in_order queued =
    quiet-Keeps t ins outs at_empty (some channel) quiet
      (record { rest = []; in_order = in_order; waiting = λ alive. queued })
receive_or-Keeps at_empty t ins outs (value ∷ rest) channel quiet in_order queued =
    subst (λ g. Keeps t ins outs (g, some (record channel { queue = boxes t rest })))
      (sym (try_cast-own t value))
      (
        record {
          rest = rest;
          in_order = append_assoc outs (value ∷ []) rest ∙ in_order ∙ sym (append-nil ins);
          waiting = λ alive. refl;
        },
        refl,
      )

on_receiver-Keeps :
    (at_empty : Given) (t : ℕ) (ins outs : List ℕ) (channel : Option Channel)
    → IsQuiet at_empty
    → Carries t ins outs channel
    → Keeps t ins outs (on_receiver at_empty t channel)
unfolding on_receiver
on_receiver-Keeps at_empty t ins outs none quiet h =
    quiet-Keeps t ins outs waits none (refl, refl, refl) h
on_receiver-Keeps at_empty t ins outs (some channel) quiet h = elim (Bool-cases channel.receiving) [
  | inl alive ↦
      let same : on_receiver at_empty t (some channel)
          ≡ (let r = receive_or at_empty t channel channel.queue in (r.0, some r.1)) =
        simp alive in
      subst (Keeps t ins outs) (sym same) (
        subst (λ q. let r = receive_or at_empty t channel q in Keeps t ins outs (r.0, some r.1))
          (sym (h.waiting alive))
          (receive_or-Keeps at_empty t ins outs h.rest channel quiet h.in_order (h.waiting alive)))
  | inr gone ↦
      let same : on_receiver at_empty t (some channel) ≡ (waits, some channel) = simp gone in
      subst (Keeps t ins outs) (sym same)
        (quiet-Keeps t ins outs waits (some channel) (refl, refl, refl) h)
]

dropped_or-IsQuiet :
    (dropped : Bool) (g : Given) → IsQuiet g → IsQuiet (if dropped then error channel_closed else g)
dropped_or-IsQuiet dropped g quiet = if_intro dropped IsQuiet (refl, refl, refl) quiet

drop_receiver-Keeps :
    (t : ℕ) (ins outs : List ℕ) (channel : Option Channel)
    → Carries t ins outs channel
    → Keeps t ins outs (waits, drop_receiver channel)
unfolding drop_receiver
drop_receiver-Keeps t ins outs none h = quiet-Keeps t ins outs waits none (refl, refl, refl) h
drop_receiver-Keeps t ins outs (some channel) h =
    quiet-Keeps t ins outs waits (some (record { queue = []; receiving = false }))
      (refl, refl, refl)
      (record {
        rest = h.rest;
        in_order = h.in_order;
        waiting = λ alive. absurd (ground (arith, alive));
      })

sub_type_channel-Keeps :
    (t : ℕ) (ins outs : List ℕ) (channel : Option Channel)
    → Carries t ins outs channel
    → Keeps t ins outs (sub_type_channel channel)
unfolding sub_type_channel
sub_type_channel-Keeps t ins outs none h =
    quiet-Keeps t ins outs subscribed (some (record { queue = []; receiving = true }))
      (refl, refl, refl)
      (record {
        rest = h.rest;
        in_order = h.in_order;
        waiting = λ alive. sym (ap (boxes t) h.waiting);
      })
sub_type_channel-Keeps t ins outs (some channel) h =
    quiet-Keeps t ins outs (error already_exists) (some channel) (refl, refl, refl) h

send-Keeps :
    (at_full : Given) (t value : ℕ) (ins outs : List ℕ) (channel : Option Channel)
    → IsQuiet at_full
    → Carries t ins outs channel
    → Keeps t ins outs (send_to at_full t value channel)
unfolding send_to
send-Keeps at_full t value ins outs none quiet h =
    quiet-Keeps t ins outs (error not_found) none (refl, refl, refl) h
send-Keeps at_full t value ins outs (some channel) quiet h =
    send_or-Keeps at_full t value ins outs channel quiet h

pub call-Keeps :
    (dropped : Bool) (t : ℕ) (ins outs : List ℕ) (channel : Option Channel) (c : Call)
    → Carries t ins outs channel
    → Keeps t ins outs (call dropped t channel c)
unfolding call try_publish publish
call-Keeps dropped t ins outs channel subscribes h = sub_type_channel-Keeps t ins outs channel h
call-Keeps dropped t ins outs channel (tries value) h =
    send-Keeps (error full) t value ins outs channel (refl, refl, refl) h
call-Keeps dropped t ins outs channel (publishes value) h =
    send-Keeps waits t value ins outs channel (refl, refl, refl) h
call-Keeps dropped t ins outs channel tries_recv h =
    on_receiver-Keeps (if dropped then error channel_closed else error empty) t ins outs channel
      (dropped_or-IsQuiet dropped (error empty) (refl, refl, refl)) h
call-Keeps dropped t ins outs channel receives h =
    on_receiver-Keeps (if dropped then error channel_closed else waits) t ins outs channel
      (dropped_or-IsQuiet dropped waits (refl, refl, refl)) h
call-Keeps dropped t ins outs channel (receives_by is_late) h =
    let late : Given = if is_late then error timeout else waits in
    on_receiver-Keeps (if dropped then error channel_closed else late) t ins outs channel
      (dropped_or-IsQuiet dropped late
        (if_intro is_late IsQuiet (refl, refl, refl) (refl, refl, refl)))
      h
call-Keeps dropped t ins outs channel drops h = drop_receiver-Keeps t ins outs channel h
