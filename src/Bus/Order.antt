-- ===== src/Bus/Order.antt =====
-- base/src/bus/mpsc.rs: each type of message is a queue of its own.
use pigs.Prelude.{
  ℕ, Bool, true, false, ◌||◌, List, [], ◌∷◌, ◌++◌, ◌==◌, if◌then◌else◌, map, Option, none, some,
  ◌≡◌, refl, ap, ap₂, ◌∙◌, subst, arith, Bool-cases, inl, inr,
}
use mathlib.Core.List.{append_assoc, append-nil}
use pigs.Bus.{Boxed, Channel, TypedMessageBus, Given, new, Call, call, bus_step}
use pigs.Bus.Calls.{taken_in, given_out, is_mismatch, boxes, Waiting, Carries, call-Keeps}

-- What a step gave for the type, read in one of three ways.
abbrev given_for : {A : Type 0} → A → (Given → A) → ℕ → Option (ℕ × Call) → Given → A
given_for nothing reading t none g = nothing
given_for nothing reading t (some (k, c)) g = if k == t then reading g else nothing

-- The values of a type that went in and those that came out, in order, whether its receiver ever met
-- a message of another type, and the bus after the calls.
unfoldable pub run :
    ℕ → TypedMessageBus → List (Option (ℕ × Call)) → List ℕ × List ℕ × Bool × TypedMessageBus
run t b [] = ([], [], false, b)
run t b (event ∷ events) =
    let r = bus_step b event in
    let rest = run t r.1 events in
    (
      given_for [] taken_in t event r.0 ++ rest.0,
      given_for [] given_out t event r.0 ++ rest.1,
      given_for false is_mismatch t event r.0 || rest.2,
      rest.3,
    )

-- The channel of the type after a step at the bus.
abbrev StepKeeps : ℕ → (ins outs : List ℕ) → Option (ℕ × Call) → Given × TypedMessageBus → Type 0
StepKeeps t ins outs event r =
    Carries t (ins ++ given_for [] taken_in t event r.0)
      (outs ++ given_for [] given_out t event r.0) (r.1.channels t)
    × (given_for false is_mismatch t event r.0 ≡ false)

none-Carries :
    (t : ℕ) (ins outs : List ℕ) (channel : Option Channel)
    → Carries t ins outs channel
    → Carries t (ins ++ []) (outs ++ []) channel
none-Carries t ins outs channel h = rw (append-nil ins, append-nil outs) h

own_step :
    (t : ℕ) (ins outs : List ℕ) (b : TypedMessageBus) (c : Call)
    → Carries t ins outs (b.channels t)
    → StepKeeps t ins outs (some (t, c)) (bus_step b (some (t, c)))
unfolding bus_step
own_step t ins outs b c h =
    let r = call b.dropped t (b.channels t) c in
    let kept = call-Keeps b.dropped t ins outs (b.channels t) c h in
    let own : (t == t) ≡ true = ground arith in rw own kept

bus_step-StepKeeps :
    (t : ℕ) (ins outs : List ℕ) (b : TypedMessageBus) (event : Option (ℕ × Call))
    → Carries t ins outs (b.channels t)
    → StepKeeps t ins outs event (bus_step b event)
unfolding bus_step
bus_step-StepKeeps t ins outs b none h = (none-Carries t ins outs (b.channels t) h, refl)
bus_step-StepKeeps t ins outs b (some (k, c)) h = elim (Bool-cases (k == t)) [
  | inl here ↦
      let eq : t ≡ k = ground (arith, here) in
      subst (λ i. StepKeeps t ins outs (some (i, c)) (bus_step b (some (i, c)))) eq
        (own_step t ins outs b c h)
  | inr away ↦ rw away (none-Carries t ins outs (b.channels t) h, refl)
]

values-boxes :
    (t : ℕ) (values : List ℕ) → map (λ (message : Boxed). message.value) (boxes t values) ≡ values
values-boxes t [] = refl
values-boxes t (value ∷ values) = ap (λ l. value ∷ l) (values-boxes t values)

run-Carries :
    (t : ℕ) (ins outs : List ℕ) (b : TypedMessageBus) (events : List (Option (ℕ × Call)))
    → Carries t ins outs (b.channels t)
    → let r = run t b events in
      Carries t (ins ++ r.0) (outs ++ r.1) (r.3.channels t) × (r.2 ≡ false)
unfolding run
run-Carries t ins outs b [] h = (none-Carries t ins outs (b.channels t) h, refl)
run-Carries t ins outs b (event ∷ events) h =
    let r = bus_step b event in
    let (one, own_type) = bus_step-StepKeeps t ins outs b event h in
    let first = given_for [] taken_in t event r.0 in
    let second = given_for [] given_out t event r.0 in
    let rest = run t r.1 events in
    let (all, all_own) = run-Carries t (ins ++ first) (outs ++ second) r.1 events one in
    (
      subst (λ o. Carries t (ins ++ (first ++ rest.0)) o (rest.3.channels t))
          (append_assoc outs second rest.1)
          (subst (λ i. Carries t i ((outs ++ second) ++ rest.1) (rest.3.channels t))
            (append_assoc ins first rest.0) all),
      ap₂ ◌||◌ own_type all_own,
    )

-- The receiver met no message of another type; what it got are the first of the messages that went
-- in; and while it is not dropped, the channel has exactly the others.
abbrev pub IsQueue : ℕ → List ℕ × List ℕ × Bool × TypedMessageBus → Type 0
IsQueue t r =
    (r.2 ≡ false)
    × ((rest : List ℕ) × (r.1 ++ rest ≡ r.0)
        × ((channel : Channel)
            → r.3.channels t ≡ some channel
            → channel.receiving ≡ true
            → map (λ (message : Boxed). message.value) channel.queue ≡ rest))

-- Each type of message is a queue of its own: on a new bus, whatever is subscribed, published,
-- received and dropped, of that type or others, the messages that a type's receiver gets are the
-- first of those whose publishing succeeded, in their order; it never meets a message of another
-- type; and while it is not dropped, the type's channel has exactly the others.
pub run-IsQueue : (t : ℕ) (events : List (Option (ℕ × Call))) → IsQueue t (run t new events)
unfolding new
run-IsQueue t events =
    let (h, own_type) =
      run-Carries t [] [] new events (record { rest = []; in_order = refl; waiting = refl }) in
    (
      own_type,
      (
        h.rest,
        h.in_order,
        λ channel at alive.
            let waiting : Waiting t h.rest (some channel) = subst (Waiting t h.rest) at h.waiting in
            ap (map (λ (message : Boxed). message.value)) (waiting alive) ∙ values-boxes t h.rest,
      ),
    )
