-- ===== src/Runtime/Tasks.antt =====
-- base/src/utils/rt.rs: every task that was started is active or counted once.
use pigs.Prelude.{
  ℕ, ◌+◌, ◌%◌, ◌^◌, ◌≤◌, ◌<◌, true, false, none, some, List, [], ◌∷◌, ◌==◌, if_intro, length,
  lookup, erase, lookup-erase, ◌≡◌, refl, sym, ◌∙◌, subst, arith, Bool-cases, Option-cases, inl,
  inr,
}
use pigs.Runtime.{
  TaskState, TaskGuard, fetch_suc, new, start_locked, close, complete, panic, drop_guard,
  GlobalRuntime, spawn, Ending, output, payload, dropped, finish, begin_shutdown,
}

-- No key stands twice.
abbrev pub Distinct : List (ℕ × ℕ) → Type 0
Distinct [] = Unit
Distinct (x ∷ m) = (lookup m x.0 ≡ none) × Distinct m

Distinct-erase : (m : List (ℕ × ℕ)) (k : ℕ) → Distinct m → Distinct (erase m k)
Distinct-erase [] k h = h
Distinct-erase (x ∷ m) k h =
    let rest = Distinct-erase m k h.1 in
    let absent : lookup (erase m k) x.0 ≡ none = ground (arith, lookup-erase m k x.0, h.0) in
    if_intro (x.0 == k) Distinct rest (absent, rest)

length-erase-none : (m : List (ℕ × ℕ)) (k : ℕ) → lookup m k ≡ none → length (erase m k) ≡ length m
length-erase-none [] k h = refl
length-erase-none (x ∷ m) k h = ground (arith, length-erase-none m k)

length-erase :
    (m : List (ℕ × ℕ)) (k v : ℕ)
    → Distinct m
    → lookup m k ≡ some v
    → length (erase m k) + 1 ≡ length m
length-erase [] k v d h = ground arith
length-erase (x ∷ m) k v d h = elim (Bool-cases (x.0 == k)) [
  | inl here ↦
      let eq : x.0 ≡ k = ground arith in
      let absent : lookup m k ≡ none = subst (λ i. lookup m i ≡ none) eq d.0 in
      ground (arith, length-erase-none m k absent)
  | inr away ↦ ground (arith, length-erase m k v d.1)
]

-- The tasks started so far are those active and those counted as completed, cancelled or panicked.
pub record IsAccounted (started : ℕ) (s : TaskState) : Type 0 where
  pub numbered : s.next_id ≡ started
  pub conserved : length s.active + s.completed + s.cancelled + s.panicked ≡ started
  pub known : (id name : ℕ) → lookup s.active id ≡ some name → id < started
  pub distinct : Distinct s.active

pub new-IsAccounted : IsAccounted 0 new
unfolding new
new-IsAccounted = record {
  numbered = refl;
  conserved = refl;
  known = λ id name e. ground arith;
  distinct = _;
}

start-IsAccounted :
    (n name : ℕ) (s : TaskState)
    → n + 1 < 2 ^ 64
    → IsAccounted n s
    → IsAccounted (n + 1) (start_locked s name).1
unfolding start_locked fetch_suc
start-IsAccounted n name s small h =
    let absent : lookup s.active s.next_id ≡ none =
      elim (Option-cases (lookup s.active s.next_id)) [
        | inl e ↦ e
        | inr (v, e) ↦ absurd (let l = h.known s.next_id v e in let q = h.numbered in ground arith)
      ] in
    record {
      numbered = let q = h.numbered in ground arith;
      conserved = ground (arith, length-erase-none s.active s.next_id absent, h.conserved);
      known = λ id v e.
          let q = h.numbered in
          elim (Bool-cases (s.next_id == id)) [
            | inl here ↦ ground arith
            | inr away ↦
                let old : lookup s.active id ≡ some v =
                  ground (arith, lookup-erase s.active s.next_id id) in
                let l = h.known id v old in omega arith
          ];
      distinct = (
        ground (arith, lookup-erase s.active s.next_id s.next_id),
        Distinct-erase s.active s.next_id h.distinct,
      );
    }

-- A task that ends leaves the active ones and goes to one of the counters.
ended-IsAccounted :
    (n id name a b c : ℕ) (s : TaskState)
    → n < 2 ^ 64
    → IsAccounted n s
    → lookup s.active id ≡ some name
    → a + b + c ≡ s.completed + s.cancelled + s.panicked + 1
    → IsAccounted n
        (record s { active = erase s.active id; completed = a; cancelled = b; panicked = c })
ended-IsAccounted n id name a b c s small h found e = record {
  numbered = h.numbered;
  conserved =
      let l = length-erase s.active id name h.distinct found in let q = h.conserved in omega arith;
  known = λ i v at. h.known i v (ground (arith, lookup-erase s.active id i));
  distinct = Distinct-erase s.active id h.distinct;
}

within :
    (n id name : ℕ) (s : TaskState)
    → IsAccounted n s
    → lookup s.active id ≡ some name
    → s.completed + s.cancelled + s.panicked + 1 ≤ n
within n id name s h found =
    let l = length-erase s.active id name h.distinct found in let q = h.conserved in omega arith

abbrev guard_of : ℕ → TaskGuard
guard_of id = record { id = id; finished = false }

finish-IsAccounted :
    (n id name : ℕ) (rt : GlobalRuntime) (ending : Ending)
    → n < 2 ^ 64
    → IsAccounted n rt.tasks
    → lookup rt.tasks.active id ≡ some name
    → IsAccounted n (finish rt (guard_of id) ending).tasks
unfolding finish complete panic drop_guard fetch_suc
finish-IsAccounted n id name rt output small h found =
    let w = within n id name rt.tasks h found in
    if_intro rt.cancel
      (λ (t : TaskState). IsAccounted n (record t { active = erase rt.tasks.active id }))
      (ended-IsAccounted n id name rt.tasks.completed ((rt.tasks.cancelled + 1) % 2 ^ 64)
        rt.tasks.panicked rt.tasks small h found (omega arith))
      (ended-IsAccounted n id name ((rt.tasks.completed + 1) % 2 ^ 64) rt.tasks.cancelled
        rt.tasks.panicked rt.tasks small h found (omega arith))
finish-IsAccounted n id name rt payload small h found =
    let w = within n id name rt.tasks h found in
    ended-IsAccounted n id name rt.tasks.completed rt.tasks.cancelled
      ((rt.tasks.panicked + 1) % 2 ^ 64) rt.tasks small h found (omega arith)
finish-IsAccounted n id name rt dropped small h found =
    let w = within n id name rt.tasks h found in
    ended-IsAccounted n id name rt.tasks.completed ((rt.tasks.cancelled + 1) % 2 ^ 64)
      rt.tasks.panicked rt.tasks small h found (omega arith)

-- One step of some task on a runtime, with the number of tasks started before and after it: a call
-- of `spawn`, the end of an active task in any way, or the beginning of the shutdown.
pub data Step : ℕ → GlobalRuntime → ℕ → GlobalRuntime → Type 0 where
  spawns :
      (n name : ℕ) (rt : GlobalRuntime)
      → rt.tasks.accepting ≡ true
      → Step n rt (n + 1) (spawn rt name).1
  refuses :
      (n name : ℕ) (rt : GlobalRuntime) → rt.tasks.accepting ≡ false → Step n rt n (spawn rt name).1
  ends :
      (n id name : ℕ) (rt : GlobalRuntime) (ending : Ending)
      → lookup rt.tasks.active id ≡ some name
      → Step n rt n (finish rt (guard_of id) ending)
  shuts_down : (n : ℕ) (rt : GlobalRuntime) → Step n rt n (begin_shutdown rt)

pub data Steps : ℕ → GlobalRuntime → ℕ → GlobalRuntime → Type 0 where
  done : (n : ℕ) (rt : GlobalRuntime) → Steps n rt n rt
  more :
      (n : ℕ) (rt : GlobalRuntime) (m : ℕ) (mid : GlobalRuntime) (k : ℕ) (last : GlobalRuntime)
      → Step n rt m mid
      → Steps m mid k last
      → Steps n rt k last

spawn_accepted :
    (rt : GlobalRuntime) (name : ℕ)
    → rt.tasks.accepting ≡ true
    → spawn rt name
      ≡ (some (start_locked rt.tasks name).0, record rt { tasks = (start_locked rt.tasks name).1 })
unfolding spawn
spawn_accepted rt name h = simp h

spawn_refused :
    (rt : GlobalRuntime) (name : ℕ) → rt.tasks.accepting ≡ false → spawn rt name ≡ (none, rt)
unfolding spawn
spawn_refused rt name h = simp h

Step-grows : (n m : ℕ) (rt mid : GlobalRuntime) → Step n rt m mid → n ≤ m
Step-grows _ _ _ _ (spawns n name rt h) = omega arith
Step-grows _ _ _ _ (refuses n name rt h) = omega arith
Step-grows _ _ _ _ (ends n id name rt ending h) = omega arith
Step-grows _ _ _ _ (shuts_down n rt) = omega arith

Steps-grow : (n m : ℕ) (rt mid : GlobalRuntime) → Steps n rt m mid → n ≤ m
Steps-grow _ _ _ _ (done n rt) = omega arith
Steps-grow _ _ _ _ (more n rt m mid k last s ss) =
    let a = Step-grows n m rt mid s in let b = Steps-grow m k mid last ss in omega arith

close-IsAccounted : (n : ℕ) (s : TaskState) → IsAccounted n s → IsAccounted n (close s)
unfolding close
close-IsAccounted n s h = record {
  numbered = h.numbered;
  conserved = h.conserved;
  known = h.known;
  distinct = h.distinct;
}

Step-IsAccounted :
    (n m : ℕ) (rt mid : GlobalRuntime)
    → Step n rt m mid
    → m < 2 ^ 64
    → IsAccounted n rt.tasks
    → IsAccounted m mid.tasks
unfolding begin_shutdown
Step-IsAccounted _ _ _ _ (spawns n name rt h) small acc =
    subst (λ p. IsAccounted (n + 1) p.1.tasks) (sym (spawn_accepted rt name h))
      (start-IsAccounted n name rt.tasks small acc)
Step-IsAccounted _ _ _ _ (refuses n name rt h) small acc =
    subst (λ p. IsAccounted n p.1.tasks) (sym (spawn_refused rt name h)) acc
Step-IsAccounted _ _ _ _ (ends n id name rt ending h) small acc =
    finish-IsAccounted n id name rt ending small acc h
Step-IsAccounted _ _ _ _ (shuts_down n rt) small acc = close-IsAccounted n rt.tasks acc

-- While fewer than 2^64 tasks have been started, steps in any order keep the account: the started
-- tasks are the active ones and those counted once as completed, cancelled or panicked.
pub Steps-IsAccounted :
    (n m : ℕ) (rt last : GlobalRuntime)
    → Steps n rt m last
    → m < 2 ^ 64
    → IsAccounted n rt.tasks
    → IsAccounted m last.tasks
Steps-IsAccounted _ _ _ _ (done n rt) small acc = acc
Steps-IsAccounted _ _ _ _ (more n rt m mid k last s ss) small acc =
    let b = Steps-grow m k mid last ss in
    Steps-IsAccounted m k mid last ss small (Step-IsAccounted n m rt mid s (omega arith) acc)

-- Nothing is accepted and the token is cancelled.
pub record IsShut (rt : GlobalRuntime) : Type 0 where
  pub refusing : rt.tasks.accepting ≡ false
  pub cancelled : rt.cancel ≡ true

finish-IsShut :
    (rt : GlobalRuntime) (id : ℕ) (ending : Ending)
    → IsShut rt
    → IsShut (finish rt (guard_of id) ending)
unfolding finish complete panic drop_guard
finish-IsShut rt id output h = record {
  refusing = if_intro rt.cancel (λ (t : TaskState). t.accepting ≡ false) h.refusing h.refusing;
  cancelled = h.cancelled;
}
finish-IsShut rt id payload h = record { refusing = h.refusing; cancelled = h.cancelled }
finish-IsShut rt id dropped h = record { refusing = h.refusing; cancelled = h.cancelled }

Step-IsShut :
    (n m : ℕ) (rt mid : GlobalRuntime) → Step n rt m mid → IsShut rt → (n ≡ m) × IsShut mid
unfolding begin_shutdown close
Step-IsShut _ _ _ _ (spawns n name rt h) shut = absurd (let q = shut.refusing in ground arith)
Step-IsShut _ _ _ _ (refuses n name rt h) shut =
    (refl, subst (λ p. IsShut p.1) (sym (spawn_refused rt name h)) shut)
Step-IsShut _ _ _ _ (ends n id name rt ending h) shut = (refl, finish-IsShut rt id ending shut)
Step-IsShut _ _ _ _ (shuts_down n rt) shut = (refl, record { refusing = refl; cancelled = refl })

-- Once the shutdown of a runtime has begun, steps in any order start no task, and the runtime goes
-- on to refuse tasks with its token cancelled.
pub Steps-IsShut :
    (n m : ℕ) (rt last : GlobalRuntime) → Steps n rt m last → IsShut rt → (n ≡ m) × IsShut last
Steps-IsShut _ _ _ _ (done n rt) shut = (refl, shut)
Steps-IsShut _ _ _ _ (more n rt m mid k last s ss) shut =
    let one = Step-IsShut n m rt mid s shut in
    let rest = Steps-IsShut m k mid last ss one.1 in (one.0 ∙ rest.0, rest.1)
