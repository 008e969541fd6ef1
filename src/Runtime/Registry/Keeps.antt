-- ===== src/Runtime/Registry/Keeps.antt =====
-- base/src/utils/rt.rs: what the rest of the program cannot undo once the application shuts down.
use pigs.Prelude.{
  ℕ, true, false, List, [], ◌∷◌, ◌==◌, if_intro, update, update-same, update-other, ◌≡◌, refl, sym,
  ap, ◌∙◌, subst, arith, Bool-cases, inl, inr, none, Option,
}
use pigs.Runtime.{
  TaskState, TaskGuard, GlobalRuntime, start_locked, spawn, Ending, output, payload, dropped,
  complete, panic, drop_guard, finish, begin_shutdown, close,
}
use pigs.Runtime.Tasks.{IsShut}
use pigs.Runtime.Registry.{
  RuntimeEntry, RuntimeRegistry, handle, with_handle, register, fail, Happening, registers, spawns,
  ends, fails, happen, happen_all, wait_tasks,
}

abbrev pub Shut : RuntimeRegistry → ℕ → Type 0
Shut r k = IsShut (handle r k)

-- From a registry that shuts down: no runtime comes or goes, what is shut stays shut, and a failure
-- stays.
pub record Keeps (r r1 : RuntimeRegistry) : Type 0 where
  pub runtimes : r1.runtimes ≡ r.runtimes
  pub shutting : r1.shutting_down ≡ true
  pub shut : (k : ℕ) → Shut r k → Shut r1 k
  pub failed : r.failed ≡ true → r1.failed ≡ true

pub same-Keeps : (r : RuntimeRegistry) → r.shutting_down ≡ true → Keeps r r
same-Keeps r down = record { runtimes = refl; shutting = down; shut = λ k h. h; failed = λ h. h }

pub trans-Keeps : (r r1 r2 : RuntimeRegistry) → Keeps r r1 → Keeps r1 r2 → Keeps r r2
trans-Keeps r r1 r2 a b = record {
  runtimes = b.runtimes ∙ a.runtimes;
  shutting = b.shutting;
  shut = λ k h. b.shut k (a.shut k h);
  failed = λ h. b.failed (a.failed h);
}

abbrev IsClosed : RuntimeEntry → Type 0
IsClosed e = (e.tasks.accepting ≡ false) × (e.cancel ≡ true)

pub with_handle-Keeps :
    (r : RuntimeRegistry) (k : ℕ) (rt : GlobalRuntime)
    → r.shutting_down ≡ true
    → (Shut r k → IsShut rt)
    → (r.failed ≡ true → rt.failed ≡ true)
    → Keeps r (with_handle r k rt)
unfolding with_handle handle
with_handle-Keeps r k rt down shut failed = record {
  runtimes = refl;
  shutting = down;
  shut = λ j h. elim (Bool-cases (k == j)) [
    | inl here ↦
        let eq : j ≡ k = ground (arith, here) in
        let rt_shut = shut (subst (Shut r) eq h) in
        let same = update-same r.entries k (record { tasks = rt.tasks; cancel = rt.cancel }) in
        let closed =
          subst IsClosed
            (sym
              (ap (update r.entries k (record { tasks = rt.tasks; cancel = rt.cancel })) eq ∙ same))
            (rt_shut.refusing, rt_shut.cancelled) in
        record { refusing = closed.0; cancelled = closed.1 }
    | inr away ↦
        let other =
          update-other r.entries k j (record { tasks = rt.tasks; cancel = rt.cancel }) away in
        let closed = subst IsClosed (sym other) (h.refusing, h.cancelled) in
        record { refusing = closed.0; cancelled = closed.1 }
  ];
  failed = failed;
}

spawn-IsShut : (rt : GlobalRuntime) (name : ℕ) → IsShut rt → IsShut (spawn rt name).1
unfolding spawn start_locked
spawn-IsShut rt name h =
    if_intro rt.tasks.accepting (λ (r : Option TaskGuard × GlobalRuntime). IsShut r.1)
      (record { refusing = h.refusing; cancelled = h.cancelled }) h

spawn-failed : (rt : GlobalRuntime) (name : ℕ) → rt.failed ≡ true → (spawn rt name).1.failed ≡ true
unfolding spawn
spawn-failed rt name h =
    if_intro rt.tasks.accepting (λ (r : Option TaskGuard × GlobalRuntime). r.1.failed ≡ true) h h

drop_guard-refusing :
    (guard : TaskGuard) (s : TaskState)
    → s.accepting ≡ false
    → (drop_guard guard s).accepting ≡ false
unfolding drop_guard
drop_guard-refusing guard s h = if_intro guard.finished (λ (t : TaskState). t.accepting ≡ false) h h

finish-IsShut :
    (rt : GlobalRuntime) (guard : TaskGuard) (ending : Ending)
    → IsShut rt
    → IsShut (finish rt guard ending)
unfolding finish complete panic drop_guard
finish-IsShut rt guard output h = record {
  refusing = if_intro rt.cancel (λ (t : TaskState). t.accepting ≡ false) h.refusing h.refusing;
  cancelled = h.cancelled;
}
finish-IsShut rt guard payload h = record { refusing = h.refusing; cancelled = h.cancelled }
finish-IsShut rt guard dropped h = record {
  refusing = drop_guard-refusing guard rt.tasks h.refusing;
  cancelled = h.cancelled;
}

finish-failed :
    (rt : GlobalRuntime) (guard : TaskGuard) (ending : Ending)
    → rt.failed ≡ true
    → (finish rt guard ending).failed ≡ true
unfolding finish
finish-failed rt guard output h = h
finish-failed rt guard payload h = refl
finish-failed rt guard dropped h = h

happen-Keeps : (r : RuntimeRegistry) (h : Happening) → r.shutting_down ≡ true → Keeps r (happen r h)
unfolding happen register fail handle
happen-Keeps r (registers k) down =
    let eq : register r k ≡ (none, r) = simp down in
    subst (λ p. Keeps r p.1) (sym eq) (same-Keeps r down)
happen-Keeps r (spawns k name) down =
    with_handle-Keeps r k (spawn (handle r k) name).1 down (spawn-IsShut (handle r k) name)
      (spawn-failed (handle r k) name)
happen-Keeps r (ends k guard ending) down =
    with_handle-Keeps r k (finish (handle r k) guard ending) down
      (finish-IsShut (handle r k) guard ending) (finish-failed (handle r k) guard ending)
happen-Keeps r fails down = record {
  runtimes = refl;
  shutting = down;
  shut = λ k h. record { refusing = h.refusing; cancelled = h.cancelled };
  failed = λ h. refl;
}

pub happen_all-Keeps :
    (r : RuntimeRegistry) (hs : List Happening) → r.shutting_down ≡ true → Keeps r (happen_all r hs)
unfolding happen_all
happen_all-Keeps r [] down = same-Keeps r down
happen_all-Keeps r (h ∷ hs) down =
    let one = happen-Keeps r h down in
    trans-Keeps r (happen r h) (happen_all (happen r h) hs) one
      (happen_all-Keeps (happen r h) hs one.shutting)

-- After `begin_shutdown` of a runtime, it is shut whatever happens.
pub begun-Keeps :
    (r : RuntimeRegistry) (k : ℕ) (hs : List Happening)
    → r.shutting_down ≡ true
    → let r1 = wait_tasks r k hs in Keeps r r1 × Shut r1 k
unfolding wait_tasks begin_shutdown close handle with_handle
begun-Keeps r k hs down =
    let rt = begin_shutdown (handle r k) in
    let first =
      with_handle-Keeps r k rt down (λ h. record { refusing = refl; cancelled = refl }) (λ h. h) in
    let later = happen_all-Keeps (with_handle r k rt) hs first.shutting in
    let same = update-same r.entries k (record { tasks = rt.tasks; cancel = rt.cancel }) in
    let closed = subst IsClosed (sym same) (refl, refl) in
    (
      trans-Keeps r (with_handle r k rt) (happen_all (with_handle r k rt) hs) first later,
      later.shut k (record { refusing = closed.0; cancelled = closed.1 }),
    )
