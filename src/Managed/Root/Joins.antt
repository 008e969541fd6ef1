-- ===== src/Managed/Root/Joins.antt =====
-- base/src/net/rw.rs: the root task tells of every protocol task, and ends with the last one.
use pigs.Prelude.{
  ℕ, zero, suc, ◌+◌, ◌-◌, ◌^◌, ◌<◌, Bool, true, false, List, [], ◌∷◌, ◌==◌, if_intro, ◌≡◌, refl,
  sym, ◌∙◌, subst, arith,
}
use pigs.Managed.Report.{
  Field, the_completed, the_cancelled, the_failed, the_panicked, the_remaining, told_by_tasks,
  error_due, ManagedTaskReport, ProtocolJoined, report_of, no_report_of, is_panic, is_cancelled,
  other_error, record_protocol_join, merge_tasks,
}
use pigs.Managed.Root.{
  Root, Event, external_cancelled, joined, spawned, count_completed, start, join_round,
  run_managed_packet_io,
}

-- What a join adds to a count.
abbrev pub due : Field → ProtocolJoined → ℕ
due f (report_of r) = told_by_tasks f r
due f (no_report_of error) = error_due f error

-- What the first joins add to a count, as many as there are tasks.
unfoldable pub joined_due : Field → (tasks : ℕ) → List Event → ℕ
joined_due f zero events = 0
joined_due f (suc tasks) [] = 0
joined_due f (suc tasks) (external_cancelled ∷ events) = joined_due f (suc tasks) events
joined_due f (suc tasks) (joined result ∷ events) = due f result + joined_due f tasks events

unfoldable pub joins : List Event → ℕ
joins [] = 0
joins (external_cancelled ∷ events) = joins events
joins (joined result ∷ events) = suc (joins events)

record_protocol_join-told :
    (f : Field) (r : ManagedTaskReport) (result : ProtocolJoined)
    → told_by_tasks f r + due f result < 2 ^ 64
    → told_by_tasks f (record_protocol_join r result) ≡ told_by_tasks f r + due f result
unfolding record_protocol_join merge_tasks
record_protocol_join-told the_completed r (report_of tasks) h = omega arith
record_protocol_join-told the_completed r (no_report_of is_panic) h = omega arith
record_protocol_join-told the_completed r (no_report_of is_cancelled) h = omega arith
record_protocol_join-told the_completed r (no_report_of other_error) h = omega arith
record_protocol_join-told the_cancelled r (report_of tasks) h = omega arith
record_protocol_join-told the_cancelled r (no_report_of is_panic) h = omega arith
record_protocol_join-told the_cancelled r (no_report_of is_cancelled) h = omega arith
record_protocol_join-told the_cancelled r (no_report_of other_error) h = omega arith
record_protocol_join-told the_failed r (report_of tasks) h = omega arith
record_protocol_join-told the_failed r (no_report_of is_panic) h = omega arith
record_protocol_join-told the_failed r (no_report_of is_cancelled) h = omega arith
record_protocol_join-told the_failed r (no_report_of other_error) h = omega arith
record_protocol_join-told the_panicked r (report_of tasks) h = omega arith
record_protocol_join-told the_panicked r (no_report_of is_panic) h = omega arith
record_protocol_join-told the_panicked r (no_report_of is_cancelled) h = omega arith
record_protocol_join-told the_panicked r (no_report_of other_error) h = omega arith
record_protocol_join-told the_remaining r (report_of tasks) h = omega arith
record_protocol_join-told the_remaining r (no_report_of is_panic) h = omega arith
record_protocol_join-told the_remaining r (no_report_of is_cancelled) h = omega arith
record_protocol_join-told the_remaining r (no_report_of other_error) h = omega arith

over-eq :
    (r : Root) (events : List Event) → r.protocol_tasks ≡ 0 → run_managed_packet_io r events ≡ r
unfolding run_managed_packet_io
over-eq r [] over = refl
over-eq r (event ∷ events) over = let e : (r.protocol_tasks == 0) ≡ true = ground arith in simp e

no_events : (r : Root) → run_managed_packet_io r [] ≡ r
unfolding run_managed_packet_io
no_events r = refl

round-eq :
    (r : Root) (event : Event) (events : List Event) (tasks : ℕ)
    → r.protocol_tasks ≡ suc tasks
    → run_managed_packet_io r (event ∷ events) ≡ run_managed_packet_io (join_round r event) events
unfolding run_managed_packet_io
round-eq r event events tasks some_left =
    let e : (r.protocol_tasks == 0) ≡ false = ground arith in simp e

-- The report has what the joins told, and the tasks that were not joined are left.
pub record Joins (f : Field) (r : Root) (tasks : ℕ) (events : List Event) (after : Root)
    : Type 0 where
  pub all_told : told_by_tasks f after.report ≡ told_by_tasks f r.report + joined_due f tasks events
  pub left : after.protocol_tasks ≡ tasks - joins events

cancel_round-same :
    (f : Field) (r : Root)
    → (told_by_tasks f (join_round r external_cancelled).report ≡ told_by_tasks f r.report)
      × ((join_round r external_cancelled).protocol_tasks ≡ r.protocol_tasks)
unfolding join_round
cancel_round-same f r =
    if_intro r.watch_external_cancel
      (λ (x : Root).
        (told_by_tasks f x.report ≡ told_by_tasks f r.report)
        × (x.protocol_tasks ≡ r.protocol_tasks))
      (refl, refl) (refl, refl)

run-Joins :
    (f : Field) (r : Root) (tasks : ℕ) (events : List Event)
    → r.protocol_tasks ≡ tasks
    → told_by_tasks f r.report + joined_due f tasks events < 2 ^ 64
    → Joins f r tasks events (run_managed_packet_io r events)
unfolding joined_due joins join_round
run-Joins f r zero events at small =
    subst (Joins f r zero events) (sym (over-eq r events at))
      (record { all_told = omega arith; left = omega arith })
run-Joins f r (suc tasks) [] at small =
    let e : run_managed_packet_io r [] ≡ r = no_events r in
    subst (Joins f r (suc tasks) []) (sym e) (record { all_told = omega arith; left = omega arith })
run-Joins f r (suc tasks) (external_cancelled ∷ events) at small =
    let (same_told, same_tasks) = cancel_round-same f r in
    let after =
      run-Joins f (join_round r external_cancelled) (suc tasks) events (same_tasks ∙ at)
        (omega arith) in
    let all_told = after.all_told in
    subst (Joins f r (suc tasks) (external_cancelled ∷ events))
      (sym (round-eq r external_cancelled events tasks at))
      (record { all_told = omega arith; left = after.left })
run-Joins f r (suc tasks) (joined result ∷ events) at small =
    let next = join_round r (joined result) in
    let one = record_protocol_join-told f r.report result (omega arith) in
    let after = run-Joins f next tasks events (omega arith) (omega arith) in
    let all_told = after.all_told in
    let left = after.left in
    subst (Joins f r (suc tasks) (joined result ∷ events))
      (sym (round-eq r (joined result) events tasks at))
      (record { all_told = omega arith; left = omega arith })

start-tasks :
    (tcp_listener udp_socket : Bool)
    → (start tcp_listener udp_socket).protocol_tasks ≡ spawned tcp_listener udp_socket
unfolding start spawned count_completed
start-tasks false false = refl
start-tasks false true = refl
start-tasks true false = refl
start-tasks true true = refl

-- From its start on, with a listener, a socket, both or none, and with the cancellation from outside
-- at any point, each count of the root task's report (completed, cancelled, failed, panicked and
-- remaining) grows by what its protocol tasks tell, a join without a result included, if the count
-- stays below 2^64; and as many tasks are left as have not been joined, so that it ends
-- after the last one.
pub run_managed_packet_io-Joins :
    (f : Field) (tcp_listener udp_socket : Bool) (events : List Event)
    → let r = start tcp_listener udp_socket in
      let tasks = spawned tcp_listener udp_socket in
      told_by_tasks f r.report + joined_due f tasks events < 2 ^ 64
      → Joins f r tasks events (run_managed_packet_io r events)
run_managed_packet_io-Joins f tcp_listener udp_socket events small =
    run-Joins f (start tcp_listener udp_socket) (spawned tcp_listener udp_socket) events
      (start-tasks tcp_listener udp_socket) small
