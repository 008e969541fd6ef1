-- ===== src/Managed/Endpoint/Closing.antt =====
-- base/src/net/rw.rs: the closing of connections and of the endpoint comes to an end, once.
use pigs.Prelude.{
  ℕ, true, false, not, update-same, ◌≡◌, refl, sym, ap, ◌∙◌, subst, Bool-cases, inl, inr,
}
use pigs.Managed.Report.{NetworkCloseReport, close_report_result}
use pigs.Managed.Endpoint.{
  Connection, Endpoint, set_connection, hand_over, finalize_owner, awaited, close_connection,
}

-- The connection has been closed, and its endpoint told.
record IsSettled (c : Connection) : Type 0 where
  pub over : c.completed ≡ true
  pub let_go : c.owner_registered ≡ false

hand_over-IsSettled :
    (e : Endpoint) (id : ℕ) (r : NetworkCloseReport)
    → (e.connections id).completed ≡ true
    → IsSettled ((hand_over e id r).connections id)
unfolding hand_over
hand_over-IsSettled e id r over =
    let same =
      update-same e.connections id (record (e.connections id) { owner_registered = false }) in
    subst IsSettled (sym same) (record { over = over; let_go = refl })

finalize-IsSettled :
    (e : Endpoint) (id : ℕ) (r : NetworkCloseReport)
    → (e.connections id).completed ≡ true
    → IsSettled ((finalize_owner e id r).connections id)
unfolding finalize_owner
finalize-IsSettled e id r over = elim (Bool-cases ((e.connections id).owner_registered)) [
  | inl registered ↦
      let eq : finalize_owner e id r ≡ hand_over e id r = simp registered in
      subst (λ x. IsSettled (x.connections id)) (sym eq) (hand_over-IsSettled e id r over)
  | inr free ↦
      let eq : finalize_owner e id r ≡ e = simp free in
      subst (λ x. IsSettled (x.connections id)) (sym eq) (record { over = over; let_go = free })
]

pub close_again :
    (e : Endpoint) (id : ℕ)
    → (e.connections id).completed ≡ true
    → close_connection e id ≡ (
      close_report_result (e.connections id).report false,
      finalize_owner e id (e.connections id).report,
    )
unfolding close_connection
close_again e id over = simp over

pub close_first :
    (e : Endpoint) (id : ℕ)
    → (e.connections id).completed ≡ false
    → close_connection e id ≡ (
      close_report_result
          (awaited (e.connections id)).report
          (not (e.connections id).failure_logged),
      finalize_owner
          (set_connection e id (awaited (e.connections id)))
          id
          (awaited (e.connections id)).report,
    )
unfolding close_connection
close_first e id fresh = simp fresh

close_connection-IsSettled :
    (e : Endpoint) (id : ℕ) → IsSettled ((close_connection e id).1.connections id)
unfolding set_connection awaited
close_connection-IsSettled e id = elim (Bool-cases ((e.connections id).completed)) [
  | inl over ↦
      subst (λ p. IsSettled (p.1.connections id)) (sym (close_again e id over))
        (finalize-IsSettled e id (e.connections id).report over)
  | inr fresh ↦
      let c = awaited (e.connections id) in
      let e1 = set_connection e id c in
      let same = update-same e.connections id c in
      subst (λ p. IsSettled (p.1.connections id)) (sym (close_first e id fresh))
        (finalize-IsSettled e1 id c.report (ap (λ x. x.completed) same))
]

settled-again :
    (e : Endpoint) (id : ℕ)
    → IsSettled (e.connections id)
    → close_connection e id ≡ (close_report_result (e.connections id).report false, e)
unfolding finalize_owner
settled-again e id h =
    let free = h.let_go in
    let eq : finalize_owner e id (e.connections id).report ≡ e = simp free in
    close_again e id h.over ∙ ap (λ x. (close_report_result (e.connections id).report false, x)) eq

-- A second closing of a connection tells the report that the first one left, does not ask for its
-- failure to be logged again, and changes nothing: the endpoint is told of it once.
pub close_connection-again :
    (e : Endpoint) (id : ℕ)
    → let first = (close_connection e id).1 in
      close_connection first id ≡ (close_report_result (first.connections id).report false, first)
close_connection-again e id =
    settled-again (close_connection e id).1 id (close_connection-IsSettled e id)
