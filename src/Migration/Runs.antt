-- ===== src/Migration/Runs.antt =====
-- base_db/src/migration.rs: what a run of the migrations leaves, and that a second run changes nothing.
use pigs.Prelude.{
  ℕ, true, Option, none, some, List, [], ◌∷◌, ◌==◌, lookup, lookup-put, All, ◌≡◌, refl, sym, ap,
  ◌∙◌, subst, arith,
}
use pigs.Migration.{
  Migration, DatabaseError, Database, ensure_migration_matches, apply_migration, continue, migrate,
  run_migrations,
}

module _ {S : Type 0} where
  -- The migration is in the table under its own name.
  abbrev pub IsApplied : Database S → Migration → Type 0
  IsApplied db m = lookup db.applied m.version ≡ some m.name

module _ {S : Type 0} (raw_sql : ℕ → S → Option S) where
  -- One round keeps what is in the table, and without an error its migration is in it.
  record Round (db : Database S) (m : Migration) (r : Option DatabaseError × Database S)
      : Type 0 where
    keeps : (v n : ℕ) → lookup db.applied v ≡ some n → lookup r.1.applied v ≡ some n
    applies : r.0 ≡ none → IsApplied r.1 m

  apply_migration-Round :
      (db : Database S) (m : Migration) (o : Option S)
      → lookup db.applied m.version ≡ none
      → Round db m (apply_migration db m o)
  unfolding apply_migration
  apply_migration-Round db m none absent = record {
    keeps = λ v n e. e;
    applies = λ e. ground arith;
  }
  apply_migration-Round db m (some schema) absent = record {
    keeps = λ v n e. ground (arith, lookup-put db.applied m.version v m.name);
    applies = λ e. ground (arith, lookup-put db.applied m.version m.version m.name);
  }

  migrate-Round :
      (db : Database S) (m : Migration) (o : Option ℕ)
      → lookup db.applied m.version ≡ o
      → Round db m (migrate raw_sql db m o)
  unfolding migrate ensure_migration_matches
  migrate-Round db m none found = apply_migration-Round db m (raw_sql m.sql db.schema) found
  migrate-Round db m (some existing) found = record {
    keeps = λ v n e. e;
    applies = λ e. let same : existing ≡ m.name = ground arith in found ∙ ap some same;
  }

  -- A run keeps what is in the table, and without an error all its migrations are in it.
  record Run (db : Database S) (ms : List Migration) (r : Option DatabaseError × Database S)
      : Type 0 where
    keeps : (v n : ℕ) → lookup db.applied v ≡ some n → lookup r.1.applied v ≡ some n
    applies : r.0 ≡ none → All (IsApplied r.1) ms

  continue-Run :
      (db : Database S) (m : Migration) (ms : List Migration)
      (r : Option DatabaseError × Database S)
      (rest : Database S → Option DatabaseError × Database S)
      → Round db m r
      → ((next : Database S) → Run next ms (rest next))
      → Run db (m ∷ ms) (continue r rest)
  unfolding continue
  continue-Run db m ms (some error, next) rest one more = record {
    keeps = one.keeps;
    applies = λ e. absurd (ground arith);
  }
  continue-Run db m ms (none, next) rest one more = record {
    keeps = λ v n e. (more next).keeps v n (one.keeps v n e);
    applies = λ e. ((more next).keeps m.version m.name (one.applies refl), (more next).applies e);
  }

  run_migrations-Run :
      (db : Database S) (ms : List Migration) → Run db ms (run_migrations raw_sql db ms)
  unfolding run_migrations
  run_migrations-Run db [] = record { keeps = λ v n e. e; applies = λ e. _ }
  run_migrations-Run db (m ∷ ms) =
      continue-Run db m ms _ _ (migrate-Round db m (lookup db.applied m.version) refl)
        (λ next. run_migrations-Run next ms)

  run_applied :
      (db : Database S) (ms : List Migration)
      → All (IsApplied db) ms
      → run_migrations raw_sql db ms ≡ (none, db)
  unfolding run_migrations continue migrate ensure_migration_matches
  run_applied db [] h = refl
  run_applied db (m ∷ ms) h =
      let self : (m.name == m.name) ≡ true = ground arith in
      subst
        (λ o.
          continue (migrate raw_sql db m o) (λ next. run_migrations raw_sql next ms) ≡ (none, db))
        (sym h.0) (rw self (run_applied db ms h.1))

  -- After a run without an error every migration is in the table under its own name, what was there
  -- before is still there, and a second run succeeds and changes nothing.
  pub run-run :
      (db : Database S) (ms : List Migration)
      → (run_migrations raw_sql db ms).0 ≡ none
      → let after = (run_migrations raw_sql db ms).1 in
        All (IsApplied after) ms
        × ((v n : ℕ) → lookup db.applied v ≡ some n → lookup after.applied v ≡ some n)
        × (run_migrations raw_sql after ms ≡ (none, after))
  run-run db ms ok =
      let run = run_migrations-Run db ms in
      (run.applies ok, run.keeps, run_applied _ ms (run.applies ok))
