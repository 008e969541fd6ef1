-- ===== src/Migration/Tests.antt =====
-- base_db/src/migration.rs: runs on small inputs.
use pigs.Prelude.{
  ℕ, ◌+◌, Option, none, some, List, [], ◌∷◌, ◌==◌, if◌then◌else◌, lookup, All, ◌≡◌, refl,
}
use pigs.Migration.{
  Migration, migration_conflict, Database, ensure_migration_matches, apply_migration, continue,
  migrate, run_migrations,
}
use pigs.Migration.Runs.{IsApplied, run-run}

program : Unit {0}
unfolding ensure_migration_matches apply_migration continue migrate run_migrations
program = _

-- A schema that adds the texts up and refuses the text 0.
abbrev raw_sql : ℕ → ℕ → Option ℕ
raw_sql sql schema = if sql == 0 then none else some (schema + sql)

abbrev empty : Database ℕ
empty = record { applied = []; schema = 0 }

abbrev two : List Migration
two = record { version = 1; name = 10; sql = 5 } ∷ record { version = 2; name = 20; sql = 6 } ∷ []

both : (run_migrations raw_sql empty two).1.schema ≡ 11
unfolding program
both = refl

conflict :
    (run_migrations raw_sql
      (run_migrations raw_sql empty two).1
      (record { version = 2; name = 21; sql = 6 } ∷ [])).0
    ≡ some (migration_conflict 2 20 21)
unfolding program
conflict = refl

two_succeed : (run_migrations raw_sql empty two).0 ≡ none
unfolding program
two_succeed = refl

run-run_example :
    All (IsApplied (run_migrations raw_sql empty two).1) two
    × ((v n : ℕ)
        → lookup empty.applied v ≡ some n
        → lookup (run_migrations raw_sql empty two).1.applied v ≡ some n)
    × (run_migrations raw_sql (run_migrations raw_sql empty two).1 two
        ≡ (none, (run_migrations raw_sql empty two).1))
run-run_example = run-run raw_sql empty two two_succeed
