-- ===== src/Migration.antt =====
-- base_db/src/migration.rs: the schema migrations, each in a transaction of its own.
use pigs.Prelude.{
  ℕ, Bool, true, false, Option, none, some, List, [], ◌∷◌, ◌==◌, if◌then◌else◌, lookup, put,
}
pub mod Runs
mod Tests

-- Versions, names and texts of SQL are numbers.
pub record Migration : Type 0 where
  pub version : ℕ
  pub name : ℕ
  pub sql : ℕ

pub data DatabaseError : Type 0 where
  sqlx : DatabaseError
  migration_conflict : (version expected actual : ℕ) → DatabaseError

-- The table of applied migrations, and the rest of the database.
pub record Database (S : Type 0) : Type 0 where
  pub applied : List (ℕ × ℕ)
  pub schema : S

-- `none` is `Ok(())`.
unfoldable pub ensure_migration_matches : Migration → ℕ → Option DatabaseError
ensure_migration_matches m existing =
    if existing == m.name then none else some (migration_conflict m.version existing m.name)

module _ {S : Type 0} where
  -- The rows to insert go with the new schema into one transaction.
  unfoldable pub apply_migration :
      Database S → Migration → Option S → Option DatabaseError × Database S
  apply_migration db m none = (some sqlx, db)
  apply_migration db m (some schema) =
      (none, record { applied = put db.applied m.version m.name; schema = schema })

  unfoldable pub continue :
      Option DatabaseError × Database S
      → (Database S → Option DatabaseError × Database S)
      → Option DatabaseError × Database S
  continue (some error, db) rest = (some error, db)
  continue (none, db) rest = rest db

-- The execution of a text of SQL in the database; `none` is an error, and rolls back.
module _ {S : Type 0} (raw_sql : ℕ → S → Option S) where
  -- One round, once the name under the version is read.
  unfoldable pub migrate : Database S → Migration → Option ℕ → Option DatabaseError × Database S
  migrate db m (some existing) = (ensure_migration_matches m existing, db)
  migrate db m none = apply_migration db m (raw_sql m.sql db.schema)

  unfoldable pub run_migrations : Database S → List Migration → Option DatabaseError × Database S
  run_migrations db [] = (none, db)
  run_migrations db (m ∷ migrations) =
      continue (migrate db m (lookup db.applied m.version)) (λ next. run_migrations next migrations)
