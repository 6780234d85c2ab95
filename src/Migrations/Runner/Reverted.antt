-- ===== src/Migrations/Runner/Reverted.antt =====
-- What `Down` does to the database, against a plain description of it.
use family_tree_identity_mic.Shared.{ℕ, ◌≡◌, some, none, List, [], ◌∷◌, not, find, select, ◌==◌}
use family_tree_identity_mic.Domain.Errors.{Result, ok, err}
use family_tree_identity_mic.Postgres.Connection.{Network}
use family_tree_identity_mic.Security.Base64.{Bytes}
use family_tree_identity_mic.Migrations.Loader.{Migration}
use family_tree_identity_mic.Migrations.Runner.{
  AppliedMigration, Runner, Database, is_version_of, sort_by, descending, validate_applied, take,
}

module _ {S : Type 0} (execute : Bytes → S → Result S) where
  -- The texts that undo the rows' migrations are executed in order, and each row is removed.
  unfoldable pub revert : List Migration → List AppliedMigration → Database S → Result (Database S)
  revert ms [] db = ok db
  revert ms (row ∷ rows) db = elim (find (is_version_of row.version) ms) [
    | none ↦ revert ms rows db
    | some m ↦ elim (execute m.down_sql db.objects) [
      | err e ↦ err e
      | ok objects ↦
          revert ms rows (record {
            objects = objects;
            rows = select (λ r. not (r.version == m.version)) db.rows;
          })
    ]
  ]

  module _ (net : Network) where
    abbrev without : Migration → Database S → Database S
    without m db = record db { rows = select (λ r. not (r.version == m.version)) db.rows }

    abbrev Reverts : Runner → ℕ → Database S → Database S → List AppliedMigration → Type 0
    Reverts runner n db db' applied =
        (validate_applied runner.migrations applied ≡ ok tt)
        × (revert runner.migrations (take n (sort_by descending applied)) db ≡ ok db')
