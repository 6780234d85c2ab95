-- ===== src/Migrations/Runner.antt =====
-- migrations/runner.go. `S` is the database apart from the table schema_migrations, and `execute` is
-- what a migration's text does to it, or the server's error; no migration of the
-- repository names schema_migrations. A table that is not there yet is one without rows. Every call is
-- a round trip, whose reply is that of its number.
pub mod Transaction
pub mod Applied
pub mod Again
pub mod Reverted
use mathlib.Core.Option
use family_tree_identity_mic.Shared.{
  ℕ, ◌+◌, suc, Bool, Bool-cases, true, false, not, ◌&&◌, ◌||◌, Option, none, some, List, [], ◌∷◌,
  Text, ltb, leb, ◌==◌, same, any, find, select, String, if◌then◌else◌, zero, ℤ, pos, negsuc,
}
use family_tree_identity_mic.Domain.Errors.{
  DriverError, Error, driver, foreign, wrap, Result, ok, err,
}
use family_tree_identity_mic.Postgres.Connection.{Reply, answered, refused, lost, Network}
use family_tree_identity_mic.Security.Base64.{Bytes}
use family_tree_identity_mic.Migrations.Loader.{Migration, Entry, load}

pub record AppliedMigration : Type 0 where
  pub version : ℕ
  pub name : Text
  pub checksum : Text

pub record Runner : Type 0 where
  pub migrations : List Migration

unfoldable pub runner_of : Result (List Migration) → Result Runner
runner_of (ok ms) = ok (record { migrations = ms })
runner_of (err e) = err e

-- `newRunner`.
unfoldable pub new_runner : (Bytes → Bytes) → Result (List Entry) → Result Runner
new_runner sha256 files = runner_of (load sha256 files)

pub record Database (S : Type 0) : Type 0 where
  pub objects : S
  pub rows : List AppliedMigration

abbrev pub has_version : ℕ → AppliedMigration → Bool
has_version version row = row.version == version

abbrev pub is_version_of : ℕ → Migration → Bool
is_version_of version m = m.version == version

abbrev pub row_of : Migration → AppliedMigration
row_of m = record { version = m.version; name = m.name; checksum = m.checksum }

unfoldable pub insert_by :
    (AppliedMigration → AppliedMigration → Bool)
    → AppliedMigration
    → List AppliedMigration
    → List AppliedMigration
insert_by before row [] = row ∷ []
insert_by before row (r ∷ rows) =
    let rest = insert_by before row rows in if before row r then row ∷ r ∷ rows else r ∷ rest

-- `ORDER BY version` and `sort.Slice`.
unfoldable pub sort_by :
    (AppliedMigration → AppliedMigration → Bool) → List AppliedMigration → List AppliedMigration
sort_by before [] = []
sort_by before (row ∷ rows) = insert_by before row (sort_by before rows)

abbrev pub ascending : AppliedMigration → AppliedMigration → Bool
ascending r r' = ltb r.version r'.version

abbrev pub descending : AppliedMigration → AppliedMigration → Bool
descending r r' = ltb r'.version r.version

abbrev pub greater : ℕ → ℕ → ℕ
greater m n = if ltb m n then n else m

-- `COALESCE(MAX(version), 0)`.
unfoldable pub max_version : List AppliedMigration → ℕ
max_version [] = 0
max_version (row ∷ rows) = greater row.version (max_version rows)

-- Lines 282 to 296, for one row.
unfoldable pub validate_row : Option Migration → AppliedMigration → Result (Unit {0})
validate_row none row = err (foreign "database contains unknown migration version")
validate_row (some m) row =
    if not (same m.name row.name) || not (same m.checksum row.checksum)
    then err (foreign "applied migration differs from embedded migration")
    else ok tt

unfoldable pub validate_applied : List Migration → List AppliedMigration → Result (Unit {0})
validate_applied ms [] = ok tt
validate_applied ms (row ∷ rows) = elim (validate_row (find (is_version_of row.version) ms) row) [
  | err e ↦ err e
  | ok _ ↦ validate_applied ms rows
]

unfoldable pub take : {A : Type 0} → ℕ → List A → List A
take zero xs = []
take (suc n) [] = []
take (suc n) (x ∷ xs) = x ∷ take n xs

-- The committed database, the copy that the open transaction works on, and the number of calls so far.
pub record Session (S : Type 0) : Type 0 where
  pub stored : Database S
  pub working : Database S
  pub trip : ℕ

abbrev pub Action : Type 0 → Type 0 → Type 0
Action S A = Session S → Result A × Session S

unfoldable pub next :
    {S A B : Type 0} → Result A × Session S → (A → Action S B) → Result B × Session S
next (ok a, s) f = f a s
next (err e, s) f = (err e, s)

infixl 5 ◌>>=◌ ◌>>◌
abbrev pub ◌>>=◌ : {S A B : Type 0} → Action S A → (A → Action S B) → Action S B
◌>>=◌ m f s = next (m s) f

abbrev pub ◌>>◌ : {S A B : Type 0} → Action S A → Action S B → Action S B
m >> k = m >>= λ _. k

abbrev pub pure : {S A : Type 0} → A → Action S A
pure a s = (ok a, s)

-- A check that makes no call.
abbrev pub lift : {S A : Type 0} → Result A → Action S A
lift r s = (r, s)

unfoldable pub with_objects : {S : Type 0} → Database S → Result S → Result (Database S)
with_objects db (err e) = err e
with_objects db (ok objects) = ok (record db { objects = objects })

abbrev pub exec_text :
    {S : Type 0} → (Bytes → S → Result S) → Bytes → Database S → Result (Database S)
exec_text execute text db = with_objects db (execute text db.objects)

-- The version is the primary key.
unfoldable pub insert_row : {S : Type 0} → Migration → Database S → Result (Database S)
insert_row m db =
    if any (has_version m.version) db.rows
    then err (driver (DriverError.unique_violation "schema_migrations_pkey"))
    else ok (record db { rows = row_of m ∷ db.rows })

abbrev pub delete_row : {S : Type 0} → Migration → Database S → Result (Database S)
delete_row m db = ok (record db { rows = select (λ row. not (row.version == m.version)) db.rows })

module _ {S : Type 0} (net : Network) where
  abbrev pub reply : Session S → Reply
  reply s = net s.trip

  unfoldable pub begin : Action S (Unit {0})
  begin s = elim (reply s) [
    | answered ↦ (ok tt, record s { working = s.stored; trip = suc s.trip })
    | refused ↦ (err (wrap "begin migration transaction" (driver DriverError.disconnected)), s)
    | lost ↦ (err (wrap "begin migration transaction" (driver DriverError.disconnected)), s)
  ]

  unfoldable pub commit : Action S (Unit {0})
  commit s = elim (reply s) [
    | answered ↦ (ok tt, record s { stored = s.working; trip = suc s.trip })
    | refused ↦ (err (wrap "commit migration transaction" (driver DriverError.disconnected)), s)
    | lost ↦ (
      err (wrap "commit migration transaction" (driver DriverError.disconnected)),
      record s { stored = s.working },
    )
  ]

  unfoldable pub executed : String → Result (Database S) → Session S → Result (Unit {0}) × Session S
  executed text (err e) s = (err (wrap text e), s)
  executed text (ok db) s = (ok tt, record s { working = db; trip = suc s.trip })

  -- `tx.Exec`, with the context that its error is wrapped in.
  unfoldable pub tx_exec : String → (Database S → Result (Database S)) → Action S (Unit {0})
  tx_exec text statement s = elim (reply s) [
    | answered ↦ executed text (statement s.working) s
    | refused ↦ (err (wrap text (driver DriverError.disconnected)), s)
    | lost ↦ (err (wrap text (driver DriverError.disconnected)), s)
  ]

  -- `tx.QueryRow`.
  unfoldable pub tx_query : {A : Type 0} → (Database S → A) → Action S A
  tx_query query s = elim (reply s) [
    | answered ↦ (ok (query s.working), record s { trip = suc s.trip })
    | refused ↦ (err (driver DriverError.disconnected), s)
    | lost ↦ (err (driver DriverError.disconnected), s)
  ]

  -- `loadAppliedMigrations`: the connection may also break while the rows are read.
  unfoldable pub load_applied : Action S (List AppliedMigration)
  load_applied s = elim (reply s) [
    | answered ↦ (ok (sort_by ascending s.working.rows), record s { trip = suc s.trip })
    | refused ↦ (err (wrap "query applied migrations" (driver DriverError.disconnected)), s)
    | lost ↦ (err (wrap "iterate applied migrations" (driver DriverError.disconnected)), s)
  ]

  -- `inLockedTransaction`: what is not committed is rolled back.
  unfoldable pub in_locked_transaction : {A : Type 0} → Action S A → Action S A
  in_locked_transaction operation = do
    begin
    tx_exec "acquire migration advisory lock" ok
    tx_exec "ensure schema_migrations table" ok
    a ← operation
    commit
    pure a

  abbrev pub run : {A : Type 0} → Action S A → Database S → Result A × Database S
  run m db = let (r, s) = m (record { stored = db; working = db; trip = 0 }) in (r, s.stored)

  -- `CurrentVersion`.
  unfoldable pub current_version : Database S → Result ℕ × Database S
  current_version = run (in_locked_transaction (tx_query (λ db. max_version db.rows)))

  module _ (execute : Bytes → S → Result S) where
    -- Lines 70 to 96: the migrations that the table does not have.
    unfoldable pub apply_pending :
        List AppliedMigration → List Migration → Action S (List Migration)
    apply_pending applied [] = pure []
    apply_pending applied (m ∷ ms) =
        let rest = apply_pending applied ms in
        if any (has_version m.version) applied then rest else (do
          tx_exec "apply migration" (exec_text execute m.up_sql)
          tx_exec "record migration" (insert_row m)
          now ← rest
          pure (m ∷ now))

    unfoldable pub apply_all : Runner → Action S (List Migration)
    apply_all runner = do
      applied ← load_applied
      lift (validate_applied runner.migrations applied)
      apply_pending applied runner.migrations

    -- `Up`, with the migrations that it logs as applied.
    unfoldable pub up : Runner → Database S → Result (List Migration) × Database S
    up runner = run (in_locked_transaction (apply_all runner))

    -- Lines 144 to 164; every row has passed `validateApplied`, so that its migration is found.
    unfoldable pub roll_back : List Migration → List AppliedMigration → Action S (List Migration)
    roll_back ms [] = pure []
    roll_back ms (row ∷ rows) =
        let rest = roll_back ms rows in
        elim (find (is_version_of row.version) ms) [
          | none ↦ rest
          | some m ↦ (do
            tx_exec "rollback migration" (exec_text execute m.down_sql)
            tx_exec "remove migration record" (delete_row m)
            now ← rest
            pure (m ∷ now))
        ]

    unfoldable pub roll_back_last : Runner → ℕ → Action S (List Migration)
    roll_back_last runner steps = do
      applied ← load_applied
      lift (validate_applied runner.migrations applied)
      roll_back runner.migrations (take steps (sort_by descending applied))

    -- `Down`, with the migrations that it logs as rolled back.
    unfoldable pub down : Runner → ℤ → Database S → Result (List Migration) × Database S
    down runner (negsuc n) db = (err (foreign "migration down steps must be positive"), db)
    down runner (pos zero) db = (err (foreign "migration down steps must be positive"), db)
    down runner (pos (suc n)) db = run (in_locked_transaction (roll_back_last runner (suc n))) db
