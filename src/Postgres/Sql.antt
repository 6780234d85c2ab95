-- ===== src/Postgres/Sql.antt =====
-- What the statements take from PostgreSQL: its functions on texts, and the ways to fail.
use family_tree_identity_mic.Shared.{Bool, Option, none, some, Text, if◌then◌else◌, is_empty}
use family_tree_identity_mic.Domain.Errors.{DriverError}
use family_tree_identity_mic.Postgres.Connection.{Sql, done, failed}

-- `lower(text)`; the cast of a text to `inet`, `none` for an error, in the form that is kept; and
-- the cast of such a value back to text.
pub record SqlLibrary : Type 0 where
  pub lower : Text → Text
  pub parse_inet : Text → Option Text
  pub inet_text : Text → Text

-- A condition that the server tests before the statement takes effect.
abbrev pub requires : {A : Type 0} → Bool → DriverError → Sql A → Sql A
requires test e statement db = if test then statement db else failed e

-- The row of a `QueryRow`, or `pgx.ErrNoRows`.
abbrev pub query_row : {A : Type 0} → Option A → Sql A
query_row none db = failed DriverError.no_rows
query_row (some row) db = done row db

module _ (sql : SqlLibrary) where
  -- `NULLIF($n, '')::inet`.
  unfoldable pub nullable_inet : {A : Type 0} → Text → (Option Text → Sql A) → Sql A
  nullable_inet s statement db = if is_empty s then statement none db else elim (sql.parse_inet s) [
    | none ↦ failed DriverError.invalid_text
    | some address ↦ statement (some address) db
  ]
