-- ===== src/Postgres/Stored.antt =====
-- What the methods of repository.go share: the user of a row, and `isConstraint`.
use Prim.Native.String.{String}
use text.Mathlib.Text.{◌==◌}
use family_tree_identity_mic.Shared.{Bool, true, false, Text, if◌then◌else◌}
use family_tree_identity_mic.Domain.Errors.{
  DriverError, Error, driver, sentinel, policy, foreign, wrap, Result, ok, err,
}
use family_tree_identity_mic.Domain.Email.{TextLibrary, Email, new_email}
use family_tree_identity_mic.Domain.User.{User}
use family_tree_identity_mic.Postgres.Tables.{UserRow}
use family_tree_identity_mic.Postgres.Connection.{Action, wrapping, raise}

-- The fields that `Scan` fills, with the address that was read.
abbrev pub user_of : UserRow → Email → User
user_of row email = record {
  id = row.id;
  email = email;
  display_name = row.display_name;
  status = row.status;
  email_verified_at = row.email_verified_at;
  created_at = row.created_at;
  updated_at = row.updated_at;
  deleted_at = row.deleted_at;
  version = row.version;
}

-- A result of code that does not touch the database.
abbrev pub lift : {A : Type 0} → Result A → Action A
lift r c = (r, c)

-- `domain.NewEmail(emailText)`, a failure being wrapped.
unfoldable pub read_email : TextLibrary → Text → Action Email
read_email lib text = wrapping "read stored email" (lift (new_email lib text))

-- `isConstraint`: whether a violation of a unique constraint is behind the error, by its name.
unfoldable pub is_constraint : Error → String → Bool
is_constraint (driver (DriverError.unique_violation name)) constraint = name == constraint
is_constraint (driver (DriverError.check_violation name)) constraint = false
is_constraint (driver (DriverError.foreign_key_violation name)) constraint = false
is_constraint (driver DriverError.out_of_range) constraint = false
is_constraint (driver DriverError.invalid_text) constraint = false
is_constraint (driver DriverError.no_rows) constraint = false
is_constraint (driver DriverError.disconnected) constraint = false
is_constraint (wrap s e) constraint = is_constraint e constraint
is_constraint (sentinel e) constraint = false
is_constraint policy constraint = false
is_constraint (foreign s) constraint = false

-- `errors.Is(err, pgx.ErrNoRows)`.
unfoldable pub is_no_rows : Error → Bool
is_no_rows (driver DriverError.no_rows) = true
is_no_rows (driver (DriverError.unique_violation name)) = false
is_no_rows (driver (DriverError.check_violation name)) = false
is_no_rows (driver (DriverError.foreign_key_violation name)) = false
is_no_rows (driver DriverError.out_of_range) = false
is_no_rows (driver DriverError.invalid_text) = false
is_no_rows (driver DriverError.disconnected) = false
is_no_rows (wrap s e) = is_no_rows e
is_no_rows (sentinel e) = false
is_no_rows policy = false
is_no_rows (foreign s) = false

-- The code behind a `QueryRow`: what it does with no row, how it wraps any other error, and what
-- it does with the row.
abbrev pub on_row : {A B : Type 0} → Action B → String → (A → Action B) → Result A → Action B
on_row absent context use_row (ok row) = use_row row
on_row absent context use_row (err e) = if is_no_rows e then absent else raise (wrap context e)
