-- ===== src/Postgres/Registration.antt =====
-- `CreateRegistration` and `VerifyEmail` of repository.go.
use family_tree_identity_mic.Shared.{◌+◌, not, none, some, ltb, is_some, if◌then◌else◌, Text}
use family_tree_identity_mic.Domain.Errors.{DomainError, wrap, Result, ok, err}
use family_tree_identity_mic.Domain.Email.{TextLibrary, Email}
use family_tree_identity_mic.Domain.User.{User, UserStatus, Time}
use family_tree_identity_mic.Ports.{RegistrationRecord, Done}
use family_tree_identity_mic.Postgres.Tables.{Db, UserRow, CredentialRow, TokenRow, Purpose}
use family_tree_identity_mic.Postgres.Connection.{
  Network, Action, pure, raise, raise_domain, wrapping, try, tx_exec, begin, commit, ◌>>=◌, ◌>>◌,
  run,
}
use family_tree_identity_mic.Postgres.Sql.{SqlLibrary}
use family_tree_identity_mic.Postgres.Inserts.{insert_user, insert_credential, insert_token}
use family_tree_identity_mic.Postgres.Selects.{select_verification}
use family_tree_identity_mic.Postgres.Updates.{activate_user, mark_token_used}
use family_tree_identity_mic.Postgres.Stored.{read_email, is_constraint, on_row}

-- The parameters of the three INSERTs; columns that they do not name take their defaults.
abbrev pub registered_user : RegistrationRecord → UserRow
registered_user r = record {
  id = r.user.id;
  email = r.user.email.value;
  normalized_email = r.user.email.normalized;
  display_name = r.user.display_name;
  status = r.user.status;
  email_verified_at = none;
  created_at = r.user.created_at;
  updated_at = r.user.updated_at;
  deleted_at = none;
  version = r.user.version;
}

abbrev pub registered_credential : RegistrationRecord → CredentialRow
registered_credential r = record {
  user_id = r.user.id;
  password_hash = r.password_hash;
  password_changed_at = r.user.created_at;
  failed_login_count = 0;
  locked_until = none;
  created_at = r.user.created_at;
  updated_at = r.user.created_at;
}

abbrev pub registered_token : RegistrationRecord → TokenRow
registered_token r = record {
  id = r.verification_token_id;
  user_id = r.user.id;
  purpose = Purpose.verify_email;
  token_hash = r.verification_token_hash;
  expires_at = r.verification_expires_at;
  used_at = none;
  created_at = r.user.created_at;
}

-- Lines 54 to 59.
unfoldable pub user_inserted : Result Done → Action Done
user_inserted (ok x) = pure tt
user_inserted (err e) =
    if is_constraint e "users_normalized_email_active_uq"
    then raise_domain DomainError.email_already_exists
    else raise (wrap "insert user" e)

unfoldable pub create_registration :
    SqlLibrary → Network → RegistrationRecord → Db → Result Done × Db
create_registration sql net r = run (do
  wrapping "begin registration transaction" (begin (net 0))
  inserted ← try (tx_exec (net 1) (insert_user sql (registered_user r)))
  user_inserted inserted
  wrapping "insert user credentials" (tx_exec (net 2) (insert_credential (registered_credential r)))
  wrapping "insert verification token" (tx_exec (net 3) (insert_token (registered_token r)))
  wrapping "commit registration transaction" (commit (net 4)))

-- The user that is returned, lines 189 to 199.
abbrev pub verified_user : UserRow → Email → Time → User
verified_user u email now = record {
  id = u.id;
  email = email;
  display_name = u.display_name;
  status = UserStatus.active;
  email_verified_at = some now;
  created_at = u.created_at;
  updated_at = now;
  deleted_at = u.deleted_at;
  version = u.version + 1;
}

-- Lines 154 to 199, on the row that was selected.
unfoldable pub verify_selected : TextLibrary → Network → Time → TokenRow × UserRow → Action User
verify_selected lib net now (t, u) =
    if is_some t.used_at
    then raise_domain DomainError.verification_token_used
    else if not (ltb now t.expires_at)
    then raise_domain DomainError.verification_token_expired
    else (do
      wrapping "activate user" (tx_exec (net 2) (activate_user u.id now))
      wrapping "mark verification token used" (tx_exec (net 3) (mark_token_used t.id now))
      wrapping "commit email verification transaction" (commit (net 4))
      email ← read_email lib u.email
      pure (verified_user u email now))

unfoldable pub verify_email : TextLibrary → Network → Text → Time → Db → Result User × Db
verify_email lib net token_hash now = run (do
  wrapping "begin email verification transaction" (begin (net 0))
  row ← try (tx_exec (net 1) (select_verification token_hash))
  on_row (raise_domain DomainError.verification_token_invalid) "select verification token"
      (verify_selected lib net now) row)
