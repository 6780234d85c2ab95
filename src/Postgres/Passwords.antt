-- ===== src/Postgres/Passwords.antt =====
-- The methods of repository.go on users and passwords: `FindLoginIdentity`, `GetUser`,
-- `GetPasswordCredential`, `ChangePassword`, `FindPasswordResetUser`, `CreatePasswordReset` and
-- `ResetPassword`.
use family_tree_identity_mic.Shared.{not, ◌||◌, none, ltb, ◌==◌, is_some, if◌then◌else◌, Text}
use family_tree_identity_mic.Domain.Errors.{DomainError, Result}
use family_tree_identity_mic.Domain.Email.{TextLibrary}
use family_tree_identity_mic.Domain.User.{User, Uuid, Time, is_active}
use family_tree_identity_mic.Ports.{LoginIdentity, PasswordResetRecord, Done}
use family_tree_identity_mic.Postgres.Tables.{Db, UserRow, CredentialRow, TokenRow, Purpose}
use family_tree_identity_mic.Postgres.Connection.{
  Network, Action, pure, raise_domain, wrapping, try, tx_exec, pool_exec, begin, commit, ◌>>=◌,
  ◌>>◌, run,
}
use family_tree_identity_mic.Postgres.Inserts.{insert_token}
use family_tree_identity_mic.Postgres.Selects.{
  select_login_identity, select_user, select_user_by_email, select_password_hash, lock_active_user,
  select_reset,
}
use family_tree_identity_mic.Postgres.Updates.{
  mark_token_used, spend_reset_tokens, revoke_user_sessions, replace_password, set_password,
}
use family_tree_identity_mic.Postgres.Stored.{user_of, read_email, on_row}

-- Lines 240 to 249.
unfoldable pub login_found : TextLibrary → UserRow × CredentialRow → Action LoginIdentity
login_found lib (u, c) = do
  email ← read_email lib u.email
  pure (record { user = user_of u email; password_hash = c.password_hash })

unfoldable pub find_login_identity : TextLibrary → Network → Text → Db → Result LoginIdentity × Db
find_login_identity lib net normalized_email = run (do
  row ← try (pool_exec (net 0) (select_login_identity normalized_email))
  on_row (raise_domain DomainError.invalid_credentials) "select login identity" (login_found lib)
      row)

-- Lines 485 to 491.
unfoldable pub read_user : TextLibrary → UserRow → Action User
read_user lib u = do email ← read_email lib u.email; pure (user_of u email)

unfoldable pub get_user : TextLibrary → Network → Uuid → Db → Result User × Db
get_user lib net user_id = run (do
  row ← try (pool_exec (net 0) (select_user user_id))
  on_row (raise_domain DomainError.user_not_found) "select user" (read_user lib) row)

unfoldable pub get_password_credential : Network → Uuid → Db → Result Text × Db
get_password_credential net user_id = run (do
  row ← try (pool_exec (net 0) (select_password_hash user_id))
  on_row (raise_domain DomainError.account_unavailable) "select password credential" pure row)

unfoldable pub change_password : Network → Uuid → Text → Text → Time → Db → Result Done × Db
change_password net user_id expected_hash new_hash now = run (do
  wrapping "begin password change transaction" (begin (net 0))
  affected ←
      wrapping "update password credential"
        (tx_exec (net 1) (replace_password user_id expected_hash new_hash now))
  if affected == 0 then raise_domain DomainError.invalid_credentials else (do
    wrapping "revoke sessions after password change"
        (tx_exec (net 2) (revoke_user_sessions user_id now))
    wrapping "commit password change transaction" (commit (net 3))))

-- Lines 674 to 683.
unfoldable pub read_active_user : TextLibrary → UserRow → Action User
read_active_user lib u =
    if not (is_active u.status)
    then raise_domain DomainError.account_unavailable
    else read_user lib u

unfoldable pub find_password_reset_user : TextLibrary → Network → Text → Db → Result User × Db
find_password_reset_user lib net normalized_email = run (do
  row ← try (pool_exec (net 0) (select_user_by_email normalized_email))
  on_row (raise_domain DomainError.user_not_found) "select password reset user"
      (read_active_user lib) row)

abbrev pub reset_token : PasswordResetRecord → TokenRow
reset_token r = record {
  id = r.token_id;
  user_id = r.user_id;
  purpose = Purpose.reset_password;
  token_hash = r.token_hash;
  expires_at = r.expires_at;
  used_at = none;
  created_at = r.created_at;
}

-- Lines 714 to 739.
unfoldable pub replace_reset_token : Network → PasswordResetRecord → UserRow → Action Done
replace_reset_token net r locked = do
  wrapping "invalidate previous password reset tokens"
      (tx_exec (net 2) (spend_reset_tokens r.user_id r.created_at))
  wrapping "insert password reset token" (tx_exec (net 3) (insert_token (reset_token r)))
  wrapping "commit password reset request transaction" (commit (net 4))

unfoldable pub create_password_reset : Network → PasswordResetRecord → Db → Result Done × Db
create_password_reset net r = run (do
  wrapping "begin password reset request transaction" (begin (net 0))
  row ← try (tx_exec (net 1) (lock_active_user r.user_id))
  on_row (raise_domain DomainError.account_unavailable) "lock password reset user"
      (replace_reset_token net r) row)

-- Lines 787 to 825, on the row that was selected.
unfoldable pub reset_selected : Network → Text → Time → TokenRow × UserRow → Action Done
reset_selected net new_hash now (t, u) =
    if is_some t.used_at
    then raise_domain DomainError.password_reset_token_used
    else if not (ltb now t.expires_at)
    then raise_domain DomainError.password_reset_token_expired
    else if is_some u.deleted_at || not (is_active u.status)
    then raise_domain DomainError.account_unavailable
    else (do
      wrapping "reset password credential" (tx_exec (net 2) (set_password t.user_id new_hash now))
      wrapping "revoke sessions after password reset"
          (tx_exec (net 3) (revoke_user_sessions t.user_id now))
      wrapping "mark password reset token used" (tx_exec (net 4) (mark_token_used t.id now))
      wrapping "commit password reset transaction" (commit (net 5)))

unfoldable pub reset_password : Network → Text → Text → Time → Db → Result Done × Db
reset_password net token_hash new_hash now = run (do
  wrapping "begin password reset transaction" (begin (net 0))
  row ← try (tx_exec (net 1) (select_reset token_hash))
  on_row (raise_domain DomainError.password_reset_token_invalid) "select password reset token"
      (reset_selected net new_hash now) row)
