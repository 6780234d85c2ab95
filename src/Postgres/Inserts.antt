-- ===== src/Postgres/Inserts.antt =====
-- The INSERT statements of repository.go, with the constraints of the tables in the order in which
-- the server tests them: checks by name, then unique indexes, then foreign keys. A new row is put
-- first; every statement that depends on the order of rows sorts them.
use family_tree_identity_mic.Shared.{
  Bool, true, false, not, ◌&&◌, ◌∷◌, ltb, ◌==◌, is_none, any, same,
}
use family_tree_identity_mic.Domain.Errors.{DriverError}
use family_tree_identity_mic.Domain.User.{UserStatus, Uuid}
use family_tree_identity_mic.Postgres.Tables.{
  Db, UserRow, CredentialRow, SessionRow, TokenRow, UsedTokenRow,
}
use family_tree_identity_mic.Postgres.Connection.{Sql, done}
use family_tree_identity_mic.Postgres.Sql.{SqlLibrary, requires}

-- `status IN ('pending', 'active', 'blocked', 'deleting')`.
abbrev pub is_known : UserStatus → Bool
is_known UserStatus.pending = true
is_known UserStatus.active = true
is_known UserStatus.blocked = true
is_known UserStatus.deleting = true
is_known (UserStatus.other s) = false

-- Two rows that the partial index `users_normalized_email_active_uq` keeps apart.
abbrev pub emails_clash : UserRow → UserRow → Bool
emails_clash a b =
    is_none a.deleted_at && is_none b.deleted_at && same a.normalized_email b.normalized_email

abbrev pub has_user : Uuid → Db → Bool
has_user id db = any (λ u. u.id == id) db.users

abbrev pub has_session : Uuid → Db → Bool
has_session id db = any (λ s. s.id == id) db.sessions

-- Lines 40 to 54.
unfoldable pub insert_user : SqlLibrary → UserRow → Sql (Unit {0})
insert_user sql row db =
    requires (same row.normalized_email (sql.lower row.normalized_email))
      (DriverError.check_violation "users_normalized_email_check")
      (requires (is_known row.status) (DriverError.check_violation "users_status_check") (
        requires (ltb 0 row.version) (DriverError.check_violation "users_version_positive_check") (
          requires (not (any (λ u. u.id == row.id) db.users))
            (DriverError.unique_violation "users_pkey")
            (requires (not (any (emails_clash row) db.users))
              (DriverError.unique_violation "users_normalized_email_active_uq")
              (λ db'. done tt (record db' { users = row ∷ db'.users }))))))
      db

-- Lines 61 to 69.
unfoldable pub insert_credential : CredentialRow → Sql (Unit {0})
insert_credential row db =
    requires (not (any (λ c. c.user_id == row.user_id) db.credentials))
      (DriverError.unique_violation "user_credentials_pkey")
      (requires (has_user row.user_id db)
        (DriverError.foreign_key_violation "user_credentials_user_id_fkey")
        (λ db'. done tt (record db' { credentials = row ∷ db'.credentials })))
      db

-- Lines 73 to 83 and 723 to 733.
unfoldable pub insert_token : TokenRow → Sql (Unit {0})
insert_token row db =
    requires (ltb row.created_at row.expires_at)
      (DriverError.check_violation "one_time_tokens_expiry_check")
      (requires (not (any (λ t. t.id == row.id) db.tokens))
        (DriverError.unique_violation "one_time_tokens_pkey")
        (requires (not (any (λ t. same row.token_hash t.token_hash) db.tokens))
          (DriverError.unique_violation "one_time_tokens_token_hash_key")
          (requires (has_user row.user_id db)
            (DriverError.foreign_key_violation "one_time_tokens_user_id_fkey")
            (λ db'. done tt (record db' { tokens = row ∷ db'.tokens })))))
      db

-- Lines 256 to 269.
unfoldable pub insert_session : SessionRow → Sql (Unit {0})
insert_session row db =
    requires (ltb row.created_at row.expires_at)
      (DriverError.check_violation "user_sessions_expiry_check")
      (requires (not (any (λ s. s.id == row.id) db.sessions))
        (DriverError.unique_violation "user_sessions_pkey")
        (requires (not (any (λ s. same row.refresh_token_hash s.refresh_token_hash) db.sessions))
          (DriverError.unique_violation "user_sessions_refresh_token_hash_key")
          (requires (has_user row.user_id db)
            (DriverError.foreign_key_violation "user_sessions_user_id_fkey")
            (λ db'. done tt (record db' { sessions = row ∷ db'.sessions })))))
      db

-- Lines 352 to 355.
unfoldable pub insert_used_token : UsedTokenRow → Sql (Unit {0})
insert_used_token row db =
    requires (ltb row.used_at row.expires_at)
      (DriverError.check_violation "used_refresh_tokens_expiry_check")
      (requires (not (any (λ t. same row.token_hash t.token_hash) db.used_tokens))
        (DriverError.unique_violation "used_refresh_tokens_pkey")
        (requires (has_session row.session_id db)
          (DriverError.foreign_key_violation "used_refresh_tokens_session_id_fkey")
          (λ db'. done tt (record db' { used_tokens = row ∷ db'.used_tokens }))))
      db
