-- ===== src/Postgres/Updates.antt =====
-- The UPDATE statements of repository.go, with the number of rows affected where the code reads it.
use family_tree_identity_mic.Shared.{
  ℕ, ◌+◌, Bool, not, ◌&&◌, ◌||◌, Option, none, some, ltb, ◌==◌, is_none, coalesce, any, update,
  count, Text, same,
}
use family_tree_identity_mic.Domain.Errors.{DriverError}
use family_tree_identity_mic.Domain.User.{Uuid, Time, UserStatus, is_active}
use family_tree_identity_mic.Postgres.Tables.{
  Db, UserRow, CredentialRow, SessionRow, TokenRow, is_reset,
}
use family_tree_identity_mic.Postgres.Inserts.{has_session}
use family_tree_identity_mic.Postgres.Connection.{Sql, done}
use family_tree_identity_mic.Postgres.Sql.{SqlLibrary, requires, nullable_inet}

-- The largest value of an `integer` column.
abbrev pub max_integer : ℕ
max_integer = 2147483647

abbrev pub activated : Time → UserRow → UserRow
activated now u = record u {
  status = UserStatus.active;
  email_verified_at = some now;
  updated_at = now;
  version = u.version + 1;
}

-- Lines 161 to 168.
unfoldable pub activate_user : Uuid → Time → Sql (Unit {0})
activate_user id now db =
    requires (not (any (λ u. u.id == id && not (ltb u.version max_integer)) db.users))
      DriverError.out_of_range
      (λ db'. done tt (record db' { users = update (λ u. u.id == id) (activated now) db'.users }))
      db

abbrev pub spent : Time → TokenRow → TokenRow
spent now t = record t { used_at = some now }

-- Lines 172 to 176 and 815 to 819.
unfoldable pub mark_token_used : Uuid → Time → Sql (Unit {0})
mark_token_used id now db =
    done tt (record db { tokens = update (λ t. t.id == id) (spent now) db.tokens })

-- Lines 714 to 720.
unfoldable pub spend_reset_tokens : Uuid → Time → Sql (Unit {0})
spend_reset_tokens user_id now db = done tt (record db {
  tokens =
      update (λ t. t.user_id == user_id && is_reset t.purpose && is_none t.used_at) (spent now)
        db.tokens;
})

-- `SET revoked_at = $n`.
abbrev pub revoked : Time → SessionRow → SessionRow
revoked now s = record s { revoked_at = some now }

-- `SET revoked_at = COALESCE(revoked_at, $n)`.
abbrev pub revoked_once : Time → SessionRow → SessionRow
revoked_once now s = record s { revoked_at = some (coalesce s.revoked_at now) }

-- Lines 341 to 343.
unfoldable pub revoke_by_id : Uuid → Time → Sql (Unit {0})
revoke_by_id id now db =
    done tt (record db { sessions = update (λ s. s.id == id) (revoked now) db.sessions })

-- Lines 400 to 404.
unfoldable pub revoke_replayed : Uuid → Time → Sql (Unit {0})
revoke_replayed id now db =
    done tt (record db { sessions = update (λ s. s.id == id) (revoked_once now) db.sessions })

-- The sessions of lines 422 to 427: the token is the session's own, or one that it has used up.
abbrev pub is_session_of_token : Text → Db → SessionRow → Bool
is_session_of_token token_hash db s =
    same s.refresh_token_hash token_hash
    || any (λ t. same t.token_hash token_hash && t.session_id == s.id) db.used_tokens

-- Lines 419 to 428.
unfoldable pub revoke_by_token : Text → Time → Sql (Unit {0})
revoke_by_token token_hash now db = done tt (record db {
  sessions = update (is_session_of_token token_hash db) (revoked_once now) db.sessions;
})

abbrev pub is_open_session : Uuid → SessionRow → Bool
is_open_session user_id s = s.user_id == user_id && is_none s.revoked_at

-- Lines 440 to 445.
unfoldable pub revoke_open_sessions : Uuid → Time → Sql ℕ
revoke_open_sessions user_id now db =
    done (count (is_open_session user_id) db.sessions)
      (record db { sessions = update (is_open_session user_id) (revoked now) db.sessions })

abbrev pub is_owned_session : Uuid → Uuid → SessionRow → Bool
is_owned_session user_id session_id s = s.id == session_id && s.user_id == user_id

-- Lines 555 to 560.
unfoldable pub revoke_owned : Uuid → Uuid → Time → Sql ℕ
revoke_owned user_id session_id now db =
    done (count (is_owned_session user_id session_id) db.sessions) (record db {
      sessions = update (is_owned_session user_id session_id) (revoked_once now) db.sessions;
    })

-- Lines 629 to 633 and 808 to 812.
unfoldable pub revoke_user_sessions : Uuid → Time → Sql (Unit {0})
revoke_user_sessions user_id now db =
    done tt
      (record db { sessions = update (λ s. s.user_id == user_id) (revoked_once now) db.sessions })

abbrev pub with_password : Text → Time → CredentialRow → CredentialRow
with_password new_hash now c = record c {
  password_hash = new_hash;
  password_changed_at = now;
  failed_login_count = 0;
  locked_until = none;
  updated_at = now;
}

-- The row that line 616 to 620 selects.
abbrev pub is_current_credential : Uuid → Text → Db → CredentialRow → Bool
is_current_credential user_id expected db c =
    c.user_id == user_id
    && same c.password_hash expected
    && any (λ u. u.id == c.user_id && is_active u.status && is_none u.deleted_at) db.users

-- Lines 608 to 621.
unfoldable pub replace_password : Uuid → Text → Text → Time → Sql ℕ
replace_password user_id expected new_hash now db =
    done (count (is_current_credential user_id expected db) db.credentials) (record db {
      credentials =
          update (is_current_credential user_id expected db) (with_password new_hash now)
            db.credentials;
    })

-- Lines 797 to 805.
unfoldable pub set_password : Uuid → Text → Time → Sql (Unit {0})
set_password user_id new_hash now db = done tt (record db {
  credentials = update (λ c. c.user_id == user_id) (with_password new_hash now) db.credentials;
})

abbrev pub rotated : Text → Text → Option Text → Time → SessionRow → SessionRow
rotated new_hash user_agent address now s = record s {
  refresh_token_hash = new_hash;
  user_agent = user_agent;
  ip_address = address;
  last_used_at = now;
}

-- Lines 358 to 365. The new hash must be no other session's.
unfoldable pub rotate_session : SqlLibrary → Uuid → Text → Text → Text → Time → Sql (Unit {0})
rotate_session sql id new_hash user_agent ip_address now =
    nullable_inet sql ip_address λ address db.
      requires
        (not (
          has_session id db
          && any (λ s. not (s.id == id) && same s.refresh_token_hash new_hash) db.sessions))
        (DriverError.unique_violation "user_sessions_refresh_token_hash_key")
        (λ db'. done tt (record db' {
          sessions =
              update (λ s. s.id == id) (rotated new_hash user_agent address now) db'.sessions;
        }))
        db
