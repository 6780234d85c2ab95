-- ===== src/Postgres/Selects.antt =====
-- The SELECT statements of repository.go. `FOR UPDATE` only locks, and changes no answer.
use mathlib.Core.Option
use family_tree_identity_mic.Shared.{
  Bool, not, ◌&&◌, ◌||◌, Option, none, some, List, [], ◌∷◌, map, ltb, ◌==◌, is_none, if◌then◌else◌,
  any, find, find_join, select, Text, same,
}
use family_tree_identity_mic.Domain.User.{Uuid, Time, UserSession, is_active}
use family_tree_identity_mic.Postgres.Tables.{
  UserRow, CredentialRow, SessionRow, TokenRow, UsedTokenRow, is_verification, is_reset,
}
use family_tree_identity_mic.Postgres.Connection.{Sql, done}
use family_tree_identity_mic.Postgres.Sql.{SqlLibrary, query_row}

abbrev pub is_verification_pair : Text → TokenRow → UserRow → Bool
is_verification_pair token_hash t u =
    u.id == t.user_id
    && same t.token_hash token_hash
    && is_verification t.purpose
    && is_none u.deleted_at

-- Lines 122 to 133.
unfoldable pub select_verification : Text → Sql (TokenRow × UserRow)
select_verification token_hash db =
    query_row (find_join (is_verification_pair token_hash) db.tokens db.users) db

-- Lines 212 to 221.
unfoldable pub select_login_identity : Text → Sql (UserRow × CredentialRow)
select_login_identity normalized_email db =
    query_row
      (find_join
        (λ u c.
          c.user_id == u.id && same u.normalized_email normalized_email && is_none u.deleted_at)
        db.users db.credentials)
      db

abbrev pub is_session_pair : Text → SessionRow → UserRow → Bool
is_session_pair token_hash s u = u.id == s.user_id && same s.refresh_token_hash token_hash

-- Lines 299 to 308.
unfoldable pub select_session : Text → Sql (SessionRow × UserRow)
select_session token_hash db =
    query_row (find_join (is_session_pair token_hash) db.sessions db.users) db

abbrev pub is_used_pair : Text → UsedTokenRow → SessionRow → Bool
is_used_pair token_hash t s = s.id == t.session_id && same t.token_hash token_hash

-- Lines 386 to 392.
unfoldable pub select_used_token : Text → Sql (UsedTokenRow × SessionRow)
select_used_token token_hash db =
    query_row (find_join (is_used_pair token_hash) db.used_tokens db.sessions) db

-- Lines 461 to 468.
unfoldable pub select_user : Uuid → Sql UserRow
select_user id db = query_row (find (λ u. u.id == id && is_none u.deleted_at) db.users) db

-- Lines 650 to 657.
unfoldable pub select_user_by_email : Text → Sql UserRow
select_user_by_email normalized_email db =
    query_row
      (find (λ u. same u.normalized_email normalized_email && is_none u.deleted_at) db.users) db

-- Lines 576 to 583.
unfoldable pub select_password_hash : Uuid → Sql Text
select_password_hash id db =
    query_row
      (Option.map (λ p. p.0.password_hash)
        (find_join
          (λ (c : CredentialRow) (u : UserRow).
            u.id == c.user_id && c.user_id == id && is_active u.status && is_none u.deleted_at)
          db.credentials db.users))
      db

-- Lines 699 to 706.
unfoldable pub lock_active_user : Uuid → Sql UserRow
lock_active_user id db =
    query_row (find (λ u. u.id == id && is_active u.status && is_none u.deleted_at) db.users) db

abbrev pub is_reset_pair : Text → TokenRow → UserRow → Bool
is_reset_pair token_hash t u =
    u.id == t.user_id && same t.token_hash token_hash && is_reset t.purpose

-- Lines 764 to 773.
unfoldable pub select_reset : Text → Sql (TokenRow × UserRow)
select_reset token_hash db = query_row (find_join (is_reset_pair token_hash) db.tokens db.users) db

-- Lines 500 to 504.
unfoldable pub select_user_exists : Uuid → Sql Bool
select_user_exists id db = done (any (λ u. u.id == id && is_none u.deleted_at) db.users) db

-- The rows that `ListSessions` shows: of the user, not revoked, `expires_at > $2`.
abbrev pub is_listed : Uuid → Time → SessionRow → Bool
is_listed user_id now s = s.user_id == user_id && is_none s.revoked_at && ltb now s.expires_at

-- `ORDER BY last_used_at DESC, id`.
abbrev pub precedes : SessionRow → SessionRow → Bool
precedes a b =
    ltb b.last_used_at a.last_used_at || (a.last_used_at == b.last_used_at && not (ltb b.id a.id))

unfoldable pub insert_sorted : SessionRow → List SessionRow → List SessionRow
insert_sorted s [] = s ∷ []
insert_sorted s (t ∷ ts) = if precedes s t then s ∷ t ∷ ts else t ∷ insert_sorted s ts

unfoldable pub order_sessions : List SessionRow → List SessionRow
order_sessions [] = []
order_sessions (s ∷ ss) = insert_sorted s (order_sessions ss)

-- `COALESCE(ip_address::text, '')`.
abbrev pub shown_address : SqlLibrary → Option Text → Text
shown_address sql none = []
shown_address sql (some address) = sql.inet_text address

abbrev pub shown_session : SqlLibrary → SessionRow → UserSession
shown_session sql s = record {
  id = s.id;
  user_id = s.user_id;
  user_agent = s.user_agent;
  ip_address = shown_address sql s.ip_address;
  created_at = s.created_at;
  last_used_at = s.last_used_at;
  expires_at = s.expires_at;
}

-- Lines 511 to 520.
unfoldable pub select_sessions : SqlLibrary → Uuid → Time → Sql (List UserSession)
select_sessions sql user_id now db =
    done (map (shown_session sql) (order_sessions (select (is_listed user_id now) db.sessions))) db
