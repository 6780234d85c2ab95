-- ===== src/Postgres/Sessions.antt =====
-- `CreateSession`, `RotateRefreshToken`, `handlePossibleRefreshReuse` and the methods that revoke
-- and list sessions, of repository.go.
use family_tree_identity_mic.Shared.{
  ℕ, not, ◌||◌, Option, none, List, ltb, ◌==◌, is_some, if◌then◌else◌, Text,
}
use family_tree_identity_mic.Domain.Errors.{DomainError, Result}
use family_tree_identity_mic.Domain.Email.{TextLibrary}
use family_tree_identity_mic.Domain.User.{UserSession, Uuid, Time, is_active}
use family_tree_identity_mic.Ports.{SessionRecord, SessionIdentity, Done}
use family_tree_identity_mic.Postgres.Tables.{Db, UserRow, SessionRow, UsedTokenRow}
use family_tree_identity_mic.Postgres.Connection.{
  Network, Action, pure, raise_domain, wrapping, try, tx_exec, pool_exec, begin, commit, ◌>>=◌,
  ◌>>◌, run,
}
use family_tree_identity_mic.Postgres.Sql.{SqlLibrary, nullable_inet}
use family_tree_identity_mic.Postgres.Inserts.{insert_session, insert_used_token}
use family_tree_identity_mic.Postgres.Selects.{
  select_session, select_used_token, select_user_exists, select_sessions,
}
use family_tree_identity_mic.Postgres.Updates.{
  revoke_by_id, revoke_replayed, revoke_by_token, revoke_open_sessions, revoke_owned,
  rotate_session,
}
use family_tree_identity_mic.Postgres.Stored.{user_of, read_email, on_row}

-- The row of the INSERT, with the address as the server keeps it.
abbrev pub created_session : SessionRecord → Option Text → SessionRow
created_session r address = record {
  id = r.id;
  user_id = r.user_id;
  refresh_token_hash = r.refresh_token_hash;
  user_agent = r.user_agent;
  ip_address = address;
  expires_at = r.expires_at;
  last_used_at = r.created_at;
  revoked_at = none;
  created_at = r.created_at;
}

unfoldable pub create_session : SqlLibrary → Network → SessionRecord → Db → Result Done × Db
create_session sql net r = run (
    wrapping "insert user session" (
      pool_exec (net 0)
        (nullable_inet sql r.ip_address λ address. insert_session (created_session r address))))

-- Lines 400 to 411.
unfoldable pub revoke_reused : Network → Time → UsedTokenRow × SessionRow → Action SessionIdentity
revoke_reused net now (t, s) = do
  wrapping "revoke replayed session" (tx_exec (net 3) (revoke_replayed s.id now))
  wrapping "commit replayed session revocation" (commit (net 4))
  raise_domain DomainError.refresh_token_reused

unfoldable pub handle_possible_refresh_reuse : Network → Text → Time → Action SessionIdentity
handle_possible_refresh_reuse net token_hash now = do
  row ← try (tx_exec (net 2) (select_used_token token_hash))
  on_row (raise_domain DomainError.refresh_token_invalid) "select used refresh token"
      (revoke_reused net now) row

abbrev pub used_token : Text → SessionRow → Time → UsedTokenRow
used_token token_hash s now = record {
  token_hash = token_hash;
  session_id = s.id;
  used_at = now;
  expires_at = s.expires_at;
}

-- Lines 328 to 376, on the row that was selected.
unfoldable pub rotate_selected :
    TextLibrary
    → SqlLibrary
    → Network
    → Text
    → Text
    → Text
    → Text
    → Time
    → SessionRow × UserRow
    → Action SessionIdentity
rotate_selected lib sql net current_hash new_hash user_agent ip_address now (s, u) = do
  email ← read_email lib u.email
  if is_some s.revoked_at
      then raise_domain DomainError.session_revoked
      else if not (ltb now s.expires_at)
      then raise_domain DomainError.session_expired
      else if is_some u.deleted_at || not (is_active u.status)
      then (do
        wrapping "revoke unavailable account session" (tx_exec (net 2) (revoke_by_id s.id now))
        wrapping "commit unavailable account revocation" (commit (net 3))
        raise_domain DomainError.account_unavailable)
      else (do
        wrapping "record used refresh token"
            (tx_exec (net 2) (insert_used_token (used_token current_hash s now)))
        wrapping "rotate refresh token"
            (tx_exec (net 3) (rotate_session sql s.id new_hash user_agent ip_address now))
        wrapping "commit refresh rotation" (commit (net 4))
        pure (record { id = s.id; user = user_of u email; expires_at = s.expires_at }))

unfoldable pub rotate_refresh_token :
    TextLibrary
    → SqlLibrary
    → Network
    → Text
    → Text
    → Text
    → Text
    → Time
    → Db
    → Result SessionIdentity × Db
rotate_refresh_token lib sql net current_hash new_hash user_agent ip_address now = run (do
  wrapping "begin refresh rotation transaction" (begin (net 0))
  row ← try (tx_exec (net 1) (select_session current_hash))
  on_row (handle_possible_refresh_reuse net current_hash now) "select user session"
      (rotate_selected lib sql net current_hash new_hash user_agent ip_address now) row)

unfoldable pub revoke_session : Network → Text → Time → Db → Result Done × Db
revoke_session net token_hash now =
    run (wrapping "revoke user session" (pool_exec (net 0) (revoke_by_token token_hash now)))

unfoldable pub revoke_all_sessions : Network → Uuid → Time → Db → Result ℕ × Db
revoke_all_sessions net user_id now =
    run (wrapping "revoke all user sessions" (pool_exec (net 0) (revoke_open_sessions user_id now)))

unfoldable pub list_sessions :
    SqlLibrary → Network → Uuid → Time → Db → Result (List UserSession) × Db
list_sessions sql net user_id now = run (do
  user_exists ← wrapping "check session owner" (pool_exec (net 0) (select_user_exists user_id))
  if not user_exists
      then raise_domain DomainError.user_not_found
      else wrapping "select user sessions" (pool_exec (net 1) (select_sessions sql user_id now)))

unfoldable pub revoke_owned_session : Network → Uuid → Uuid → Time → Db → Result Done × Db
revoke_owned_session net user_id session_id now = run (do
  affected ←
      wrapping "revoke owned session" (pool_exec (net 0) (revoke_owned user_id session_id now))
  if affected == 0 then raise_domain DomainError.session_not_found else pure tt)
