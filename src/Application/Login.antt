-- ===== src/Application/Login.antt =====
-- `Login`, `RefreshSession`, `Logout` and the other methods on sessions of service.go.
use family_tree_identity_mic.Shared.{
  ℕ, ◌+◌, not, ◌||◌, List, [], Text, ltb, ◌==◌, byte_length, if◌then◌else◌,
}
use family_tree_identity_mic.Domain.Errors.{DomainError, errors_is, Result, ok, err}
use family_tree_identity_mic.Domain.Email.{Email, new_email}
use family_tree_identity_mic.Domain.User.{UserStatus, UserSession, Uuid}
use family_tree_identity_mic.Ports.{LoginIdentity, Done}
use family_tree_identity_mic.Application.Service.{
  Service, Action, pure, raise, raise_domain, lift, wrapping, try, stored, ◌>>=◌, ◌>>◌, raise_if,
  verify_password, max_password_bytes, is_bad_token,
}
use family_tree_identity_mic.Application.Metadata.{
  SessionMetadata, LoginCommand, RefreshSessionCommand, SessionResult, normalize_session_metadata,
}

module _ {S : Type 0} (svc : Service S) where
  -- `rejectInvalidCredentials`.
  unfoldable pub reject_invalid_credentials : {A : Type 0} → Text → Action S A
  reject_invalid_credentials candidate = do
    wrapping "verify dummy password" (
        verify_password svc
          (if ltb max_password_bytes (byte_length candidate) then [] else candidate)
          svc.password_hasher.dummy_hash)
    raise_domain DomainError.invalid_credentials

  -- Lines 199 to 206.
  unfoldable pub check_status : UserStatus → Action S Done
  check_status UserStatus.pending = raise_domain DomainError.email_not_verified
  check_status UserStatus.active = pure tt
  check_status UserStatus.blocked = raise_domain DomainError.account_unavailable
  check_status UserStatus.deleting = raise_domain DomainError.account_unavailable
  check_status (UserStatus.other s) = raise_domain DomainError.account_unavailable

  -- Lines 208 to 242.
  unfoldable pub open_session : SessionMetadata → LoginIdentity → Action S SessionResult
  open_session metadata identity = do
    token ← wrapping "generate refresh token" (lift svc.token_generator.generate)
    let session_id = svc.new_id 0
    access ← wrapping "issue access token" (lift (svc.sign identity.user.id session_id svc.now))
    let refresh_expires_at = svc.now + svc.refresh_ttl
    stored (
        svc.repository.create_session (record {
          id = session_id;
          user_id = identity.user.id;
          refresh_token_hash = token.1;
          user_agent = metadata.user_agent;
          ip_address = metadata.ip_address;
          expires_at = refresh_expires_at;
          created_at = svc.now;
        }))
    pure (record {
      user = identity.user;
      access_token = access.0;
      refresh_token = token.0;
      access_token_expires_at = access.1;
      refresh_token_expires_at = refresh_expires_at;
    })

  -- Lines 188 to 197.
  unfoldable pub check_password : Text → LoginIdentity → Action S Done
  check_password password identity = do
    matches ← wrapping "verify password" (verify_password svc password identity.password_hash)
    raise_if (not matches) DomainError.invalid_credentials

  -- Lines 178 to 242, on the answer of `FindLoginIdentity`.
  unfoldable pub authenticate :
      SessionMetadata → Text → Result LoginIdentity → Action S SessionResult
  authenticate metadata password (ok identity) =
      if ltb max_password_bytes (byte_length password) then reject_invalid_credentials [] else (do
        check_password password identity
        check_status identity.user.status
        open_session metadata identity)
  authenticate metadata password (err e) =
      if errors_is e DomainError.invalid_credentials
      then reject_invalid_credentials password
      else raise e

  -- Lines 173 to 242, on the parsed address.
  unfoldable pub login_with : SessionMetadata → Text → Result Email → Action S SessionResult
  login_with metadata password (err e) = reject_invalid_credentials password
  login_with metadata password (ok email) = do
    identity ← try (stored (svc.repository.find_login_identity email.normalized))
    authenticate metadata password identity

  unfoldable pub login : LoginCommand → Action S SessionResult
  login command = do
    metadata ← lift (normalize_session_metadata svc.parse_addr command.metadata)
    login_with metadata command.password (new_email svc.text_library command.email)

  unfoldable pub refresh_session : RefreshSessionCommand → Action S SessionResult
  refresh_session command = do
    raise_if (is_bad_token command.refresh_token) DomainError.refresh_token_invalid
    metadata ← lift (normalize_session_metadata svc.parse_addr command.metadata)
    token ← wrapping "generate refresh token" (lift svc.token_generator.generate)
    session ← stored (
        svc.repository.rotate_refresh_token (svc.token_generator.hash command.refresh_token) token.1
          metadata.user_agent metadata.ip_address svc.now)
    access ← wrapping "issue access token" (lift (svc.sign session.user.id session.id svc.now))
    pure (record {
      user = session.user;
      access_token = access.0;
      refresh_token = token.0;
      access_token_expires_at = access.1;
      refresh_token_expires_at = session.expires_at;
    })

  unfoldable pub logout : Text → Action S Done
  logout raw =
      if is_bad_token raw
      then pure tt
      else stored (svc.repository.revoke_session (svc.token_generator.hash raw) svc.now)

  unfoldable pub logout_all : Uuid → Action S ℕ
  logout_all user_id = do
    raise_if (user_id == 0) DomainError.invalid_credentials
    stored (svc.repository.revoke_all_sessions user_id svc.now)

  unfoldable pub list_sessions : Uuid → Action S (List UserSession)
  list_sessions user_id = do
    raise_if (user_id == 0) DomainError.user_not_found
    stored (svc.repository.list_sessions user_id svc.now)

  unfoldable pub revoke_session : Uuid → Uuid → Action S Done
  revoke_session user_id session_id = do
    raise_if (user_id == 0 || session_id == 0) DomainError.session_not_found
    stored (svc.repository.revoke_owned_session user_id session_id svc.now)
