-- ===== src/Application/Admission.antt =====
-- What a login that succeeds has tested and stored.
use family_tree_identity_mic.Shared.{◌+◌, ◌≤◌, ◌≡◌, refl, inl, inr, true, arith, Text, byte_length}
use family_tree_identity_mic.Domain.Errors.{Result-cases, ok}
use family_tree_identity_mic.Domain.Email.{Email, new_email}
use family_tree_identity_mic.Domain.User.{UserStatus}
use family_tree_identity_mic.Ports.{LoginIdentity, SessionRecord}
use family_tree_identity_mic.Application.Service.{Service, World, max_password_bytes}
use family_tree_identity_mic.Application.Metadata.{
  SessionMetadata, LoginCommand, SessionResult, normalize_session_metadata,
}
use family_tree_identity_mic.Application.Login.{
  reject_invalid_credentials, check_status, open_session, check_password, authenticate, login_with,
  login,
}

module _ {S : Type 0} (svc : Service S) where
  -- The session that is stored for a login.
  abbrev pub session_for : SessionMetadata → LoginIdentity → Text → SessionRecord
  session_for metadata identity token_hash = record {
    id = svc.new_id 0;
    user_id = identity.user.id;
    refresh_token_hash = token_hash;
    user_agent = metadata.user_agent;
    ip_address = metadata.ip_address;
    expires_at = svc.now + svc.refresh_ttl;
    created_at = svc.now;
  }

  -- The tests that an account has passed, and what was stored and answered for it.
  pub record Opens (metadata : SessionMetadata) (password : Text) (identity : LoginIdentity) (s : S)
      (result : SessionResult) (after : S) : Type 0 where
    pub short : byte_length password ≤ max_password_bytes
    pub verified : svc.password_hasher.verify password identity.password_hash ≡ ok true
    pub active : identity.user.status ≡ UserStatus.active
    pub token_hash : Text
    pub drawn : svc.token_generator.generate ≡ ok (result.refresh_token, token_hash)
    pub signed :
        svc.sign identity.user.id (svc.new_id 0) svc.now
        ≡ ok (result.access_token, result.access_token_expires_at)
    pub stored :
        svc.repository.create_session (session_for metadata identity token_hash) s ≡ (ok tt, after)
    pub user : result.user ≡ identity.user
    pub expires_at : result.refresh_token_expires_at ≡ svc.now + svc.refresh_ttl

  module _ (metadata : SessionMetadata) (password : Text) (result : SessionResult) where
    authenticate-Opens :
        (identity : LoginIdentity) (w : World S)
        → (authenticate svc metadata password (ok identity) w).0 ≡ ok result
        → Opens metadata password identity w.store result
            (authenticate svc metadata password (ok identity) w).1.store
    unfolding authenticate reject_invalid_credentials check_password open_session check_status
    authenticate-Opens identity w h = elim (Result-cases svc.token_generator.generate) [
      | inl (e, h') ↦ absurd (ground arith)
      | inr ((raw, token_hash), drawn) ↦ record {
        short = ground arith;
        verified = ground arith;
        active = ground arith;
        token_hash = token_hash;
        drawn = ground arith;
        signed = ground arith;
        stored = ground arith;
        user = ground arith;
        expires_at = ground arith;
      }
    ]

  -- A login of a known account comes to its password.
  login-reaches :
      (command : LoginCommand) (w : World S) (metadata : SessionMetadata) (email : Email)
      (identity : LoginIdentity)
      → normalize_session_metadata svc.parse_addr command.metadata ≡ ok metadata
      → new_email svc.text_library command.email ≡ ok email
      → (svc.repository.find_login_identity email.normalized w.store).0 ≡ ok identity
      → login svc command w
        ≡ authenticate svc metadata command.password
            (ok identity)
            (record w { store = (svc.repository.find_login_identity email.normalized w.store).1 })
  unfolding login login_with
  login-reaches command w metadata email identity accepted parsed found =
      rw (accepted, login, parsed, found) refl

  -- A login that succeeds on accepted metadata found an active account by its address, verified the
  -- password against the account's hash, and left the store as `CreateSession` makes it: with a session
  -- of that account, for the hash of the token that is answered, which lasts for the configured time.
  pub login-Opens :
      (command : LoginCommand) (w : World S) (metadata : SessionMetadata) (result : SessionResult)
      → normalize_session_metadata svc.parse_addr command.metadata ≡ ok metadata
      → (login svc command w).0 ≡ ok result
      → (email : Email) × (identity : LoginIdentity) × (s : S) × (new_email svc.text_library
            command.email
          ≡ ok email)
        × (svc.repository.find_login_identity email.normalized w.store ≡ (ok identity, s))
        × Opens metadata command.password identity s result (login svc command w).1.store
  unfolding login login_with reject_invalid_credentials authenticate
  login-Opens command w metadata result accepted success =
      elim (Result-cases (new_email svc.text_library command.email)) [
        | inl (e, h) ↦ absurd (ground arith)
        | inr (email, parsed) ↦
            let (answer, s) = svc.repository.find_login_identity email.normalized w.store in
            elim (Result-cases (svc.repository.find_login_identity email.normalized w.store).0) [
              | inl (e, h) ↦ absurd (ground arith)
              | inr (identity, h) ↦ (
                email,
                identity,
                s,
                parsed,
                (λ i. (h i, s)),
                let reached = login-reaches command w metadata email identity accepted parsed h in
                    rw reached (
                      authenticate-Opens metadata command.password result identity
                        (record w { store = s }) (rw reached at success)),
              )
            ]
      ]
