-- ===== src/Ports.antt =====
-- internal/identity/application/ports.go: the records that pass between the service and its
-- repository, and the interface `Repository`. `S` is whatever a repository keeps; each method takes
-- that state and returns its result with the state after it. An `error` alone is a `Result` of the
-- unit type; `RowsAffected` is a natural number.
use family_tree_identity_mic.Shared.{ℕ, List, Text}
use family_tree_identity_mic.Domain.Errors.{Result}
use family_tree_identity_mic.Domain.User.{User, UserSession, Uuid, Time}

pub record RegistrationRecord : Type 0 where
  pub user : User
  pub password_hash : Text
  pub verification_token_id : Uuid
  pub verification_token_hash : Text
  pub verification_expires_at : Time

pub record LoginIdentity : Type 0 where
  pub user : User
  pub password_hash : Text

pub record SessionRecord : Type 0 where
  pub id : Uuid
  pub user_id : Uuid
  pub refresh_token_hash : Text
  pub user_agent : Text
  pub ip_address : Text
  pub expires_at : Time
  pub created_at : Time

pub record SessionIdentity : Type 0 where
  pub id : Uuid
  pub user : User
  pub expires_at : Time

pub record PasswordResetRecord : Type 0 where
  pub token_id : Uuid
  pub user_id : Uuid
  pub token_hash : Text
  pub expires_at : Time
  pub created_at : Time

abbrev pub Done : Type 0
Done = Unit {0}

pub record Repository (S : Type 0) : Type 0 where
  pub create_registration : RegistrationRecord → S → Result Done × S
  pub verify_email : Text → Time → S → Result User × S
  pub find_login_identity : Text → S → Result LoginIdentity × S
  pub create_session : SessionRecord → S → Result Done × S
  pub rotate_refresh_token : Text → Text → Text → Text → Time → S → Result SessionIdentity × S
  pub revoke_session : Text → Time → S → Result Done × S
  pub revoke_all_sessions : Uuid → Time → S → Result ℕ × S
  pub get_user : Uuid → S → Result User × S
  pub list_sessions : Uuid → Time → S → Result (List UserSession) × S
  pub revoke_owned_session : Uuid → Uuid → Time → S → Result Done × S
  pub get_password_credential : Uuid → S → Result Text × S
  pub change_password : Uuid → Text → Text → Time → S → Result Done × S
  pub find_password_reset_user : Text → S → Result User × S
  pub create_password_reset : PasswordResetRecord → S → Result Done × S
  pub reset_password : Text → Text → Time → S → Result Done × S
