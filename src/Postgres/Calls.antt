-- ===== src/Postgres/Calls.antt =====
-- The calls of the repository's methods that may change the tables, as data, and histories of them.
use family_tree_identity_mic.Shared.{List, [], ◌∷◌, Text}
use family_tree_identity_mic.Domain.Errors.{Result, ok, err}
use family_tree_identity_mic.Domain.Email.{TextLibrary}
use family_tree_identity_mic.Domain.User.{Uuid, Time}
use family_tree_identity_mic.Ports.{RegistrationRecord, SessionRecord, PasswordResetRecord, Done}
use family_tree_identity_mic.Postgres.Tables.{Db}
use family_tree_identity_mic.Postgres.Connection.{Network}
use family_tree_identity_mic.Postgres.Sql.{SqlLibrary}
use family_tree_identity_mic.Postgres.Registration.{create_registration, verify_email}
use family_tree_identity_mic.Postgres.Sessions.{
  create_session, rotate_refresh_token, revoke_session, revoke_all_sessions, revoke_owned_session,
}
use family_tree_identity_mic.Postgres.Passwords.{
  change_password, create_password_reset, reset_password,
}

pub data Call : Type 0 where
  registration : RegistrationRecord → Call
  verification : Text → Time → Call
  session : SessionRecord → Call
  rotation : Text → Text → Text → Text → Time → Call
  logout : Text → Time → Call
  logout_all : Uuid → Time → Call
  logout_one : Uuid → Uuid → Time → Call
  password_change : Uuid → Text → Text → Time → Call
  reset_request : PasswordResetRecord → Call
  password_reset : Text → Text → Time → Call

-- Whether the call failed, and how.
abbrev pub without_value : {A : Type 0} → Result A → Result Done
without_value (ok a) = ok tt
without_value (err e) = err e

abbrev pub forget : {A : Type 0} → Result A × Db → Result Done × Db
forget x = (without_value x.0, x.1)

module _ (lib : TextLibrary) (sql : SqlLibrary) where
  unfoldable pub perform : Network → Call → Db → Result Done × Db
  perform net (registration r) db = create_registration sql net r db
  perform net (verification token_hash now) db = forget (verify_email lib net token_hash now db)
  perform net (session r) db = create_session sql net r db
  perform net (rotation current_hash new_hash user_agent ip_address now) db =
      forget (rotate_refresh_token lib sql net current_hash new_hash user_agent ip_address now db)
  perform net (logout token_hash now) db = revoke_session net token_hash now db
  perform net (logout_all user_id now) db = forget (revoke_all_sessions net user_id now db)
  perform net (logout_one user_id session_id now) db =
      revoke_owned_session net user_id session_id now db
  perform net (password_change user_id expected new_hash now) db =
      change_password net user_id expected new_hash now db
  perform net (reset_request r) db = create_password_reset net r db
  perform net (password_reset token_hash new_hash now) db =
      reset_password net token_hash new_hash now db

  -- The tables after a history of calls, each with its network.
  unfoldable pub replay : List (Network × Call) → Db → Db
  replay [] db = db
  replay ((net, call) ∷ calls) db = replay calls (perform net call db).1
