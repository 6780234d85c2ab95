-- ===== src/Postgres/Repository.antt =====
-- The repository over PostgreSQL as an implementation of the interface `Repository`; `nets` gives the
-- replies to each method's round trips.
use family_tree_identity_mic.Domain.Email.{TextLibrary}
use family_tree_identity_mic.Ports.{Repository}
use family_tree_identity_mic.Postgres.Tables.{Db}
use family_tree_identity_mic.Postgres.Connection.{Network}
use family_tree_identity_mic.Postgres.Sql.{SqlLibrary}
use family_tree_identity_mic.Postgres.Registration
use family_tree_identity_mic.Postgres.Sessions
use family_tree_identity_mic.Postgres.Passwords

pub data Method : Type 0 where
  create_registration verify_email find_login_identity create_session : Method
  rotate_refresh_token revoke_session revoke_all_sessions get_user list_sessions : Method
  revoke_owned_session get_password_credential change_password : Method
  find_password_reset_user create_password_reset reset_password : Method

abbrev pub postgres : TextLibrary → SqlLibrary → (Method → Network) → Repository Db
postgres lib sql nets = record {
  create_registration = Registration.create_registration sql (nets Method.create_registration);
  verify_email = Registration.verify_email lib (nets Method.verify_email);
  find_login_identity = Passwords.find_login_identity lib (nets Method.find_login_identity);
  create_session = Sessions.create_session sql (nets Method.create_session);
  rotate_refresh_token = Sessions.rotate_refresh_token lib sql (nets Method.rotate_refresh_token);
  revoke_session = Sessions.revoke_session (nets Method.revoke_session);
  revoke_all_sessions = Sessions.revoke_all_sessions (nets Method.revoke_all_sessions);
  get_user = Passwords.get_user lib (nets Method.get_user);
  list_sessions = Sessions.list_sessions sql (nets Method.list_sessions);
  revoke_owned_session = Sessions.revoke_owned_session (nets Method.revoke_owned_session);
  get_password_credential = Passwords.get_password_credential (nets Method.get_password_credential);
  change_password = Passwords.change_password (nets Method.change_password);
  find_password_reset_user =
      Passwords.find_password_reset_user lib (nets Method.find_password_reset_user);
  create_password_reset = Passwords.create_password_reset (nets Method.create_password_reset);
  reset_password = Passwords.reset_password (nets Method.reset_password);
}
