-- ===== src/Postgres/Atomicity.antt =====
-- Every method of the repository is atomic, whatever the network does.
use family_tree_identity_mic.Shared.{◌≡◌, sym, subst, ◌⊎◌, inl, inr, Bool, true, false, arith, Text}
use family_tree_identity_mic.Domain.Errors.{
  DriverError, Error, driver, sentinel, policy, foreign, wrap, Result, ok, err,
}
use family_tree_identity_mic.Domain.Email.{TextLibrary}
use family_tree_identity_mic.Domain.User.{Time, Uuid}
use family_tree_identity_mic.Ports.{RegistrationRecord, SessionRecord, PasswordResetRecord}
use family_tree_identity_mic.Postgres.Tables.{Db}
use family_tree_identity_mic.Postgres.Connection.{Network, steady}
use family_tree_identity_mic.Postgres.Sql.{SqlLibrary}
use family_tree_identity_mic.Postgres.Stored.{read_email, is_no_rows, is_constraint}
use family_tree_identity_mic.Postgres.Selects.{
  select_login_identity, select_user, select_user_by_email, select_password_hash,
  select_user_exists, select_sessions,
}
use family_tree_identity_mic.Postgres.Registration.{
  create_registration, user_inserted, verify_email, verify_selected,
}
use family_tree_identity_mic.Postgres.Sessions.{
  create_session, rotate_refresh_token, rotate_selected, handle_possible_refresh_reuse,
  revoke_reused, revoke_session, revoke_all_sessions, list_sessions, revoke_owned_session,
}
use family_tree_identity_mic.Postgres.Calls.{Call, forget, perform}
use family_tree_identity_mic.Postgres.Passwords.{
  find_login_identity, login_found, get_user, read_user, get_password_credential, change_password,
  find_password_reset_user, read_active_user, create_password_reset, replace_reset_token,
  reset_password, reset_selected,
}

-- The failure is one of the network: `disconnected` is behind the error.
unfoldable pub is_unanswered : Error → Bool
is_unanswered (driver DriverError.disconnected) = true
is_unanswered (driver DriverError.no_rows) = false
is_unanswered (driver (DriverError.unique_violation name)) = false
is_unanswered (driver (DriverError.check_violation name)) = false
is_unanswered (driver (DriverError.foreign_key_violation name)) = false
is_unanswered (driver DriverError.out_of_range) = false
is_unanswered (driver DriverError.invalid_text) = false
is_unanswered (wrap s e) = is_unanswered e
is_unanswered (sentinel e) = false
is_unanswered policy = false
is_unanswered (foreign s) = false

abbrev pub Unanswered : {A : Type 0} → Result A → Type 0
Unanswered (ok a) = ⊥
Unanswered (err e) = is_unanswered e ≡ true

-- What a call may do, against what it does when every round trip is answered: the same; or it
-- fails for the network, and the tables are those before the call or those that it would have left.
abbrev pub Atomic : {A : Type 0} → Db → Result A × Db → Result A × Db → Type 0
Atomic db (r, after) (r₀, after₀) =
    ((r ≡ r₀) × (after ≡ after₀)) ⊎ (Unanswered r × ((after ≡ db) ⊎ (after ≡ after₀)))

-- A call that succeeds did what the undisturbed call does.
pub Atomic-ok :
    {A : Type 0} {a : A} {db : Db} (x y : Result A × Db) → Atomic db x y → x.0 ≡ ok a → x ≡ y
Atomic-ok (ok v, after) y (inl (e, h)) success = λ i. (e i, h i)
Atomic-ok (ok v, after) (ok w, after₀) (inr (e, h)) success = absurd e
Atomic-ok (ok v, after) (err w, after₀) (inr (e, h)) success = absurd e
Atomic-ok (err v, after) y h success = cc

module _ (net : Network) (db : Db) where
  revoke_session-Atomic :
      (token_hash : Text) (now : Time)
      → Atomic db (revoke_session net token_hash now db) (revoke_session steady token_hash now db)
  unfolding revoke_session is_unanswered
  revoke_session-Atomic token_hash now = ground arith

  pub revoke_all_sessions-Atomic :
      (user_id : Uuid) (now : Time)
      → Atomic db
          (revoke_all_sessions net user_id now db)
          (revoke_all_sessions steady user_id now db)
  unfolding revoke_all_sessions is_unanswered
  revoke_all_sessions-Atomic user_id now = ground arith

  revoke_owned_session-Atomic :
      (user_id session_id : Uuid) (now : Time)
      → Atomic db
          (revoke_owned_session net user_id session_id now db)
          (revoke_owned_session steady user_id session_id now db)
  unfolding revoke_owned_session is_unanswered
  revoke_owned_session-Atomic user_id session_id now = ground arith

  get_password_credential-Atomic :
      (user_id : Uuid)
      → Atomic db
          (get_password_credential net user_id db)
          (get_password_credential steady user_id db)
  unfolding get_password_credential select_password_hash is_no_rows is_unanswered
  get_password_credential-Atomic user_id = ground arith

  pub change_password-Atomic :
      (user_id : Uuid) (expected new_hash : Text) (now : Time)
      → Atomic db
          (change_password net user_id expected new_hash now db)
          (change_password steady user_id expected new_hash now db)
  unfolding change_password is_unanswered
  change_password-Atomic user_id expected new_hash now = ground arith

  pub create_password_reset-Atomic :
      (r : PasswordResetRecord)
      → Atomic db (create_password_reset net r db) (create_password_reset steady r db)
  unfolding create_password_reset replace_reset_token is_no_rows is_unanswered
  create_password_reset-Atomic r = ground arith

  pub reset_password-Atomic :
      (token_hash new_hash : Text) (now : Time)
      → Atomic db
          (reset_password net token_hash new_hash now db)
          (reset_password steady token_hash new_hash now db)
  unfolding reset_password reset_selected is_no_rows is_unanswered
  reset_password-Atomic token_hash new_hash now = ground arith

  forget-Atomic :
      {A : Type 0} (a b : Result A × Db) → Atomic db a b → Atomic db (forget a) (forget b)
  unfolding is_unanswered
  forget-Atomic (ok x, after) (ok y, after₀) h = ground arith
  forget-Atomic (ok x, after) (err e, after₀) h = ground arith
  forget-Atomic (err e, after) (ok y, after₀) h = ground arith
  forget-Atomic (err e, after) (err e', after₀) h = ground arith

module _ (lib : TextLibrary) (sql : SqlLibrary) (net : Network) (db : Db) where
  create_registration-Atomic :
      (r : RegistrationRecord)
      → Atomic db (create_registration sql net r db) (create_registration sql steady r db)
  unfolding create_registration user_inserted is_unanswered is_constraint
  create_registration-Atomic r = ground arith

  verify_email-Atomic :
      (token_hash : Text) (now : Time)
      → Atomic db
          (verify_email lib net token_hash now db)
          (verify_email lib steady token_hash now db)
  unfolding verify_email verify_selected read_email is_no_rows is_unanswered
  verify_email-Atomic token_hash now = ground arith

  find_login_identity-Atomic :
      (email : Text)
      → Atomic db (find_login_identity lib net email db) (find_login_identity lib steady email db)
  unfolding find_login_identity login_found select_login_identity read_email is_no_rows
      is_unanswered
  find_login_identity-Atomic email = ground arith

  create_session-Atomic :
      (r : SessionRecord) → Atomic db (create_session sql net r db) (create_session sql steady r db)
  unfolding create_session is_unanswered
  create_session-Atomic r = ground arith

  rotate_refresh_token-Atomic :
      (current_hash new_hash user_agent ip_address : Text) (now : Time)
      → Atomic db
          (rotate_refresh_token lib sql net current_hash new_hash user_agent ip_address now db)
          (rotate_refresh_token lib sql steady current_hash new_hash user_agent ip_address now db)
  unfolding rotate_refresh_token rotate_selected handle_possible_refresh_reuse revoke_reused
      read_email is_no_rows is_unanswered
  rotate_refresh_token-Atomic current_hash new_hash user_agent ip_address now = ground arith

  get_user-Atomic :
      (user_id : Uuid) → Atomic db (get_user lib net user_id db) (get_user lib steady user_id db)
  unfolding get_user read_user select_user read_email is_no_rows is_unanswered
  get_user-Atomic user_id = ground arith

  list_sessions-Atomic :
      (user_id : Uuid) (now : Time)
      → Atomic db (list_sessions sql net user_id now db) (list_sessions sql steady user_id now db)
  unfolding list_sessions select_user_exists select_sessions is_unanswered
  list_sessions-Atomic user_id now = ground arith

  find_password_reset_user-Atomic :
      (email : Text)
      → Atomic db
          (find_password_reset_user lib net email db)
          (find_password_reset_user lib steady email db)
  unfolding find_password_reset_user read_active_user read_user select_user_by_email read_email
      is_no_rows is_unanswered
  find_password_reset_user-Atomic email = ground arith

  -- A call acts as if every round trip were answered, with the same result and the same tables; or it
  -- returns an error that tells of the network, and the tables are either untouched or those that
  -- the undisturbed call would have left.
  pub perform-Atomic :
      (call : Call) → Atomic db (perform lib sql net call db) (perform lib sql steady call db)
  unfolding perform
  perform-Atomic (Call.registration r) = create_registration-Atomic r
  perform-Atomic (Call.verification h now) = forget-Atomic net db _ _ (verify_email-Atomic h now)
  perform-Atomic (Call.session r) = create_session-Atomic r
  perform-Atomic (Call.rotation h n ua ip now) =
      forget-Atomic net db _ _ (rotate_refresh_token-Atomic h n ua ip now)
  perform-Atomic (Call.logout h now) = revoke_session-Atomic net db h now
  perform-Atomic (Call.logout_all id now) =
      forget-Atomic net db _ _ (revoke_all_sessions-Atomic net db id now)
  perform-Atomic (Call.logout_one id s now) = revoke_owned_session-Atomic net db id s now
  perform-Atomic (Call.password_change id e n now) = change_password-Atomic net db id e n now
  perform-Atomic (Call.reset_request r) = create_password_reset-Atomic net db r
  perform-Atomic (Call.password_reset h n now) = reset_password-Atomic net db h n now

  -- What the undisturbed call keeps, the call keeps on any network.
  pub perform-keeps {ℓ} :
      (P : Db → Type ℓ) (call : Call)
      → P db
      → P (perform lib sql steady call db).1
      → P (perform lib sql net call db).1
  perform-keeps P call before after = elim (perform-Atomic call) [
    | inl (_, e) ↦ subst P (sym e) after
    | inr (_, inl e) ↦ subst P (sym e) before
    | inr (_, inr e) ↦ subst P (sym e) after
  ]
