-- ===== src/Postgres/Accounts/Steps.antt =====
-- Every call of the repository changes the accounts in one of these ways, on any network.
use family_tree_identity_mic.Shared.{
  ◌≡◌, refl, ◌⊎◌, inl, inr, Bool, Option-cases, arith, ◌==◌, update, find_join, Text,
}
use family_tree_identity_mic.Domain.Email.{TextLibrary}
use family_tree_identity_mic.Domain.User.{Uuid, Time}
use family_tree_identity_mic.Ports.{RegistrationRecord, SessionRecord, PasswordResetRecord}
use family_tree_identity_mic.Postgres.Tables.{Db, CredentialRow}
use family_tree_identity_mic.Postgres.Connection.{Network, steady}
use family_tree_identity_mic.Postgres.Sql.{SqlLibrary, nullable_inet}
use family_tree_identity_mic.Postgres.Inserts.{insert_session, insert_token}
use family_tree_identity_mic.Postgres.Selects.{
  is_verification_pair, is_session_pair, is_used_pair, is_reset_pair, select_reset,
  lock_active_user,
}
use family_tree_identity_mic.Postgres.Updates.{
  is_current_credential, with_password, revoke_by_token, revoke_open_sessions, revoke_owned,
  replace_password, revoke_user_sessions, set_password, spend_reset_tokens, mark_token_used,
}
use family_tree_identity_mic.Postgres.Sessions.{
  create_session, rotate_refresh_token, revoke_session, revoke_all_sessions, revoke_owned_session,
}
use family_tree_identity_mic.Postgres.Passwords.{
  change_password, create_password_reset, replace_reset_token, reset_password, reset_selected,
}
use family_tree_identity_mic.Postgres.Registration.{create_registration, verify_email}
use family_tree_identity_mic.Postgres.Stored.{is_no_rows}
use family_tree_identity_mic.Postgres.Calls.{Call, perform}
use family_tree_identity_mic.Postgres.Effects.{
  create_registration-Registers, verify_email-Verifies, verify_email-unknown,
  rotate_refresh_token-Rotates, rotate_refresh_token-Replays, rotate_refresh_token-unknown,
}
use family_tree_identity_mic.Postgres.Atomicity.{perform-keeps}
use family_tree_identity_mic.Postgres.Accounts.{
  IsGenuine, IsGenuineCall, AccountStep, kept, registered, verified, secured,
}

kept_or_secured :
    (lib : TextLibrary) {before after : Db} (which : CredentialRow → Bool) (hash : Text)
    (now : Time)
    → after.users ≡ before.users
    → (after.credentials ≡ before.credentials)
      ⊎ (after.credentials ≡ update which (with_password hash now) before.credentials)
    → AccountStep lib before after
kept_or_secured lib which hash now u (inl c) = kept u c
kept_or_secured lib which hash now u (inr c) = secured which hash now u c

module _ (lib : TextLibrary) (sql : SqlLibrary) (db : Db) where
  abbrev AccountsTo : Db → Type 0
  AccountsTo = AccountStep lib db

  registration-AccountsTo :
      (r : RegistrationRecord)
      → IsGenuine lib r
      → AccountsTo (create_registration sql steady r db).1
  registration-AccountsTo r genuine = elim (create_registration-Registers sql r db) [
    | inl e ↦ kept (ground arith) (ground arith)
    | inr e ↦ registered r genuine e
  ]

  verification-AccountsTo :
      (h : Text) (now : Time) → AccountsTo (verify_email lib steady h now db).1
  verification-AccountsTo h now =
      elim (Option-cases (find_join (is_verification_pair h) db.tokens db.users)) [
        | inl e ↦ rw (verify_email-unknown lib sql now db h e) (kept refl refl)
        | inr ((t, u), e) ↦ elim (verify_email-Verifies lib sql now db h t u e) [
          | inl e' ↦ kept (ground arith) (ground arith)
          | inr v ↦ verified u.id now (ground arith) (ground arith)
        ]
      ]

  session-AccountsTo : (r : SessionRecord) → AccountsTo (create_session sql steady r db).1
  unfolding create_session insert_session nullable_inet
  session-AccountsTo r = kept (ground arith) (ground arith)

  rotation-AccountsTo :
      (h n ua ip : Text) (now : Time)
      → AccountsTo (rotate_refresh_token lib sql steady h n ua ip now db).1
  rotation-AccountsTo h n ua ip now =
      elim (Option-cases (find_join (is_session_pair h) db.sessions db.users)) [
        | inl e ↦ elim (Option-cases (find_join (is_used_pair h) db.used_tokens db.sessions)) [
          | inl e' ↦
              rw (rotate_refresh_token-unknown lib sql now db h n ua ip e e') (kept refl refl)
          | inr ((t, s), e') ↦
              rw (rotate_refresh_token-Replays lib sql now db h n ua ip t s e e') (kept refl refl)
        ]
        | inr ((s, u), e) ↦
            let steps = rotate_refresh_token-Rotates lib sql now db h n ua ip s u e in
            kept (ground arith) (ground arith)
      ]

  logout-AccountsTo : (h : Text) (now : Time) → AccountsTo (revoke_session steady h now db).1
  unfolding revoke_session revoke_by_token
  logout-AccountsTo h now = kept refl refl

  logout_all-AccountsTo :
      (id : Uuid) (now : Time) → AccountsTo (revoke_all_sessions steady id now db).1
  unfolding revoke_all_sessions revoke_open_sessions
  logout_all-AccountsTo id now = kept refl refl

  logout_one-AccountsTo :
      (id session_id : Uuid) (now : Time)
      → AccountsTo (revoke_owned_session steady id session_id now db).1
  unfolding revoke_owned_session revoke_owned
  logout_one-AccountsTo id session_id now = kept (ground arith) (ground arith)

  password_change-AccountsTo :
      (id : Uuid) (e n : Text) (now : Time) → AccountsTo (change_password steady id e n now db).1
  unfolding change_password replace_password revoke_user_sessions
  password_change-AccountsTo id e n now =
      kept_or_secured lib (is_current_credential id e db) n now (ground arith) (ground arith)

  reset_request-AccountsTo :
      (r : PasswordResetRecord) → AccountsTo (create_password_reset steady r db).1
  unfolding create_password_reset lock_active_user replace_reset_token spend_reset_tokens
      insert_token is_no_rows
  reset_request-AccountsTo r = kept (ground arith) (ground arith)

  password_reset-AccountsTo :
      (h n : Text) (now : Time) → AccountsTo (reset_password steady h n now db).1
  unfolding reset_password select_reset reset_selected set_password revoke_user_sessions
      mark_token_used is_no_rows
  password_reset-AccountsTo h n now =
      elim (Option-cases (find_join (is_reset_pair h) db.tokens db.users)) [
        | inl e ↦ kept (ground arith) (ground arith)
        | inr ((t, u), e) ↦
            kept_or_secured lib (λ c. c.user_id == t.user_id) n now (ground arith) (ground arith)
      ]

  steady-AccountsTo :
      (call : Call) → IsGenuineCall lib call → AccountsTo (perform lib sql steady call db).1
  unfolding perform
  steady-AccountsTo (Call.registration r) g = registration-AccountsTo r g
  steady-AccountsTo (Call.verification h now) g = verification-AccountsTo h now
  steady-AccountsTo (Call.session r) g = session-AccountsTo r
  steady-AccountsTo (Call.rotation h n ua ip now) g = rotation-AccountsTo h n ua ip now
  steady-AccountsTo (Call.logout h now) g = logout-AccountsTo h now
  steady-AccountsTo (Call.logout_all id now) g = logout_all-AccountsTo id now
  steady-AccountsTo (Call.logout_one id s now) g = logout_one-AccountsTo id s now
  steady-AccountsTo (Call.password_change id e n now) g = password_change-AccountsTo id e n now
  steady-AccountsTo (Call.reset_request r) g = reset_request-AccountsTo r
  steady-AccountsTo (Call.password_reset h n now) g = password_reset-AccountsTo h n now

  pub perform-AccountStep :
      (net : Network) (call : Call)
      → IsGenuineCall lib call
      → AccountStep lib db (perform lib sql net call db).1
  perform-AccountStep net call g =
      perform-keeps lib sql net db AccountsTo call (kept refl refl) (steady-AccountsTo call g)
