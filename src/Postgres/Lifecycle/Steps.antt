-- ===== src/Postgres/Lifecycle/Steps.antt =====
-- Every call of the repository is such a step, on any network.
use family_tree_identity_mic.Shared.{
  ◌<◌, ◌≡◌, refl, ap, ◌⊎◌, inl, inr, Bool, false, none, Option-cases, List, ◌∷◌, arith, ◌==◌, any,
  update, find_join, coalesce, same, Text,
}
use family_tree_identity_mic.Domain.Email.{TextLibrary}
use family_tree_identity_mic.Domain.User.{Uuid, Time}
use family_tree_identity_mic.Ports.{RegistrationRecord, SessionRecord, PasswordResetRecord}
use family_tree_identity_mic.Postgres.Tables.{Db, SessionRow}
use family_tree_identity_mic.Postgres.Connection.{Network, steady}
use family_tree_identity_mic.Postgres.Sql.{SqlLibrary, nullable_inet}
use family_tree_identity_mic.Postgres.Inserts.{insert_session, insert_token}
use family_tree_identity_mic.Postgres.Selects.{
  is_verification_pair, is_session_pair, is_used_pair, is_reset_pair, select_reset,
  lock_active_user,
}
use family_tree_identity_mic.Postgres.Updates.{
  is_open_session, is_owned_session, is_session_of_token, revoke_by_token, revoke_open_sessions,
  revoke_owned, replace_password, revoke_user_sessions, set_password, spend_reset_tokens,
  mark_token_used,
}
use family_tree_identity_mic.Postgres.Sessions.{
  create_session, created_session, rotate_refresh_token, revoke_session, revoke_all_sessions,
  revoke_owned_session,
}
use family_tree_identity_mic.Postgres.Passwords.{
  change_password, create_password_reset, replace_reset_token, reset_password, reset_selected,
}
use family_tree_identity_mic.Postgres.Registration.{create_registration, verify_email}
use family_tree_identity_mic.Postgres.Calls.{Call, perform}
use family_tree_identity_mic.Postgres.Effects.{
  create_registration-Registers, verify_email-Verifies, verify_email-unknown,
  rotate_refresh_token-Rotates, rotate_refresh_token-Replays, rotate_refresh_token-unknown,
  kept_address,
}
use family_tree_identity_mic.Postgres.Atomicity.{perform-keeps}
use family_tree_identity_mic.Postgres.Lifecycle.{
  SessionStep, kept, opened, closed, renewed, closed_at,
}
use family_tree_identity_mic.Postgres.Stored.{is_no_rows}

-- The two steps that a method decides between, as facts that can be computed.
kept_or_opened :
    {before after : List SessionRow} (row : SessionRow)
    → row.revoked_at ≡ none
    → (after ≡ before)
      ⊎ ((row.created_at < row.expires_at)
          × (any (λ s. s.id == row.id) before ≡ false)
          × (any (λ s. same row.refresh_token_hash s.refresh_token_hash) before ≡ false)
          × (after ≡ row ∷ before))
    → SessionStep before after
kept_or_opened row live (inl e) = kept e
kept_or_opened row live (inr (order, id, hash, e)) = opened row live order id hash e

kept_or_closed :
    {before after : List SessionRow} (which : SessionRow → Bool) (time : SessionRow → Time)
    → (after ≡ before) ⊎ (after ≡ update which (closed_at time) before)
    → SessionStep before after
kept_or_closed which time (inl e) = kept e
kept_or_closed which time (inr e) = closed which time e

module _ (lib : TextLibrary) (sql : SqlLibrary) (db : Db) where
  abbrev StepTo : Db → Type 0
  StepTo after = SessionStep db.sessions after.sessions

  create_registration-StepTo :
      (r : RegistrationRecord) → StepTo (create_registration sql steady r db).1
  create_registration-StepTo r = elim (create_registration-Registers sql r db) [
    | inl e ↦ kept (ground arith)
    | inr e ↦ kept (ground arith)
  ]

  verify_email-StepTo : (h : Text) (now : Time) → StepTo (verify_email lib steady h now db).1
  verify_email-StepTo h now =
      elim (Option-cases (find_join (is_verification_pair h) db.tokens db.users)) [
        | inl e ↦ kept (ground (arith, verify_email-unknown lib sql now db h))
        | inr ((t, u), e) ↦ kept (ground (arith, verify_email-Verifies lib sql now db h t u e))
      ]

  create_session-StepTo : (r : SessionRecord) → StepTo (create_session sql steady r db).1
  unfolding create_session insert_session nullable_inet
  create_session-StepTo r =
      kept_or_opened (created_session r (kept_address sql r.ip_address)) refl (ground arith)

  revoke_session-StepTo : (h : Text) (now : Time) → StepTo (revoke_session steady h now db).1
  unfolding revoke_session revoke_by_token
  revoke_session-StepTo h now =
      closed (is_session_of_token h db) (λ s. coalesce s.revoked_at now) refl

  revoke_all_sessions-StepTo :
      (id : Uuid) (now : Time) → StepTo (revoke_all_sessions steady id now db).1
  unfolding revoke_all_sessions revoke_open_sessions
  revoke_all_sessions-StepTo id now = closed (is_open_session id) (λ s. now) refl

  revoke_owned_session-StepTo :
      (id session_id : Uuid) (now : Time)
      → StepTo (revoke_owned_session steady id session_id now db).1
  unfolding revoke_owned_session revoke_owned
  revoke_owned_session-StepTo id session_id now =
      closed (is_owned_session id session_id) (λ s. coalesce s.revoked_at now) (ground arith)

  change_password-StepTo :
      (id : Uuid) (e n : Text) (now : Time) → StepTo (change_password steady id e n now db).1
  unfolding change_password replace_password revoke_user_sessions
  change_password-StepTo id e n now =
      kept_or_closed (λ s. s.user_id == id) (λ s. coalesce s.revoked_at now) (ground arith)

  create_password_reset-StepTo :
      (r : PasswordResetRecord) → StepTo (create_password_reset steady r db).1
  unfolding create_password_reset lock_active_user replace_reset_token spend_reset_tokens
      insert_token is_no_rows
  create_password_reset-StepTo r = kept (ground arith)

  reset_password-StepTo : (h n : Text) (now : Time) → StepTo (reset_password steady h n now db).1
  unfolding reset_password select_reset reset_selected set_password revoke_user_sessions
      mark_token_used is_no_rows
  reset_password-StepTo h n now =
      elim (Option-cases (find_join (is_reset_pair h) db.tokens db.users)) [
        | inl e ↦ kept (ground arith)
        | inr ((t, u), e) ↦
            kept_or_closed (λ s. s.user_id == t.user_id) (λ s. coalesce s.revoked_at now)
              (ground arith)
      ]

  rotate-StepTo :
      (h n ua ip : Text) (now : Time)
      → StepTo (rotate_refresh_token lib sql steady h n ua ip now db).1
  rotate-StepTo h n ua ip now =
      elim (Option-cases (find_join (is_session_pair h) db.sessions db.users)) [
        | inl e ↦ elim (Option-cases (find_join (is_used_pair h) db.used_tokens db.sessions)) [
          | inl e' ↦ rw (rotate_refresh_token-unknown lib sql now db h n ua ip e e') (kept refl)
          | inr ((t, s), e') ↦
              rw (rotate_refresh_token-Replays lib sql now db h n ua ip t s e e')
                (closed (λ v. v.id == s.id) (λ v. coalesce v.revoked_at now) refl)
        ]
        | inr ((s, u), e) ↦ elim (rotate_refresh_token-Rotates lib sql now db h n ua ip s u e) [
          | inl e' ↦ kept (ap Db.sessions e')
          | inr (inl e') ↦ closed (λ v. v.id == s.id) (λ v. now) (ground arith)
          | inr (inr r) ↦ renewed s.id n ua (kept_address sql ip) now r.5 (ground arith)
        ]
      ]

  steady-StepTo : (call : Call) → StepTo (perform lib sql steady call db).1
  unfolding perform
  steady-StepTo (Call.registration r) = create_registration-StepTo r
  steady-StepTo (Call.verification h now) = verify_email-StepTo h now
  steady-StepTo (Call.session r) = create_session-StepTo r
  steady-StepTo (Call.rotation h n ua ip now) = rotate-StepTo h n ua ip now
  steady-StepTo (Call.logout h now) = revoke_session-StepTo h now
  steady-StepTo (Call.logout_all id now) = revoke_all_sessions-StepTo id now
  steady-StepTo (Call.logout_one id s now) = revoke_owned_session-StepTo id s now
  steady-StepTo (Call.password_change id e n now) = change_password-StepTo id e n now
  steady-StepTo (Call.reset_request r) = create_password_reset-StepTo r
  steady-StepTo (Call.password_reset h n now) = reset_password-StepTo h n now

  -- On any network a call takes the table of sessions at most one step of a session's life.
  pub perform-SessionStep :
      (net : Network) (call : Call)
      → SessionStep db.sessions (perform lib sql net call db).1.sessions
  perform-SessionStep net call =
      perform-keeps lib sql net db StepTo call (kept refl) (steady-StepTo call)
