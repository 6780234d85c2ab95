-- ===== src/Postgres/Tokens/Once.antt =====
-- A verification or reset token that was used is refused when it is presented again.
use mathlib.Core.Option
use family_tree_identity_mic.Shared.{
  ◌+◌, ◌<◌, ◌≡◌, refl, ◌∙◌, inl, inr, Bool, true, false, not, ◌||◌, Option-cases, some, none, List,
  arith, ltb, ◌==◌, ==_iff, is_some, find_join, find_join-update, find_join-update_inner, update,
  All-always, Text, if◌then◌else◌,
}
use family_tree_identity_mic.Domain.Errors.{DomainError, sentinel, Result, ok, err}
use family_tree_identity_mic.Domain.Email.{TextLibrary}
use family_tree_identity_mic.Domain.User.{User, UserStatus, Time, is_active}
use family_tree_identity_mic.Ports.{Done}
use family_tree_identity_mic.Postgres.Tables.{Db, TokenRow, UserRow}
use family_tree_identity_mic.Postgres.Connection.{Network, steady}
use family_tree_identity_mic.Postgres.Selects.{
  is_verification_pair, is_reset_pair, select_verification, select_reset,
}
use family_tree_identity_mic.Postgres.Updates.{
  spent, activated, activate_user, mark_token_used, set_password, revoke_user_sessions,
  with_password, revoked_once,
}
use family_tree_identity_mic.Postgres.Registration.{verify_email, verify_selected}
use family_tree_identity_mic.Postgres.Passwords.{reset_password, reset_selected}
use family_tree_identity_mic.Postgres.Atomicity.{Atomic-ok, reset_password-Atomic}
use family_tree_identity_mic.Postgres.Stored.{read_email, is_no_rows}

-- A join finds the spent token where it found the token.
spent_there :
    (p : TokenRow → UserRow → Bool) (tokens : List TokenRow) (users : List UserRow) (now : Time)
    {t : TokenRow} {u : UserRow}
    → ((x : TokenRow) (y : UserRow) → p (spent now x) y ≡ p x y)
    → find_join p tokens users ≡ some (t, u)
    → find_join p (update (λ v. v.id == t.id) (spent now) tokens) users ≡ some (spent now t, u)
spent_there p tokens users now {t} blind e =
    find_join-update p p (λ v. v.id == t.id) (spent now) tokens users
      (All-always _ tokens (λ v y. ground (arith, blind v y)))
    ∙ rw (e, Option.map, (==_iff t.id t.id).1 refl) refl

module _ (lib : TextLibrary) (net : Network) (token : Text) (now : Time) (db : Db) where
  verified_row :
      (user : User)
      → (verify_email lib net token now db).0 ≡ ok user
      → (t : TokenRow) × (u : UserRow) × (find_join (is_verification_pair token) db.tokens db.users
          ≡ some (t, u))
  unfolding verify_email select_verification is_no_rows
  verified_row user success =
      elim (Option-cases (find_join (is_verification_pair token) db.tokens db.users)) [
        | inl e ↦ absurd (ground arith)
        | inr ((t, u), e) ↦ (t, u, e)
      ]

  verified_tables :
      (user : User) (t : TokenRow) (u : UserRow)
      → find_join (is_verification_pair token) db.tokens db.users ≡ some (t, u)
      → (verify_email lib net token now db).0 ≡ ok user
      → (t.used_at ≡ none)
        × (now < t.expires_at)
        × (user.id ≡ u.id)
        × (user.status ≡ UserStatus.active)
        × (user.version ≡ u.version + 1)
        × ((verify_email lib net token now db).1 ≡ record db {
          users = update (λ v. v.id == u.id) (activated now) db.users;
          tokens = update (λ v. v.id == t.id) (spent now) db.tokens;
        })
  unfolding verify_email verify_selected select_verification activate_user mark_token_used
      read_email is_no_rows
  verified_tables user t u e success = ground arith

module _ (lib : TextLibrary) (token : Text) (now : Time) (db : Db) where
  verify_email-used :
      (t : TokenRow) (u : UserRow)
      → find_join (is_verification_pair token) db.tokens db.users ≡ some (t, u)
      → is_some t.used_at ≡ true
      → verify_email lib steady token now db
        ≡ (err (sentinel DomainError.verification_token_used), db)
  unfolding verify_email verify_selected select_verification
  verify_email-used t u e used = ground arith

-- A verification that succeeds, on any network, makes its token useless: presented again at any
-- time, it is answered with `ErrVerificationTokenUsed`, and nothing changes.
pub verify_email_once :
    (lib : TextLibrary) (net : Network) (token : Text) (now later : Time) (db : Db) (user : User)
    → (verify_email lib net token now db).0 ≡ ok user
    → let after = (verify_email lib net token now db).1 in
      verify_email lib steady token later after
      ≡ (err (sentinel DomainError.verification_token_used), after)
verify_email_once lib net token now later db user success =
    let (t, u, e) = verified_row lib net token now db user success in
    let (fresh, early, id, status, version, tables) =
      verified_tables lib net token now db user t u e success in
    rw tables (
      verify_email-used lib token later _ (spent now t)
        (if u.id == u.id then activated now u else u)
        (find_join-update_inner (is_verification_pair token) (λ v. v.id == u.id) (activated now)
            (update (λ v. v.id == t.id) (spent now) db.tokens) db.users (λ x y. refl)
          ∙ rw
              (
                spent_there (is_verification_pair token) db.tokens db.users now (λ x y. refl) e,
                Option.map,
              )
              refl)
        refl)

module _ (token hash : Text) (now : Time) (db : Db) where
  abbrev pub reset : Result Done × Db
  reset = reset_password steady token hash now db

  pub reset_row :
      reset.0 ≡ ok tt
      → (t : TokenRow) × (u : UserRow) × (find_join (is_reset_pair token) db.tokens db.users
          ≡ some (t, u))
  unfolding reset_password select_reset is_no_rows
  reset_row success = elim (Option-cases (find_join (is_reset_pair token) db.tokens db.users)) [
    | inl e ↦ absurd (ground arith)
    | inr ((t, u), e) ↦ (t, u, e)
  ]

  -- What a reset that succeeds has tested.
  pub reset_tests :
      (t : TokenRow) (u : UserRow)
      → find_join (is_reset_pair token) db.tokens db.users ≡ some (t, u)
      → (reset_password steady token hash now db).0 ≡ ok tt
      → (is_some t.used_at ≡ false)
        × (ltb now t.expires_at ≡ true)
        × ((is_some u.deleted_at || not (is_active u.status)) ≡ false)
  unfolding reset_password reset_selected select_reset is_no_rows
  reset_tests t u e success = ground arith

  abbrev pub reset_db : TokenRow → Db
  reset_db t = record db {
    credentials = update (λ c. c.user_id == t.user_id) (with_password hash now) db.credentials;
    sessions = update (λ s. s.user_id == t.user_id) (revoked_once now) db.sessions;
    tokens = update (λ v. v.id == t.id) (spent now) db.tokens;
  }

  reset_selected_tables :
      (t : TokenRow) (u : UserRow)
      → (is_some t.used_at ≡ false)
      → (ltb now t.expires_at ≡ true)
      → ((is_some u.deleted_at || not (is_active u.status)) ≡ false)
      → reset_selected steady hash now (t, u) (record { stored = db; working = db })
        ≡ (ok tt, record { stored = reset_db t; working = reset_db t })
  unfolding reset_selected set_password revoke_user_sessions mark_token_used
  reset_selected_tables t u fresh early available = rw (fresh, early, available) refl

  -- What it changes.
  pub reset_tables :
      (t : TokenRow) (u : UserRow)
      → find_join (is_reset_pair token) db.tokens db.users ≡ some (t, u)
      → (is_some t.used_at ≡ false)
      → (ltb now t.expires_at ≡ true)
      → ((is_some u.deleted_at || not (is_active u.status)) ≡ false)
      → (reset_password steady token hash now db).1 ≡ reset_db t
  unfolding reset_password select_reset
  reset_tables t u e fresh early available =
      ground (arith, reset_selected_tables t u fresh early available)

reset_password-used :
    (token hash : Text) (now : Time) (db : Db) (t : TokenRow) (u : UserRow)
    → find_join (is_reset_pair token) db.tokens db.users ≡ some (t, u)
    → is_some t.used_at ≡ true
    → reset_password steady token hash now db
      ≡ (err (sentinel DomainError.password_reset_token_used), db)
unfolding reset_password reset_selected select_reset
reset_password-used token hash now db t u e used = ground arith

-- A password reset that succeeds, on any network, makes its token useless: presented again at any
-- time, with any password, it is answered with `ErrPasswordResetTokenUsed`, and nothing changes.
pub reset_password_once :
    (net : Network) (token hash hash' : Text) (now later : Time) (db : Db)
    → (reset_password net token hash now db).0 ≡ ok tt
    → let after = (reset_password net token hash now db).1 in
      reset_password steady token hash' later after
      ≡ (err (sentinel DomainError.password_reset_token_used), after)
reset_password_once net token hash hash' now later db success =
    let same_call =
      Atomic-ok (reset_password net token hash now db) (reset_password steady token hash now db)
        (reset_password-Atomic net db token hash now) success in
    let success' = rw same_call at success in
    let (t, u, e) = reset_row token hash now db success' in
    let (fresh, early, available) = reset_tests token hash now db t u e success' in
    let tables = reset_tables token hash now db t u e fresh early available in
    rw (same_call, tables)
      (reset_password-used token hash' later _ (spent now t) u
        (spent_there (is_reset_pair token) db.tokens db.users now (λ x y. refl) e) refl)
