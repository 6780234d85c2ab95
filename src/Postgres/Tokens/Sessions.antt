-- ===== src/Postgres/Tokens/Sessions.antt =====
-- A password that is changed or reset ends every session of its user, and no other.
use family_tree_identity_mic.Shared.{
  ◌<◌, ◌≡◌, refl, inl, inr, Bool, Bool-cases, true, false, not, ◌&&◌, some, none, List, [], ◌∷◌,
  arith, ◌==◌, is_some, find_join, any, any-false, any-changed, any-holds, count, count-zero,
  select, update, All, Text, same, same_refl,
}
use family_tree_identity_mic.Domain.Errors.{DomainError, sentinel, ok, err}
use family_tree_identity_mic.Domain.User.{Uuid, Time, is_active}
use family_tree_identity_mic.Postgres.Tables.{Db, SessionRow, CredentialRow, TokenRow, UserRow}
use family_tree_identity_mic.Postgres.Connection.{Network, steady}
use family_tree_identity_mic.Postgres.Selects.{is_reset_pair}
use family_tree_identity_mic.Postgres.Updates.{
  revoked_once, replace_password, revoke_user_sessions, is_current_credential, with_password,
}
use family_tree_identity_mic.Postgres.Passwords.{change_password, reset_password}
use family_tree_identity_mic.Postgres.Atomicity.{
  Atomic-ok, change_password-Atomic, reset_password-Atomic,
}
use family_tree_identity_mic.Postgres.Tokens.Once.{reset_row, reset_tests, reset_tables}

abbrev pub is_of : Uuid → SessionRow → Bool
is_of user_id s = s.user_id == user_id

abbrev pub IsOver : Uuid → SessionRow → Type 0
IsOver user_id s = is_of user_id s ≡ true → is_some s.revoked_at ≡ true

-- Every session of the user is revoked, and the other users' sessions are as they were.
pub record Ended (user_id : Uuid) (before after : List SessionRow) : Type 0 where
  pub over : All (IsOver user_id) after
  pub others :
      select (λ s. not (is_of user_id s)) after ≡ select (λ s. not (is_of user_id s)) before

module _ (user_id : Uuid) (now : Time) where
  abbrev ended : List SessionRow → List SessionRow
  ended = update (is_of user_id) (revoked_once now)

  ended-IsOver : (sessions : List SessionRow) → All (IsOver user_id) (ended sessions)
  unfolding update
  ended-IsOver [] = tt
  ended-IsOver (s ∷ ss) = elim (Bool-cases (is_of user_id s)) [
    | inl hit ↦ rw hit ((λ e. refl), ended-IsOver ss)
    | inr miss ↦ rw miss ((λ e. ground arith), ended-IsOver ss)
  ]

  ended-others :
      (sessions : List SessionRow)
      → select (λ s. not (is_of user_id s)) (ended sessions)
        ≡ select (λ s. not (is_of user_id s)) sessions
  unfolding update select
  ended-others [] = refl
  ended-others (s ∷ ss) = ground (arith, ended-others ss)

  update-Ended : (sessions : List SessionRow) → Ended user_id sessions (ended sessions)
  update-Ended sessions = record { over = ended-IsOver sessions; others = ended-others sessions }

-- The credential of the user, with this hash.
abbrev pub has_hash : Uuid → Text → CredentialRow → Bool
has_hash user_id hash c = c.user_id == user_id && same c.password_hash hash

module _ (user_id : Uuid) (expected new : Text) (now : Time) (db : Db) where
  change_tables :
      (change_password steady user_id expected new now db).0 ≡ ok tt
      → (count (is_current_credential user_id expected db) db.credentials ≡ 0 → ⊥)
        × ((change_password steady user_id expected new now db).1 ≡ record db {
          credentials =
              update
                (is_current_credential user_id expected db)
                (with_password new now)
                db.credentials;
          sessions = update (λ s. s.user_id == user_id) (revoked_once now) db.sessions;
        })
  unfolding change_password replace_password revoke_user_sessions
  change_tables success = (λ e. ground arith, ground arith)

  -- A change from a password that is not the stored one, as when another change came between, is
  -- answered with `ErrInvalidCredentials`, and nothing changes.
  pub change_password_stale :
      any (has_hash user_id expected) db.credentials ≡ false
      → change_password steady user_id expected new now db
        ≡ (err (sentinel DomainError.invalid_credentials), db)
  unfolding change_password replace_password
  change_password_stale stale =
      let none_current = count-zero (is_current_credential user_id expected db) db.credentials (
        any-false (is_current_credential user_id expected db) (has_hash user_id expected)
          db.credentials (λ c h. ground arith) stale) in
      ground arith

counted :
    (p : CredentialRow → Bool) (cs : List CredentialRow) → (count p cs ≡ 0 → ⊥) → any p cs ≡ true
counted p cs h = elim (Bool-cases (any p cs)) [ inl e ↦ e | inr e ↦ absurd (h (count-zero p cs e)) ]

-- A change of password that succeeds, on any network, replaced the expected hash by the new one,
-- revoked every session of the user, and left the other users' sessions and all users alone.
pub change_password-Ended :
    (net : Network) (user_id : Uuid) (expected new : Text) (now : Time) (db : Db)
    → (change_password net user_id expected new now db).0 ≡ ok tt
    → let after = (change_password net user_id expected new now db).1 in
      (any (has_hash user_id expected) db.credentials ≡ true)
      × (any (has_hash user_id new) after.credentials ≡ true)
      × Ended user_id db.sessions after.sessions
      × (after.users ≡ db.users)
change_password-Ended net user_id expected new now db success =
    let same_call =
      Atomic-ok (change_password net user_id expected new now db)
        (change_password steady user_id expected new now db)
        (change_password-Atomic net db user_id expected new now) success in
    let (some_row, tables) = change_tables user_id expected new now db (rw same_call at success) in
    let current = is_current_credential user_id expected db in
    let found = counted current db.credentials some_row in
    rw (same_call, tables)
      (
        any-holds current (has_hash user_id expected) db.credentials (λ c h. ground arith) found,
        any-changed current (has_hash user_id new) (with_password new now) db.credentials
            (λ c h. ground (arith, same_refl new)) found,
        update-Ended user_id now db.sessions,
        refl,
      )

-- A password reset that succeeds, on any network, presented a token that was not used and not
-- expired, of an active user that is not deleted; it revoked every session of the token's owner, and
-- left the other users' sessions and all users alone.
pub reset_password-Ended :
    (net : Network) (token new : Text) (now : Time) (db : Db)
    → (reset_password net token new now db).0 ≡ ok tt
    → let after = (reset_password net token new now db).1 in
      (t : TokenRow) × (u : UserRow) × (find_join (is_reset_pair token) db.tokens db.users
        ≡ some (t, u))
      × (t.used_at ≡ none)
      × (now < t.expires_at)
      × (u.deleted_at ≡ none)
      × (is_active u.status ≡ true)
      × Ended t.user_id db.sessions after.sessions
      × (after.users ≡ db.users)
reset_password-Ended net token new now db success =
    let same_call =
      Atomic-ok (reset_password net token new now db) (reset_password steady token new now db)
        (reset_password-Atomic net db token new now) success in
    let success' = rw same_call at success in
    let (t, u, e) = reset_row token new now db success' in
    let (fresh, early, available) = reset_tests token new now db t u e success' in
    let tables = reset_tables token new now db t u e fresh early available in
    rw (same_call, tables)
      (
        t,
        u,
        e,
        ground arith,
        ground arith,
        ground arith,
        ground arith,
        update-Ended t.user_id now db.sessions,
        refl,
      )
