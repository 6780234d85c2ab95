-- ===== src/Tests/Postgres.antt =====
-- The repository on the small database.
use family_tree_identity_mic.Shared.{
  any, count, update, ◌≡◌, refl, inr, inl, none, some, [], ◌∷◌, List, All, find, find_join, same,
  is_empty, byte_length, rune_length, is_space, trim_left, trim_right, trim_space, true, ◌<◌, arith,
}
use family_tree_identity_mic.Domain.Errors.{DomainError, sentinel, ok, err}
use family_tree_identity_mic.Domain.Email.{new_email, check_address, split, has_two_parts}
use family_tree_identity_mic.Domain.User.{User, UserStatus, is_active}
use family_tree_identity_mic.Ports.{RegistrationRecord}
use family_tree_identity_mic.Postgres.Tables.{TokenRow, UserRow}
use family_tree_identity_mic.Postgres.Connection.{Network, steady}
use family_tree_identity_mic.Postgres.Sql.{nullable_inet}
use family_tree_identity_mic.Postgres.Stored.{read_email, is_no_rows, user_of}
use family_tree_identity_mic.Postgres.Inserts.{insert_used_token}
use family_tree_identity_mic.Postgres.Selects.{
  select_session, select_verification, select_reset, is_reset_pair,
}
use family_tree_identity_mic.Postgres.Updates.{
  rotate_session, activate_user, mark_token_used, replace_password, set_password,
  revoke_user_sessions,
}
use family_tree_identity_mic.Postgres.Registration.{verify_email, verify_selected, verified_user}
use family_tree_identity_mic.Postgres.Sessions.{rotate_refresh_token, rotate_selected}
use family_tree_identity_mic.Postgres.Passwords.{change_password, reset_password, reset_selected}
use family_tree_identity_mic.Postgres.Calls.{Call, perform, replay}
use family_tree_identity_mic.Postgres.Atomicity.{Atomic, perform-Atomic}
use family_tree_identity_mic.Postgres.Accounts.{UsersInv, IsGenuineCall}
use family_tree_identity_mic.Postgres.Accounts.Invariant.{replay-UsersInv}
use family_tree_identity_mic.Postgres.Lifecycle.Continuity.{StillThere, replay-StillThere}
use family_tree_identity_mic.Postgres.Lifecycle.Distinct.{AreDistinct, replay-AreDistinct}
use family_tree_identity_mic.Postgres.Reuse.{rotation_reuse}
use family_tree_identity_mic.Postgres.Tokens.Once.{verify_email_once, reset_password_once}
use family_tree_identity_mic.Postgres.Tokens.Sessions.{
  Ended, has_hash, change_password-Ended, reset_password-Ended, change_password_stale,
}
use family_tree_identity_mic.Tests.Fixtures.{
  plain, plain_sql, db, unsteady, broken, alice, bob, alice_address, bob_address, carol_address,
  old_token, new_token, old_hash, new_hash, bob_token, alice_token, alice_session,
}

abbrev alice_user : User
alice_user = user_of alice (record { value = alice_address; normalized = alice_address })

rotated_once :
    (rotate_refresh_token plain plain_sql steady old_token new_token [] [] 50 db).0
    ≡ ok (record { id = 10; user = alice_user; expires_at = 100 })
unfolding rotate_refresh_token rotate_selected select_session insert_used_token rotate_session
    nullable_inet read_email is_no_rows new_email check_address split has_two_parts find_join find
    any update count same is_empty byte_length rune_length is_space trim_left trim_right trim_space
rotated_once = refl

distinct : AreDistinct db.sessions
distinct = record { ids = (tt, tt); hashes = (tt, tt); ordered = (ground arith, tt) }

rotation_reuse_example :
    let after = (rotate_refresh_token plain plain_sql steady old_token new_token [] [] 50 db).1 in
    let (first, db') =
      rotate_refresh_token plain plain_sql steady old_token (b'z' ∷ []) [] [] 60 after in
    (first ≡ err (sentinel DomainError.refresh_token_reused))
    × ((rotate_refresh_token plain plain_sql steady new_token (b'y' ∷ []) [] [] 61 db').0
        ≡ err (sentinel DomainError.session_revoked))
unfolding same
rotation_reuse_example =
    rotation_reuse plain plain_sql steady old_token new_token [] [] 50 db
      (record { id = 10; user = alice_user; expires_at = 100 }) distinct refl rotated_once
      (b'z' ∷ []) [] [] (b'y' ∷ []) [] [] 60 61

-- A rotation whose commit is carried out and whose answer is lost.
abbrev rotation : Call
rotation = Call.rotation old_token new_token [] [] 50

perform-Atomic_example :
    Atomic db
      (perform plain plain_sql unsteady rotation db)
      (perform plain plain_sql steady rotation db)
perform-Atomic_example = perform-Atomic plain plain_sql unsteady db rotation

abbrev registration : RegistrationRecord
registration = record {
  user = record {
    id = 3;
    email = record { value = carol_address; normalized = carol_address };
    display_name = b'C' ∷ [];
    status = UserStatus.pending;
    email_verified_at = none;
    created_at = 40;
    updated_at = 40;
    deleted_at = none;
    version = 1;
  };
  password_hash = old_hash;
  verification_token_id = 30;
  verification_token_hash = b'w' ∷ [];
  verification_expires_at = 140;
}

abbrev history : List (Network × Call)
history =
    (steady, Call.registration registration)
    ∷ (broken, Call.verification bob_token 45)
    ∷ (unsteady, rotation)
    ∷ (steady, Call.logout_all 1 60)
    ∷ []

replay-AreDistinct_example : AreDistinct (replay plain plain_sql history db).sessions
replay-AreDistinct_example = replay-AreDistinct plain plain_sql history db distinct

replay-StillThere_example : StillThere 10 alice_session (replay plain plain_sql history db).sessions
unfolding find
replay-StillThere_example = replay-StillThere plain plain_sql history 10 alice_session db refl

genuine : All (λ c. IsGenuineCall plain c.1) history
unfolding new_email check_address split has_two_parts same is_empty byte_length rune_length is_space
    trim_left trim_right trim_space
genuine = ((refl, refl), (tt, (tt, (tt, tt))))

db-UsersInv : UsersInv plain db
unfolding new_email check_address split has_two_parts same is_empty byte_length rune_length is_space
    trim_left trim_right trim_space any
db-UsersInv = record {
  ids = ((refl, tt), (tt, tt));
  emails = ((refl, tt), (tt, tt));
  readable = (refl, (refl, tt));
  standing = (inr (refl, refl), (inl (refl, refl), tt));
  secured = (refl, (refl, tt));
  owners = ((refl, tt), (tt, tt));
}

replay-UsersInv_example : UsersInv plain (replay plain plain_sql history db)
replay-UsersInv_example = replay-UsersInv plain plain_sql history db genuine db-UsersInv

verified_bob :
    (verify_email plain steady bob_token 50 db).0
    ≡ ok (verified_user bob (record { value = bob_address; normalized = bob_address }) 50)
unfolding verify_email verify_selected select_verification activate_user mark_token_used read_email
    is_no_rows new_email check_address split has_two_parts find_join find any update count same
    is_empty byte_length rune_length is_space trim_left trim_right trim_space
verified_bob = refl

verify_email_once_example :
    let after = (verify_email plain steady bob_token 50 db).1 in
    verify_email plain steady bob_token 55 after
    ≡ (err (sentinel DomainError.verification_token_used), after)
verify_email_once_example =
    verify_email_once plain steady bob_token 50 55 db
      (verified_user bob (record { value = bob_address; normalized = bob_address }) 50) verified_bob

reset_alice : (reset_password steady alice_token new_hash 50 db).0 ≡ ok tt
unfolding reset_password reset_selected select_reset set_password mark_token_used
    revoke_user_sessions is_no_rows find_join find any update count same
reset_alice = refl

reset_password_once_example :
    let after = (reset_password steady alice_token new_hash 50 db).1 in
    reset_password steady alice_token old_hash 55 after
    ≡ (err (sentinel DomainError.password_reset_token_used), after)
reset_password_once_example =
    reset_password_once steady alice_token new_hash old_hash 50 55 db reset_alice

reset_password-Ended_example :
    let after = (reset_password steady alice_token new_hash 50 db).1 in
    (t : TokenRow) × (u : UserRow) × (find_join (is_reset_pair alice_token) db.tokens db.users
      ≡ some (t, u))
    × (t.used_at ≡ none)
    × (50 < t.expires_at)
    × (u.deleted_at ≡ none)
    × (is_active u.status ≡ true)
    × Ended t.user_id db.sessions after.sessions
    × (after.users ≡ db.users)
reset_password-Ended_example = reset_password-Ended steady alice_token new_hash 50 db reset_alice

changed_alice : (change_password steady 1 old_hash new_hash 50 db).0 ≡ ok tt
unfolding change_password replace_password revoke_user_sessions any update count same
changed_alice = refl

change_password-Ended_example :
    let after = (change_password steady 1 old_hash new_hash 50 db).1 in
    (any (has_hash 1 old_hash) db.credentials ≡ true)
    × (any (has_hash 1 new_hash) after.credentials ≡ true)
    × Ended 1 db.sessions after.sessions
    × (after.users ≡ db.users)
change_password-Ended_example = change_password-Ended steady 1 old_hash new_hash 50 db changed_alice

change_password_stale_example :
    change_password steady 1 new_hash old_hash 50 db
    ≡ (err (sentinel DomainError.invalid_credentials), db)
unfolding any same
change_password_stale_example = change_password_stale 1 new_hash old_hash 50 db refl
