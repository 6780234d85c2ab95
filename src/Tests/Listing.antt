-- ===== src/Tests/Listing.antt =====
-- Requests for a password reset and lists of sessions, on the small database.
use family_tree_identity_mic.Shared.{
  false, not, ◌&&◌, ◌==◌, is_none, select, any, count, update, ◌≡◌, refl, [], ◌∷◌, find, same, true,
  ◌<◌,
}
use family_tree_identity_mic.Domain.Errors.{ok}
use family_tree_identity_mic.Domain.User.{is_active}
use family_tree_identity_mic.Ports.{PasswordResetRecord}
use family_tree_identity_mic.Postgres.Connection.{steady}
use family_tree_identity_mic.Postgres.Stored.{is_no_rows}
use family_tree_identity_mic.Postgres.Inserts.{insert_token}
use family_tree_identity_mic.Postgres.Selects.{lock_active_user}
use family_tree_identity_mic.Postgres.Updates.{
  spend_reset_tokens, revoke_open_sessions, is_open_session,
}
use family_tree_identity_mic.Postgres.Sessions.{list_sessions, revoke_all_sessions}
use family_tree_identity_mic.Postgres.Passwords.{
  create_password_reset, replace_reset_token, reset_token,
}
use family_tree_identity_mic.Postgres.Tokens.Replacement.{
  is_open_reset, create_password_reset-Replaces,
}
use family_tree_identity_mic.Postgres.Listing.{revoke_all_sessions-empties}
use family_tree_identity_mic.Tests.Fixtures.{plain_sql, db}

abbrev request : PasswordResetRecord
request = record {
  token_id = 31;
  user_id = 1;
  token_hash = b'q' ∷ [];
  expires_at = 120;
  created_at = 50;
}

requested : (create_password_reset steady request db).0 ≡ ok tt
unfolding create_password_reset replace_reset_token lock_active_user spend_reset_tokens insert_token
    is_no_rows find any update same
requested = refl

create_password_reset-Replaces_example :
    let after = (create_password_reset steady request db).1 in
    (any (λ u. u.id == 1 && is_active u.status && is_none u.deleted_at) db.users ≡ true)
    × (any (λ t. same (b'q' ∷ []) t.token_hash) db.tokens ≡ false)
    × (50 < 120)
    × (select (is_open_reset 1) after.tokens ≡ reset_token request ∷ [])
    × (select (λ t. not (t.user_id == 1)) after.tokens
        ≡ select (λ t. not (t.user_id == 1)) db.tokens)
create_password_reset-Replaces_example = create_password_reset-Replaces steady request db requested

closed_alice : (revoke_all_sessions steady 1 50 db).0 ≡ ok 1
unfolding revoke_all_sessions revoke_open_sessions count update
closed_alice = refl

alice_exists : any (λ u. u.id == 1 && is_none u.deleted_at) db.users ≡ true
unfolding any
alice_exists = refl

revoke_all_sessions-empties_example :
    (1 ≡ count (is_open_session 1) db.sessions)
    × ((list_sessions plain_sql steady 1 60 (revoke_all_sessions steady 1 50 db).1).0 ≡ ok [])
revoke_all_sessions-empties_example =
    revoke_all_sessions-empties plain_sql steady 1 50 60 db 1 alice_exists closed_alice
