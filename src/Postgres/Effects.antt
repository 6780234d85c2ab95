-- ===== src/Postgres/Effects.antt =====
-- What each call leaves in the tables when every round trip is answered: they are as before, or
-- changed in one way, and then the constraints that the statements test were met.
use family_tree_identity_mic.Shared.{
  ◌<◌, ◌≡◌, ◌⊎◌, true, false, Option, some, none, ◌∷◌, arith, ltb, ◌==◌, any, update, find_join,
  find_join-any, same, not, ◌&&◌, if◌then◌else◌, is_empty, Text,
}
use family_tree_identity_mic.Domain.Errors.{DriverError, DomainError, sentinel, err}
use family_tree_identity_mic.Domain.Email.{TextLibrary}
use family_tree_identity_mic.Domain.User.{Time, is_active}
use family_tree_identity_mic.Ports.{RegistrationRecord}
use family_tree_identity_mic.Postgres.Tables.{
  Db, UserRow, CredentialRow, SessionRow, TokenRow, UsedTokenRow,
}
use family_tree_identity_mic.Postgres.Connection.{steady, Outcome, done, failed}
use family_tree_identity_mic.Postgres.Sql.{SqlLibrary, nullable_inet}
use family_tree_identity_mic.Postgres.Inserts.{
  is_known, emails_clash, has_user, insert_user, insert_credential, insert_token, insert_used_token,
}
use family_tree_identity_mic.Postgres.Selects.{
  is_verification_pair, is_session_pair, is_used_pair, select_verification, select_session,
  select_used_token,
}
use family_tree_identity_mic.Postgres.Updates.{
  activate_user, activated, mark_token_used, spent, revoked, revoked_once, revoke_by_id,
  revoke_replayed, rotate_session, rotated,
}
use family_tree_identity_mic.Postgres.Registration.{
  create_registration, registered_user, registered_credential, registered_token, user_inserted,
  verify_email, verify_selected,
}
use family_tree_identity_mic.Postgres.Sessions.{
  rotate_refresh_token, rotate_selected, used_token, handle_possible_refresh_reuse, revoke_reused,
}
use family_tree_identity_mic.Postgres.Stored.{read_email, is_no_rows}

-- A new row of `one_time_tokens` meets the table's constraints.
abbrev pub IsNewToken : TokenRow → Db → Type 0
IsNewToken row db =
    (ltb row.created_at row.expires_at ≡ true)
    × (any (λ t. t.id == row.id) db.tokens ≡ false)
    × (any (λ t. same row.token_hash t.token_hash) db.tokens ≡ false)

abbrev pub Registers : RegistrationRecord → Db → Db → Type 0
Registers r db after =
    (any (λ u. u.id == r.user.id) db.users ≡ false)
    × (any (emails_clash (registered_user r)) db.users ≡ false)
    × (any (λ c. c.user_id == r.user.id) db.credentials ≡ false)
    × IsNewToken (registered_token r) db
    × (after ≡ record db {
      users = registered_user r ∷ db.users;
      credentials = registered_credential r ∷ db.credentials;
      tokens = registered_token r ∷ db.tokens;
    })

-- An INSERT fails, or its row meets the constraints and is put first.
abbrev Inserts : Type 0 → Db → Outcome (Unit {0}) → Type 0
Inserts constraints after outcome =
    ((e : DriverError) × (outcome ≡ failed e)) ⊎ (constraints × (outcome ≡ done tt after))

insert_user-Inserts :
    (sql : SqlLibrary) (row : UserRow) (db : Db)
    → Inserts
        ((any (λ u. u.id == row.id) db.users ≡ false)
          × (any (emails_clash row) db.users ≡ false)
          × (is_known row.status ≡ true)
          × (0 < row.version))
        (record db { users = row ∷ db.users })
        (insert_user sql row db)
unfolding insert_user
insert_user-Inserts sql row db = ground arith

insert_credential-Inserts :
    (row : CredentialRow) (db : Db)
    → Inserts
        (any (λ c. c.user_id == row.user_id) db.credentials ≡ false)
        (record db { credentials = row ∷ db.credentials })
        (insert_credential row db)
unfolding insert_credential
insert_credential-Inserts row db = ground arith

insert_token-Inserts :
    (row : TokenRow) (db : Db)
    → Inserts
        (IsNewToken row db × (has_user row.user_id db ≡ true))
        (record db { tokens = row ∷ db.tokens })
        (insert_token row db)
unfolding insert_token
insert_token-Inserts row db = ground arith

-- A registration changes nothing, or adds the user, the credential and the token together.
pub create_registration-Registers :
    (sql : SqlLibrary) (r : RegistrationRecord) (db : Db)
    → let after = (create_registration sql steady r db).1 in (after ≡ db) ⊎ Registers r db after
unfolding create_registration user_inserted
create_registration-Registers sql r db =
    let user = registered_user r in
    let credential = registered_credential r in
    let with_user = record db { users = user ∷ db.users } in
    ground (
      arith,
      insert_user-Inserts sql user db,
      insert_credential-Inserts credential with_user,
      insert_token-Inserts (registered_token r)
          (record with_user { credentials = credential ∷ db.credentials }),
    )

-- The row of a verification is spent and its user activated.
abbrev pub Verifies : TokenRow → UserRow → Time → Db → Db → Type 0
Verifies t u now db after =
    (t.used_at ≡ none)
    × (now < t.expires_at)
    × (after ≡ record db {
      users = update (λ v. v.id == u.id) (activated now) db.users;
      tokens = update (λ v. v.id == t.id) (spent now) db.tokens;
    })

-- The session is revoked because of its user.
abbrev pub Locks : SessionRow → Time → Db → Db → Type 0
Locks s now db after =
    after ≡ record db { sessions = update (λ v. v.id == s.id) (revoked now) db.sessions }

-- What `NULLIF($n, '')::inet` keeps of a text that it accepts.
abbrev pub kept_address : SqlLibrary → Text → Option Text
kept_address sql s = if is_empty s then none else sql.parse_inet s

-- The session of a live account gets its new token, and the old one is used up.
abbrev pub Rotates :
    Text → Text → Text → Option Text → Time → SessionRow → UserRow → Db → Db → Type 0
Rotates current_hash new_hash user_agent address now s u db after =
    (s.revoked_at ≡ none)
    × (now < s.expires_at)
    × (u.deleted_at ≡ none)
    × (is_active u.status ≡ true)
    × (any (λ t. same current_hash t.token_hash) db.used_tokens ≡ false)
    × (any (λ v. not (v.id == s.id) && same v.refresh_token_hash new_hash) db.sessions ≡ false)
    × (after ≡ record db {
      used_tokens = used_token current_hash s now ∷ db.used_tokens;
      sessions = update (λ v. v.id == s.id) (rotated new_hash user_agent address now) db.sessions;
    })

module _ (lib : TextLibrary) (sql : SqlLibrary) (now : Time) (db : Db) where
  pub verify_email-unknown :
      (token_hash : Text)
      → find_join (is_verification_pair token_hash) db.tokens db.users ≡ none
      → verify_email lib steady token_hash now db
        ≡ (err (sentinel DomainError.verification_token_invalid), db)
  unfolding verify_email select_verification is_no_rows
  verify_email-unknown token_hash e = ground arith

  pub verify_email-Verifies :
      (token_hash : Text) (t : TokenRow) (u : UserRow)
      → find_join (is_verification_pair token_hash) db.tokens db.users ≡ some (t, u)
      → let after = (verify_email lib steady token_hash now db).1 in
        (after ≡ db) ⊎ Verifies t u now db after
  unfolding verify_email verify_selected select_verification activate_user mark_token_used
      read_email
  verify_email-Verifies token_hash t u e = ground arith

  pub rotate_refresh_token-Rotates :
      (current_hash new_hash user_agent ip_address : Text) (s : SessionRow) (u : UserRow)
      → find_join (is_session_pair current_hash) db.sessions db.users ≡ some (s, u)
      → let after =
          (rotate_refresh_token lib sql steady current_hash new_hash user_agent ip_address now
            db).1 in
        (after ≡ db)
        ⊎ Locks s now db after
        ⊎ Rotates current_hash new_hash user_agent (kept_address sql ip_address) now s u db after
  unfolding rotate_refresh_token rotate_selected select_session revoke_by_id insert_used_token
      rotate_session nullable_inet read_email
  rotate_refresh_token-Rotates current_hash new_hash user_agent ip_address s u e =
      let here =
        find_join-any (is_session_pair current_hash) (λ v. v.id == s.id) db.sessions db.users e
          (ground arith) in
      ground arith

  pub rotate_refresh_token-Replays :
      (current_hash new_hash user_agent ip_address : Text) (t : UsedTokenRow) (s : SessionRow)
      → find_join (is_session_pair current_hash) db.sessions db.users ≡ none
      → find_join (is_used_pair current_hash) db.used_tokens db.sessions ≡ some (t, s)
      → rotate_refresh_token lib sql steady current_hash new_hash user_agent ip_address now db ≡ (
        err (sentinel DomainError.refresh_token_reused),
        record db { sessions = update (λ v. v.id == s.id) (revoked_once now) db.sessions },
      )
  unfolding rotate_refresh_token select_session handle_possible_refresh_reuse select_used_token
      revoke_reused revoke_replayed is_no_rows
  rotate_refresh_token-Replays current_hash new_hash user_agent ip_address t s e h = ground arith

  pub rotate_refresh_token-unknown :
      (current_hash new_hash user_agent ip_address : Text)
      → find_join (is_session_pair current_hash) db.sessions db.users ≡ none
      → find_join (is_used_pair current_hash) db.used_tokens db.sessions ≡ none
      → rotate_refresh_token lib sql steady current_hash new_hash user_agent ip_address now db
        ≡ (err (sentinel DomainError.refresh_token_invalid), db)
  unfolding rotate_refresh_token select_session handle_possible_refresh_reuse select_used_token
      is_no_rows
  rotate_refresh_token-unknown current_hash new_hash user_agent ip_address e h = ground arith
