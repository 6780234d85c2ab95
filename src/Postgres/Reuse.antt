-- ===== src/Postgres/Reuse.antt =====
-- A refresh token that comes back after it was exchanged: the session is revoked, and neither the
-- old token nor the one that replaced it works again.
pub mod Exchange
use mathlib.Core.Option
use family_tree_identity_mic.Shared.{
  ℕ, ◌<◌, ◌≡◌, refl, sym, ◌∙◌, ap, ◌⊎◌, inl, inr, Bool, Bool-cases, true, false, not, ◌&&◌, Option,
  Option-cases, some, none, List, [], ◌∷◌, arith, ltb, ◌==◌, ==_iff, is_some, any, any-some,
  any-holds, any-update, find, find-holds, find-update, find_join, find_join-any, find_join-none,
  find_join-update, find_join-holds, Unique-apart, update, All, All-always, All-map, All-both,
  All-any, Unique, same, same_refl, same-eq, same_comm, Text, if◌then◌else◌,
}
use family_tree_identity_mic.Domain.Errors.{DomainError, sentinel, Result, ok, err}
use family_tree_identity_mic.Domain.Email.{TextLibrary, Email, new_email}
use family_tree_identity_mic.Domain.User.{Uuid, Time, is_active}
use family_tree_identity_mic.Ports.{SessionIdentity}
use family_tree_identity_mic.Postgres.Tables.{Db, SessionRow, UserRow, UsedTokenRow}
use family_tree_identity_mic.Postgres.Connection.{Network, steady}
use family_tree_identity_mic.Postgres.Sql.{SqlLibrary, nullable_inet}
use family_tree_identity_mic.Postgres.Inserts.{insert_used_token}
use family_tree_identity_mic.Postgres.Selects.{is_session_pair, is_used_pair, select_session}
use family_tree_identity_mic.Postgres.Updates.{rotated, revoked_once, revoke_by_id, rotate_session}
use family_tree_identity_mic.Postgres.Sessions.{
  rotate_refresh_token, rotate_selected, used_token, handle_possible_refresh_reuse, revoke_reused,
}
use family_tree_identity_mic.Postgres.Stored.{read_email, is_no_rows}
use family_tree_identity_mic.Postgres.Effects.{Rotates, kept_address, rotate_refresh_token-Replays}
use family_tree_identity_mic.Postgres.Lifecycle.Continuity.{find_session}
use family_tree_identity_mic.Postgres.Lifecycle.Distinct.{AreDistinct, same_id, same_token}
use family_tree_identity_mic.Postgres.Reuse.Exchange.{
  old_gone, new_there, used_there, revoked_there,
}

module _ (lib : TextLibrary) (sql : SqlLibrary) (net : Network) (old new agent ip : Text)
    (now : Time) (db : Db) where
  abbrev rotation : Result SessionIdentity × Db
  rotation = rotate_refresh_token lib sql net old new agent ip now db

  pub rotation-missing :
      (result : SessionIdentity)
      → find_join (is_session_pair old) db.sessions db.users ≡ none
      → ¬ (rotation.0 ≡ ok result)
  unfolding rotate_refresh_token select_session handle_possible_refresh_reuse revoke_reused
  rotation-missing result e success = ground arith

  -- What a rotation that succeeds has found and done.
  pub rotation-Rotates :
      (result : SessionIdentity) (s : SessionRow) (u : UserRow)
      → find_join (is_session_pair old) db.sessions db.users ≡ some (s, u)
      → rotation.0 ≡ ok result
      → (result.id ≡ s.id)
        × (new_email lib u.email ≡ ok result.user.email)
        × Rotates old new agent (kept_address sql ip) now s u db rotation.1
  unfolding rotate_refresh_token rotate_selected select_session insert_used_token rotate_session
      nullable_inet read_email is_no_rows
  rotation-Rotates result s u e success =
      let here =
        find_join-any (is_session_pair old) (λ v. v.id == s.id) db.sessions db.users e
          (ground arith) in
      ground arith

-- A revoked session is refused, once its owner's address is read.
rotation_of_revoked :
    (lib : TextLibrary) (sql : SqlLibrary) (token new agent ip : Text) (now : Time) (db : Db)
    (s : SessionRow) (u : UserRow) {email : Email}
    → find_join (is_session_pair token) db.sessions db.users ≡ some (s, u)
    → new_email lib u.email ≡ ok email
    → is_some s.revoked_at ≡ true
    → rotate_refresh_token lib sql steady token new agent ip now db
      ≡ (err (sentinel DomainError.session_revoked), db)
unfolding rotate_refresh_token rotate_selected select_session read_email
rotation_of_revoked lib sql token new agent ip now db s u e readable closed = ground arith

module _ (lib : TextLibrary) (sql : SqlLibrary) (net : Network) (old new agent ip : Text)
    (now : Time) (db : Db) (result : SessionIdentity) (distinct : AreDistinct db.sessions)
    (other : same new old ≡ false)
    (success : (rotate_refresh_token lib sql net old new agent ip now db).0 ≡ ok result) where
  abbrev after_rotation : Db
  after_rotation = (rotate_refresh_token lib sql net old new agent ip now db).1

  -- The first replay, on the tables that the rotation left.
  replayed :
      (s : SessionRow) (u : UserRow)
      → find_join (is_session_pair old) db.sessions db.users ≡ some (s, u)
      → (new' agent' ip' : Text) (later : Time)
      → (t : SessionRow) × ((t.id == s.id) ≡ true)
        × (rotate_refresh_token lib sql steady old new' agent' ip' later after_rotation ≡ (
          err (sentinel DomainError.refresh_token_reused),
          record after_rotation {
            sessions = update (λ v. v.id == t.id) (revoked_once later) after_rotation.sessions;
          },
        ))
  replayed s u found new' agent' ip' later =
      let (same_session, readable, done) =
        rotation-Rotates lib sql net old new agent ip now db result s u found success in
      let address = kept_address sql ip in
      let (t, used, hit) =
        used_there old new agent address now s u db.sessions db.users distinct found other done.5
          db.used_tokens in
      (
        t,
        hit,
        rw done.6 (
            rotate_refresh_token-Replays lib sql later _ old new' agent' ip' (used_token old s now)
              t
              (old_gone old new agent address now s u db.sessions db.users distinct found other
                done.5)
              used),
      )

  -- After a rotation has exchanged `old` for `new`, presenting `old` again is answered with
  -- `ErrRefreshTokenReused`; and after that the token that replaced it is answered with
  -- `ErrSessionRevoked`.
  pub rotation_reuse :
      (new' agent' ip' new'' agent'' ip'' : Text) (later latest : Time)
      → let (first, db') =
          rotate_refresh_token lib sql steady old new' agent' ip' later after_rotation in
        (first ≡ err (sentinel DomainError.refresh_token_reused))
        × ((rotate_refresh_token lib sql steady new new'' agent'' ip'' latest db').0
            ≡ err (sentinel DomainError.session_revoked))
  rotation_reuse new' agent' ip' new'' agent'' ip'' later latest =
      elim (Option-cases (find_join (is_session_pair old) db.sessions db.users)) [
        | inl e ↦ absurd (rotation-missing lib sql net old new agent ip now db result e success)
        | inr ((s, u), found) ↦
            let (t, hit, e) = replayed s u found new' agent' ip' later in
            let (same_session, readable, done) =
              rotation-Rotates lib sql net old new agent ip now db result s u found success in
            let address = kept_address sql ip in
            rw e (
              refl,
              ap (λ r. r.0)
                  (rotation_of_revoked lib sql new new'' agent'' ip'' latest _
                    (revoked_once later (rotated new agent address now s)) u
                    (rw done.6 (
                      revoked_there old new agent address now s u db.sessions db.users distinct
                        found other done.5 t later hit))
                    readable refl),
            )
      ]
