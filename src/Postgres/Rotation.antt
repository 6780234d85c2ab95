-- ===== src/Postgres/Rotation.antt =====
-- The guards, the answer and the writes of `RotateRefreshToken` in repository.go.
use family_tree_identity_mic.Shared.{
  ◌<◌, ◌≡◌, true, false, some, none, ◌∷◌, ◌==◌, any, find_join, update, same, Text,
}
use family_tree_identity_mic.Domain.User.{Time, is_active}
use family_tree_identity_mic.Ports.{SessionIdentity}
use family_tree_identity_mic.Postgres.Tables.{Db, SessionRow, UserRow}
use family_tree_identity_mic.Postgres.Sql.{SqlLibrary}
use family_tree_identity_mic.Postgres.Selects.{is_session_pair}
use family_tree_identity_mic.Postgres.Updates.{rotated}
use family_tree_identity_mic.Postgres.Sessions.{used_token}
use family_tree_identity_mic.Postgres.Stored.{user_of}
use family_tree_identity_mic.Postgres.Effects.{kept_address}

-- The result and the tables after an exchange of `old` for `new`, told by the session of `old` and
-- its owner, which it names.
pub record IsExchanged (sql : SqlLibrary) (old new agent ip : Text) (now : Time) (db after : Db)
    (result : SessionIdentity) : Type 0 where
  pub session : SessionRow
  pub owner : UserRow
  pub found : find_join (is_session_pair old) db.sessions db.users ≡ some (session, owner)
  pub unrevoked : session.revoked_at ≡ none
  pub fresh : now < session.expires_at
  pub undeleted : owner.deleted_at ≡ none
  pub active : is_active owner.status ≡ true
  pub unused : any (λ t. same old t.token_hash) db.used_tokens ≡ false
  pub same_session : result.id ≡ session.id
  pub same_expiry : result.expires_at ≡ session.expires_at
  pub same_owner : result.user ≡ user_of owner result.user.email
  pub stored : after ≡ record db {
    used_tokens = used_token old session now ∷ db.used_tokens;
    sessions =
        update (λ v. v.id == session.id) (rotated new agent (kept_address sql ip) now) db.sessions;
  }
