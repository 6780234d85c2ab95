-- ===== src/Postgres/Listing.antt =====
-- What `ListSessions` shows.
use family_tree_identity_mic.Shared.{
  ℕ, ◌≡◌, refl, true, ◌&&◌, List, [], ◌∷◌, arith, ◌==◌, is_none, any, count, select, update, All,
}
use family_tree_identity_mic.Domain.Errors.{ok}
use family_tree_identity_mic.Domain.User.{Uuid, Time}
use family_tree_identity_mic.Postgres.Tables.{Db, SessionRow}
use family_tree_identity_mic.Postgres.Connection.{Network, steady}
use family_tree_identity_mic.Postgres.Sql.{SqlLibrary}
use family_tree_identity_mic.Postgres.Selects.{
  is_listed, precedes, order_sessions, select_sessions, select_user_exists,
}
use family_tree_identity_mic.Postgres.Updates.{is_open_session, revoked, revoke_open_sessions}
use family_tree_identity_mic.Postgres.Sessions.{list_sessions, revoke_all_sessions}
use family_tree_identity_mic.Postgres.Atomicity.{Atomic-ok, revoke_all_sessions-Atomic}

-- Latest use first, and by identifier among equals.
abbrev pub IsOrdered : List SessionRow → Type 0
IsOrdered [] = Unit {0}
IsOrdered (s ∷ ss) = All (λ t. precedes s t ≡ true) ss × IsOrdered ss

module _ (user_id : Uuid) (now later : Time) where
  -- No session of the user is left to list after its open ones are revoked.
  select-revoked :
      (ss : List SessionRow)
      → select (is_listed user_id later) (update (is_open_session user_id) (revoked now) ss) ≡ []
  unfolding select update
  select-revoked [] = refl
  select-revoked (s ∷ ss) = ground (arith, select-revoked ss)

-- A logout from all sessions that succeeds, on any network, answers the number of the user's sessions
-- that were not revoked; afterwards, at any time, the list of the sessions of a user that is not
-- deleted is empty.
pub revoke_all_sessions-empties :
    (sql : SqlLibrary) (net : Network) (user_id : Uuid) (now later : Time) (db : Db) (n : ℕ)
    → any (λ u. u.id == user_id && is_none u.deleted_at) db.users ≡ true
    → (revoke_all_sessions net user_id now db).0 ≡ ok n
    → (n ≡ count (is_open_session user_id) db.sessions)
      × ((list_sessions sql steady user_id later (revoke_all_sessions net user_id now db).1).0
          ≡ ok [])
unfolding list_sessions select_sessions select_user_exists revoke_all_sessions revoke_open_sessions
    order_sessions
revoke_all_sessions-empties sql net user_id now later db n exists success =
    let same_call =
      Atomic-ok (revoke_all_sessions net user_id now db) (revoke_all_sessions steady user_id now db)
        (revoke_all_sessions-Atomic net db user_id now) success in
    rw same_call (ground arith, ground (arith, select-revoked user_id now later db.sessions))
