-- ===== src/Postgres/Accounts/Invariant.antt =====
-- The invariant of the accounts holds after every history of calls.
use family_tree_identity_mic.Shared.{
  ◌≡◌, refl, ◌∙◌, inl, inr, true, List, [], ◌∷◌, arith, ◌==◌, any, any-update, All, All-any,
  All-map, All-update, Unique-update,
}
use family_tree_identity_mic.Domain.Email.{TextLibrary}
use family_tree_identity_mic.Postgres.Tables.{Db, UserRow, CredentialRow}
use family_tree_identity_mic.Postgres.Connection.{Network}
use family_tree_identity_mic.Postgres.Sql.{SqlLibrary}
use family_tree_identity_mic.Postgres.Inserts.{emails_clash}
use family_tree_identity_mic.Postgres.Updates.{activated, with_password}
use family_tree_identity_mic.Postgres.Registration.{registered_user, registered_credential}
use family_tree_identity_mic.Postgres.Calls.{Call, perform, replay}
use family_tree_identity_mic.Postgres.Accounts.{
  UsersInv, IsReadable, HasStanding, has_credential, same_user, same_owner, IsGenuineCall,
  AccountStep, kept, registered, verified, secured,
}
use family_tree_identity_mic.Postgres.Accounts.Steps.{perform-AccountStep}

module _ (lib : TextLibrary) where
  -- The invariant speaks of the users and the credentials alone.
  abbrev AccountsInv : List UserRow → List CredentialRow → Type 0
  AccountsInv users credentials = UsersInv lib (record {
    users = users;
    credentials = credentials;
    sessions = [];
    tokens = [];
    used_tokens = [];
  })

  of_tables : (db : Db) → AccountsInv db.users db.credentials → UsersInv lib db
  of_tables db v = record {
    ids = v.ids;
    emails = v.emails;
    readable = v.readable;
    standing = v.standing;
    secured = v.secured;
    owners = v.owners;
  }

  to_tables : (db : Db) → UsersInv lib db → AccountsInv db.users db.credentials
  to_tables db v = record {
    ids = v.ids;
    emails = v.emails;
    readable = v.readable;
    standing = v.standing;
    secured = v.secured;
    owners = v.owners;
  }

  more_credentials :
      (c : CredentialRow) (cs : List CredentialRow) (u : UserRow)
      → has_credential cs u ≡ true
      → has_credential (c ∷ cs) u ≡ true
  unfolding any
  more_credentials c cs u h = ground arith

  new_credential :
      (c : CredentialRow) (cs : List CredentialRow) (u : UserRow)
      → c.user_id ≡ u.id
      → has_credential (c ∷ cs) u ≡ true
  unfolding any
  new_credential c cs u h = ground arith

  AccountStep-UsersInv :
      {before after : Db} → AccountStep lib before after → UsersInv lib before → UsersInv lib after
  AccountStep-UsersInv {before} {after} (kept u c) v =
      of_tables after (rw (u, c) (to_tables before v))
  AccountStep-UsersInv {before} {after}
        (registered r (parsed, pending) (id, email, owner, token, e)) v =
      of_tables after (
        rw e (record {
          ids = (All-any (λ u. u.id == r.user.id) before.users id, v.ids);
          emails = (All-any (emails_clash (registered_user r)) before.users email, v.emails);
          readable = (parsed, v.readable);
          standing = (inl (pending, refl), v.standing);
          secured = (
            new_credential (registered_credential r) before.credentials (registered_user r) refl,
            All-map (λ u. has_credential before.credentials u ≡ true) _ before.users
                (more_credentials (registered_credential r) before.credentials) v.secured,
          );
          owners = (All-any (λ c. c.user_id == r.user.id) before.credentials owner, v.owners);
        }))
  AccountStep-UsersInv {before} {after} (verified id now u c) v =
      let which = λ (x : UserRow). x.id == id in
      of_tables after (
        rw (u, c)
          (record {
            ids =
                Unique-update same_user which (activated now) before.users (λ x y. refl)
                  (λ x y. refl) v.ids;
            emails =
                Unique-update emails_clash which (activated now) before.users (λ x y. refl)
                  (λ x y. refl) v.emails;
            readable =
                All-update (IsReadable lib) which (activated now) before.users (λ x h _. h)
                  v.readable;
            standing =
                All-update HasStanding which (activated now) before.users
                  (λ x h _. inr (refl, refl)) v.standing;
            secured =
                All-update (λ x. has_credential before.credentials x ≡ true) which (activated now)
                  before.users (λ x h _. h) v.secured;
            owners = v.owners;
          }))
  AccountStep-UsersInv {before} {after} (secured which hash now u c) v =
      let change = with_password hash now in
      of_tables after (
        rw (u, c)
          (record {
            ids = v.ids;
            emails = v.emails;
            readable = v.readable;
            standing = v.standing;
            secured =
                All-map (λ x. has_credential before.credentials x ≡ true) _ before.users
                  (λ x h.
                    any-update (λ y. y.user_id == x.id) which change before.credentials
                      (λ y _. refl)
                    ∙ h)
                  v.secured;
            owners =
                Unique-update same_owner which change before.credentials (λ x y. refl) (λ x y. refl)
                  v.owners;
          }))

  -- Every history of genuine calls, on any network, keeps identifiers and live addresses unique,
  -- stored addresses readable, every account pending or verified, and one credential to each user.
  pub replay-UsersInv :
      (sql : SqlLibrary) (calls : List (Network × Call)) (db : Db)
      → All (λ c. IsGenuineCall lib c.1) calls
      → UsersInv lib db
      → UsersInv lib (replay lib sql calls db)
  unfolding replay
  replay-UsersInv sql [] db genuine v = v
  replay-UsersInv sql ((net, call) ∷ calls) db genuine v =
      replay-UsersInv sql calls (perform lib sql net call db).1 genuine.1
        (AccountStep-UsersInv (perform-AccountStep lib sql db net call genuine.0) v)
