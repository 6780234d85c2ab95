-- ===== src/Postgres/Accounts.antt =====
-- The invariant of the users and their credentials.
pub mod Steps
pub mod Invariant
use family_tree_identity_mic.Shared.{
  ℕ, ◌≡◌, ◌⊎◌, Bool, true, Option, some, none, List, ◌==◌, is_some, any, update, All, Unique, Text,
}
use family_tree_identity_mic.Domain.Errors.{ok}
use family_tree_identity_mic.Domain.Email.{TextLibrary, new_email}
use family_tree_identity_mic.Domain.User.{UserStatus, Uuid, Time}
use family_tree_identity_mic.Ports.{RegistrationRecord}
use family_tree_identity_mic.Postgres.Tables.{Db, UserRow, CredentialRow}
use family_tree_identity_mic.Postgres.Inserts.{emails_clash}
use family_tree_identity_mic.Postgres.Updates.{activated, with_password}
use family_tree_identity_mic.Postgres.Calls.{Call}
use family_tree_identity_mic.Postgres.Effects.{Registers}

abbrev pub same_user : UserRow → UserRow → Bool
same_user a b = b.id == a.id

abbrev pub same_owner : CredentialRow → CredentialRow → Bool
same_owner a b = b.user_id == a.user_id

-- An account is pending and not verified, or active with the time at which it was verified.
abbrev pub HasStanding : UserRow → Type 0
HasStanding u =
    ((u.status ≡ UserStatus.pending) × (u.email_verified_at ≡ none))
    ⊎ ((u.status ≡ UserStatus.active) × (is_some u.email_verified_at ≡ true))

abbrev pub has_credential : List CredentialRow → UserRow → Bool
has_credential cs u = any (λ c. c.user_id == u.id) cs

-- The stored address is read back as the address that was stored.
abbrev pub IsReadable : TextLibrary → UserRow → Type 0
IsReadable lib u =
    new_email lib u.email ≡ ok (record { value = u.email; normalized = u.normalized_email })

pub record UsersInv (lib : TextLibrary) (db : Db) : Type 0 where
  pub ids : Unique same_user db.users
  pub emails : Unique emails_clash db.users
  pub readable : All (IsReadable lib) db.users
  pub standing : All HasStanding db.users
  pub secured : All (λ u. has_credential db.credentials u ≡ true) db.users
  pub owners : Unique same_owner db.credentials

-- A registration as the service asks for it: of a pending user, with an address that was parsed.
abbrev pub IsGenuine : TextLibrary → RegistrationRecord → Type 0
IsGenuine lib r =
    (new_email lib r.user.email.value ≡ ok r.user.email) × (r.user.status ≡ UserStatus.pending)

abbrev pub IsGenuineCall : TextLibrary → Call → Type 0
IsGenuineCall lib (Call.registration r) = IsGenuine lib r
IsGenuineCall lib (Call.verification h now) = Unit
IsGenuineCall lib (Call.session r) = Unit
IsGenuineCall lib (Call.rotation h n ua ip now) = Unit
IsGenuineCall lib (Call.logout h now) = Unit
IsGenuineCall lib (Call.logout_all id now) = Unit
IsGenuineCall lib (Call.logout_one id s now) = Unit
IsGenuineCall lib (Call.password_change id e n now) = Unit
IsGenuineCall lib (Call.reset_request r) = Unit
IsGenuineCall lib (Call.password_reset h n now) = Unit

-- What a call does to the users and the credentials.
pub data AccountStep (lib : TextLibrary) (before after : Db) : Type 0 where
  kept :
      after.users ≡ before.users
      → after.credentials ≡ before.credentials
      → AccountStep lib before after
  registered :
      (r : RegistrationRecord)
      → IsGenuine lib r
      → Registers r before after
      → AccountStep lib before after
  verified :
      (id : Uuid) (now : Time)
      → after.users ≡ update (λ u. u.id == id) (activated now) before.users
      → after.credentials ≡ before.credentials
      → AccountStep lib before after
  secured :
      (which : CredentialRow → Bool) (hash : Text) (now : Time)
      → after.users ≡ before.users
      → after.credentials ≡ update which (with_password hash now) before.credentials
      → AccountStep lib before after
