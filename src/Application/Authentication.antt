-- ===== src/Application/Authentication.antt =====
-- What a login tells, and what it takes.
use family_tree_identity_mic.Shared.{
  ◌≡◌, refl, ◌⊎◌, inl, inr, Bool, Bool-cases, false, [], ◌∷◌, arith, Text, ltb, byte_length,
  if◌then◌else◌,
}
use family_tree_identity_mic.Domain.Errors.{
  DomainError, Error, sentinel, errors_is, Result, ok, err,
}
use family_tree_identity_mic.Domain.Email.{Email, new_email}
use family_tree_identity_mic.Ports.{LoginIdentity}
use family_tree_identity_mic.Application.Service.{Service, World, max_password_bytes}
use family_tree_identity_mic.Application.Metadata.{
  SessionMetadata, LoginCommand, SessionResult, normalize_session_metadata,
}
use family_tree_identity_mic.Application.Login.{
  reject_invalid_credentials, check_status, open_session, check_password, authenticate, login_with,
  login,
}

-- The failure of a store that is no missing account.
abbrev pub IsStoreFailure : {A : Type 0} → Result A → Type 0
IsStoreFailure (ok a) = ⊥
IsStoreFailure (err e) = errors_is e DomainError.invalid_credentials ≡ false

module _ {S : Type 0} (svc : Service S) (w : World S) (metadata : SessionMetadata)
    (password : Text) where
  -- One check of a password was made; or none, because the account that was looked for under an
  -- address could not be looked up, and the error of the store is the answer.
  abbrev pub ChecksOnce : Result Email → Result SessionResult × World S → Type 0
  ChecksOnce parsed (r, after) =
      ((check : Text × Text) × (after.checks ≡ check ∷ w.checks))
      ⊎ ((email : Email) × (failure : Error) × (parsed ≡ ok email)
          × ((svc.repository.find_login_identity email.normalized w.store).0 ≡ err failure)
          × (errors_is failure DomainError.invalid_credentials ≡ false)
          × (r ≡ err failure)
          × (after.checks ≡ w.checks))

  authenticate-checks :
      (identity : LoginIdentity) (w' : World S)
      → w'.checks ≡ w.checks
      → (check : Text × Text) × ((authenticate svc metadata password (ok identity) w').1.checks
          ≡ check ∷ w.checks)
  unfolding authenticate reject_invalid_credentials check_password check_status open_session
  authenticate-checks identity w' e =
      elim (Bool-cases (ltb max_password_bytes (byte_length password))) [
        | inl long ↦ (([], svc.password_hasher.dummy_hash), ground arith)
        | inr short ↦ ((password, identity.password_hash), ground arith)
      ]

  rejected-checks :
      (w' : World S)
      → w'.checks ≡ w.checks
      → (check : Text × Text) × ((reject_invalid_credentials svc {A = SessionResult} password
            w').1.checks
          ≡ check ∷ w.checks)
  unfolding reject_invalid_credentials
  rejected-checks w' e = (
    (
      if ltb max_password_bytes (byte_length password) then [] else password,
      svc.password_hasher.dummy_hash,
    ),
    ground arith,
  )

  authenticate-ChecksOnce :
      (email : Email) (found : Result LoginIdentity) (w' : World S)
      → (svc.repository.find_login_identity email.normalized w.store).0 ≡ found
      → w'.checks ≡ w.checks
      → ChecksOnce (ok email) (authenticate svc metadata password found w')
  unfolding authenticate
  authenticate-ChecksOnce email (ok identity) w' h e = inl (authenticate-checks identity w' e)
  authenticate-ChecksOnce email (err failure) w' h e =
      elim (Bool-cases (errors_is failure DomainError.invalid_credentials)) [
        | inl missing ↦ rw missing (inl (rejected-checks w' e))
        | inr other ↦ rw other (inr (email, failure, refl, h, other, refl, e))
      ]

  login_with-ChecksOnce :
      (parsed : Result Email) → ChecksOnce parsed (login_with svc metadata password parsed w)
  unfolding login_with
  login_with-ChecksOnce (err e) = inl (rejected-checks w refl)
  login_with-ChecksOnce (ok email) =
      authenticate-ChecksOnce email (svc.repository.find_login_identity email.normalized w.store).0
        (record w { store = (svc.repository.find_login_identity email.normalized w.store).1 }) refl
        refl

  -- The password is not that of the account that is found under the address.
  abbrev pub IsWrongFor : Result Email → Type 0
  IsWrongFor parsed =
      (email : Email) (identity : LoginIdentity)
      → parsed ≡ ok email
      → (svc.repository.find_login_identity email.normalized w.store).0 ≡ ok identity
      → svc.password_hasher.verify password identity.password_hash ≡ ok false

  -- A check against the dummy hash does not fail.
  abbrev pub IsAnswered : Type 0
  IsAnswered =
      (candidate : Text)
      → (answer : Bool) × (svc.password_hasher.verify candidate svc.password_hasher.dummy_hash
          ≡ ok answer)

  rejected_wrong :
      (candidate : Text) (w' : World S)
      → IsAnswered
      → (reject_invalid_credentials svc {A = SessionResult} candidate w').0
        ≡ err (sentinel DomainError.invalid_credentials)
  unfolding reject_invalid_credentials
  rejected_wrong candidate w' dummy =
      ground (
        arith,
        (dummy (if ltb max_password_bytes (byte_length candidate) then [] else candidate)).1,
      )

  authenticate_wrong :
      (email : Email) (found : Result LoginIdentity) (w' : World S)
      → (svc.repository.find_login_identity email.normalized w.store).0 ≡ found
      → IsWrongFor (ok email)
      → IsAnswered
      → ¬ IsStoreFailure found
      → (authenticate svc metadata password found w').0
        ≡ err (sentinel DomainError.invalid_credentials)
  unfolding authenticate check_password
  authenticate_wrong email (ok identity) w' h wrong dummy known =
      ground (arith, wrong email identity refl h, rejected_wrong [] w' dummy)
  authenticate_wrong email (err failure) w' h wrong dummy known =
      elim (Bool-cases (errors_is failure DomainError.invalid_credentials)) [
        | inl missing ↦ rw missing (rejected_wrong password w' dummy)
        | inr other ↦ absurd (known other)
      ]

  login_with_wrong :
      (parsed : Result Email)
      → IsWrongFor parsed
      → IsAnswered
      → ((address : Text) → ¬ IsStoreFailure (svc.repository.find_login_identity address w.store).0)
      → (login_with svc metadata password parsed w).0
        ≡ err (sentinel DomainError.invalid_credentials)
  unfolding login_with
  login_with_wrong (err e) wrong dummy known = rejected_wrong password w dummy
  login_with_wrong (ok email) wrong dummy known =
      authenticate_wrong email (svc.repository.find_login_identity email.normalized w.store).0
        (record w { store = (svc.repository.find_login_identity email.normalized w.store).1 }) refl
        wrong dummy (known email.normalized)

module _ {S : Type 0} (svc : Service S) where
  -- Whatever becomes of a login whose metadata is accepted, the password hasher is asked exactly
  -- once; or never, when the account under the parsed address cannot be looked up for another reason
  -- than that there is none, and then the answer is that error of the store.
  pub login-ChecksOnce :
      (command : LoginCommand) (w : World S) (metadata : SessionMetadata)
      → normalize_session_metadata svc.parse_addr command.metadata ≡ ok metadata
      → ChecksOnce svc w metadata command.password
          (new_email svc.text_library command.email)
          (login svc command w)
  unfolding login
  login-ChecksOnce command w metadata e =
      rw (e, login)
        (login_with-ChecksOnce svc w metadata command.password
          (new_email svc.text_library command.email))

  -- A login whose metadata is accepted, with a password that is not that of the account under the
  -- address, is answered with `ErrInvalidCredentials` alike for a text that is no address, for an
  -- address without an account and for an account of any status; provided that the store can be
  -- searched and that a check against the dummy hash does not fail.
  pub login_reveals_nothing :
      (command : LoginCommand) (w : World S) (metadata : SessionMetadata)
      → normalize_session_metadata svc.parse_addr command.metadata ≡ ok metadata
      → IsWrongFor svc w metadata command.password (new_email svc.text_library command.email)
      → IsAnswered svc w metadata command.password
      → ((email : Text) → ¬ IsStoreFailure (svc.repository.find_login_identity email w.store).0)
      → (login svc command w).0 ≡ err (sentinel DomainError.invalid_credentials)
  unfolding login
  login_reveals_nothing command w metadata e wrong dummy known = rw e (
      login_with_wrong svc w metadata command.password (new_email svc.text_library command.email)
        wrong dummy known)
