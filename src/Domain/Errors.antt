-- ===== src/Domain/Errors.antt =====
-- internal/identity/domain/errors.go, and Go's error values as the service builds them: a
-- sentinel, an error of a library, or another error wrapped by `fmt.Errorf("...: %w", err)`.
use family_tree_identity_mic.Shared.{ℕ, String, ◌≡◌, refl, ◌⊎◌, inl, inr, Bool, true, false, ◌==◌}

-- The variables of errors.go, in its order.
pub data DomainError : Type 0 where
  invalid_email invalid_display_name weak_password email_already_exists : DomainError
  verification_token_invalid verification_token_expired verification_token_used : DomainError
  invalid_credentials email_not_verified account_unavailable : DomainError
  invalid_session_metadata refresh_token_invalid refresh_token_reused : DomainError
  session_expired session_revoked user_not_found session_not_found : DomainError
  password_reset_token_invalid password_reset_token_expired : DomainError
  password_reset_token_used : DomainError

-- What the database answers in place of a result: a violated constraint, a number out of the
-- range of its column, a text that is no value of its column, no row for `QueryRow`, or any other failure of the round trip.
pub data DriverError : Type 0 where
  unique_violation check_violation foreign_key_violation : String → DriverError
  out_of_range invalid_text no_rows disconnected : DriverError

pub data Error : Type 0 where
  sentinel : DomainError → Error
  driver : DriverError → Error
  -- `passwordsecurity.ErrPolicy`.
  policy : Error
  -- Any other error of a library, such as the random source or the token signer.
  foreign : String → Error
  wrap : String → Error → Error

pub data Result {ℓ} (A : Type ℓ) : Type ℓ where
  ok : A → Result A
  err : Error → Result A

-- The position in the list of sentinels, which are told apart by identity.
abbrev pub position : DomainError → ℕ
position DomainError.invalid_email = 0
position DomainError.invalid_display_name = 1
position DomainError.weak_password = 2
position DomainError.email_already_exists = 3
position DomainError.verification_token_invalid = 4
position DomainError.verification_token_expired = 5
position DomainError.verification_token_used = 6
position DomainError.invalid_credentials = 7
position DomainError.email_not_verified = 8
position DomainError.account_unavailable = 9
position DomainError.invalid_session_metadata = 10
position DomainError.refresh_token_invalid = 11
position DomainError.refresh_token_reused = 12
position DomainError.session_expired = 13
position DomainError.session_revoked = 14
position DomainError.user_not_found = 15
position DomainError.session_not_found = 16
position DomainError.password_reset_token_invalid = 17
position DomainError.password_reset_token_expired = 18
position DomainError.password_reset_token_used = 19

-- `errors.Is(err, sentinel)`, which looks through the wrapping.
unfoldable pub errors_is : Error → DomainError → Bool
errors_is (sentinel a) e = position a == position e
errors_is (driver a) e = false
errors_is policy e = false
errors_is (foreign s) e = false
errors_is (wrap s inner) e = errors_is inner e

-- `errors.Is(err, passwordsecurity.ErrPolicy)`.
unfoldable pub is_policy : Error → Bool
is_policy policy = true
is_policy (wrap s inner) = is_policy inner
is_policy (sentinel a) = false
is_policy (driver a) = false
is_policy (foreign s) = false

-- No sentinel is behind the error: the caller sees an internal failure.
abbrev pub IsInternal : Error → Type 0
IsInternal failure = (e : DomainError) → errors_is failure e ≡ false

pub driver-IsInternal : (d : DriverError) → IsInternal (driver d)
unfolding errors_is
driver-IsInternal d e = refl

pub wrap-IsInternal : (s : String) (e : Error) → IsInternal e → IsInternal (wrap s e)
unfolding errors_is
wrap-IsInternal s e h d = h d

pub Result-cases {ℓ} :
    {A : Type ℓ} (r : Result A) → ((e : Error) × (r ≡ err e)) ⊎ ((a : A) × (r ≡ ok a))
Result-cases (ok a) = inr (a, refl)
Result-cases (err e) = inl (e, refl)
