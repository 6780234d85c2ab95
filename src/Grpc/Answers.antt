-- ===== src/Grpc/Answers.antt =====
-- Which status an error is answered with.
use family_tree_identity_mic.Shared.{◌≡◌, refl, ◌⊎◌, inl, inr, true, none, some, ◌∷◌, arith, String}
use family_tree_identity_mic.Domain.Errors.{
  DomainError, Error, sentinel, driver, policy, foreign, wrap, errors_is, IsInternal,
  driver-IsInternal, wrap-IsInternal,
}
use family_tree_identity_mic.Grpc.Errors.{status_of}
use family_tree_identity_mic.Grpc.Protocol.{Code, Status, status, Exchange}
use family_tree_identity_mic.Grpc.Server.{map_error}

-- The status that a caller is promised for each sentinel.
abbrev pub status_for : DomainError → Status
status_for DomainError.invalid_email = record {
  code = Code.invalid_argument;
  message = "email is invalid";
}
status_for DomainError.invalid_display_name = record {
  code = Code.invalid_argument;
  message = "display name is invalid";
}
status_for DomainError.weak_password = record {
  code = Code.invalid_argument;
  message = "password does not satisfy policy";
}
status_for DomainError.email_already_exists = record {
  code = Code.already_exists;
  message = "email is already registered";
}
status_for DomainError.verification_token_invalid = record {
  code = Code.invalid_argument;
  message = "verification token is invalid";
}
status_for DomainError.verification_token_expired = record {
  code = Code.failed_precondition;
  message = "verification token cannot be used";
}
status_for DomainError.verification_token_used = record {
  code = Code.failed_precondition;
  message = "verification token cannot be used";
}
status_for DomainError.invalid_credentials = record {
  code = Code.unauthenticated;
  message = "email or password is invalid";
}
status_for DomainError.email_not_verified = record {
  code = Code.failed_precondition;
  message = "email verification is required";
}
status_for DomainError.account_unavailable = record {
  code = Code.permission_denied;
  message = "account is unavailable";
}
status_for DomainError.invalid_session_metadata = record {
  code = Code.invalid_argument;
  message = "session metadata is invalid";
}
status_for DomainError.refresh_token_invalid = record {
  code = Code.unauthenticated;
  message = "session is invalid";
}
status_for DomainError.refresh_token_reused = record {
  code = Code.unauthenticated;
  message = "session is invalid";
}
status_for DomainError.session_expired = record {
  code = Code.unauthenticated;
  message = "session is invalid";
}
status_for DomainError.session_revoked = record {
  code = Code.unauthenticated;
  message = "session is invalid";
}
status_for DomainError.user_not_found = record {
  code = Code.not_found;
  message = "resource was not found";
}
status_for DomainError.session_not_found = record {
  code = Code.not_found;
  message = "resource was not found";
}
status_for DomainError.password_reset_token_invalid = record {
  code = Code.invalid_argument;
  message = "password reset token is invalid";
}
status_for DomainError.password_reset_token_expired = record {
  code = Code.failed_precondition;
  message = "password reset token cannot be used";
}
status_for DomainError.password_reset_token_used = record {
  code = Code.failed_precondition;
  message = "password reset token cannot be used";
}

sentinel_status : (e : DomainError) → status_of (sentinel e) ≡ some (status_for e)
unfolding status_of errors_is
sentinel_status DomainError.invalid_email = refl
sentinel_status DomainError.invalid_display_name = refl
sentinel_status DomainError.weak_password = refl
sentinel_status DomainError.email_already_exists = refl
sentinel_status DomainError.verification_token_invalid = refl
sentinel_status DomainError.verification_token_expired = refl
sentinel_status DomainError.verification_token_used = refl
sentinel_status DomainError.invalid_credentials = refl
sentinel_status DomainError.email_not_verified = refl
sentinel_status DomainError.account_unavailable = refl
sentinel_status DomainError.invalid_session_metadata = refl
sentinel_status DomainError.refresh_token_invalid = refl
sentinel_status DomainError.refresh_token_reused = refl
sentinel_status DomainError.session_expired = refl
sentinel_status DomainError.session_revoked = refl
sentinel_status DomainError.user_not_found = refl
sentinel_status DomainError.session_not_found = refl
sentinel_status DomainError.password_reset_token_invalid = refl
sentinel_status DomainError.password_reset_token_expired = refl
sentinel_status DomainError.password_reset_token_used = refl

sentinel_behind : (e : DomainError) → errors_is (sentinel e) e ≡ true
unfolding errors_is
sentinel_behind e = ground arith

status_of-wrap : (s : String) (failure : Error) → status_of (wrap s failure) ≡ status_of failure
unfolding status_of errors_is
status_of-wrap s failure = refl

-- The sentinel that an error wraps decides its status; without one it has none.
status_of_lem :
    (failure : Error)
    → ((e : DomainError) × (errors_is failure e ≡ true) × (status_of failure ≡ some (status_for e)))
      ⊎ (IsInternal failure × (status_of failure ≡ none))
unfolding status_of errors_is
status_of_lem (sentinel e) = inl (e, sentinel_behind e, sentinel_status e)
status_of_lem (driver d) = inr (driver-IsInternal d, refl)
status_of_lem policy = inr ((λ e. refl), refl)
status_of_lem (foreign s) = inr ((λ e. refl), refl)
status_of_lem (wrap s inner) = elim (status_of_lem inner) [
  | inl (e, behind, told) ↦ inl (e, behind, told)
  | inr (h, none_known) ↦ inr (wrap-IsInternal s inner h, none_known)
]

-- An error that wraps a sentinel, however often, is answered with the status that the table above
-- promises for that sentinel, and is not logged; every other one is logged with the name of the
-- operation and answered as an internal error that tells nothing of it.
pub map_error_lem :
    {W A : Type 0} (operation : String) (failure : Error) (x : Exchange W)
    → ((e : DomainError) × (errors_is failure e ≡ true)
        × (map_error {W = W} {A = A} operation failure x ≡ (status (status_for e), x)))
      ⊎ (IsInternal failure
          × (map_error {W = W} {A = A} operation failure x ≡ (
            status (record { code = Code.internal; message = "internal server error" }),
            record x { log = (operation, failure) ∷ x.log },
          )))
unfolding map_error
map_error_lem operation failure x = elim (status_of_lem failure) [
  | inl (e, behind, told) ↦ inl (e, behind, rw (told, map_error) refl)
  | inr (h, none_known) ↦ inr (h, rw (none_known, map_error) refl)
]
