-- ===== src/Grpc/Errors.antt =====
-- `mapError` of server.go.
use family_tree_identity_mic.Shared.{Option, none, some, String, ◌||◌, if◌then◌else◌}
use family_tree_identity_mic.Domain.Errors.{DomainError, Error, errors_is}
use family_tree_identity_mic.Grpc.Protocol.{Code, Status}

abbrev answer : Code → String → Status
answer code message = record { code = code; message = message }

abbrev answered : Code → String → Option Status
answered code message = some (answer code message)

abbrev pub internal_error : Status
internal_error = answer Code.internal "internal server error"

-- The cases of the switch, in their order; `none` for its default.
unfoldable pub status_of : Error → Option Status
status_of e =
    if errors_is e DomainError.invalid_email
    then answered Code.invalid_argument "email is invalid"
    else if errors_is e DomainError.invalid_display_name
    then answered Code.invalid_argument "display name is invalid"
    else if errors_is e DomainError.weak_password
    then answered Code.invalid_argument "password does not satisfy policy"
    else if errors_is e DomainError.email_already_exists
    then answered Code.already_exists "email is already registered"
    else if errors_is e DomainError.verification_token_invalid
    then answered Code.invalid_argument "verification token is invalid"
    else if errors_is e DomainError.verification_token_expired
        || errors_is e DomainError.verification_token_used
    then answered Code.failed_precondition "verification token cannot be used"
    else if errors_is e DomainError.password_reset_token_invalid
    then answered Code.invalid_argument "password reset token is invalid"
    else if errors_is e DomainError.password_reset_token_expired
        || errors_is e DomainError.password_reset_token_used
    then answered Code.failed_precondition "password reset token cannot be used"
    else if errors_is e DomainError.invalid_session_metadata
    then answered Code.invalid_argument "session metadata is invalid"
    else if errors_is e DomainError.invalid_credentials
    then answered Code.unauthenticated "email or password is invalid"
    else if errors_is e DomainError.email_not_verified
    then answered Code.failed_precondition "email verification is required"
    else if errors_is e DomainError.account_unavailable
    then answered Code.permission_denied "account is unavailable"
    else if errors_is e DomainError.refresh_token_invalid
        || errors_is e DomainError.refresh_token_reused
        || errors_is e DomainError.session_expired
        || errors_is e DomainError.session_revoked
    then answered Code.unauthenticated "session is invalid"
    else if errors_is e DomainError.user_not_found || errors_is e DomainError.session_not_found
    then answered Code.not_found "resource was not found"
    else none
