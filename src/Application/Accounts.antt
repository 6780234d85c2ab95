-- ===== src/Application/Accounts.antt =====
-- `Register`, `VerifyEmail`, `GetUser` and the methods on passwords of service.go.
use family_tree_identity_mic.Shared.{
  ◌+◌, not, ◌||◌, Text, length, ltb, ◌==◌, byte_length, trim_space, if◌then◌else◌,
}
use family_tree_identity_mic.Domain.Errors.{DomainError, errors_is, Result, ok, err}
use family_tree_identity_mic.Domain.Email.{Email, new_email}
use family_tree_identity_mic.Domain.User.{User, new_user, Uuid}
use family_tree_identity_mic.Ports.{Done}
use family_tree_identity_mic.Application.Service.{
  Service, Action, pure, raise, lift, wrapping, try, stored, ◌>>=◌, ◌>>◌, raise_if, verify_password,
  send, Mail, max_password_bytes, max_display_name_length, verification_token_ttl,
  password_reset_token_ttl, is_bad_token, hash_password,
}

pub record RegisterCommand : Type 0 where
  pub email : Text
  pub password : Text
  pub display_name : Text

pub record ChangePasswordCommand : Type 0 where
  pub user_id : Uuid
  pub current_password : Text
  pub new_password : Text

pub record ResetPasswordCommand : Type 0 where
  pub token : Text
  pub new_password : Text

module _ {S : Type 0} (svc : Service S) where
  unfoldable pub register : RegisterCommand → Action S User
  register command = do
    email ← lift (new_email svc.text_library command.email)
    let display_name = trim_space command.display_name
    raise_if (ltb max_display_name_length (length display_name)) DomainError.invalid_display_name
    password_hash ← hash_password svc command.password
    token ← wrapping "generate verification token" (lift svc.token_generator.generate)
    let user = new_user (svc.new_id 0) email display_name svc.now
    stored (
        svc.repository.create_registration (record {
          user = user;
          password_hash = password_hash;
          verification_token_id = svc.new_id 1;
          verification_token_hash = token.1;
          verification_expires_at = svc.now + verification_token_ttl;
        }))
    wrapping "send verification email" (send svc (Mail.verification email token.0))
    pure user

  unfoldable pub verify_email : Text → Action S User
  verify_email raw = do
    raise_if (is_bad_token raw) DomainError.verification_token_invalid
    stored (svc.repository.verify_email (svc.token_generator.hash raw) svc.now)

  unfoldable pub get_user : Uuid → Action S User
  get_user user_id = do
    raise_if (user_id == 0) DomainError.user_not_found
    stored (svc.repository.get_user user_id)

  unfoldable pub change_password : ChangePasswordCommand → Action S Done
  change_password command = do
    raise_if (command.user_id == 0 || ltb max_password_bytes (byte_length command.current_password))
        DomainError.invalid_credentials
    current_hash ← stored (svc.repository.get_password_credential command.user_id)
    matches ←
        wrapping "verify current password"
          (verify_password svc command.current_password current_hash)
    raise_if (not matches) DomainError.invalid_credentials
    new_hash ← hash_password svc command.new_password
    stored (svc.repository.change_password command.user_id current_hash new_hash svc.now)

  -- Lines 396 to 414, for a user that was found.
  unfoldable pub request_reset : User → Action S Done
  request_reset user = do
    token ← wrapping "generate password reset token" (lift svc.token_generator.generate)
    stored (
        svc.repository.create_password_reset (record {
          token_id = svc.new_id 0;
          user_id = user.id;
          token_hash = token.1;
          expires_at = svc.now + password_reset_token_ttl;
          created_at = svc.now;
        }))
    wrapping "send password reset email" (send svc (Mail.password_reset user.email token.0))

  -- Lines 388 to 414, on the answer of `FindPasswordResetUser`.
  unfoldable pub reset_requested : Result User → Action S Done
  reset_requested (ok user) = request_reset user
  reset_requested (err e) =
      if errors_is e DomainError.user_not_found || errors_is e DomainError.account_unavailable
      then pure tt
      else raise e

  -- Lines 383 to 414, on the parsed address.
  unfoldable pub forgot_password_of : Result Email → Action S Done
  forgot_password_of (err e) = pure tt
  forgot_password_of (ok email) = do
    user ← try (stored (svc.repository.find_password_reset_user email.normalized))
    reset_requested user

  unfoldable pub forgot_password : Text → Action S Done
  forgot_password email_value = forgot_password_of (new_email svc.text_library email_value)

  unfoldable pub reset_password : ResetPasswordCommand → Action S Done
  reset_password command = do
    raise_if (is_bad_token command.token) DomainError.password_reset_token_invalid
    new_hash ← hash_password svc command.new_password
    stored (svc.repository.reset_password (svc.token_generator.hash command.token) new_hash svc.now)
