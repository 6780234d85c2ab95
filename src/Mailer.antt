-- ===== src/Mailer.antt =====
-- internal/identity/adapters/mailer/log_mailer.go, the mailer of the development: it logs the link of
-- a letter. net/url is a parameter.
use family_tree_identity_mic.Shared.{
  String, ◌||◌, Option, none, some, Text, codes, is_empty, if◌then◌else◌,
}
use family_tree_identity_mic.Domain.Errors.{foreign, Result, ok, err}
use family_tree_identity_mic.Application.Service.{Mail, verification, password_reset}

-- `url.Parse`, the fields `Scheme` and `Host`, `Query().Set` with `Encode` put back, and `String`.
pub record UrlLibrary (U : Type 0) : Type 0 where
  pub parse : Text → Option U
  pub scheme : U → Text
  pub host : U → Text
  pub with_query : Text → Text → U → U
  pub print : U → Text

pub record LogMailer (U : Type 0) : Type 0 where
  pub verification_url : U
  pub password_reset_url : U

-- A line of the log: the message, and the fields `email` and the link.
pub record MailLine : Type 0 where
  pub message : String
  pub email : Text
  pub url : Text

module _ {U : Type 0} (urls : UrlLibrary U) where
  unfoldable pub absolute : Option U → Result U
  absolute none = err (foreign "URL must be absolute")
  absolute (some url) =
      if is_empty (urls.scheme url) || is_empty (urls.host url)
      then err (foreign "URL must be absolute")
      else ok url

  abbrev pub parse_public_url : Text → Result U
  parse_public_url value = absolute (urls.parse value)

  unfoldable pub new_log_mailer : Text → Text → Result (LogMailer U)
  new_log_mailer verification_url password_reset_url = elim (parse_public_url verification_url) [
    | err e ↦ err (foreign "invalid email verification URL")
    | ok u ↦ elim (parse_public_url password_reset_url) [
      | err e ↦ err (foreign "invalid password reset URL")
      | ok v ↦ ok (record { verification_url = u; password_reset_url = v })
    ]
  ]

  abbrev pub with_token : U → Text → Text
  with_token base token = urls.print (urls.with_query (codes "token") token base)

  -- `SendVerification` and `SendPasswordReset`: what they log; neither fails.
  unfoldable pub line_of : LogMailer U → Mail → MailLine
  line_of mailer (verification email token) = record {
    message = "development email verification link";
    email = email.value;
    url = with_token mailer.verification_url token;
  }
  line_of mailer (password_reset email token) = record {
    message = "development password reset link";
    email = email.value;
    url = with_token mailer.password_reset_url token;
  }
