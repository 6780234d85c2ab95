-- ===== src/Grpc/Protocol.antt =====
-- What server.go is built from: the application that it calls, the messages of identity.v1 that it
-- answers with, the status of an RPC and the log.
use family_tree_identity_mic.Shared.{ℕ, ◌/◌, String, Bool, Option, List, Text}
use family_tree_identity_mic.Domain.Errors.{Error, Result}
use family_tree_identity_mic.Domain.User.{User, UserStatus, UserSession, Uuid, Time}
use family_tree_identity_mic.Ports.{Done}
use family_tree_identity_mic.Application.Metadata.{
  LoginCommand, RefreshSessionCommand, SessionResult,
}
use family_tree_identity_mic.Application.Accounts.{
  RegisterCommand, ChangePasswordCommand, ResetPasswordCommand,
}

-- `IdentityApplication`, over whatever state the application has.
pub record IdentityApplication (W : Type 0) : Type 0 where
  pub register : RegisterCommand → W → Result User × W
  pub verify_email : Text → W → Result User × W
  pub login : LoginCommand → W → Result SessionResult × W
  pub refresh_session : RefreshSessionCommand → W → Result SessionResult × W
  pub logout : Text → W → Result Done × W
  pub logout_all : Uuid → W → Result ℕ × W
  pub get_user : Uuid → W → Result User × W
  pub list_sessions : Uuid → W → Result (List UserSession) × W
  pub revoke_session : Uuid → Uuid → W → Result Done × W
  pub change_password : ChangePasswordCommand → W → Result Done × W
  pub forgot_password : Text → W → Result Done × W
  pub reset_password : ResetPasswordCommand → W → Result Done × W

-- The members of google.golang.org/grpc/codes that the handlers answer with.
pub data Code : Type 0 where
  invalid_argument already_exists failed_precondition unauthenticated : Code
  permission_denied not_found internal : Code

pub record Status : Type 0 where
  pub code : Code
  pub message : String

-- The answer of a handler: a message, or an error with a status.
pub data Answer (A : Type 0) : Type 0 where
  reply : A → Answer A
  status : Status → Answer A

-- The application's state and the errors that were logged, newest first.
pub record Exchange (W : Type 0) : Type 0 where
  pub world : W
  pub log : List (String × Error)

-- `identityv1.UserStatus`.
pub data StatusMessage : Type 0 where
  unspecified pending active blocked deleting : StatusMessage

pub record UserMessage : Type 0 where
  pub id : Text
  pub email : Text
  pub display_name : Text
  pub status : StatusMessage

pub record SessionResponse : Type 0 where
  pub user : UserMessage
  pub access_token : Text
  pub refresh_token : Text
  pub access_token_expires_at_unix : ℕ
  pub refresh_token_expires_at_unix : ℕ

-- `identityv1.UserSession`.
pub record SessionMessage : Type 0 where
  pub id : Text
  pub user_agent : Text
  pub ip_address : Text
  pub created_at_unix : ℕ
  pub last_used_at_unix : ℕ
  pub expires_at_unix : ℕ

pub record RegisterResponse : Type 0 where
  pub user : UserMessage
  pub verification_required : Bool

-- `uuid.Parse` and `uuid.UUID.String`.
pub record UuidLibrary : Type 0 where
  pub parse : Text → Option Uuid
  pub print : Uuid → Text

-- `Time.Unix`, from microseconds.
abbrev pub unix : Time → ℕ
unix t = t / 1_000_000

unfoldable pub map_user_status : UserStatus → StatusMessage
map_user_status UserStatus.pending = StatusMessage.pending
map_user_status UserStatus.active = StatusMessage.active
map_user_status UserStatus.blocked = StatusMessage.blocked
map_user_status UserStatus.deleting = StatusMessage.deleting
map_user_status (UserStatus.other s) = StatusMessage.unspecified

unfoldable pub map_user : UuidLibrary → User → UserMessage
map_user uuids user = record {
  id = uuids.print user.id;
  email = user.email.value;
  display_name = user.display_name;
  status = map_user_status user.status;
}

unfoldable pub map_session : UuidLibrary → SessionResult → SessionResponse
map_session uuids result = record {
  user = map_user uuids result.user;
  access_token = result.access_token;
  refresh_token = result.refresh_token;
  access_token_expires_at_unix = unix result.access_token_expires_at;
  refresh_token_expires_at_unix = unix result.refresh_token_expires_at;
}

-- The body of the loop in lines 180 to 189.
unfoldable pub map_user_session : UuidLibrary → UserSession → SessionMessage
map_user_session uuids session = record {
  id = uuids.print session.id;
  user_agent = session.user_agent;
  ip_address = session.ip_address;
  created_at_unix = unix session.created_at;
  last_used_at_unix = unix session.last_used_at;
  expires_at_unix = unix session.expires_at;
}
