-- ===== src/Grpc/Server.antt =====
-- The handlers of server.go. A request is `none` for nil.
use family_tree_identity_mic.Shared.{ℕ, String, true, Option, none, some, List, ◌∷◌, map, Text}
use family_tree_identity_mic.Domain.Errors.{Error, Result, ok, err}
use family_tree_identity_mic.Domain.User.{Uuid}
use family_tree_identity_mic.Ports.{Done}
use family_tree_identity_mic.Application.Metadata.{LoginCommand, RefreshSessionCommand}
use family_tree_identity_mic.Application.Accounts.{RegisterCommand, ResetPasswordCommand}
use family_tree_identity_mic.Grpc.Protocol.{
  IdentityApplication, Code, Answer, reply, status, Exchange, UserMessage, SessionResponse,
  SessionMessage, RegisterResponse, UuidLibrary, map_user, map_session, map_user_session,
}
use family_tree_identity_mic.Grpc.Errors.{status_of, internal_error}
use family_tree_identity_mic.Security.AccessToken.{PublicKeyInfo}

abbrev pub Handler : Type 0 → Type 0 → Type 0
Handler W A = Exchange W → Answer A × Exchange W

abbrev pub invalid : {W A : Type 0} → String → Handler W A
invalid message x = (status (record { code = Code.invalid_argument; message = message }), x)

-- `mapError`: an error with no case of its own is logged.
unfoldable pub map_error : {W A : Type 0} → String → Error → Handler W A
map_error operation e x = elim (status_of e) [
  | some answer ↦ (status answer, x)
  | none ↦ (status internal_error, record x { log = (operation, e) ∷ x.log })
]

-- A call of the application, whose error is mapped.
abbrev pub calling : {W A B : Type 0} → String → (W → Result A × W) → (A → B) → Handler W B
calling operation method answer x =
    let (r, w) = method x.world in
    let x' = record x { world = w } in
    elim r [ ok a ↦ (reply (answer a), x') | err e ↦ map_error operation e x' ]

abbrev pub required : {W A R : Type 0} → Option R → (R → Handler W A) → Handler W A
required none handle = invalid "request is required"
required (some request) handle = handle request

-- The identifier of a request, or the answer that it is invalid.
abbrev pub parsed : {W A : Type 0} → Option Uuid → String → (Uuid → Handler W A) → Handler W A
parsed none message handle = invalid message
parsed (some id) message handle = handle id

-- The key that the server was given, in a message with the same fields.
unfoldable pub get_access_token_public_key : {W : Type 0} → PublicKeyInfo → Handler W PublicKeyInfo
get_access_token_public_key key x = (reply key, x)

module _ {W : Type 0} (app : IdentityApplication W) (uuids : UuidLibrary) where
  unfoldable pub login : Option LoginCommand → Handler W SessionResponse
  login request =
      required request λ command. calling "login" (app.login command) (map_session uuids)

  unfoldable pub refresh_session : Option RefreshSessionCommand → Handler W SessionResponse
  refresh_session request =
      required request
        λ command. calling "refresh session" (app.refresh_session command) (map_session uuids)

  unfoldable pub logout : Option Text → Handler W Done
  logout request = required request λ token. calling "logout" (app.logout token) (λ x. tt)

  -- The number is the answer's `RevokedSessionCount`.
  unfoldable pub logout_all : Option Text → Handler W ℕ
  logout_all request = required request λ user_id.
      parsed (uuids.parse user_id) "user ID is invalid"
        λ id. calling "logout all" (app.logout_all id) (λ n. n)

  unfoldable pub get_user : Option Text → Handler W UserMessage
  get_user request = required request λ user_id.
      parsed (uuids.parse user_id) "user ID is invalid"
        λ id. calling "get user" (app.get_user id) (map_user uuids)

  unfoldable pub list_sessions : Option Text → Handler W (List SessionMessage)
  list_sessions request = required request λ user_id.
      parsed (uuids.parse user_id) "user ID is invalid"
        λ id. calling "list sessions" (app.list_sessions id) (map (map_user_session uuids))

  -- The request is the pair of the user's and the session's identifiers.
  unfoldable pub revoke_session : Option (Text × Text) → Handler W Done
  revoke_session request = required request λ ids.
      parsed (uuids.parse ids.0) "user ID is invalid" λ user_id.
        parsed (uuids.parse ids.1) "session ID is invalid"
          λ session_id. calling "revoke session" (app.revoke_session user_id session_id) (λ x. tt)

  -- The request is the user's identifier, the current and the new password.
  unfoldable pub change_password : Option (Text × Text × Text) → Handler W Done
  change_password request = required request λ r.
      parsed (uuids.parse r.0) "user ID is invalid" λ user_id.
        calling "change password"
          (app.change_password
            (record { user_id = user_id; current_password = r.1; new_password = r.2 }))
          (λ x. tt)

  -- The error is logged, and the answer does not tell of it.
  unfoldable pub forgot_password : Option Text → Handler W Done
  forgot_password request = required request λ email x.
      let (r, w) = app.forgot_password email x.world in
      let x' = record x { world = w } in
      (reply tt, elim r [ ok a ↦ x' | err e ↦ record x' { log = ("forgot password", e) ∷ x'.log } ])

  unfoldable pub reset_password : Option ResetPasswordCommand → Handler W Done
  reset_password request =
      required request λ command. calling "reset password" (app.reset_password command) (λ x. tt)

  unfoldable pub register : Option RegisterCommand → Handler W RegisterResponse
  register request = required request λ command.
      calling "register user" (app.register command)
        (λ user. record { user = map_user uuids user; verification_required = true })

  unfoldable pub verify_email : Option Text → Handler W UserMessage
  verify_email request =
      required request λ token. calling "verify email" (app.verify_email token) (map_user uuids)
