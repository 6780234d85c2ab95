-- ===== src/Grpc/Wired.antt =====
-- The handlers on the service, as internal/app/app.go puts them together: what a caller learns from
-- a login.
use family_tree_identity_mic.Shared.{◌≡◌, some, arith, Text}
use family_tree_identity_mic.Domain.Errors.{DomainError, sentinel, errors_is, Result, ok, err}
use family_tree_identity_mic.Application.Service.{Service, World}
use family_tree_identity_mic.Application.Metadata.{
  SessionMetadata, LoginCommand, normalize_session_metadata,
}
use family_tree_identity_mic.Application.Login
use family_tree_identity_mic.Application.Accounts
use family_tree_identity_mic.Application.Authentication.{
  IsStoreFailure, IsWrongFor, login_reveals_nothing,
}
use family_tree_identity_mic.Domain.Email.{new_email}
use family_tree_identity_mic.Security.Base64.{Bytes}
use family_tree_identity_mic.Security.Password.{Argon2, hasher}
use family_tree_identity_mic.Security.Password.Hashes.{IsArgon2}
use family_tree_identity_mic.Security.Password.Verify.{verify-dummy_hash}
use family_tree_identity_mic.Grpc.Protocol.{
  IdentityApplication, Exchange, status, Code, UuidLibrary,
}
use family_tree_identity_mic.Grpc.Errors.{status_of}
use family_tree_identity_mic.Grpc.Server

-- `application.Service` as the server's `IdentityApplication`.
abbrev pub served : {S : Type 0} → Service S → IdentityApplication (World S)
served svc = record {
  register = Accounts.register svc;
  verify_email = Accounts.verify_email svc;
  login = Login.login svc;
  refresh_session = Login.refresh_session svc;
  logout = Login.logout svc;
  logout_all = Login.logout_all svc;
  get_user = Accounts.get_user svc;
  list_sessions = Login.list_sessions svc;
  revoke_session = Login.revoke_session svc;
  change_password = Accounts.change_password svc;
  forgot_password = Accounts.forgot_password svc;
  reset_password = Accounts.reset_password svc;
}

module _ {S : Type 0} (svc : Service S) (uuids : UuidLibrary) where
  login-refused :
      (command : LoginCommand) (x : Exchange (World S))
      → (Login.login svc command x.world).0 ≡ err (sentinel DomainError.invalid_credentials)
      → let (answer, after) = Server.login (served svc) uuids (some command) x in
        (answer
          ≡ status
              (record { code = Code.unauthenticated; message = "email or password is invalid" }))
        × (after.log ≡ x.log)
  unfolding Server.login Server.map_error status_of errors_is
  login-refused command x e = ground arith

-- On a service with the Argon2 hasher, the RPC `Login` with a password that is not that of the
-- account under the address answers `UNAUTHENTICATED` with one and the same message, for a text that
-- is no address, an address without an account and an account of any status, and logs nothing; unless
-- its metadata is refused or the store cannot be searched. Argon2 is relied on to derive as many bytes
-- as it is asked for.
pub login_tells_nothing :
    {S : Type 0} (argon : Argon2) (random : Result Bytes) (base : Service S) (uuids : UuidLibrary)
    (command : LoginCommand) (x : Exchange (World S)) (metadata : SessionMetadata)
    → IsArgon2 argon
    → normalize_session_metadata base.parse_addr command.metadata ≡ ok metadata
    → IsWrongFor
        (record base { password_hasher = hasher argon random })
        x.world
        metadata
        command.password
        (new_email base.text_library command.email)
    → ((email : Text)
        → ¬ IsStoreFailure (base.repository.find_login_identity email x.world.store).0)
    → let svc = record base { password_hasher = hasher argon random } in
      let (answer, after) = Server.login (served svc) uuids (some command) x in
      (answer
        ≡ status (record { code = Code.unauthenticated; message = "email or password is invalid" }))
      × (after.log ≡ x.log)
login_tells_nothing argon random base uuids command x metadata good accepted wrong known =
    let svc = record base { password_hasher = hasher argon random } in
    login-refused svc uuids command x (
      login_reveals_nothing svc command x.world metadata accepted wrong
        (verify-dummy_hash argon good) known)
