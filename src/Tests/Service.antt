-- ===== src/Tests/Service.antt =====
-- The service on the small database, with a password hasher that keeps its text.
pub mod Refused
use family_tree_identity_mic.Shared.{
  ◌+◌, ◌*◌, ◌/◌, ◌%◌, ◌<◌, ◌≡◌, ◌⊎◌, refl, none, some, [], ◌∷◌, ◌≤◌, find, find_join, any, same,
  is_empty, byte_length, rune_length, is_space, trim_left, trim_right, trim_space, Bool, false,
  Text, if◌then◌else◌, ◌==◌, arith, true,
}
use family_tree_identity_mic.Domain.Errors.{
  DomainError, sentinel, wrap, errors_is, IsInternal, ok, err,
}
use family_tree_identity_mic.Domain.Email.{
  Email, new_email, check_address, split, has_two_parts, max_email_length,
}
use family_tree_identity_mic.Domain.Email.Laws.{new_email_accepts, new_email-value, IsAddress}
use family_tree_identity_mic.Ports.{LoginIdentity, SessionRecord}
use family_tree_identity_mic.Postgres.Tables.{Db}
use family_tree_identity_mic.Postgres.Connection.{steady}
use family_tree_identity_mic.Postgres.Repository.{postgres}
use family_tree_identity_mic.Postgres.Passwords.{find_login_identity, login_found}
use family_tree_identity_mic.Postgres.Selects.{select_login_identity}
use family_tree_identity_mic.Postgres.Stored.{read_email, is_no_rows, user_of}
use family_tree_identity_mic.Postgres.Sessions.{create_session}
use family_tree_identity_mic.Postgres.Inserts.{insert_session}
use family_tree_identity_mic.Postgres.Sql.{nullable_inet}
use family_tree_identity_mic.Application.Service.{Service, World, Address, max_user_agent_bytes}
use family_tree_identity_mic.Application.Metadata.{
  SessionMetadata, LoginCommand, SessionResult, normalize_session_metadata, with_address,
}
use family_tree_identity_mic.Application.Login.{
  login, login_with, authenticate, check_password, check_status, open_session,
}
use family_tree_identity_mic.Application.Accounts.{RegisterCommand, register, forgot_password}
use family_tree_identity_mic.Application.Authentication.{
  ChecksOnce, IsStoreFailure, login-ChecksOnce, login_reveals_nothing,
}
use family_tree_identity_mic.Application.Admission.{Opens, login-Opens}
use family_tree_identity_mic.Application.Enrolment.{Ends, register-Ends}
use family_tree_identity_mic.Grpc.Errors.{status_of}
use family_tree_identity_mic.Grpc.Answers.{status_for, map_error_lem}
use family_tree_identity_mic.Application.Metadata.Bounds.{normalize_session_metadata_bounds}
use family_tree_identity_mic.Application.Recovery.{Concludes, forgot_password-Concludes}
use family_tree_identity_mic.Grpc.Protocol.{UuidLibrary, Exchange, status, Code}
use family_tree_identity_mic.Grpc.Server
use family_tree_identity_mic.Grpc.Wired.{served, login_tells_nothing}
use family_tree_identity_mic.Security.AccessToken.{Jwt, Signer, Claims, sign, signed_of, claims_of}
use family_tree_identity_mic.Security.AccessToken.Logins.{IsTokenOf, IsJwt, second, login-IsTokenOf}
use family_tree_identity_mic.Tests.Fixtures.{
  plain, plain_sql, db, alice, alice_address, carol_address, old_hash, new_token,
}

abbrev spaced : Text
spaced = b' ' ∷ alice_address

abbrev alice_email : Email
alice_email = record { value = alice_address; normalized = alice_address }

spaced_accepted : new_email plain spaced ≡ ok alice_email
unfolding new_email check_address split has_two_parts same is_empty byte_length rune_length is_space
    trim_left trim_right trim_space
spaced_accepted = refl

new_email_accepts_example :
    (alice_email.value ≡ trim_space spaced)
    × (alice_email.normalized ≡ alice_address)
    × (byte_length alice_address ≤ max_email_length)
    × (some alice_address ≡ some alice_address)
    × IsAddress alice_address
new_email_accepts_example = new_email_accepts plain spaced {e = alice_email} spaced_accepted

new_email-value_example : new_email plain alice_address ≡ ok alice_email
new_email-value_example = new_email-value plain spaced {e = alice_email} spaced_accepted

abbrev quiet : Exchange Text
quiet = record { world = []; log = [] }

map_error_lem_example :
    let failure = wrap "open" (sentinel DomainError.session_expired) in
    ((e : DomainError) × (errors_is failure e ≡ true)
      × (Server.map_error {W = Text} {A = Text} "login" failure quiet
          ≡ (status (status_for e), quiet)))
    ⊎ (IsInternal failure
        × (Server.map_error {W = Text} {A = Text} "login" failure quiet ≡ (
          status (record { code = Code.internal; message = "internal server error" }),
          record quiet { log = ("login", failure) ∷ [] },
        )))
map_error_lem_example =
    map_error_lem {W = Text} {A = Text} "login" (wrap "open" (sentinel DomainError.session_expired))
      quiet

-- A hasher that keeps its text, and one answer to every check of a password.
abbrev service_with : (Text → Text → Bool) → Service Db
service_with matches = record {
  repository = postgres plain plain_sql (λ method. steady);
  password_hasher = record {
    hash = λ candidate. ok candidate;
    verify = λ candidate hash. ok (matches candidate hash);
    dummy_hash = b'd' ∷ [];
  };
  token_generator = record { generate = ok (b't' ∷ [], new_token); hash = λ raw. raw };
  sign = λ user session now. ok (b'j' ∷ [], now);
  deliver = λ mail. ok tt;
  refresh_ttl = 1000;
  new_id = λ n. if n == 0 then 40 else 41;
  now = 50;
  text_library = plain;
  parse_addr = λ s. none;
}

abbrev world : World Db
world = record { store = db; outbox = []; checks = [] }

abbrev metadata : SessionMetadata
metadata = record { user_agent = []; ip_address = [] }

abbrev command : LoginCommand
command = record { email = spaced; password = old_hash; metadata = metadata }

metadata_accepted : normalize_session_metadata (λ s. none) metadata ≡ ok metadata
unfolding normalize_session_metadata is_empty byte_length trim_left trim_right trim_space
metadata_accepted = refl

login-ChecksOnce_example :
    ChecksOnce
      (service_with same)
      world
      metadata
      old_hash
      (new_email plain spaced)
      (login (service_with same) command world)
login-ChecksOnce_example =
    login-ChecksOnce (service_with same) command world metadata metadata_accepted

abbrev opened : SessionResult
opened = record {
  user = user_of alice alice_email;
  access_token = b'j' ∷ [];
  refresh_token = b't' ∷ [];
  access_token_expires_at = 50;
  refresh_token_expires_at = 1050;
}

logged_in : (login (service_with same) command world).0 ≡ ok opened
unfolding login login_with authenticate check_password check_status open_session
    normalize_session_metadata create_session insert_session nullable_inet find_login_identity
    login_found select_login_identity read_email is_no_rows find_join find any new_email
    check_address split has_two_parts same is_empty byte_length rune_length is_space trim_left
    trim_right trim_space
logged_in = refl

login-Opens_example :
    (email : Email) × (identity : LoginIdentity) × (s : Db) × (new_email plain spaced ≡ ok email)
    × (find_login_identity plain steady email.normalized db ≡ (ok identity, s))
    × Opens
        (service_with same)
        metadata
        old_hash
        identity
        s
        opened
        (login (service_with same) command world).1.store
login-Opens_example =
    login-Opens (service_with same) command world metadata opened metadata_accepted logged_in

abbrev enrolment : RegisterCommand
enrolment = record { email = carol_address; password = old_hash; display_name = b'C' ∷ [] }

register-Ends_example :
    Ends (service_with same) enrolment world (register (service_with same) enrolment world)
register-Ends_example = register-Ends (service_with same) enrolment world

forgot_password-Concludes_example :
    Concludes (service_with same) spaced world (forgot_password (service_with same) spaced world)
forgot_password-Concludes_example = forgot_password-Concludes (service_with same) spaced world

-- Metadata with an address that the parser writes in its own form.
abbrev noted : SessionMetadata
noted = record { user_agent = b' ' ∷ old_hash; ip_address = b'1' ∷ [] }

abbrev canonical : Address
canonical = record { zone = []; text = b'1' ∷ b'!' ∷ [] }

abbrev noted_as : SessionMetadata
noted_as = record { user_agent = old_hash; ip_address = canonical.text }

noted_accepted : normalize_session_metadata (λ s. some canonical) noted ≡ ok noted_as
unfolding normalize_session_metadata with_address is_empty byte_length rune_length is_space
    trim_left trim_right trim_space
noted_accepted = refl

normalize_session_metadata_bounds_example :
    (noted_as.user_agent ≡ trim_space noted.user_agent)
    × (byte_length noted_as.user_agent ≤ max_user_agent_bytes)
    × (((is_empty (trim_space noted.ip_address) ≡ true)
          × (noted_as.ip_address ≡ trim_space noted.ip_address))
        ⊎ ((address : Address) × (some canonical ≡ some address)
            × (is_empty address.zone ≡ true)
            × (noted_as.ip_address ≡ address.text)))
normalize_session_metadata_bounds_example =
    normalize_session_metadata_bounds (λ s. some canonical) noted noted_as noted_accepted

abbrev decimal : UuidLibrary
decimal = record { parse = λ s. some 1; print = λ id. [] }

-- A signature that is the name of the key, and identifiers as texts of one character.
abbrev shown : Jwt
shown = record {
  signed_string = λ key header claims. ok header.key_id;
  print = λ id. id ∷ [];
  numeric_date = λ t. t / second * second;
  new_string = b'j' ∷ [];
}

shown-IsJwt : IsJwt shown
shown-IsJwt = record {
  whole = λ t. omega arith;
  before = λ t. omega arith;
  close = λ t. omega arith;
}

abbrev signer : Signer
signer = record {
  private_key = [];
  public_key = [];
  key_id = b'k' ∷ [];
  issuer = b'i' ∷ [];
  audience = b'a' ∷ [];
  ttl = 15;
}

abbrev signed : SessionResult
signed = record opened { access_token = b'k' ∷ []; access_token_expires_at = 65 }

signed_in :
    (login (record (service_with same) { sign = sign shown signer }) command world).0 ≡ ok signed
unfolding login login_with authenticate check_password check_status open_session
    normalize_session_metadata create_session insert_session nullable_inet find_login_identity
    login_found select_login_identity read_email is_no_rows find_join find any new_email
    check_address split has_two_parts same is_empty byte_length rune_length is_space trim_left
    trim_right trim_space sign signed_of claims_of
signed_in = refl

login-IsTokenOf_example :
    let base = service_with same in
    (claims : Claims) × (session : SessionRecord) × (s : Db) × IsTokenOf shown signer
      signed.access_token claims
    × (claims.subject ≡ signed.user.id ∷ [])
    × (claims.session_id ≡ session.id ∷ [])
    × (session.user_id ≡ signed.user.id)
    × ((login (record base { sign = sign shown signer }) command world).1.store
        ≡ (base.repository.create_session session s).1)
    × (claims.issued_at ≡ 50 / second * second)
    × (claims.not_before ≡ claims.issued_at)
    × (claims.issued_at ≤ 50)
    × (claims.expires_at % second ≡ 0)
    × (claims.expires_at ≤ 65)
    × (65 < claims.expires_at + second)
    × (65 ≡ 50 + 15)
login-IsTokenOf_example =
    login-IsTokenOf shown signer (service_with same) command world metadata signed shown-IsJwt
      metadata_accepted signed_in
