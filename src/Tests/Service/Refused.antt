-- ===== src/Tests/Service/Refused.antt =====
-- A login with a wrong password, on a service with the Argon2 hasher.
use family_tree_identity_mic.Shared.{
  ℕ, zero, suc, ◌%◌, ◌<◌, ◌≡◌, refl, false, [], ◌∷◌, length, arith, Text, codes, same, is_empty,
  byte_length, rune_length, is_space, trim_left, trim_right, trim_space, find, find_join, some,
}
use family_tree_identity_mic.Domain.Errors.{DomainError, sentinel, errors_is, ok, err}
use family_tree_identity_mic.Domain.Email.{new_email, check_address, split, has_two_parts}
use family_tree_identity_mic.Ports.{LoginIdentity}
use family_tree_identity_mic.Postgres.Tables.{Db}
use family_tree_identity_mic.Postgres.Connection.{steady}
use family_tree_identity_mic.Postgres.Passwords.{find_login_identity, login_found}
use family_tree_identity_mic.Postgres.Selects.{select_login_identity}
use family_tree_identity_mic.Postgres.Stored.{read_email, is_no_rows, user_of}
use family_tree_identity_mic.Application.Service.{Service, World}
use family_tree_identity_mic.Application.Login.{login}
use family_tree_identity_mic.Application.Authentication.{
  IsStoreFailure, IsWrongFor, login_reveals_nothing,
}
use family_tree_identity_mic.Security.Base64.{Bytes}
use family_tree_identity_mic.Security.Base64.RoundTrip.{AreBytes}
use family_tree_identity_mic.Security.Utf8.{utf8, rune_bytes}
use family_tree_identity_mic.Security.Password.{
  Argon2, default_params, zeros, encode_hash, verify, hasher,
}
use family_tree_identity_mic.Security.Password.Hashes.{IsArgon2}
use family_tree_identity_mic.Security.Password.Verify.{
  zeros-AreBytes, default-AreParams, verify-encode_hash, verify-dummy_hash,
}
use family_tree_identity_mic.Grpc.Protocol.{Exchange, status, Code}
use family_tree_identity_mic.Grpc.Server
use family_tree_identity_mic.Grpc.Wired.{served, login_tells_nothing}
use family_tree_identity_mic.Tests.Fixtures.{plain, db, alice, alice_address, old_hash, credential}
use family_tree_identity_mic.Tests.Service.{
  spaced, alice_email, spaced_accepted, service_with, metadata, command, metadata_accepted, decimal,
}

unfoldable repeated : ℕ → ℕ → Bytes
repeated b zero = []
repeated b (suc n) = b ∷ repeated b n

repeated-AreBytes : (b n : ℕ) → b < 256 → AreBytes (repeated b n) × (length (repeated b n) ≡ n)
unfolding repeated
repeated-AreBytes b zero h = (tt, refl)
repeated-AreBytes b (suc n) h = ground (arith, repeated-AreBytes b n h)

-- A derivation that tells passwords of different lengths apart.
abbrev measure : Argon2
measure = record {
  version = 19;
  id_key = λ candidate salt iterations memory parallelism key_length.
      repeated (length candidate % 256) key_length;
}

measure-IsArgon2 : IsArgon2 measure
measure-IsArgon2 = record {
  version = ground arith;
  derived = λ candidate salt iterations memory parallelism key_length.
      (repeated-AreBytes (length candidate % 256) key_length (omega arith)).0;
  derived_length = λ candidate salt iterations memory parallelism key_length.
      (repeated-AreBytes (length candidate % 256) key_length (omega arith)).1;
}

abbrev stored_hash : Text
stored_hash = encode_hash measure (utf8 (codes "correct horse battery")) (zeros 16) default_params

-- The password of the command is another one.
refused_password : verify measure old_hash stored_hash ≡ ok false
unfolding repeated same utf8 rune_bytes
refused_password =
    verify-encode_hash measure measure-IsArgon2 (utf8 (codes "correct horse battery")) (zeros 16)
      default_params old_hash
      (default-AreParams (zeros 16) (zeros-AreBytes 16).0 (zeros-AreBytes 16).1)

abbrev guarded : World Db
guarded = record {
  store = record db { credentials = credential 1 stored_hash ∷ [] };
  outbox = [];
  checks = [];
}

abbrev hashing : Service Db
hashing = record (service_with same) { password_hasher = hasher measure (ok (zeros 16)) }

abbrev known : LoginIdentity
known = record { user = user_of alice alice_email; password_hash = stored_hash }

found : find_login_identity plain steady alice_address guarded.store ≡ (ok known, guarded.store)
unfolding find_login_identity login_found select_login_identity read_email is_no_rows find_join find
    new_email check_address split has_two_parts same is_empty byte_length rune_length is_space
    trim_left trim_right trim_space
found = refl

wrong : IsWrongFor hashing guarded metadata old_hash (new_email plain spaced)
wrong email identity parsed selected =
    let same_email : (email ≡ alice_email) = ground (arith, spaced_accepted) in
    let selected' : ((find_login_identity plain steady alice_address guarded.store).0
        ≡ ok identity) =
      rw same_email at selected in
    let same_identity : (identity ≡ known) = ground (arith, found) in
    rw same_identity refused_password

searched :
    (email : Text) → ¬ IsStoreFailure (find_login_identity plain steady email guarded.store).0
unfolding find_login_identity login_found select_login_identity read_email is_no_rows find_join find
    new_email check_address split has_two_parts same is_empty byte_length rune_length is_space
    trim_left trim_right trim_space errors_is
searched email = ground arith

login_reveals_nothing_example :
    (login hashing command guarded).0 ≡ err (sentinel DomainError.invalid_credentials)
login_reveals_nothing_example =
    login_reveals_nothing hashing command guarded metadata metadata_accepted wrong
      (verify-dummy_hash measure measure-IsArgon2) searched

abbrev exchange : Exchange (World Db)
exchange = record { world = guarded; log = [] }

login_tells_nothing_example :
    let (answer, after) = Server.login (served hashing) decimal (some command) exchange in
    (answer
      ≡ status (record { code = Code.unauthenticated; message = "email or password is invalid" }))
    × (after.log ≡ [])
login_tells_nothing_example =
    login_tells_nothing measure (ok (zeros 16)) (service_with same) decimal command exchange
      metadata measure-IsArgon2 metadata_accepted wrong searched
