-- ===== src/Tests/Security.antt =====
-- Passwords, tokens and signatures on small inputs.
use family_tree_identity_mic.Shared.{◌≡◌, refl, ◌⊎◌, true, false, some, arith, Text, codes, same}
use family_tree_identity_mic.Domain.Errors.{Error, is_policy, ok, err}
use family_tree_identity_mic.Application.Service.{is_bad_token}
use family_tree_identity_mic.Security.Base64.{Bytes, url, encode, decode}
use family_tree_identity_mic.Security.Utf8.{utf8}
use family_tree_identity_mic.Security.Password.{
  Argon2, default_params, derive, encode_hash, parse_hash, hash, verify, zeros,
}
use family_tree_identity_mic.Security.Password.Hashes.{IsArgon2, AreParams, parse_hash-encode_hash}
use family_tree_identity_mic.Security.Password.Verify.{
  IsAcceptable, hash-verify, zeros-AreBytes, default-AreParams,
}
use family_tree_identity_mic.Security.Password.Bounds.{IsBounded, parse_hash-IsBounded}
use family_tree_identity_mic.Security.Token.{generate, hash_token}
use family_tree_identity_mic.Security.Token.Generated.{generate-accepted}

-- A derivation that keeps nothing of the password.
abbrev blank : Argon2
blank = record {
  version = 19;
  id_key = λ candidate salt iterations memory parallelism key_length. zeros key_length;
}

blank-IsArgon2 : IsArgon2 blank
blank-IsArgon2 = record {
  version = ground arith;
  derived =
      λ candidate salt iterations memory parallelism key_length. (zeros-AreBytes key_length).0;
  derived_length =
      λ candidate salt iterations memory parallelism key_length. (zeros-AreBytes key_length).1;
}

abbrev passphrase : Text
passphrase = codes "correct horse battery"

salted : AreParams default_params (zeros 16)
salted = default-AreParams (zeros 16) ((zeros-AreBytes 16).0) ((zeros-AreBytes 16).1)

parse_hash-encode_hash_example :
    parse_hash blank (encode_hash blank (utf8 passphrase) (zeros 16) default_params)
    ≡ ok (record { params = default_params; salt = zeros 16; key = zeros 32 })
parse_hash-encode_hash_example =
    parse_hash-encode_hash blank blank-IsArgon2 (utf8 passphrase) (zeros 16) default_params salted

parse_hash-IsBounded_example :
    IsBounded (record { params = default_params; salt = zeros 16; key = zeros 32 })
parse_hash-IsBounded_example =
    parse_hash-IsBounded blank (record { params = default_params; salt = zeros 16; key = zeros 32 })
      (encode_hash blank (utf8 passphrase) (zeros 16) default_params) parse_hash-encode_hash_example

hash-verify_example :
    (IsAcceptable passphrase
      × ((hashed : Text) × (hash blank default_params (ok (zeros 16)) passphrase ≡ ok hashed)
          × (verify blank passphrase hashed ≡ ok true)
          × (verify blank (codes "guess") hashed
              ≡ ok (
                  same
                    (derive blank (utf8 (codes "guess")) (zeros 16) default_params)
                    (derive blank (utf8 passphrase) (zeros 16) default_params)))))
    ⊎ ((¬ IsAcceptable passphrase)
        × ((failure : Error) × (hash blank default_params (ok (zeros 16)) passphrase ≡ err failure)
            × (is_policy failure ≡ true)))
hash-verify_example =
    hash-verify blank blank-IsArgon2 (zeros 16) passphrase (codes "guess") (zeros-AreBytes 16).0
      (zeros-AreBytes 16).1

-- A digest that keeps nothing of its input.
abbrev digest : Bytes → Bytes
digest bytes = zeros 32

generated :
    generate digest (ok (zeros 32))
    ≡ ok (encode url (zeros 32), hash_token digest (encode url (zeros 32)))
unfolding generate
generated = refl

generate-accepted_example :
    let raw = encode url (zeros 32) in
    (is_bad_token raw ≡ false)
    × (decode url raw ≡ some (zeros 32))
    × (hash_token digest raw ≡ hash_token digest raw)
generate-accepted_example =
    generate-accepted digest (zeros 32) (encode url (zeros 32))
      (hash_token digest (encode url (zeros 32))) (zeros-AreBytes 32).0 (zeros-AreBytes 32).1
      generated
