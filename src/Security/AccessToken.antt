-- ===== src/Security/AccessToken.antt =====
-- internal/security/accesstoken/signer.go. The JWT library is a parameter, with what it draws as the
-- identifier of a token. A time to live is an integer of the same unit as the times.
pub mod Keys
pub mod Logins
use family_tree_identity_mic.Shared.{
  ℕ, ℤ, pos, negsuc, zero, suc, ◌+◌, Bool, true, false, not, ◌||◌, Option, none, some, List, [],
  ◌∷◌, Text, String, codes, length, ◌==◌, is_empty, trim_space, if◌then◌else◌,
}
use family_tree_identity_mic.Domain.Errors.{Error, foreign, wrap, Result, ok, err}
use family_tree_identity_mic.Domain.User.{Uuid, Time}
use family_tree_identity_mic.Security.Base64.{Bytes, standard, decode, encode_padded, decode_padded}

-- `ErrInvalidConfiguration`.
abbrev pub invalid_configuration : Error
invalid_configuration = foreign "invalid access token configuration"

-- `ed25519.PrivateKeySize`.
abbrev pub private_key_size : ℕ
private_key_size = 64

abbrev pub token_type : Text
token_type = codes "at+jwt"

abbrev pub algorithm : Text
algorithm = codes "EdDSA"

pub record Claims : Type 0 where
  pub session_id : Text
  pub token_use : Text
  pub issuer : Text
  pub subject : Text
  pub audience : List Text
  pub expires_at : Time
  pub not_before : Time
  pub issued_at : Time
  pub id : Text

-- The fields `kid` and `typ` of a token's header.
pub record Header : Type 0 where
  pub key_id : Text
  pub type : Text

pub record PublicKeyInfo : Type 0 where
  pub key_id : Text
  pub algorithm : Text
  pub public_key_base64 : Text
  pub issuer : Text
  pub audience : Text

pub record Signer : Type 0 where
  pub private_key : Bytes
  pub public_key : Bytes
  pub key_id : Text
  pub issuer : Text
  pub audience : Text
  pub ttl : Time

-- `SignedString` with EdDSA, `NewNumericDate`, the text of a UUID, and `uuid.NewString` in a request.
pub record Jwt : Type 0 where
  pub signed_string : Bytes → Header → Claims → Result Text
  pub numeric_date : Time → Time
  pub print : Uuid → Text
  pub new_string : Text

-- `decodeBase64`: with padding, or else without.
unfoldable pub decode_either : Text → Option Bytes → Result Bytes
decode_either value (some bytes) = ok bytes
decode_either value none = elim (decode standard value) [
  | none ↦ err (foreign "illegal base64 data")
  | some bytes ↦ ok bytes
]

unfoldable pub decode_base64 : Text → Result Bytes
decode_base64 raw =
    let value = trim_space raw in
    if is_empty value
    then err (foreign "value is empty")
    else decode_either value (decode_padded standard value)

-- `privateKey.Public()`: the bytes behind the seed.
unfoldable pub drop : ℕ → Bytes → Bytes
drop zero bytes = bytes
drop (suc n) [] = []
drop (suc n) (b ∷ bytes) = drop n bytes

-- `newSigner`.
unfoldable pub signer_of : Bytes → Text → Text → Text → ℤ → Result Signer
signer_of private_key key_id issuer audience (negsuc n) =
    err (wrap "key ID, issuer, audience and positive TTL are required" invalid_configuration)
signer_of private_key key_id issuer audience (pos ttl) =
    if is_empty (trim_space key_id)
      || is_empty (trim_space issuer)
      || is_empty (trim_space audience)
      || ttl == 0
    then err (wrap "key ID, issuer, audience and positive TTL are required" invalid_configuration)
    else ok (record {
      private_key = private_key;
      public_key = drop 32 private_key;
      key_id = trim_space key_id;
      issuer = trim_space issuer;
      audience = trim_space audience;
      ttl = ttl;
    })

unfoldable pub new_signer : Text → Text → Text → Text → ℤ → Result Signer
new_signer private_key_base64 key_id issuer audience ttl = elim (decode_base64 private_key_base64) [
  | err e ↦ err (wrap "decode private key" invalid_configuration)
  | ok private_key ↦
      if not (length private_key == private_key_size)
      then err (wrap "private key must contain 64 bytes" invalid_configuration)
      else signer_of private_key key_id issuer audience ttl
]

-- `NewEphemeralSigner`, on the key that `ed25519.GenerateKey` draws.
unfoldable pub new_ephemeral_signer : Result Bytes → Text → Text → Text → ℤ → Result Signer
new_ephemeral_signer (err e) key_id issuer audience ttl = err (wrap "generate Ed25519 key" e)
new_ephemeral_signer (ok private_key) key_id issuer audience ttl =
    signer_of private_key key_id issuer audience ttl

module _ (jwt : Jwt) (signer : Signer) where
  unfoldable pub claims_of : Uuid → Uuid → Time → Claims
  claims_of user_id session_id now = record {
    session_id = jwt.print session_id;
    token_use = codes "access";
    issuer = signer.issuer;
    subject = jwt.print user_id;
    audience = signer.audience ∷ [];
    expires_at = jwt.numeric_date (now + signer.ttl);
    not_before = jwt.numeric_date now;
    issued_at = jwt.numeric_date now;
    id = jwt.new_string;
  }

  unfoldable pub signed_of : Time → Result Text → Result (Text × Time)
  signed_of expires_at (ok value) = ok (value, expires_at)
  signed_of expires_at (err e) = err (wrap "sign access token" e)

  unfoldable pub sign : Uuid → Uuid → Time → Result (Text × Time)
  sign user_id session_id now =
      if user_id == 0 || session_id == 0
      then err (foreign "sign access token: user and session IDs are required")
      else signed_of (now + signer.ttl) (
          jwt.signed_string signer.private_key
            (record { key_id = signer.key_id; type = token_type })
            (claims_of user_id session_id now))

unfoldable pub public_key_info : Signer → PublicKeyInfo
public_key_info signer = record {
  key_id = signer.key_id;
  algorithm = algorithm;
  public_key_base64 = encode_padded standard signer.public_key;
  issuer = signer.issuer;
  audience = signer.audience;
}
