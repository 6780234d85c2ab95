-- ===== src/Security/Token.antt =====
-- internal/security/token/token.go. SHA-256 is a parameter; so is what the random source gives.
pub mod Generated
use family_tree_identity_mic.Shared.{ℕ, ◌+◌, ◌-◌, ◌/◌, ◌%◌, List, [], ◌∷◌, Text, ltb, if◌then◌else◌}
use family_tree_identity_mic.Domain.Errors.{wrap, Result, ok, err}
use family_tree_identity_mic.Application.Service.{TokenGenerator}
use family_tree_identity_mic.Security.Base64.{Bytes, url, encode}
use family_tree_identity_mic.Security.Utf8.{utf8}

abbrev pub token_bytes : ℕ
token_bytes = 32

-- `hex.EncodeToString`.
unfoldable pub hex_digit : ℕ → ℕ
hex_digit n = if ltb n 10 then b'0' + n else b'a' + (n - 10)

unfoldable pub hex : Bytes → Text
hex [] = []
hex (b ∷ bytes) = hex_digit (b / 16) ∷ hex_digit (b % 16) ∷ hex bytes

module _ (sha256 : Bytes → Bytes) where
  -- `Hash`.
  unfoldable pub hash_token : Text → Text
  hash_token raw = hex (sha256 (utf8 raw))

  -- `Generate`, on the bytes of the random source.
  unfoldable pub generate : Result Bytes → Result (Text × Text)
  generate (err e) = err (wrap "generate random token" e)
  generate (ok value) = let raw = encode url value in ok (raw, hash_token raw)

  -- `Generator`, as the service's `TokenGenerator` in a request.
  abbrev pub generator : Result Bytes → TokenGenerator
  generator random = record { generate = generate random; hash = hash_token }
