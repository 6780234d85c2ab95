-- ===== src/Security/Token/Generated.antt =====
-- A token that was drawn is one that the service takes back.
use family_tree_identity_mic.Shared.{
  ◌+◌, ◌*◌, ◌/◌, ◌≡◌, sym, ◌∙◌, ap, false, some, arith, [], ◌∷◌, Text, length, is_empty,
  byte_length,
}
use family_tree_identity_mic.Domain.Errors.{ok}
use family_tree_identity_mic.Application.Service.{is_bad_token}
use family_tree_identity_mic.Security.Base64.{Bytes, url, encode, decode}
use family_tree_identity_mic.Security.Base64.RoundTrip.{
  AreBytes, url-IsAlphabet, decode-encode, byte_length-encode,
}
use family_tree_identity_mic.Security.Token.{token_bytes, hash_token, generate}

short_text : (s : Text) → byte_length s ≡ 43 → is_bad_token s ≡ false
unfolding is_bad_token is_empty byte_length
short_text [] e = absurd (ground arith)
short_text (c ∷ s) e = ground arith

-- A token that is drawn from 32 random bytes is accepted by every use case that takes a token, tells
-- its random bytes, so that different bytes give different tokens, and comes with the hash under
-- which it is looked up.
pub generate-accepted :
    (sha256 : Bytes → Bytes) (value : Bytes) (raw hash : Text)
    → AreBytes value
    → length value ≡ token_bytes
    → generate sha256 (ok value) ≡ ok (raw, hash)
    → (is_bad_token raw ≡ false) × (decode url raw ≡ some value) × (hash ≡ hash_token sha256 raw)
unfolding generate
generate-accepted sha256 value raw hash bytes exact drawn =
    let same_raw : encode url value ≡ raw = ground arith in
    (
      short_text raw (
          ap byte_length (sym same_raw)
          ∙ byte_length-encode value
          ∙ ap (λ n. (n * 4 + 2) / 3) exact),
      ap (decode url) (sym same_raw) ∙ decode-encode url url-IsAlphabet value bytes,
      ground arith,
    )
