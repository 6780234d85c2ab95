-- ===== src/Security/AccessToken/Keys.antt =====
-- Which configurations a signer is made from, and what it signs for a login.
use family_tree_identity_mic.Shared.{
  ℕ, ℤ, pos, negsuc, suc, ◌<◌, ◌≡◌, refl, inl, inr, ◌∙◌, ap, sym, Bool-cases, false, [], ◌∷◌, arith,
  Text, length, ◌==◌, is_empty, trim_left, trim_right, trim_space,
}
use family_tree_identity_mic.Domain.Errors.{Result-cases, ok}
use family_tree_identity_mic.Security.Base64.{Bytes, standard, encode_padded, sextets}
use family_tree_identity_mic.Security.Base64.RoundTrip.{AreBytes}
use family_tree_identity_mic.Security.Base64.Padded.{
  IsSolid, encode_padded-IsSolid, decode_padded-encode_padded,
}
use family_tree_identity_mic.Security.AccessToken.{
  Signer, decode_either, decode_base64, drop, signer_of, new_signer,
}

trim_right-IsSolid : (s : Text) → IsSolid s → trim_right s ≡ s
unfolding trim_right
trim_right-IsSolid [] h = refl
trim_right-IsSolid (c ∷ s) h = ground (arith, trim_right-IsSolid s h.1)

trim_space-IsSolid : (s : Text) → IsSolid s → trim_space s ≡ s
unfolding trim_space trim_left
trim_space-IsSolid [] h = unfold trim_right in refl
trim_space-IsSolid (c ∷ s) h = ground (arith, trim_right-IsSolid (c ∷ s) h)

filled :
    (bytes : Bytes) (n : ℕ) → length bytes ≡ suc n → is_empty (encode_padded standard bytes) ≡ false
unfolding encode_padded sextets is_empty
filled [] n e = absurd (ground arith)
filled (a ∷ []) n e = refl
filled (a ∷ b ∷ []) n e = refl
filled (a ∷ b ∷ c ∷ rest) n e = refl

decode_base64-encode_padded :
    (key : Bytes) (n : ℕ)
    → AreBytes key
    → length key ≡ suc n
    → decode_base64 (encode_padded standard key) ≡ ok key
unfolding decode_base64 decode_either
decode_base64-encode_padded key n bytes e =
    rw
      (
        trim_space-IsSolid (encode_padded standard key) (encode_padded-IsSolid key),
        filled key n e,
        decode_padded-encode_padded key bytes,
      )
      refl

-- A signer that can sign.
pub record IsSigner (signer : Signer) : Type 0 where
  pub private_key : length signer.private_key ≡ 64
  pub public_key : signer.public_key ≡ drop 32 signer.private_key
  pub key_id : is_empty signer.key_id ≡ false
  pub issuer : is_empty signer.issuer ≡ false
  pub audience : is_empty signer.audience ≡ false
  pub ttl : 0 < signer.ttl

module _ (key_id issuer audience : Text) where
  pub signer_of-IsSigner :
      (key : Bytes) (ttl : ℤ) (signer : Signer)
      → length key ≡ 64
      → signer_of key key_id issuer audience ttl ≡ ok signer
      → IsSigner signer × (signer.private_key ≡ key)
  unfolding signer_of
  signer_of-IsSigner key (negsuc n) signer exact e = absurd (ground arith)
  signer_of-IsSigner key (pos ttl) signer exact e = (
    record {
      private_key = ground arith;
      public_key = ground arith;
      key_id = ground arith;
      issuer = ground arith;
      audience = ground arith;
      ttl = ground arith;
    },
    ground arith,
  )

  -- A configuration that is accepted gives a signer with a private key of 64 bytes, its public half,
  -- names that are not empty and a positive time to live.
  pub new_signer-IsSigner :
      (private_key_base64 : Text) (ttl : ℤ) (signer : Signer)
      → new_signer private_key_base64 key_id issuer audience ttl ≡ ok signer
      → IsSigner signer × (decode_base64 private_key_base64 ≡ ok signer.private_key)
  unfolding new_signer
  new_signer-IsSigner private_key_base64 ttl signer e =
      elim (Result-cases (decode_base64 private_key_base64)) [
        | inl (failure, h) ↦ absurd (ground arith)
        | inr (key, h) ↦ elim (Bool-cases (length key == 64)) [
          | inl exact ↦
              let (signs, same_key) =
                signer_of-IsSigner key ttl signer (ground arith) (rw (new_signer, h, exact) at e) in
              (signs, h ∙ ap ok (sym same_key))
          | inr other ↦ absurd (ground arith)
        ]
      ]

  -- A private key of 64 bytes that access-keygen prints is accepted, as the same key, with any names that are not
  -- blank and any positive time to live.
  pub new_signer-encode_padded :
      (key : Bytes) (ttl : ℕ)
      → AreBytes key
      → length key ≡ 64
      → is_empty (trim_space key_id) ≡ false
      → is_empty (trim_space issuer) ≡ false
      → is_empty (trim_space audience) ≡ false
      → new_signer (encode_padded standard key) key_id issuer audience (pos (suc ttl))
        ≡ ok (record {
          private_key = key;
          public_key = drop 32 key;
          key_id = trim_space key_id;
          issuer = trim_space issuer;
          audience = trim_space audience;
          ttl = suc ttl;
        })
  unfolding new_signer signer_of
  new_signer-encode_padded key ttl bytes exact named issued heard =
      rw (new_signer, decode_base64-encode_padded key 63 bytes exact, exact, named, issued, heard)
        (ground arith)
