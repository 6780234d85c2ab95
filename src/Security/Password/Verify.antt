-- ===== src/Security/Password/Verify.antt =====
-- What `Hash` and `Verify` answer, and that the check against the dummy hash does not fail.
use family_tree_identity_mic.Shared.{
  ℕ, zero, suc, ◌≤◌, ◌≡◌, refl, ◌∙◌, ap, ◌⊎◌, inl, inr, Bool, Bool-cases, true, ◌||◌, arith, Text,
  codes, length, ltb, same, same_refl, byte_length,
}
use family_tree_identity_mic.Domain.Errors.{Error, is_policy, policy, wrap, ok, err}
use family_tree_identity_mic.Security.Base64.{Bytes}
use family_tree_identity_mic.Security.Base64.RoundTrip.{AreBytes}
use family_tree_identity_mic.Security.Utf8.{utf8}
use family_tree_identity_mic.Security.Password.{
  Params, Argon2, default_params, validate, derive, encode_hash, hash, matches, verify, dummy_hash,
  zeros,
}
use family_tree_identity_mic.Security.Password.Hashes.{AreParams, IsArgon2, parse_hash-encode_hash}

-- The candidates that `validate` lets pass.
pub record IsAcceptable (candidate : Text) : Type 0 where
  pub long_enough : 15 ≤ length candidate
  pub short_enough : byte_length candidate ≤ 1024

validate_cases :
    (candidate : Text)
    → (IsAcceptable candidate × (validate candidate ≡ ok tt))
      ⊎ ((failure : Error) × (validate candidate ≡ err failure)
          × (is_policy failure ≡ true)
          × (¬ IsAcceptable candidate))
unfolding validate is_policy
validate_cases candidate =
    elim (Bool-cases (ltb (length candidate) 15 || ltb 1024 (byte_length candidate))) [
      | inl bad ↦ inr (
        wrap "password must contain at least 15 characters and at most 1024 bytes" policy,
        ground arith,
        refl,
        λ h. ground (arith, h.long_enough, h.short_enough),
      )
      | inr good ↦
          inl (record { long_enough = ground arith; short_enough = ground arith }, ground arith)
    ]

pub zeros-AreBytes : (n : ℕ) → AreBytes (zeros n) × (length (zeros n) ≡ n)
unfolding zeros
zeros-AreBytes zero = (tt, refl)
zeros-AreBytes (suc n) = ground (arith, zeros-AreBytes n)

pub default-AreParams :
    (salt : Bytes) → AreBytes salt → length salt ≡ 16 → AreParams default_params salt
default-AreParams salt bytes exact = record {
  costs = record { memory = ground arith; iterations = ground arith; parallelism = ground arith };
  bytes = bytes;
  salt_length = exact;
  salt_bounds = ground arith;
  key_bounds = ground arith;
}

module _ (argon : Argon2) (good : IsArgon2 argon) where
  pub verify-encode_hash :
      (candidate : Bytes) (salt : Bytes) (params : Params) (other : Text)
      → AreParams params salt
      → verify argon other (encode_hash argon candidate salt params)
        ≡ ok (same (derive argon (utf8 other) salt params) (derive argon candidate salt params))
  unfolding verify matches
  verify-encode_hash candidate salt params other h =
      rw (parse_hash-encode_hash argon good candidate salt params h) refl

  -- With 16 random bytes, and an Argon2 that derives as many bytes as it is asked for, `Hash` refuses
  -- a candidate for the policy when it has under 15 characters or over 1024 bytes; every other one has
  -- a hash, which verifies the candidate, and another password exactly when Argon2 derives the same
  -- key from it with the same salt.
  pub hash-verify :
      (salt : Bytes) (candidate other : Text)
      → AreBytes salt
      → length salt ≡ 16
      → (IsAcceptable candidate
          × ((hashed : Text) × (hash argon default_params (ok salt) candidate ≡ ok hashed)
              × (verify argon candidate hashed ≡ ok true)
              × (verify argon other hashed
                  ≡ ok (
                      same
                        (derive argon (utf8 other) salt default_params)
                        (derive argon (utf8 candidate) salt default_params)))))
        ⊎ ((¬ IsAcceptable candidate)
            × ((failure : Error) × (hash argon default_params (ok salt) candidate ≡ err failure)
                × (is_policy failure ≡ true)))
  unfolding hash
  hash-verify salt candidate other bytes exact =
      let admitted = default-AreParams salt bytes exact in
      elim (validate_cases candidate) [
        | inl (acceptable, e) ↦ inl (
          acceptable,
          (
            encode_hash argon (utf8 candidate) salt default_params,
            rw (hash, e) refl,
            verify-encode_hash (utf8 candidate) salt default_params candidate admitted
                ∙ ap ok (same_refl (derive argon (utf8 candidate) salt default_params)),
            verify-encode_hash (utf8 candidate) salt default_params other admitted,
          ),
        )
        | inr (failure, e, refused, bad) ↦ inr (bad, (failure, rw (hash, e) refl, refused))
      ]

  -- The check of a password against the dummy hash never fails: it ends with an answer.
  pub verify-dummy_hash :
      (candidate : Text) → (answer : Bool) × (verify argon candidate (dummy_hash argon) ≡ ok answer)
  unfolding dummy_hash
  verify-dummy_hash candidate =
      let (bytes, exact) = zeros-AreBytes 16 in
      (
        _,
        verify-encode_hash (codes "identity dummy password value") (zeros 16) default_params
            candidate (default-AreParams (zeros 16) bytes exact),
      )
