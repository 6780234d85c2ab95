-- ===== src/Security/Password/Bounds.antt =====
-- Every hash that is accepted asks Argon2 for bounded work.
use family_tree_identity_mic.Shared.{
  ◌>>=◌, ℕ, ◌≤◌, ◌<◌, ◌≡◌, inl, inr, ◌&&◌, Bool-cases, true, Option, some, none, List, [], ◌∷◌,
  arith, Text, codes, length, same,
}
use family_tree_identity_mic.Domain.Errors.{ok}
use family_tree_identity_mic.Domain.Email.{split}
use family_tree_identity_mic.Security.Base64.{Bytes, standard, decode}
use family_tree_identity_mic.Security.Scan.{scan_literal, scan_signed}
use family_tree_identity_mic.Security.Password.{
  Argon2, Parsed, scan_costs, is_version, are_costs, parsed_of, parse_costs, parse_parts,
  parse_hash,
}
use family_tree_identity_mic.Security.Password.Hashes.{AreCosts}

-- The work that a parsed hash asks for.
pub record IsBounded (p : Parsed) : Type 0 where
  pub costs : AreCosts p.params
  pub salt_length :
      (p.params.salt_length ≡ length p.salt) × (0 < length p.salt) × (length p.salt ≤ 64)
  pub key_length : (p.params.key_length ≡ length p.key) × (0 < length p.key) × (length p.key ≤ 64)

module _ (argon : Argon2) (p : Parsed) where
  parsed_of-IsBounded :
      (costs : ℕ × ℕ × ℕ) (salt key : Option Bytes)
      → are_costs argon costs ≡ true
      → parsed_of argon costs salt key ≡ ok p
      → IsBounded p
  unfolding parsed_of are_costs
  parsed_of-IsBounded costs none key h e = absurd (ground arith)
  parsed_of-IsBounded costs (some salt) none h e = absurd (ground arith)
  parsed_of-IsBounded costs (some salt) (some key) h e = record {
    costs = record { memory = ground arith; iterations = ground arith; parallelism = ground arith };
    salt_length = ground arith;
    key_length = ground arith;
  }

  parse_costs-IsBounded :
      (costs : Option (ℕ × ℕ × ℕ)) (salt key : Text)
      → parse_costs argon costs salt key ≡ ok p
      → IsBounded p
  unfolding parse_costs
  parse_costs-IsBounded none salt key e = absurd (ground arith)
  parse_costs-IsBounded (some costs) salt key e = elim (Bool-cases (are_costs argon costs)) [
    | inl good ↦
        parsed_of-IsBounded costs (decode standard salt) (decode standard key) good (rw good at e)
    | inr bad ↦ absurd (ground arith)
  ]

  parse_parts-IsBounded : (parts : List Text) → parse_parts argon parts ≡ ok p → IsBounded p
  unfolding parse_parts
  parse_parts-IsBounded (a ∷ b ∷ c ∷ d ∷ e ∷ f ∷ []) h =
      elim (Bool-cases (
        same b (codes "argon2id")
        && is_version argon (scan_literal (codes "v=") c >>= scan_signed))) [
          | inl good ↦ parse_costs-IsBounded (scan_costs d) e f (rw good at h)
          | inr bad ↦ absurd (ground arith)
        ]
  parse_parts-IsBounded _ h = absurd (ground arith)

  -- A text that is parsed as a hash asks for at most a GiB of memory, 10 iterations, 16 threads and
  -- 64 bytes of salt and key, and for some of each.
  pub parse_hash-IsBounded : (encoded : Text) → parse_hash argon encoded ≡ ok p → IsBounded p
  unfolding parse_hash
  parse_hash-IsBounded encoded h = parse_parts-IsBounded (split b'$' encoded) h
