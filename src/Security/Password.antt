-- ===== src/Security/Password.antt =====
-- internal/security/password/argon2id.go. Argon2 is a parameter; so is what the random source gives.
pub mod Hashes
pub mod Bounds
pub mod Verify
use mathlib.Core.Option
use family_tree_identity_mic.Shared.{
  ◌>>=◌, ℕ, Bool, true, false, not, ◌&&◌, ◌||◌, Option, none, some, List, [], ◌∷◌, ◌++◌, Text,
  codes, length, ltb, ◌==◌, same, byte_length, if◌then◌else◌,
}
use family_tree_identity_mic.Domain.Errors.{Error, policy, foreign, wrap, Result, ok, err}
use family_tree_identity_mic.Domain.Email.{split}
use family_tree_identity_mic.Application.Service.{PasswordHasher}
use family_tree_identity_mic.Security.Base64.{Bytes, standard, encode, decode}
use family_tree_identity_mic.Security.Utf8.{utf8}
use family_tree_identity_mic.Security.Scan.{print_number, scan_unsigned, scan_signed, scan_literal}

abbrev pub minimum_password_characters : ℕ
minimum_password_characters = 15

abbrev pub maximum_password_bytes : ℕ
maximum_password_bytes = 1024

-- `ErrInvalidHash`.
abbrev pub invalid_hash : Error
invalid_hash = foreign "invalid Argon2id hash"

pub record Params : Type 0 where
  pub memory : ℕ
  pub iterations : ℕ
  pub parallelism : ℕ
  pub salt_length : ℕ
  pub key_length : ℕ

-- golang.org/x/crypto/argon2: `Version`, and `IDKey` of a password, a salt, the iterations, the
-- memory, the threads and the length of the key.
pub record Argon2 : Type 0 where
  pub version : ℕ
  pub id_key : Bytes → Bytes → ℕ → ℕ → ℕ → ℕ → Bytes

-- The result of `parseHash`.
pub record Parsed : Type 0 where
  pub params : Params
  pub salt : Bytes
  pub key : Bytes

abbrev pub default_params : Params
default_params = record {
  memory = 19456;
  iterations = 2;
  parallelism = 1;
  salt_length = 16;
  key_length = 32;
}

unfoldable pub zeros : ℕ → Bytes
zeros ℕ.zero = []
zeros (ℕ.suc n) = 0 ∷ zeros n

unfoldable pub validate : Text → Result (Unit {0})
validate candidate =
    if ltb (length candidate) minimum_password_characters
      || ltb maximum_password_bytes (byte_length candidate)
    then err (wrap "password must contain at least 15 characters and at most 1024 bytes" policy)
    else ok tt

-- The field of the costs, `m=%d,t=%d,p=%d`.
unfoldable pub print_costs : Params → Text
print_costs params =
    codes "m="
    ++ print_number params.memory (
        codes ",t="
        ++ print_number params.iterations (codes ",p=" ++ print_number params.parallelism []))

-- Line 141 to 146: the three costs.
unfoldable pub scan_costs : Text → Option (ℕ × ℕ × ℕ)
scan_costs s = do
  s ← scan_literal (codes "m=") s
  (memory, s) ← scan_unsigned 32 s
  s ← scan_literal (codes ",t=") s
  (iterations, s) ← scan_unsigned 32 s
  s ← scan_literal (codes ",p=") s
  (parallelism, s) ← scan_unsigned 8 s
  some (memory, iterations, parallelism)

module _ (argon : Argon2) where
  abbrev pub derive : Bytes → Bytes → Params → Bytes
  derive candidate salt params =
      argon.id_key candidate salt params.iterations params.memory params.parallelism
        params.key_length

  unfoldable pub encode_hash : Bytes → Bytes → Params → Text
  encode_hash candidate salt params =
      b'$'
      ∷ (codes "argon2id"
          ++ (b'$'
              ∷ ((codes "v=" ++ print_number argon.version [])
                  ++ (b'$'
                      ∷ (print_costs params
                          ++ (b'$'
                              ∷ (encode standard salt
                                  ++ (b'$' ∷ encode standard (derive candidate salt params)))))))))

  -- The scan of lines 134 and 135: the version, with whatever stands behind it.
  unfoldable pub is_version : Option (Bool × ℕ × Text) → Bool
  is_version none = false
  is_version (some (negative, n, rest)) = not negative && n == argon.version

  -- Lines 146 to 151.
  unfoldable pub are_costs : ℕ × ℕ × ℕ → Bool
  are_costs (memory, iterations, parallelism) =
      not (memory == 0 || iterations == 0 || parallelism == 0)
      && not (ltb 1048576 memory || ltb 10 iterations || ltb 16 parallelism)

  -- Lines 153 to 168, on the costs and the two decoded texts.
  unfoldable pub parsed_of : ℕ × ℕ × ℕ → Option Bytes → Option Bytes → Result Parsed
  parsed_of costs none key = err invalid_hash
  parsed_of costs (some salt) none = err invalid_hash
  parsed_of costs (some salt) (some key) =
      if length salt == 0 || length key == 0 || ltb 64 (length salt) || ltb 64 (length key)
      then err invalid_hash
      else ok (record {
        params = record {
          memory = costs.0;
          iterations = costs.1;
          parallelism = costs.2;
          salt_length = length salt;
          key_length = length key;
        };
        salt = salt;
        key = key;
      })

  -- Lines 139 to 168.
  unfoldable pub parse_costs : Option (ℕ × ℕ × ℕ) → Text → Text → Result Parsed
  parse_costs none salt key = err invalid_hash
  parse_costs (some costs) salt key =
      if are_costs costs
      then parsed_of costs (decode standard salt) (decode standard key)
      else err invalid_hash

  unfoldable pub parse_parts : List Text → Result Parsed
  parse_parts (before ∷ name ∷ version ∷ costs ∷ salt ∷ key ∷ []) =
      if same name (codes "argon2id")
        && is_version (scan_literal (codes "v=") version >>= scan_signed)
      then parse_costs (scan_costs costs) salt key
      else err invalid_hash
  parse_parts _ = err invalid_hash

  unfoldable pub parse_hash : Text → Result Parsed
  parse_hash encoded = parse_parts (split b'$' encoded)

  -- `Hash`, with what `rand.Read` fills the salt with.
  unfoldable pub hash : Params → Result Bytes → Text → Result Text
  hash params random candidate = elim (validate candidate) [
    | err e ↦ err e
    | ok x ↦ elim random [
      | err e ↦ err (wrap "generate password salt" e)
      | ok salt ↦ ok (encode_hash (utf8 candidate) salt params)
    ]
  ]

  unfoldable pub matches : Text → Result Parsed → Result Bool
  matches candidate (err e) = err e
  matches candidate (ok p) = ok (same (derive (utf8 candidate) p.salt p.params) p.key)

  unfoldable pub verify : Text → Text → Result Bool
  verify candidate encoded = matches candidate (parse_hash encoded)

  unfoldable pub dummy_hash : Text
  dummy_hash =
      encode_hash (codes "identity dummy password value") (zeros default_params.salt_length)
        default_params

  -- `NewHasher`, as the service's `PasswordHasher` in a request.
  abbrev pub hasher : Result Bytes → PasswordHasher
  hasher random = record {
    hash = hash default_params random;
    verify = verify;
    dummy_hash = dummy_hash;
  }
