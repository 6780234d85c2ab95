-- ===== src/Security/Base64.antt =====
-- encoding/base64 as internal/security uses it: the standard and the URL alphabet, without padding.
-- A byte is a number below 256, and an encoded text is a list of code points.
pub mod RoundTrip
pub mod Padded
use mathlib.Core.Option
use family_tree_identity_mic.Shared.{
  ℕ, ◌+◌, ◌-◌, ◌*◌, ◌/◌, ◌%◌, Bool, not, ◌&&◌, ◌||◌, Option, none, some, List, [], ◌∷◌, ◌++◌, map,
  ◌>>=◌, is_empty, Text, leb, ltb, ◌==◌, select, if◌then◌else◌,
}

abbrev pub Bytes : Type 0
Bytes = List ℕ

-- The last two characters of an alphabet, which tell the alphabets apart.
pub record Alphabet : Type 0 where
  pub plus : ℕ
  pub slash : ℕ

abbrev pub standard : Alphabet
standard = record { plus = b'+'; slash = b'/' }

abbrev pub url : Alphabet
url = record { plus = b'-'; slash = b'_' }

-- The groups of six bits, the last one filled up with zeros.
unfoldable pub sextets : Bytes → List ℕ
sextets [] = []
sextets (a ∷ []) = (a / 4) ∷ (a % 4 * 16) ∷ []
sextets (a ∷ b ∷ []) = (a / 4) ∷ (a % 4 * 16 + b / 16) ∷ (b % 16 * 4) ∷ []
sextets (a ∷ b ∷ c ∷ rest) =
    (a / 4) ∷ (a % 4 * 16 + b / 16) ∷ (b % 16 * 4 + c / 64) ∷ (c % 64) ∷ sextets rest

-- A single group is no byte; the bits behind the last byte are not looked at.
unfoldable pub bytes_of : List ℕ → Option Bytes
bytes_of [] = some []
bytes_of (p ∷ []) = none
bytes_of (p ∷ q ∷ []) = some ((p * 4 + q / 16) ∷ [])
bytes_of (p ∷ q ∷ r ∷ []) = some ((p * 4 + q / 16) ∷ (q % 16 * 16 + r / 4) ∷ [])
bytes_of (p ∷ q ∷ r ∷ s ∷ rest) =
    Option.map (λ bytes. (p * 4 + q / 16) ∷ (q % 16 * 16 + r / 4) ∷ (r % 4 * 64 + s) ∷ bytes)
      (bytes_of rest)

module _ (alphabet : Alphabet) where
  unfoldable pub character : ℕ → ℕ
  character v =
      if ltb v 26
      then b'A' + v
      else if ltb v 52
      then b'a' + (v - 26)
      else if ltb v 62
      then b'0' + (v - 52)
      else if v == 62
      then alphabet.plus
      else alphabet.slash

  unfoldable pub sextet : ℕ → Option ℕ
  sextet c =
      if leb b'A' c && leb c b'Z'
      then some (c - b'A')
      else if leb b'a' c && leb c b'z'
      then some (c - b'a' + 26)
      else if leb b'0' c && leb c b'9'
      then some (c - b'0' + 52)
      else if c == alphabet.plus
      then some 62
      else if c == alphabet.slash
      then some 63
      else none

  -- `EncodeToString`.
  unfoldable pub encode : Bytes → Text
  encode bytes = map character (sextets bytes)

  unfoldable pub all_sextets : Text → Option (List ℕ)
  all_sextets [] = some []
  all_sextets (c ∷ s) = elim (sextet c) [
    | none ↦ none
    | some v ↦ Option.map (λ vs. v ∷ vs) (all_sextets s)
  ]

  -- `DecodeString`, which passes over line ends.
  unfoldable pub decode : Text → Option Bytes
  decode s = elim (all_sextets (select (λ c. not (c == 0x0a || c == 0x0d)) s)) [
    | none ↦ none
    | some vs ↦ bytes_of vs
  ]

  -- `EncodeToString` and `DecodeString` with padding.
  unfoldable pub encode_padded : Bytes → Text
  encode_padded [] = []
  encode_padded (a ∷ []) = map character (sextets (a ∷ [])) ++ (b'=' ∷ b'=' ∷ [])
  encode_padded (a ∷ b ∷ []) = map character (sextets (a ∷ b ∷ [])) ++ (b'=' ∷ [])
  encode_padded (a ∷ b ∷ c ∷ rest) = map character (sextets (a ∷ b ∷ c ∷ [])) ++ encode_padded rest

  -- The last group of four may end in `=` or `==`.
  unfoldable pub decode_groups : Text → Option Bytes
  decode_groups [] = some []
  decode_groups (p ∷ q ∷ r ∷ s ∷ rest) =
      let more = decode_groups rest in
      if r == b'='
      then if s == b'=' && is_empty rest then all_sextets (p ∷ q ∷ []) >>= bytes_of else none
      else if s == b'='
      then if is_empty rest then all_sextets (p ∷ q ∷ r ∷ []) >>= bytes_of else none
      else (do
        bytes ← all_sextets (p ∷ q ∷ r ∷ s ∷ []) >>= bytes_of
        others ← more
        some (bytes ++ others))
  decode_groups _ = none

  unfoldable pub decode_padded : Text → Option Bytes
  decode_padded s = decode_groups (select (λ c. not (c == 0x0a || c == 0x0d)) s)
