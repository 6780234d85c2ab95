-- ===== src/Security/Base64/RoundTrip.antt =====
-- What is encoded is decoded to the same bytes.
use mathlib.Core.Option
use family_tree_identity_mic.Shared.{
  ℕ, ◌+◌, ◌*◌, ◌/◌, ◌<◌, ◌≡◌, refl, ◌⊎◌, inl, inr, ◌∙◌, false, not, ◌||◌, some, List, [], ◌∷◌, map,
  arith, ◌==◌, All, select, length, rune_length, byte_length,
}
use family_tree_identity_mic.Security.Base64.{
  Bytes, Alphabet, standard, url, sextets, bytes_of, character, sextet, encode, all_sextets, decode,
}

abbrev pub AreBytes : Bytes → Type 0
AreBytes = All (λ b. b < 256)

pub sextets-bounds : (bytes : Bytes) → AreBytes bytes → All (λ v. v < 64) (sextets bytes)
unfolding sextets
sextets-bounds [] h = tt
sextets-bounds (a ∷ []) h = ground arith
sextets-bounds (a ∷ b ∷ []) h = ground arith
sextets-bounds (a ∷ b ∷ c ∷ rest) h = ground (arith, sextets-bounds rest h.1.1.1)

pub bytes_of-sextets : (bytes : Bytes) → AreBytes bytes → bytes_of (sextets bytes) ≡ some bytes
unfolding sextets bytes_of
bytes_of-sextets [] h = refl
bytes_of-sextets (a ∷ []) h = ground arith
bytes_of-sextets (a ∷ b ∷ []) h = ground arith
bytes_of-sextets (a ∷ b ∷ c ∷ rest) h =
    rw (bytes_of-sextets rest h.1.1.1, Option.map) (ground arith)

-- An alphabet whose last two characters are no letters, digits or line ends, and differ.
pub record IsAlphabet (alphabet : Alphabet) : Type 0 where
  pub plus : sextet alphabet alphabet.plus ≡ some 62
  pub slash : sextet alphabet alphabet.slash ≡ some 63
  pub plus_shown : (alphabet.plus == 0x0a || alphabet.plus == 0x0d) ≡ false
  pub slash_shown : (alphabet.slash == 0x0a || alphabet.slash == 0x0d) ≡ false

pub standard-IsAlphabet : IsAlphabet standard
unfolding sextet
standard-IsAlphabet = record { plus = refl; slash = refl; plus_shown = refl; slash_shown = refl }

pub url-IsAlphabet : IsAlphabet url
unfolding sextet
url-IsAlphabet = record { plus = refl; slash = refl; plus_shown = refl; slash_shown = refl }

module _ (alphabet : Alphabet) where
  -- The character of a letter or digit, or one of the last two.
  character_cases :
      (v : ℕ)
      → v < 64
      → ((character alphabet v ≡ alphabet.plus) × (v ≡ 62))
        ⊎ ((character alphabet v ≡ alphabet.slash) × (v ≡ 63))
        ⊎ ((sextet alphabet (character alphabet v) ≡ some v)
            × ((character alphabet v == 0x0a || character alphabet v == 0x0d) ≡ false))
  unfolding sextet character
  character_cases v h = ground arith

module _ (alphabet : Alphabet) (good : IsAlphabet alphabet) where
  pub sextet-character : (v : ℕ) → v < 64 → sextet alphabet (character alphabet v) ≡ some v
  sextet-character v h = elim (character_cases alphabet v h) [
    | inl (e, e') ↦ rw (e, e') good.plus
    | inr (inl (e, e')) ↦ rw (e, e') good.slash
    | inr (inr (e, e')) ↦ e
  ]

  character-shown :
      (v : ℕ) → v < 64 → (character alphabet v == 0x0a || character alphabet v == 0x0d) ≡ false
  character-shown v h = elim (character_cases alphabet v h) [
    | inl (e, e') ↦ rw e good.plus_shown
    | inr (inl (e, e')) ↦ rw e good.slash_shown
    | inr (inr (e, e')) ↦ e'
  ]

  all_sextets-map :
      (vs : List ℕ)
      → All (λ v. v < 64) vs
      → all_sextets alphabet
          (select (λ c. not (c == 0x0a || c == 0x0d)) (map (character alphabet) vs))
        ≡ some vs
  unfolding all_sextets select
  all_sextets-map [] h = refl
  all_sextets-map (v ∷ vs) h =
      rw
        (
          character-shown v h.0,
          all_sextets,
          sextet-character v h.0,
          all_sextets-map vs h.1,
          Option.map,
        )
        refl

  -- Decoding gives back the bytes that were encoded.
  pub decode-encode :
      (bytes : Bytes) → AreBytes bytes → decode alphabet (encode alphabet bytes) ≡ some bytes
  unfolding decode encode
  decode-encode bytes h =
      rw (decode, all_sextets-map (sextets bytes) (sextets-bounds bytes h))
        (bytes_of-sextets bytes h)

pub length-sextets : (bytes : Bytes) → length (sextets bytes) ≡ (length bytes * 4 + 2) / 3
unfolding sextets
length-sextets [] = refl
length-sextets (a ∷ []) = refl
length-sextets (a ∷ b ∷ []) = refl
length-sextets (a ∷ b ∷ c ∷ rest) = ground (arith, length-sextets rest)

-- The characters of the URL alphabet are ASCII, so an encoded text has as many bytes as groups.
byte_length-map : (vs : List ℕ) → byte_length (map (character url) vs) ≡ length vs
unfolding character byte_length rune_length
byte_length-map [] = refl
byte_length-map (v ∷ vs) = ground (arith, byte_length-map vs)

pub byte_length-encode :
    (bytes : Bytes) → byte_length (encode url bytes) ≡ (length bytes * 4 + 2) / 3
unfolding encode
byte_length-encode bytes = byte_length-map (sextets bytes) ∙ length-sextets bytes
