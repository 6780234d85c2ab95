-- ===== src/Security/Utf8.antt =====
-- The conversion `[]byte(s)` of a Go string.
use family_tree_identity_mic.Shared.{
  ℕ, ◌+◌, ◌/◌, ◌%◌, ◌≡◌, refl, List, [], ◌∷◌, ◌++◌, arith, Text, ltb, length, rune_length,
  byte_length, if◌then◌else◌,
}

unfoldable pub rune_bytes : ℕ → List ℕ
rune_bytes c =
    if ltb c 0x80
    then c ∷ []
    else if ltb c 0x800
    then (0xc0 + c / 64) ∷ (0x80 + c % 64) ∷ []
    else if ltb c 0x1_0000
    then (0xe0 + c / 4096) ∷ (0x80 + c / 64 % 64) ∷ (0x80 + c % 64) ∷ []
    else (0xf0 + c / 262144) ∷ (0x80 + c / 4096 % 64) ∷ (0x80 + c / 64 % 64) ∷ (0x80 + c % 64) ∷ []

unfoldable pub utf8 : Text → List ℕ
utf8 [] = []
utf8 (c ∷ s) = rune_bytes c ++ utf8 s

-- `len([]byte(s))` is `len(s)`.
pub length-utf8 : (s : Text) → length (utf8 s) ≡ byte_length s
unfolding utf8 rune_bytes byte_length rune_length
length-utf8 [] = refl
length-utf8 (c ∷ s) = ground (arith, length-utf8 s)
