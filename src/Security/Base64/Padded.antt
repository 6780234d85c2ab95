-- ===== src/Security/Base64/Padded.antt =====
-- What is encoded with padding is decoded to the same bytes.
use mathlib.Core.Option
use family_tree_identity_mic.Shared.{
  ℕ, ◌+◌, ◌*◌, ◌/◌, ◌%◌, ◌<◌, ◌≡◌, refl, ◌∙◌, ap, false, not, ◌||◌, some, List, [], ◌∷◌, map, arith,
  ◌==◌, All, is_empty, select, is_space, Text,
}
use family_tree_identity_mic.Security.Base64.{
  Bytes, standard, sextets, bytes_of, character, sextet, all_sextets, encode_padded, decode_groups,
  decode_padded,
}
use family_tree_identity_mic.Security.Base64.RoundTrip.{
  AreBytes, standard-IsAlphabet, sextet-character,
}

-- A character that is neither `=` nor a line end nor other white space.
abbrev IsPlain : ℕ → Type 0
IsPlain c = ((c == b'=') ≡ false) × (is_space c ≡ false)

character-IsPlain : (v : ℕ) → IsPlain (character standard v)
unfolding character is_space
character-IsPlain v = ground arith

not_pad : (v : ℕ) → (character standard v == b'=') ≡ false
not_pad v = (character-IsPlain v).0

solid : (v : ℕ) → is_space (character standard v) ≡ false
solid v = (character-IsPlain v).1

read : (v : ℕ) → v < 64 → sextet standard (character standard v) ≡ some v
read = sextet-character standard standard-IsAlphabet

read_whole :
    (vs : List ℕ)
    → All (λ v. v < 64) vs
    → all_sextets standard (map (character standard) vs) ≡ some vs
unfolding all_sextets
read_whole [] h = refl
read_whole (v ∷ vs) h = rw (read v h.0, all_sextets, read_whole vs h.1, Option.map) refl

decode_groups-encode_padded :
    (bytes : Bytes)
    → AreBytes bytes
    → decode_groups standard (encode_padded standard bytes) ≡ some bytes
unfolding decode_groups encode_padded sextets bytes_of is_empty
decode_groups-encode_padded [] h = refl
decode_groups-encode_padded (a ∷ []) h =
    rw (read_whole ((a / 4) ∷ (a % 4 * 16) ∷ []) (ground arith)) (ground arith)
decode_groups-encode_padded (a ∷ b ∷ []) h =
    rw
      (
        not_pad (b % 16 * 4),
        read_whole ((a / 4) ∷ (a % 4 * 16 + b / 16) ∷ (b % 16 * 4) ∷ []) (ground arith),
      )
      (ground arith)
decode_groups-encode_padded (a ∷ b ∷ c ∷ rest) h =
    rw
      (
        not_pad (b % 16 * 4 + c / 64),
        not_pad (c % 64),
        read_whole ((a / 4) ∷ (a % 4 * 16 + b / 16) ∷ (b % 16 * 4 + c / 64) ∷ (c % 64) ∷ [])
            (ground arith),
        decode_groups-encode_padded rest h.1.1.1,
      )
      (ground arith)

-- No character of the text is white space.
abbrev pub IsSolid : Text → Type 0
IsSolid = All (λ c. is_space c ≡ false)

pub encode_padded-IsSolid : (bytes : Bytes) → IsSolid (encode_padded standard bytes)
unfolding encode_padded sextets
encode_padded-IsSolid [] = tt
encode_padded-IsSolid (a ∷ []) =
    (solid _, (solid _, (unfold is_space in refl, (unfold is_space in refl, tt))))
encode_padded-IsSolid (a ∷ b ∷ []) = (solid _, (solid _, (solid _, (unfold is_space in refl, tt))))
encode_padded-IsSolid (a ∷ b ∷ c ∷ rest) =
    (solid _, (solid _, (solid _, (solid _, encode_padded-IsSolid rest))))

select-IsSolid : (s : Text) → IsSolid s → select (λ c. not (c == 0x0a || c == 0x0d)) s ≡ s
unfolding select is_space
select-IsSolid [] h = refl
select-IsSolid (c ∷ s) h = ground (arith, select-IsSolid s h.1)

pub decode_padded-encode_padded :
    (bytes : Bytes)
    → AreBytes bytes
    → decode_padded standard (encode_padded standard bytes) ≡ some bytes
unfolding decode_padded
decode_padded-encode_padded bytes h =
    ap (decode_groups standard)
      (select-IsSolid (encode_padded standard bytes) (encode_padded-IsSolid bytes))
    ∙ decode_groups-encode_padded bytes h
