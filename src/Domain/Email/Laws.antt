-- ===== src/Domain/Email/Laws.antt =====
-- What an accepted address looks like, and that the stored form is accepted again.
use family_tree_identity_mic.Shared.{
  ℕ, ◌≤◌, ◌≡◌, refl, ◌≢◌, inl, inr, Bool-cases, Bool, true, false, Option, none, some, List, [],
  ◌∷◌, ◌++◌, arith, ◌==◌, Text, same-eq, same_refl, is_empty, byte_length, trim_space,
  trim_space_idem,
}
use family_tree_identity_mic.Domain.Errors.{ok}
use family_tree_identity_mic.Domain.Email.{
  TextLibrary, Email, max_email_length, split, has_two_parts, check_address, new_email,
}

-- A text with no such character.
abbrev pub Lacks : ℕ → Text → Type 0
Lacks c [] = Unit {0}
Lacks c (x ∷ xs) = (x ≢ c) × Lacks c xs

abbrev Sides : ℕ → Text → List Text → Type 0
Sides sep s [] = ⊥
Sides sep s (a ∷ []) = (a ≡ s) × Lacks sep s
Sides sep s (a ∷ b ∷ []) = (s ≡ a ++ sep ∷ b) × Lacks sep a × Lacks sep b
Sides sep s (a ∷ b ∷ c ∷ rest) = Unit {0}

-- One more character in front of a text that is split.
abbrev extend : Bool → ℕ → List Text → List Text
extend true c parts = [] ∷ parts
extend false c [] = (c ∷ []) ∷ []
extend false c (part ∷ parts) = (c ∷ part) ∷ parts

extend-Sides :
    (sep c : ℕ) (s : Text) (parts : List Text)
    → Sides sep s parts
    → Sides sep (c ∷ s) (extend (c == sep) c parts)
extend-Sides sep c s [] h = absurd h
extend-Sides sep c s (a ∷ []) h = elim (Bool-cases (c == sep)) [
  | inl e ↦ rw e (ground arith, tt, ground arith)
  | inr e ↦ rw e (ground arith, ground arith)
]
extend-Sides sep c s (a ∷ b ∷ []) h = elim (Bool-cases (c == sep)) [
  | inl e ↦ rw e tt
  | inr e ↦ rw e (ground arith, (ground arith, h.1), h.2)
]
extend-Sides sep c s (a ∷ b ∷ d ∷ rest) h = elim (Bool-cases (c == sep)) [
  | inl e ↦ rw e tt
  | inr e ↦ rw e tt
]

split-extend : (sep c : ℕ) (s : Text) → split sep (c ∷ s) ≡ extend (c == sep) c (split sep s)
unfolding split
split-extend sep c s = ground arith

split-Sides : (sep : ℕ) (s : Text) → Sides sep s (split sep s)
split-Sides sep [] = unfold split in (refl, tt)
split-Sides sep (c ∷ s) =
    rw (split-extend sep c s) (extend-Sides sep c s (split sep s) (split-Sides sep s))

-- An address with one `@`, and text on both sides of it.
abbrev pub IsAddress : Text → Type 0
IsAddress s =
    (local : Text) × (domain : Text) × (s ≡ local ++ b'@' ∷ domain)
    × Lacks b'@' local
    × Lacks b'@' domain
    × (is_empty local ≡ false)
    × (is_empty domain ≡ false)

two_parts-IsAddress :
    (s : Text) (parts : List Text) → Sides b'@' s parts → has_two_parts parts ≡ true → IsAddress s
unfolding has_two_parts
two_parts-IsAddress s [] h e = absurd h
two_parts-IsAddress s (a ∷ []) h e = cc
two_parts-IsAddress s (a ∷ b ∷ []) h e = (a, b, h.0, h.1, h.2, ground arith, ground arith)
two_parts-IsAddress s (a ∷ b ∷ c ∷ rest) h e = cc

module _ (lib : TextLibrary) where
  -- What `check_address` has tested when it accepts.
  check_address-ok :
      (value : Text) (parsed : Option Text) {e : Email}
      → check_address lib value parsed ≡ ok e
      → (parsed ≡ some value)
        × (has_two_parts (split b'@' value) ≡ true)
        × (e ≡ record { value = value; normalized = lib.to_lower value })
  unfolding check_address
  check_address-ok value none h = cc
  check_address-ok value (some address) {e} h = ground (arith, same-eq address value)

  -- The tests of `new_email` on the trimmed text.
  new_email-ok :
      (raw : Text) {e : Email}
      → new_email lib raw ≡ ok e
      → let value = trim_space raw in
        (is_empty value ≡ false)
        × (byte_length value ≤ max_email_length)
        × (lib.parse_address value ≡ some value)
        × (has_two_parts (split b'@' value) ≡ true)
        × (e ≡ record { value = value; normalized = lib.to_lower value })
  unfolding new_email
  new_email-ok raw {e} h =
      ground (arith, check_address-ok (trim_space raw) (lib.parse_address (trim_space raw)) {e = e})

  -- An accepted address is the trimmed input: at most 254 bytes, the whole of what the parser
  -- finds in it, with one `@` and text on both sides; it is normalized by lower case.
  pub new_email_accepts :
      (raw : Text) {e : Email}
      → new_email lib raw ≡ ok e
      → (e.value ≡ trim_space raw)
        × (e.normalized ≡ lib.to_lower e.value)
        × (byte_length e.value ≤ max_email_length)
        × (lib.parse_address e.value ≡ some e.value)
        × IsAddress e.value
  new_email_accepts raw {e} h =
      let value = trim_space raw in
      let (full, short, parsed, parts, eq) = new_email-ok raw h in
      rw eq (refl, refl, short, parsed, two_parts-IsAddress value _ (split-Sides b'@' value) parts)

  -- What is stored is accepted when it is read back, as the same address.
  pub new_email-value :
      (raw : Text) {e : Email} → new_email lib raw ≡ ok e → new_email lib e.value ≡ ok e
  unfolding new_email check_address
  new_email-value raw {e} h =
      let value = trim_space raw in
      let (full, short, parsed, parts, eq) = new_email-ok raw h in
      rw (eq, trim_space_idem raw) (ground (arith, same_refl value))
