-- ===== src/Domain/Email.antt =====
-- internal/identity/domain/email.go. `net/mail.ParseAddress` and `strings.ToLower` enter as
-- functions: what the parser finds as the address of its text, and the text in lower case.
pub mod Laws
use family_tree_identity_mic.Shared.{
  ℕ, Bool, true, false, not, ◌&&◌, ◌||◌, Option, none, some, List, [], ◌∷◌, ltb, ◌==◌,
  if◌then◌else◌, Text, same, is_empty, byte_length, trim_space,
}
use family_tree_identity_mic.Domain.Errors.{DomainError, Error, sentinel, Result, ok, err}

pub record TextLibrary : Type 0 where
  pub parse_address : Text → Option Text
  pub to_lower : Text → Text

pub record Email : Type 0 where
  pub value : Text
  pub normalized : Text

abbrev pub max_email_length : ℕ
max_email_length = 254

abbrev prepend : ℕ → List Text → List Text
prepend c [] = (c ∷ []) ∷ []
prepend c (part ∷ parts) = (c ∷ part) ∷ parts

-- `strings.Split` at a separator of one character.
unfoldable pub split : ℕ → Text → List Text
split sep [] = [] ∷ []
split sep (c ∷ s) = let rest = split sep s in if c == sep then [] ∷ rest else prepend c rest

-- `len(parts) != 2 || parts[0] == "" || parts[1] == ""`, negated.
unfoldable pub has_two_parts : List Text → Bool
has_two_parts [] = false
has_two_parts (a ∷ []) = false
has_two_parts (a ∷ b ∷ []) = not (is_empty a) && not (is_empty b)
has_two_parts (a ∷ b ∷ c ∷ rest) = false

module _ (lib : TextLibrary) where
  unfoldable pub check_address : Text → Option Text → Result Email
  check_address value none = err (sentinel DomainError.invalid_email)
  check_address value (some address) =
      if not (same address value)
      then err (sentinel DomainError.invalid_email)
      else if not (has_two_parts (split b'@' address))
      then err (sentinel DomainError.invalid_email)
      else ok (record { value = value; normalized = lib.to_lower address })

  unfoldable pub new_email : Text → Result Email
  new_email raw =
      let value = trim_space raw in
      if is_empty value || ltb max_email_length (byte_length value)
      then err (sentinel DomainError.invalid_email)
      else check_address value (lib.parse_address value)
