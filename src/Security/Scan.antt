-- ===== src/Security/Scan.antt =====
-- fmt.Sprintf and fmt.Sscanf as argon2id.go uses them: `%d` of a number that is not negative, and
-- the reading of literal characters and numbers, each of which gives what is left of the text.
pub mod RoundTrip
use mathlib.Core.Option
use family_tree_identity_mic.Shared.{
  ℕ, zero, suc, ◌+◌, ◌-◌, ◌*◌, ◌/◌, ◌%◌, ◌^◌, Bool, true, false, not, ◌&&◌, ◌||◌, Option, none,
  some, List, [], ◌∷◌, Text, leb, ltb, ◌==◌, is_space, if◌then◌else◌,
}

-- The digits of a number in front of a text, as long as the fuel lasts.
unfoldable pub digits : ℕ → ℕ → Text → Text
digits zero n out = out
digits (suc fuel) n out =
    let rest = digits fuel (n / 10) ((b'0' + n % 10) ∷ out) in
    if ltb n 10 then (b'0' + n) ∷ out else rest

-- `%d`, behind which `out` follows. A number has no more digits than one more than itself.
unfoldable pub print_number : ℕ → Text → Text
print_number n out = digits (suc n) n out

unfoldable pub is_digit : ℕ → Bool
is_digit c = leb b'0' c && leb c b'9'

-- The number that the leading digits continue, and what is left.
unfoldable pub scan_digits : Text → ℕ → ℕ × Text
scan_digits [] n = (n, [])
scan_digits (c ∷ s) n =
    let rest = scan_digits s (n * 10 + (c - b'0')) in if is_digit c then rest else (n, c ∷ s)

-- White space before a number; a line end is an error.
unfoldable pub skip_space : Text → Option Text
skip_space [] = some []
skip_space (c ∷ s) =
    let rest = skip_space s in if c == 0x0a then none else if is_space c then rest else some (c ∷ s)

-- At least one digit, for a number below the bound.
unfoldable pub scan_below : ℕ → Text → Option (ℕ × Text)
scan_below bound [] = none
scan_below bound (c ∷ s) =
    let (n, rest) = scan_digits (c ∷ s) 0 in
    if is_digit c && ltb n bound then some (n, rest) else none

-- `%d` for an unsigned number of so many bits.
unfoldable pub scan_unsigned : ℕ → Text → Option (ℕ × Text)
scan_unsigned bits s = elim (skip_space s) [ none ↦ none | some t ↦ scan_below (2 ^ bits) t ]

-- `%d` for an `int` of 64 bits: whether it is negative, and its distance from zero.
unfoldable pub scan_magnitude : Text → Option (Bool × ℕ × Text)
scan_magnitude [] = none
scan_magnitude (c ∷ s) =
    if c == b'-'
    then Option.map (λ r. (true, r.0, r.1)) (scan_below (2 ^ 63 + 1) s)
    else if c == b'+'
    then Option.map (λ r. (false, r.0, r.1)) (scan_below (2 ^ 63) s)
    else Option.map (λ r. (false, r.0, r.1)) (scan_below (2 ^ 63) (c ∷ s))

unfoldable pub scan_signed : Text → Option (Bool × ℕ × Text)
scan_signed s = elim (skip_space s) [ none ↦ none | some t ↦ scan_magnitude t ]

-- The literal characters of a format.
unfoldable pub scan_literal : Text → Text → Option Text
scan_literal [] s = some s
scan_literal (x ∷ xs) [] = none
scan_literal (x ∷ xs) (c ∷ s) = if x == c then scan_literal xs s else none
