-- ===== src/Config/Parse.antt =====
-- strconv.ParseBool, and strconv.ParseInt in base 10 for 32 bits, which config.go uses.
use mathlib.Core.Option
use family_tree_identity_mic.Shared.{
  ℕ, zero, suc, ◌+◌, ◌^◌, ℤ, pos, negsuc, Bool, true, false, ◌&&◌, Option, none, some, [], ◌∷◌, any,
  Text, codes, ltb, ◌==◌, same, is_empty, if◌then◌else◌,
}
use family_tree_identity_mic.Security.Scan.{is_digit, scan_digits}

unfoldable pub parse_bool : Text → Option Bool
parse_bool s =
    if any (same s)
      (codes "1" ∷ codes "t" ∷ codes "T" ∷ codes "true" ∷ codes "TRUE" ∷ codes "True" ∷ [])
    then some true
    else if any (same s)
        (codes "0" ∷ codes "f" ∷ codes "F" ∷ codes "false" ∷ codes "FALSE" ∷ codes "False" ∷ [])
    then some false
    else none

-- Digits and nothing else, for a number below the bound.
unfoldable pub parse_below : ℕ → Text → Option ℕ
parse_below bound [] = none
parse_below bound (c ∷ s) =
    let (n, rest) = scan_digits (c ∷ s) 0 in
    if is_digit c && is_empty rest && ltb n bound then some n else none

abbrev pub negated : ℕ → ℤ
negated zero = pos 0
negated (suc n) = negsuc n

unfoldable pub parse_int32 : Text → Option ℤ
parse_int32 [] = none
parse_int32 (c ∷ s) =
    if c == b'-'
    then Option.map negated (parse_below (2 ^ 31 + 1) s)
    else if c == b'+'
    then Option.map pos (parse_below (2 ^ 31) s)
    else Option.map pos (parse_below (2 ^ 31) (c ∷ s))
