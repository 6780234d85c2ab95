-- ===== src/Security/Scan/RoundTrip.antt =====
-- A number that is printed is read back.
use family_tree_identity_mic.Shared.{
  ℕ, zero, suc, ◌+◌, ◌/◌, ◌%◌, ◌^◌, ◌<◌, ◌≡◌, refl, ◌∙◌, inl, inr, Bool-cases, true, false, some,
  [], ◌∷◌, ◌++◌, arith, Text, ltb, is_space,
}
use family_tree_identity_mic.Security.Scan.{
  digits, print_number, is_digit, scan_digits, skip_space, scan_below, scan_unsigned,
  scan_magnitude, scan_signed, scan_literal,
}

-- What follows a number does not continue it.
abbrev pub Ends : Text → Type 0
Ends [] = Unit {0}
Ends (c ∷ s) = is_digit c ≡ false

scan_digits-Ends : (out : Text) (n : ℕ) → Ends out → scan_digits out n ≡ (n, out)
unfolding scan_digits
scan_digits-Ends [] n h = refl
scan_digits-Ends (c ∷ s) n h = rw h refl

-- Reading the digits of `n` after those of nothing is reading on from `n`.
scan_digits-digits :
    (fuel n : ℕ) (out : Text) → n < fuel → scan_digits (digits fuel n out) 0 ≡ scan_digits out n
unfolding digits
scan_digits-digits zero n out h = absurd (omega arith)
scan_digits-digits (suc fuel) n out h = elim (Bool-cases (ltb n 10)) [
  | inl small ↦ rw small (unfold scan_digits is_digit in ground arith)
  | inr large ↦ rw large (
      scan_digits-digits fuel (n / 10) ((b'0' + n % 10) ∷ out) (ground arith)
      ∙ (unfold scan_digits is_digit in ground arith))
]

pub scan_digits-print_number :
    (n : ℕ) (out : Text) → Ends out → scan_digits (print_number n out) 0 ≡ (n, out)
unfolding print_number
scan_digits-print_number n out h =
    scan_digits-digits (suc n) n out (omega arith) ∙ scan_digits-Ends out n h

-- A printed number begins with a digit.
abbrev Begins : Text → Type 0
Begins [] = ⊥
Begins (c ∷ s) = is_digit c ≡ true

digits-Begins : (fuel n : ℕ) (out : Text) → n < fuel → Begins (digits fuel n out)
unfolding digits is_digit
digits-Begins zero n out h = absurd (omega arith)
digits-Begins (suc fuel) n out h =
    ground (arith, digits-Begins fuel (n / 10) ((b'0' + n % 10) ∷ out))

skip_space-Begins : (s : Text) → Begins s → skip_space s ≡ some s
unfolding skip_space is_digit is_space
skip_space-Begins [] h = absurd h
skip_space-Begins (c ∷ s) h = ground arith

scan_below-Begins :
    (bound : ℕ) (s : Text) (n : ℕ) (rest : Text)
    → Begins s
    → scan_digits s 0 ≡ (n, rest)
    → n < bound
    → scan_below bound s ≡ some (n, rest)
unfolding scan_below
scan_below-Begins bound [] n rest h e lt = absurd h
scan_below-Begins bound (c ∷ s) n rest h e lt = rw (h, e) (ground arith)

pub scan_unsigned-print_number :
    (bits n : ℕ) (out : Text)
    → n < 2 ^ bits
    → Ends out
    → scan_unsigned bits (print_number n out) ≡ some (n, out)
unfolding scan_unsigned
scan_unsigned-print_number bits n out h stop =
    let begins = digits-Begins (suc n) n out (omega arith) in
    let shown : Begins (print_number n out) = unfold print_number in begins in
    rw (scan_unsigned, skip_space-Begins (print_number n out) shown)
      (scan_below-Begins (2 ^ bits) (print_number n out) n out shown
        (scan_digits-print_number n out stop) h)

scan_magnitude-Begins :
    (s : Text) (n : ℕ) (rest : Text)
    → Begins s
    → scan_below (2 ^ 63) s ≡ some (n, rest)
    → scan_magnitude s ≡ some (false, n, rest)
unfolding scan_magnitude is_digit
scan_magnitude-Begins [] n rest h e = absurd h
scan_magnitude-Begins (c ∷ s) n rest h e = ground (arith, e)

pub scan_signed-print_number :
    (n : ℕ) (out : Text)
    → n < 2 ^ 63
    → Ends out
    → scan_signed (print_number n out) ≡ some (false, n, out)
unfolding scan_signed
scan_signed-print_number n out h stop =
    let shown : Begins (print_number n out) =
      unfold print_number in digits-Begins (suc n) n out (omega arith) in
    rw (scan_signed, skip_space-Begins (print_number n out) shown)
      (scan_magnitude-Begins (print_number n out) n out shown (
        scan_below-Begins (2 ^ 63) (print_number n out) n out shown
          (scan_digits-print_number n out stop) h))

pub scan_literal-append : (x s : Text) → scan_literal x (x ++ s) ≡ some s
unfolding scan_literal
scan_literal-append [] s = refl
scan_literal-append (c ∷ x) s = ground (arith, scan_literal-append x s)
