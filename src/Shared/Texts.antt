-- ===== src/Shared/Texts.antt =====
-- A Go string that holds valid UTF-8, as its code points.
use Prim.Native.Char.{code}
use Prim.Native.Nat.{ℕ, ◌+◌}
use Prim.Native.String.{String}
use mathlib.Core.Path.{◌≡◌, refl}
use mathlib.Core.Logic.{◌↔◌}
use mathlib.Core.List.{List, [], ◌∷◌}
use mathlib.Core.Bool.{Bool, true, false, ◌&&◌, ◌||◌}
use native.Mathlib.Omega.{arith}
use family_tree_identity_mic.Shared.Tests.{ltb, leb, ◌==◌, if◌then◌else◌}

abbrev pub Text : Type 0
Text = List ℕ

-- A literal of the source.
abbrev pub codes : String → Text
codes String.[] = []
codes (String.◌∷◌ c s) = code c ∷ codes s

-- `a == b` on strings.
unfoldable pub same : Text → Text → Bool
same [] [] = true
same [] (y ∷ ys) = false
same (x ∷ xs) [] = false
same (x ∷ xs) (y ∷ ys) = x == y && same xs ys

pub same-eq : (a b : Text) → same a b ≡ true → a ≡ b
unfolding same
same-eq [] [] h = refl
same-eq [] (y ∷ ys) h = ground arith
same-eq (x ∷ xs) [] h = ground arith
same-eq (x ∷ xs) (y ∷ ys) h = ground (arith, same-eq xs ys)

pub same_refl : (a : Text) → same a a ≡ true
unfolding same
same_refl [] = refl
same_refl (x ∷ xs) = ground (arith, same_refl xs)

pub same_iff : (a b : Text) → (same a b ≡ true) ↔ (a ≡ b)
same_iff a b = (same-eq a b, λ e. rw e (same_refl b))

pub same_comm : (a b : Text) → same a b ≡ same b a
unfolding same
same_comm [] [] = refl
same_comm [] (y ∷ ys) = refl
same_comm (x ∷ xs) [] = refl
same_comm (x ∷ xs) (y ∷ ys) = ground (arith, same_comm xs ys)

-- `s == ""`.
unfoldable pub is_empty : Text → Bool
is_empty [] = true
is_empty (x ∷ xs) = false

-- The bytes of a code point in UTF-8, and `len(s)`, which counts bytes.
unfoldable pub rune_length : ℕ → ℕ
rune_length c = if ltb c 0x80 then 1 else if ltb c 0x800 then 2 else if ltb c 0x1_0000 then 3 else 4

unfoldable pub byte_length : Text → ℕ
byte_length [] = 0
byte_length (c ∷ s) = rune_length c + byte_length s

-- `unicode.IsSpace`.
unfoldable pub is_space : ℕ → Bool
is_space c =
    (leb 0x09 c && leb c 0x0d)
    || c == 0x20
    || c == 0x85
    || c == 0xa0
    || c == 0x1680
    || (leb 0x2000 c && leb c 0x200a)
    || c == 0x2028
    || c == 0x2029
    || c == 0x202f
    || c == 0x205f
    || c == 0x3000

unfoldable pub trim_left : Text → Text
trim_left [] = []
trim_left (c ∷ s) = if is_space c then trim_left s else c ∷ s

-- Drops the trailing white space: a space stays only if something is kept behind it.
unfoldable pub trim_right : Text → Text
trim_right [] = []
trim_right (c ∷ s) = let rest = trim_right s in if is_space c && is_empty rest then [] else c ∷ rest

-- `strings.TrimSpace`.
unfoldable pub trim_space : Text → Text
unfolding trim_left trim_right
trim_space s = trim_right (trim_left s)

-- Trimming again changes nothing.
trim_right-is_empty : (s : Text) → is_empty (trim_right s) ≡ false → is_empty s ≡ false
unfolding trim_right is_empty
trim_right-is_empty [] h = h
trim_right-is_empty (c ∷ s) h = refl

trim_right_idem : (s : Text) → trim_right (trim_right s) ≡ trim_right s
unfolding trim_right is_empty
trim_right_idem [] = refl
trim_right_idem (c ∷ s) = ground (arith, trim_right_idem s)

-- The first character, if any, is no white space.
abbrev IsTrimmed : Text → Type 0
IsTrimmed [] = Unit {0}
IsTrimmed (c ∷ s) = is_space c ≡ false

trim_left-IsTrimmed : (s : Text) → IsTrimmed (trim_left s)
unfolding trim_left
trim_left-IsTrimmed [] = tt
trim_left-IsTrimmed (c ∷ s) = ground (arith, trim_left-IsTrimmed s)

trim_right-IsTrimmed : (s : Text) → IsTrimmed s → IsTrimmed (trim_right s)
unfolding trim_right
trim_right-IsTrimmed [] h = tt
trim_right-IsTrimmed (c ∷ s) h = ground arith

trim_left_done : (s : Text) → IsTrimmed s → trim_left s ≡ s
unfolding trim_left
trim_left_done [] h = refl
trim_left_done (c ∷ s) h = ground arith

pub trim_space_idem : (s : Text) → trim_space (trim_space s) ≡ trim_space s
unfolding trim_space
trim_space_idem s =
    rw
      (trim_left_done (trim_right (trim_left s))
        (trim_right-IsTrimmed (trim_left s) (trim_left-IsTrimmed s)))
      (trim_right_idem (trim_left s))
