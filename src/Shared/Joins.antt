-- ===== src/Shared/Joins.antt =====
-- Joins over tables without clashes, and over tables that were updated.
use mathlib.Core.Option
use mathlib.Core.Path.{◌≡◌, refl, ◌∙◌}
use mathlib.Core.Logic.{◌⊎◌, inl, inr}
use mathlib.Core.List.{List, [], ◌∷◌}
use mathlib.Core.Bool.{Bool, true, false}
use mathlib.Core.Option.{Option, none, some}
use native.Mathlib.Omega.{arith}
use family_tree_identity_mic.Shared.Tests.{if◌then◌else◌, Bool-cases, Option-cases}
use family_tree_identity_mic.Shared.Lists.{
  find, find_join, find-agree, find-update, any, update, All, All-map, All-find_join, Unique,
}

module _ {ℓ} {B : Type ℓ} where
  find-none : (p : B → Bool) (ys : List B) → ((y : B) → p y ≡ false) → find p ys ≡ none
  unfolding find
  find-none p [] h = refl
  find-none p (y ∷ ys) h = ground (arith, h y, find-none p ys h)

module _ {ℓ κ} {A : Type ℓ} {B : Type κ} where
  pub find_join-none :
      (p : A → B → Bool) (xs : List A) (ys : List B)
      → All (λ x. (y : B) → p x y ≡ false) xs
      → find_join p xs ys ≡ none
  unfolding find_join
  find_join-none p [] ys h = refl
  find_join-none p (x ∷ xs) ys h =
      rw (find-none (p x) ys h.0, find_join) (find_join-none p xs ys h.1)

  -- A join over updated rows whose test reads them as another test read them before.
  pub find_join-update :
      (p q : A → B → Bool) (which : A → Bool) (f : A → A) (xs : List A) (ys : List B)
      → All (λ x. (y : B) → q (if which x then f x else x) y ≡ p x y) xs
      → find_join q (update which f xs) ys
        ≡ Option.map (λ r. (if which r.0 then f r.0 else r.0, r.1)) (find_join p xs ys)
  unfolding find_join update
  find_join-update p q which f [] ys h = refl
  find_join-update p q which f (x ∷ xs) ys h =
      let head = find-agree (q (if which x then f x else x)) (p x) ys h.0 in
      let rest = find_join-update p q which f xs ys h.1 in
      elim (Option-cases (find (p x) ys)) [
        | inl e ↦ rw (head, e, find_join) rest
        | inr (y, e) ↦ rw (head, e, find_join) refl
      ]

  -- The same for an update of the inner table.
  pub find_join-update_inner :
      (p : A → B → Bool) (which : B → Bool) (f : B → B) (xs : List A) (ys : List B)
      → ((x : A) (y : B) → p x (f y) ≡ p x y)
      → find_join p xs (update which f ys)
        ≡ Option.map (λ r. (r.0, if which r.1 then f r.1 else r.1)) (find_join p xs ys)
  unfolding find_join
  find_join-update_inner p which f [] ys h = refl
  find_join-update_inner p which f (x ∷ xs) ys h =
      let head = find-update (p x) which f ys (λ y e. h x y) in
      let rest = find_join-update_inner p which f xs ys h in
      elim (Option-cases (find (p x) ys)) [
        | inl e ↦ rw (head, e, Option.map, find_join) rest
        | inr (y, e) ↦ rw (head, e, Option.map, find_join) refl
      ]

  -- Every other row of a table without clashes is apart from the one that a join found.
  pub Unique-apart :
      (clash : A → A → Bool) (p : A → B → Bool) (xs : List A) (ys : List B) {a : A} {b : B}
      → ((x y : A) → clash x y ≡ clash y x)
      → Unique clash xs
      → find_join p xs ys ≡ some (a, b)
      → All (λ x. (x ≡ a) ⊎ (clash a x ≡ false)) xs
  unfolding find_join
  Unique-apart clash p [] ys comm u e = tt
  Unique-apart clash p (x ∷ xs) ys {a} {b} comm u e = elim (Option-cases (find (p x) ys)) [
    | inl miss ↦
        let e' = rw (miss, find_join) at e in
        (
          inr (comm a x ∙ All-find_join (λ y. clash x y ≡ false) p xs ys u.0 e'),
          Unique-apart clash p xs ys comm u.1 e',
        )
    | inr (y, hit) ↦
        let here : x ≡ a = ground arith in
        (
          inl here,
          All-map (λ y. clash x y ≡ false) (λ y. (y ≡ a) ⊎ (clash a y ≡ false)) xs
              (λ y h. inr (rw (← here) h)) u.0,
        )
  ]

module _ {ℓ} {A : Type ℓ} where
  pub any-some : (p : A → Bool) (xs : List A) → any p xs ≡ true → (a : A) × (find p xs ≡ some a)
  unfolding any find
  any-some p [] h = cc
  any-some p (x ∷ xs) h = elim (Bool-cases (p x)) [
    | inl hit ↦ (x, rw hit refl)
    | inr miss ↦ rw miss (any-some p xs (ground arith))
  ]
