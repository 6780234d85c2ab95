-- ===== src/Shared/Lists.antt =====
-- Lists searched, filtered and updated by a Boolean test, and predicates over all members.
use Prim.Native.Nat.{ℕ, suc, ◌+◌}
use mathlib.Core.Path.{◌≡◌, refl, ◌∙◌}
use mathlib.Core.Logic.{inl, inr}
use mathlib.Core.List.{List, [], ◌∷◌}
use mathlib.Core.Bool.{Bool, true, false, ◌||◌}
use mathlib.Core.Option
use mathlib.Core.Option.{Option, none, some}
use native.Mathlib.Omega.{arith}
use family_tree_identity_mic.Shared.Tests.{if◌then◌else◌, Bool-cases, Option-cases}

module _ {ℓ} {A : Type ℓ} where
  abbrev pub length : List A → ℕ
  length [] = 0
  length (x ∷ xs) = suc (length xs)

  -- The first member that passes.
  unfoldable pub find : (A → Bool) → List A → Option A
  find p [] = none
  find p (x ∷ xs) = if p x then some x else find p xs

  unfoldable pub any : (A → Bool) → List A → Bool
  any p [] = false
  any p (x ∷ xs) = p x || any p xs

  unfoldable pub select : (A → Bool) → List A → List A
  select p [] = []
  select p (x ∷ xs) = if p x then x ∷ select p xs else select p xs

  -- Each member that passes is replaced.
  unfoldable pub update : (A → Bool) → (A → A) → List A → List A
  update p f [] = []
  update p f (x ∷ xs) = (if p x then f x else x) ∷ update p f xs

  unfoldable pub count : (A → Bool) → List A → ℕ
  count p [] = 0
  count p (x ∷ xs) = (if p x then 1 else 0) + count p xs

  abbrev pub All {κ} : (A → Type κ) → List A → Type κ
  All P [] = Unit
  All P (x ∷ xs) = P x × All P xs

  -- No two members clash.
  abbrev pub Unique : (A → A → Bool) → List A → Type ℓ
  Unique clash [] = Unit
  Unique clash (x ∷ xs) = All (λ y. clash x y ≡ false) xs × Unique clash xs

  pub find-holds : (p : A → Bool) (xs : List A) {a : A} → find p xs ≡ some a → p a ≡ true
  unfolding find
  find-holds p [] {a} h = ground arith
  find-holds p (x ∷ xs) {a} h = ground (arith, find-holds p xs {a = a})

  pub find-skip : (p : A → Bool) (xs : List A) → any p xs ≡ false → find p xs ≡ none
  unfolding find any
  find-skip p [] h = refl
  find-skip p (x ∷ xs) h = ground (arith, find-skip p xs)

  -- Two tests that agree find the same member.
  pub find-agree : (p q : A → Bool) (xs : List A) → ((x : A) → p x ≡ q x) → find p xs ≡ find q xs
  unfolding find
  find-agree p q [] h = refl
  find-agree p q (x ∷ xs) h = ground (arith, h x, find-agree p q xs h)

  -- An update that the test of a search does not see acts on what is found.
  pub find-update :
      (q p : A → Bool) (f : A → A) (xs : List A)
      → ((x : A) → p x ≡ true → q (f x) ≡ q x)
      → find q (update p f xs) ≡ Option.map (λ x. if p x then f x else x) (find q xs)
  unfolding find update
  find-update q p f [] h = refl
  find-update q p f (x ∷ xs) h = ground (arith, h x, find-update q p f xs h)

  pub any-update :
      (q p : A → Bool) (f : A → A) (xs : List A)
      → ((x : A) → p x ≡ true → q (f x) ≡ q x)
      → any q (update p f xs) ≡ any q xs
  unfolding any update
  any-update q p f [] h = refl
  any-update q p f (x ∷ xs) h = ground (arith, h x, any-update q p f xs h)

  pub any-find : (p : A → Bool) (xs : List A) {a : A} → find p xs ≡ some a → any p xs ≡ true
  unfolding find any
  any-find p [] {a} h = ground arith
  any-find p (x ∷ xs) {a} h = ground (arith, any-find p xs {a = a})

  pub any-holds :
      (p q : A → Bool) (xs : List A)
      → ((x : A) → p x ≡ true → q x ≡ true)
      → any p xs ≡ true
      → any q xs ≡ true
  unfolding any
  any-holds p q [] h e = e
  any-holds p q (x ∷ xs) h e = ground (arith, h x, any-holds p q xs h)

  pub count-none : (p : A → Bool) (xs : List A) → count p xs ≡ 0 → any p xs ≡ false
  unfolding count any
  count-none p [] h = refl
  count-none p (x ∷ xs) h = ground (arith, count-none p xs)

  pub count-zero : (p : A → Bool) (xs : List A) → any p xs ≡ false → count p xs ≡ 0
  unfolding count any
  count-zero p [] h = refl
  count-zero p (x ∷ xs) h = ground (arith, count-zero p xs)

  pub any-false :
      (p q : A → Bool) (xs : List A)
      → ((x : A) → p x ≡ true → q x ≡ true)
      → any q xs ≡ false
      → any p xs ≡ false
  unfolding any
  any-false p q [] h e = refl
  any-false p q (x ∷ xs) h e = ground (arith, h x, any-false p q xs h)

  -- What passes and is changed so that it passes another test.
  pub any-changed :
      (p q : A → Bool) (f : A → A) (xs : List A)
      → ((x : A) → p x ≡ true → q (f x) ≡ true)
      → any p xs ≡ true
      → any q (update p f xs) ≡ true
  unfolding any update
  any-changed p q f [] h e = ground arith
  any-changed p q f (x ∷ xs) h e = ground (arith, h x, any-changed p q f xs h)

  -- An update that leaves alone what passes.
  pub update-same : (p : A → Bool) (f : A → A) (xs : List A) → any p xs ≡ false → update p f xs ≡ xs
  unfolding update any
  update-same p f [] h = refl
  update-same p f (x ∷ xs) h = ground (arith, update-same p f xs)

  pub All-any : (p : A → Bool) (xs : List A) → any p xs ≡ false → All (λ x. p x ≡ false) xs
  unfolding any
  All-any p [] h = tt
  All-any p (x ∷ xs) h = ground (arith, All-any p xs)

  module _ {κ} (P : A → Type κ) where
    pub All-always : (xs : List A) → ((x : A) → P x) → All P xs
    All-always [] h = tt
    All-always (x ∷ xs) h = (h x, All-always xs h)

    pub All-find : (p : A → Bool) (xs : List A) {a : A} → All P xs → find p xs ≡ some a → P a
    unfolding find
    All-find p [] {a} all h = ground arith
    All-find p (x ∷ xs) {a} all h = ground (arith, All-find p xs {a = a} all.1)

    pub All-update :
        (p : A → Bool) (f : A → A) (xs : List A)
        → ((x : A) → P x → p x ≡ true → P (f x))
        → All P xs
        → All P (update p f xs)
    unfolding update
    All-update p f [] h all = tt
    All-update p f (x ∷ xs) h all = ground (arith, h x, All-update p f xs h all.1)

    pub All-select : (p : A → Bool) (xs : List A) → All P xs → All P (select p xs)
    unfolding select
    All-select p [] all = tt
    All-select p (x ∷ xs) all = ground (arith, All-select p xs all.1)

    pub All-map {κ'} : (Q : A → Type κ') (xs : List A) → ((x : A) → P x → Q x) → All P xs → All Q xs
    All-map Q [] h all = tt
    All-map Q (x ∷ xs) h all = (h x all.0, All-map Q xs h all.1)

  pub All-both {κ κ' μ} :
      (P : A → Type κ) (Q : A → Type κ') (R : A → Type μ) (xs : List A)
      → ((x : A) → P x → Q x → R x)
      → All P xs
      → All Q xs
      → All R xs
  All-both P Q R [] h p q = tt
  All-both P Q R (x ∷ xs) h p q = (h x p.0 q.0, All-both P Q R xs h p.1 q.1)

  pub All-select_holds : (p : A → Bool) (xs : List A) → All (λ x. p x ≡ true) (select p xs)
  unfolding select
  All-select_holds p [] = tt
  All-select_holds p (x ∷ xs) = ground (arith, All-select_holds p xs)

  -- An update that no clash sees keeps a table free of clashes.
  pub Unique-update :
      (clash : A → A → Bool) (p : A → Bool) (f : A → A) (xs : List A)
      → ((x y : A) → clash (f x) y ≡ clash x y)
      → ((x y : A) → clash x (f y) ≡ clash x y)
      → Unique clash xs
      → Unique clash (update p f xs)
  unfolding update
  Unique-update clash p f [] hl hr u = tt
  Unique-update clash p f (x ∷ xs) hl hr u =
      let kept = All-update (λ y. clash x y ≡ false) p f xs (λ y e _. hr x y ∙ e) u.0 in
      let rest = Unique-update clash p f xs hl hr u.1 in
      elim (Bool-cases (p x)) [
        | inl e ↦ rw e (
          All-map (λ y. clash x y ≡ false) (λ y. clash (f x) y ≡ false) (update p f xs)
              (λ y e'. hl x y ∙ e') kept,
          rest,
        )
        | inr e ↦ rw e (kept, rest)
      ]

module _ {ℓ κ} {A : Type ℓ} {B : Type κ} where
  -- The first pair of a join that passes, the outer table first.
  unfoldable pub find_join : (A → B → Bool) → List A → List B → Option (A × B)
  find_join p [] ys = none
  find_join p (x ∷ xs) ys =
      let rest = find_join p xs ys in elim (find (p x) ys) [ some y ↦ some (x, y) | none ↦ rest ]

  -- What a join finds passes the test, and both parts satisfy what holds of every row.
  pub find_join-holds :
      (p : A → B → Bool) (xs : List A) (ys : List B) {a : A} {b : B}
      → find_join p xs ys ≡ some (a, b)
      → p a b ≡ true
  unfolding find_join
  find_join-holds p [] ys h = cc
  find_join-holds p (x ∷ xs) ys {a} {b} h = elim (Option-cases (find (p x) ys)) [
    | inl e ↦ find_join-holds p xs ys (rw (e, find_join) at h)
    | inr (y, e) ↦ ground (arith, find-holds (p x) ys {a = y} e)
  ]

  pub All-find_join {μ} :
      (P : A → Type μ) (p : A → B → Bool) (xs : List A) (ys : List B) {a : A} {b : B}
      → All P xs
      → find_join p xs ys ≡ some (a, b)
      → P a
  unfolding find_join
  All-find_join P p [] ys all h = cc
  All-find_join P p (x ∷ xs) ys {a} {b} all h = elim (Option-cases (find (p x) ys)) [
    | inl e ↦ All-find_join P p xs ys all.1 (rw (e, find_join) at h)
    | inr (y, e) ↦ ground arith
  ]

  pub All-find_join_right {μ} :
      (P : B → Type μ) (p : A → B → Bool) (xs : List A) (ys : List B) {a : A} {b : B}
      → All P ys
      → find_join p xs ys ≡ some (a, b)
      → P b
  unfolding find_join
  All-find_join_right P p [] ys all h = cc
  All-find_join_right P p (x ∷ xs) ys {a} {b} all h = elim (Option-cases (find (p x) ys)) [
    | inl e ↦ All-find_join_right P p xs ys all (rw (e, find_join) at h)
    | inr (y, e) ↦ ground (arith, All-find P (p x) ys {a = y} all e)
  ]

  -- The outer row of the pair is in its table.
  pub find_join-any :
      (p : A → B → Bool) (q : A → Bool) (xs : List A) (ys : List B) {a : A} {b : B}
      → find_join p xs ys ≡ some (a, b)
      → q a ≡ true
      → any q xs ≡ true
  unfolding find_join any
  find_join-any p q [] ys h e = cc
  find_join-any p q (x ∷ xs) ys {a} {b} h e = elim (Option-cases (find (p x) ys)) [
    | inl miss ↦
        ground (arith, find_join-any p q xs ys {a = a} {b = b} (rw (miss, find_join) at h) e)
    | inr (y, hit) ↦ ground arith
  ]
