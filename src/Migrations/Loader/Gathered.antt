-- ===== src/Migrations/Loader/Gathered.antt =====
-- What the parts of the versions satisfy when every file is read.
use family_tree_identity_mic.Shared.{
  ℕ, ◌^◌, ◌<◌, ◌≡◌, refl, inl, inr, ◌⊎◌, sym, Bool-cases, true, false, Option, none, some, List, [],
  ◌∷◌, arith, Text, ◌==◌, same, same-eq, All, Unique,
}
use family_tree_identity_mic.Domain.Errors.{Result, Result-cases, ok, err}
use family_tree_identity_mic.Security.Base64.{Bytes}
use family_tree_identity_mic.Migrations.Loader.{
  Parts, Direction, up, down, FileName, Entry, match_filename, put, cons, add_file, add_matched,
  add_entry, add_entries,
}

-- What holds of every list that is put together holds of the result.
pub cons-holds :
    {A : Type 0} (R : List A → Type 0) (r : Result A) (rest : Result (List A)) (all : List A)
    → ((a : A) (bs : List A) → r ≡ ok a → rest ≡ ok bs → R (a ∷ bs))
    → cons r rest ≡ ok all
    → R all
cons-holds R (ok a) (ok bs) all step e =
    let whole : (all ≡ a ∷ bs) = ground arith in rw whole (step a bs refl refl)
cons-holds R (ok a) (err f) all step e = ground arith
cons-holds R (err f) rest all step e = ground arith

put-version :
    (file : FileName) (body : Bytes) (p q : Parts) → put file body p ≡ ok q → q.version ≡ p.version
unfolding put
put-version file body p q e = ground arith

module _ (P : Parts → Type 0) (file : FileName) (body : Bytes) where
  -- Adding a file changes one of the parts, or adds new ones.
  add_file-All :
      (ps qs : List Parts)
      → ((p q : Parts) → p.version ≡ file.version → put file body p ≡ ok q → P p → P q)
      → P (record { version = file.version; name = file.name; up_sql = []; down_sql = [] })
      → All P ps
      → add_file file body ps ≡ ok qs
      → All P qs
  unfolding add_file
  add_file-All [] qs keep new all e =
      cons-holds (All P) (put file body _) (ok []) qs
        (λ a bs read none_left.
          (keep _ a refl read new, let empty : (bs ≡ []) = ground arith in rw empty tt))
        e
  add_file-All (p ∷ ps) qs keep new all e = elim (Bool-cases (p.version == file.version)) [
    | inl hit ↦
        cons-holds (All P) (put file body p) (ok ps) qs
          (λ a bs read left. (
            keep p a (ground arith) read all.0,
            let kept : (bs ≡ ps) = ground arith in rw kept all.1,
          ))
          (rw hit at e)
    | inr miss ↦
        cons-holds (All P) (ok p) (add_file file body ps) qs
          (λ a bs read added. (
            let kept : (a ≡ p) = ground arith in rw kept all.0,
            add_file-All ps bs keep new all.1 added,
          ))
          (rw miss at e)
  ]

abbrev pub Apart : List Parts → Type 0
Apart ps = Unique (λ p q. p.version == q.version) ps

add_file-Apart :
    (file : FileName) (body : Bytes) (ps qs : List Parts)
    → Apart ps
    → add_file file body ps ≡ ok qs
    → Apart qs
unfolding add_file
add_file-Apart file body [] qs u e =
    cons-holds Apart (put file body _) (ok []) qs
      (λ a bs read none_left. let empty : (bs ≡ []) = ground arith in rw empty (tt, tt)) e
add_file-Apart file body (p ∷ ps) qs u e = elim (Bool-cases (p.version == file.version)) [
  | inl hit ↦
      cons-holds Apart (put file body p) (ok ps) qs
        (λ a bs read left.
          let kept : (bs ≡ ps) = ground arith in rw (kept, put-version file body p a read) u)
        (rw hit at e)
  | inr miss ↦
      cons-holds Apart (ok p) (add_file file body ps) qs
        (λ a bs read added.
          let kept : (a ≡ p) = ground arith in
          rw kept (
            add_file-All (λ q. (p.version == q.version) ≡ false) file body ps bs
                (λ q q' _ read' h. rw (put-version file body q q' read') h) miss u.0 added,
            add_file-Apart file body ps bs u.1 added,
          ))
        (rw miss at e)
]

put-cases :
    (file : FileName) (body : Bytes) (p q : Parts)
    → put file body p ≡ ok q
    → (same p.name file.name ≡ true)
      × (((file.direction ≡ up) × (q ≡ record p { up_sql = body }))
          ⊎ ((file.direction ≡ down) × (q ≡ record p { down_sql = body })))
unfolding put
put-cases file body p q e = ground arith

-- The text of a direction, and where it comes from: it is empty, or was read for that file name.
abbrev pub text_of : Direction → Parts → Bytes
text_of up p = p.up_sql
text_of down p = p.down_sql

module _ (Has : FileName → Bytes → Type 0) where
  abbrev pub IsRead : Parts → Type 0
  IsRead p =
      (d : Direction)
      → (text_of d p ≡ [])
        ⊎ Has (record { version = p.version; name = p.name; direction = d }) (text_of d p)

  abbrev pub IsPart : Parts → Type 0
  IsPart p = (0 < p.version) × (p.version < 2 ^ 63) × IsRead p

  abbrev pub AreParts : List Parts → Type 0
  AreParts ps = Apart ps × All IsPart ps

  -- The entry is not lying: what it holds is known under its file name.
  abbrev pub IsKnown : Entry → Type 0
  IsKnown entry =
      (file : FileName) (body : Bytes)
      → entry.is_dir ≡ false
      → match_filename entry.name ≡ some file
      → entry.body ≡ ok body
      → Has file body

  known_as :
      (file : FileName) (body : Bytes) (version : ℕ) (name : Text) (d : Direction)
      → version ≡ file.version
      → name ≡ file.name
      → d ≡ file.direction
      → Has file body
      → Has (record { version = version; name = name; direction = d }) body
  known_as file body version name d e e' e'' has = rw (e, e', e'') has

  put-IsRead :
      (file : FileName) (body : Bytes) (p q : Parts) (d : Direction)
      → Has file body
      → p.version ≡ file.version
      → put file body p ≡ ok q
      → IsRead p
      → (text_of d q ≡ [])
        ⊎ Has (record { version = q.version; name = q.name; direction = d }) (text_of d q)
  put-IsRead file body p q up has same_version e read =
      let (named, cases) = put-cases file body p q e in
      elim cases [
        | inl (d, e') ↦
            rw e' (inr (known_as file body _ _ up same_version (same-eq _ _ named) (sym d) has))
        | inr (d, e') ↦ rw e' (read up)
      ]
  put-IsRead file body p q down has same_version e read =
      let (named, cases) = put-cases file body p q e in
      elim cases [
        | inl (d, e') ↦ rw e' (read down)
        | inr (d, e') ↦
            rw e' (inr (known_as file body _ _ down same_version (same-eq _ _ named) (sym d) has))
      ]

  new_parts-IsRead :
      (version : ℕ) (name : Text)
      → IsRead (record { version = version; name = name; up_sql = []; down_sql = [] })
  new_parts-IsRead version name up = inl refl
  new_parts-IsRead version name down = inl refl

  add_file-AreParts :
      (file : FileName) (body : Bytes) (ps qs : List Parts)
      → Has file body
      → 0 < file.version
      → file.version < 2 ^ 63
      → AreParts ps
      → add_file file body ps ≡ ok qs
      → AreParts qs
  add_file-AreParts file body ps qs has positive small inv e = (
    add_file-Apart file body ps qs inv.0 e,
    add_file-All IsPart file body ps qs
        (λ p q same_version read part. (
          rw (put-version file body p q read) part.0,
          rw (put-version file body p q read) part.1,
          λ d. put-IsRead file body p q d has same_version read part.2,
        ))
        (positive, small, new_parts-IsRead file.version file.name) inv.1 e,
  )

  add_matched-AreParts :
      (file : Option FileName) (entry : Entry) (ps qs : List Parts)
      → ((f : FileName) (body : Bytes) → file ≡ some f → entry.body ≡ ok body → Has f body)
      → AreParts ps
      → add_matched file entry ps ≡ ok qs
      → AreParts qs
  unfolding add_matched
  add_matched-AreParts none entry ps qs known inv e =
      let kept : (qs ≡ ps) = ground arith in rw kept inv
  add_matched-AreParts (some file) entry ps qs known inv e =
      let valid : ((0 < file.version) × (file.version < 2 ^ 63)) = ground arith in
      elim (Result-cases entry.body) [
        | inl (f, e') ↦ ground arith
        | inr (body, e') ↦
            add_file-AreParts file body ps qs (known file body refl e') valid.0 valid.1 inv
              (ground arith)
      ]

  pub add_entries-AreParts :
      (entries : List Entry) (ps qs : List Parts)
      → All IsKnown entries
      → AreParts ps
      → add_entries entries ps ≡ ok qs
      → AreParts qs
  unfolding add_entries add_entry
  add_entries-AreParts [] ps qs known inv e = let kept : (qs ≡ ps) = ground arith in rw kept inv
  add_entries-AreParts (entry ∷ entries) ps qs known inv e = elim (Bool-cases entry.is_dir) [
    | inl skipped ↦ add_entries-AreParts entries ps qs known.1 inv (rw skipped at e)
    | inr file ↦ elim (Result-cases (add_matched (match_filename entry.name) entry ps)) [
      | inl (f, e') ↦ ground arith
      | inr (ps', e') ↦
          add_entries-AreParts entries ps' qs known.1
            (add_matched-AreParts (match_filename entry.name) entry ps ps'
              (λ f body matched read. known.0 f body file matched read) inv e')
            (ground arith)
    ]
  ]
