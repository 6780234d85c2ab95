-- ===== src/Migrations/Loader/Loaded.antt =====
-- What a set of migrations that was loaded satisfies.
use family_tree_identity_mic.Shared.{
  ◌^◌, ◌<◌, ◌≡◌, ◌≢◌, ◌⊎◌, refl, inl, inr, Bool-cases, false, some, List, [], ◌∷◌, ◌++◌, arith, ltb,
  ◌==◌, is_empty, All, All-map,
}
use family_tree_identity_mic.Domain.Errors.{Result-cases, ok}
use family_tree_identity_mic.Security.Base64.{Bytes}
use family_tree_identity_mic.Security.Token.{hex}
use family_tree_identity_mic.Migrations.Loader.{
  Migration, Parts, up, down, FileName, Entry, match_filename, add_entries, insert_by_version,
  sort_by_version, checksum_of, migration_of, complete, sorted_result, load,
}
use family_tree_identity_mic.Migrations.Loader.Gathered.{
  cons-holds, Apart, IsPart, IsKnown, add_entries-AreParts,
}

-- The directory has a file of that name with that body.
abbrev pub IsFile : List Entry → FileName → Bytes → Type 0
IsFile [] file body = ⊥
IsFile (entry ∷ entries) file body =
    ((entry.is_dir ≡ false) × (match_filename entry.name ≡ some file) × (entry.body ≡ ok body))
    ⊎ IsFile entries file body

abbrev pub Ascending : List Migration → Type 0
Ascending [] = Unit
Ascending (m ∷ ms) = All (λ n. m.version < n.version) ms × Ascending ms

entries-IsKnown : (entries : List Entry) → All (IsKnown (IsFile entries)) entries
entries-IsKnown [] = tt
entries-IsKnown (entry ∷ entries) = (
  λ file body is_file matched read. inl (is_file, matched, read),
  All-map (IsKnown (IsFile entries)) (IsKnown (IsFile (entry ∷ entries))) entries
      (λ e known file body is_file matched read. inr (known file body is_file matched read))
      (entries-IsKnown entries),
)

module _ (P : Migration → Type 0) where
  insert-All :
      (m : Migration) (ms : List Migration) → P m → All P ms → All P (insert_by_version m ms)
  unfolding insert_by_version
  insert-All m [] one all = (one, tt)
  insert-All m (n ∷ ns) one all = elim (Bool-cases (ltb m.version n.version)) [
    | inl less ↦ rw less (one, all)
    | inr more ↦ rw more (all.0, insert-All m ns one all.1)
  ]

  sort-All : (ms : List Migration) → All P ms → All P (sort_by_version ms)
  unfolding sort_by_version
  sort-All [] all = tt
  sort-All (m ∷ ms) all = insert-All m (sort_by_version ms) all.0 (sort-All ms all.1)

-- Versions that are apart are sorted strictly.
insert-Ascending :
    (m : Migration) (ms : List Migration)
    → All (λ n. m.version ≢ n.version) ms
    → Ascending ms
    → Ascending (insert_by_version m ms)
unfolding insert_by_version
insert-Ascending m [] apart sorted = (tt, tt)
insert-Ascending m (n ∷ ns) apart sorted = elim (Bool-cases (ltb m.version n.version)) [
  | inl less ↦
      let below : (m.version < n.version) = ground arith in
      rw less (
        (
          below,
          All-map (λ k. n.version < k.version) (λ k. m.version < k.version) ns
              (λ k above. omega arith) sorted.0,
        ),
        sorted,
      )
  | inr more ↦ rw more (
    insert-All (λ k. n.version < k.version) m ns (ground (arith, apart.0)) sorted.0,
    insert-Ascending m ns apart.1 sorted.1,
  )
]

abbrev Distinct : List Migration → Type 0
Distinct [] = Unit
Distinct (m ∷ ms) = All (λ n. m.version ≢ n.version) ms × Distinct ms

sort-Ascending : (ms : List Migration) → Distinct ms → Ascending (sort_by_version ms)
unfolding sort_by_version
sort-Ascending [] apart = tt
sort-Ascending (m ∷ ms) apart =
    insert-Ascending m (sort_by_version ms) (sort-All (λ n. m.version ≢ n.version) ms apart.0)
      (sort-Ascending ms apart.1)

filled-≢ : (s : Bytes) → is_empty s ≡ false → s ≢ []
unfolding is_empty
filled-≢ [] h = ground arith
filled-≢ (c ∷ s) h = ground arith

read_text : (P : Type 0) (s : Bytes) → (s ≡ []) ⊎ P → s ≢ [] → P
read_text P s (inl e) filled = absurd (filled e)
read_text P s (inr p) filled = p

module _ (sha256 : Bytes → Bytes) where
  complete-All :
      (P : Parts → Type 0) (Q : Migration → Type 0) (ps : List Parts) (ms : List Migration)
      → ((p : Parts) (m : Migration) → migration_of sha256 p ≡ ok m → P p → Q m)
      → All P ps
      → complete sha256 ps ≡ ok ms
      → All Q ms
  unfolding complete
  complete-All P Q [] ms step all e = let none_left : (ms ≡ []) = ground arith in rw none_left tt
  complete-All P Q (p ∷ ps) ms step all e =
      cons-holds (All Q) (migration_of sha256 p) (complete sha256 ps) ms
        (λ m ns one rest. (step p m one all.0, complete-All P Q ps ns step all.1 rest)) e

  migration_of-version :
      (p : Parts) (m : Migration) → migration_of sha256 p ≡ ok m → m.version ≡ p.version
  unfolding migration_of
  migration_of-version p m e = ground arith

  complete-Distinct :
      (ps : List Parts) (ms : List Migration) → Apart ps → complete sha256 ps ≡ ok ms → Distinct ms
  unfolding complete
  complete-Distinct [] ms apart e = let none_left : (ms ≡ []) = ground arith in rw none_left tt
  complete-Distinct (p ∷ ps) ms apart e =
      cons-holds Distinct (migration_of sha256 p) (complete sha256 ps) ms
        (λ m ns one rest. (
          complete-All (λ q. (p.version == q.version) ≡ false) (λ n. m.version ≢ n.version) ps ns
              (λ q n read other.
                ground (arith, migration_of-version q n read, migration_of-version p m one))
              apart.0 rest,
          complete-Distinct ps ns apart.1 rest,
        ))
        e

  -- The migration comes from a file of each direction.
  abbrev pub IsLoaded : List Entry → Migration → Type 0
  IsLoaded entries m =
      (0 < m.version)
      × (m.version < 2 ^ 63)
      × (m.up_sql ≢ [])
      × (m.down_sql ≢ [])
      × (m.checksum ≡ hex (sha256 (m.up_sql ++ (0 ∷ m.down_sql))))
      × IsFile entries (record { version = m.version; name = m.name; direction = up }) m.up_sql
      × IsFile entries (record { version = m.version; name = m.name; direction = down }) m.down_sql

  migration_of-cases :
      (p : Parts) (m : Migration)
      → migration_of sha256 p ≡ ok m
      → (is_empty p.up_sql ≡ false)
        × (is_empty p.down_sql ≡ false)
        × (m ≡ record {
          version = p.version;
          name = p.name;
          up_sql = p.up_sql;
          down_sql = p.down_sql;
          checksum = checksum_of sha256 p;
        })
  unfolding migration_of
  migration_of-cases p m e = ground arith

  migration_of-IsLoaded :
      (entries : List Entry) (p : Parts) (m : Migration)
      → migration_of sha256 p ≡ ok m
      → IsPart (IsFile entries) p
      → IsLoaded entries m
  migration_of-IsLoaded entries p m e part =
      let (has_up, has_down, e') = migration_of-cases p m e in
      rw e' (
        part.0,
        part.1,
        filled-≢ p.up_sql has_up,
        filled-≢ p.down_sql has_down,
        refl,
        read_text _ _ (part.2 up) (filled-≢ p.up_sql has_up),
        read_text _ _ (part.2 down) (filled-≢ p.down_sql has_down),
      )

  -- `Load` keeps every promise of the file names: the migrations are in the order of their versions,
  -- which are positive and fit in 64 bits, each has a text for both directions, from files of the
  -- directory under its version and name, and the checksum of both.
  pub load-IsLoaded :
      (entries : List Entry) (ms : List Migration)
      → load sha256 (ok entries) ≡ ok ms
      → Ascending ms × All (IsLoaded entries) ms
  unfolding load sorted_result
  load-IsLoaded entries ms e = elim (Result-cases (add_entries entries [])) [
    | inl (f, e') ↦ ground arith
    | inr (ps, e') ↦ elim (Result-cases (complete sha256 ps)) [
      | inl (f, e'') ↦ ground arith
      | inr (ns, e'') ↦
          let inv =
            add_entries-AreParts (IsFile entries) entries [] ps (entries-IsKnown entries) (tt, tt)
              e' in
          let whole : (ms ≡ sort_by_version ns) = ground arith in
          rw whole (
            sort-Ascending ns (complete-Distinct ps ns inv.0 e''),
            sort-All (IsLoaded entries) ns (
                complete-All (IsPart (IsFile entries)) (IsLoaded entries) ps ns
                  (λ p m one part. migration_of-IsLoaded entries p m one part) inv.1 e''),
          )
    ]
  ]
