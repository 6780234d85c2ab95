-- ===== src/Migrations/Loader.antt =====
-- migrations/loader.go. A directory is the list of its entries, each with what reading it gives;
-- SHA-256 is a parameter. The map of versions is the list of their parts: the order in which Go walks
-- through it only chooses which of several errors is told.
pub mod Gathered
pub mod Loaded
use mathlib.Core.Option
use family_tree_identity_mic.Shared.{
  ℕ, zero, suc, ◌^◌, Bool, true, false, not, ◌&&◌, ◌||◌, Option, none, some, List, [], ◌∷◌, ◌++◌,
  ◌>>=◌, Text, codes, ltb, leb, ◌==◌, same, is_empty, if◌then◌else◌,
}
use family_tree_identity_mic.Domain.Errors.{Error, foreign, wrap, Result, ok, err}
use family_tree_identity_mic.Security.Base64.{Bytes}
use family_tree_identity_mic.Security.Scan.{is_digit, scan_digits, scan_literal}
use family_tree_identity_mic.Security.Token.{hex}

pub record Migration : Type 0 where
  pub version : ℕ
  pub name : Text
  pub up_sql : Bytes
  pub down_sql : Bytes
  pub checksum : Text

pub record Parts : Type 0 where
  pub version : ℕ
  pub name : Text
  pub up_sql : Bytes
  pub down_sql : Bytes

pub data Direction : Type 0 where
  up down : Direction

-- The groups of the pattern; the first one read as a number.
pub record FileName : Type 0 where
  pub version : ℕ
  pub name : Text
  pub direction : Direction

-- `fs.DirEntry`, with what `fs.ReadFile` gives for it; a body is the list of its bytes.
pub record Entry : Type 0 where
  pub name : Text
  pub is_dir : Bool
  pub body : Result Bytes

abbrev pub is_name_character : ℕ → Bool
is_name_character c = (leb b'a' c && leb c b'z') || is_digit c || c == b'_'

-- The longest run of characters of a name, and what is left.
unfoldable pub span_name : Text → Text × Text
span_name [] = ([], [])
span_name (c ∷ s) =
    let (name, rest) = span_name s in if is_name_character c then (c ∷ name, rest) else ([], c ∷ s)

abbrev pub direction_of : Text → Option Direction
direction_of s =
    if same s (codes ".up.sql")
    then some up
    else if same s (codes ".down.sql")
    then some down
    else none

-- `migrationFilenamePattern`: digits, an underscore, a name, and the direction.
unfoldable pub match_filename : Text → Option FileName
match_filename [] = none
match_filename (c ∷ s) =
    if is_digit c
    then (do
      let (version, rest) = scan_digits (c ∷ s) 0
      rest ← scan_literal (codes "_") rest
      let (name, rest) = span_name rest
      direction ← direction_of rest
      if is_empty name
          then none
          else some (record { version = version; name = name; direction = direction }))
    else none

-- `filepath.Ext(name) == ".sql"`.
unfoldable pub is_sql : Text → Bool
is_sql [] = false
is_sql (c ∷ s) = let rest = is_sql s in same (c ∷ s) (codes ".sql") || rest

-- Lines 68 to 83.
unfoldable pub put : FileName → Bytes → Parts → Result Parts
put file body parts =
    if not (same parts.name file.name)
    then err (foreign "migration version has inconsistent names")
    else elim file.direction [
      | up ↦
          if not (is_empty parts.up_sql)
          then err (foreign "migration version has duplicate up file")
          else ok (record parts { up_sql = body })
      | down ↦
          if not (is_empty parts.down_sql)
          then err (foreign "migration version has duplicate down file")
          else ok (record parts { down_sql = body })
    ]

abbrev pub cons : {A : Type 0} → Result A → Result (List A) → Result (List A)
cons (ok a) (ok rest) = ok (a ∷ rest)
cons (ok a) (err e) = err e
cons (err e) rest = err e

-- Lines 62 to 83, on the parts of all versions.
unfoldable pub add_file : FileName → Bytes → List Parts → Result (List Parts)
add_file file body [] =
    cons
      (put file body
        (record { version = file.version; name = file.name; up_sql = []; down_sql = [] }))
      (ok [])
add_file file body (p ∷ ps) =
    let rest = add_file file body ps in
    if p.version == file.version then cons (put file body p) (ok ps) else cons (ok p) rest

-- Lines 44 to 83, for a file.
unfoldable pub add_matched : Option FileName → Entry → List Parts → Result (List Parts)
add_matched none entry parts =
    if is_sql entry.name then err (foreign "invalid migration filename") else ok parts
add_matched (some file) entry parts =
    if not (ltb file.version (2 ^ 63)) || file.version == 0
    then err (foreign "invalid migration version")
    else elim entry.body [
      | err e ↦ err (wrap "read migration" e)
      | ok body ↦ add_file file body parts
    ]

unfoldable pub add_entry : Entry → List Parts → Result (List Parts)
add_entry entry parts =
    if entry.is_dir then ok parts else add_matched (match_filename entry.name) entry parts

unfoldable pub add_entries : List Entry → List Parts → Result (List Parts)
add_entries [] parts = ok parts
add_entries (entry ∷ entries) parts = elim (add_entry entry parts) [
  | err e ↦ err e
  | ok parts' ↦ add_entries entries parts'
]

unfoldable pub insert_by_version : Migration → List Migration → List Migration
insert_by_version m [] = m ∷ []
insert_by_version m (n ∷ ns) =
    let rest = insert_by_version m ns in if ltb m.version n.version then m ∷ n ∷ ns else n ∷ rest

-- `sort.Slice` of line 105; no two versions are equal.
unfoldable pub sort_by_version : List Migration → List Migration
sort_by_version [] = []
sort_by_version (m ∷ ms) = insert_by_version m (sort_by_version ms)

module _ (sha256 : Bytes → Bytes) where
  abbrev pub checksum_of : Parts → Text
  checksum_of parts = hex (sha256 (parts.up_sql ++ (0 ∷ parts.down_sql)))

  -- Lines 88 to 102.
  unfoldable pub migration_of : Parts → Result Migration
  migration_of parts =
      if is_empty parts.up_sql || is_empty parts.down_sql
      then err (foreign "migration version must have both up and down files")
      else ok (record {
        version = parts.version;
        name = parts.name;
        up_sql = parts.up_sql;
        down_sql = parts.down_sql;
        checksum = checksum_of parts;
      })

  unfoldable pub complete : List Parts → Result (List Migration)
  complete [] = ok []
  complete (p ∷ ps) = cons (migration_of p) (complete ps)

  unfoldable pub sorted_result : Result (List Migration) → Result (List Migration)
  sorted_result (ok ms) = ok (sort_by_version ms)
  sorted_result (err e) = err e

  -- `Load`.
  unfoldable pub load : Result (List Entry) → Result (List Migration)
  load (err e) = err (wrap "read migration directory" e)
  load (ok entries) = elim (add_entries entries []) [
    | err e ↦ err e
    | ok parts ↦ sorted_result (complete parts)
  ]
