-- ===== src/Tests/Migrations.antt =====
-- A directory with one migration, and a database on which it runs.
use family_tree_identity_mic.Shared.{
  pos, find, select, ◌≡◌, refl, ◌⊎◌, false, List, [], ◌∷◌, codes, same, is_empty, All, any, ◌==◌,
  if◌then◌else◌,
}
use family_tree_identity_mic.Domain.Errors.{foreign, Result, ok, err}
use family_tree_identity_mic.Postgres.Connection.{Network, answered, lost, steady}
use family_tree_identity_mic.Security.Base64.{Bytes}
use family_tree_identity_mic.Security.Scan.{is_digit, scan_digits, scan_literal}
use family_tree_identity_mic.Security.Token.{hex, hex_digit}
use family_tree_identity_mic.Migrations.Loader.{
  Migration, Entry, load, add_entries, add_entry, add_matched, add_file, put, match_filename,
  span_name, sort_by_version, insert_by_version, complete, migration_of, sorted_result, is_sql,
}
use family_tree_identity_mic.Migrations.Loader.Loaded.{Ascending, IsLoaded, load-IsLoaded}
use family_tree_identity_mic.Migrations.Runner.{
  take, roll_back, roll_back_last, AppliedMigration, Runner, Database, sort_by, insert_by,
  ascending, validate_applied, validate_row, in_locked_transaction, begin, commit, tx_exec,
  executed, next, load_applied, apply_all, apply_pending, insert_row, with_objects,
}
use family_tree_identity_mic.Migrations.Runner
use family_tree_identity_mic.Migrations.Runner.Transaction.{Fails}
use family_tree_identity_mic.Migrations.Runner.Applied.{migrate, pending, up-migrate}
use family_tree_identity_mic.Migrations.Runner.Again.{up-again}

-- A digest of one byte.
abbrev digest : Bytes → Bytes
digest bytes = 17 ∷ []

abbrev entries : List Entry
entries =
    record { name = codes "1_a.down.sql"; is_dir = false; body = ok (b'd' ∷ []) }
    ∷ record { name = codes "1_a.up.sql"; is_dir = false; body = ok (b'u' ∷ []) }
    ∷ record { name = codes "README.md"; is_dir = false; body = ok [] }
    ∷ []

abbrev first : Migration
first = record {
  version = 1;
  name = codes "a";
  up_sql = b'u' ∷ [];
  down_sql = b'd' ∷ [];
  checksum = codes "11";
}

loaded : load digest (ok entries) ≡ ok (first ∷ [])
unfolding load add_entries add_entry add_matched add_file put match_filename span_name
    sort_by_version insert_by_version complete migration_of sorted_result is_digit scan_digits
    scan_literal hex hex_digit same is_empty is_sql
loaded = refl

load-IsLoaded_example : Ascending (first ∷ []) × All (IsLoaded digest entries) (first ∷ [])
load-IsLoaded_example = load-IsLoaded digest entries (first ∷ []) loaded

-- A text is executed by adding it to what was executed before.
abbrev logged : Bytes → List Bytes → Result (List Bytes)
logged text texts = ok (text ∷ texts)

abbrev empty : Database (List Bytes)
empty = record { objects = []; rows = [] }

abbrev migrated : Database (List Bytes)
migrated = record {
  objects = (b'u' ∷ []) ∷ [];
  rows = record { version = 1; name = codes "a"; checksum = codes "11" } ∷ [];
}

abbrev runner : Runner
runner = record { migrations = first ∷ [] }

-- The answer to the commit is lost.
abbrev unsteady : Network
unsteady n = if n == 6 then lost else answered

up-migrate_example :
    let (r, db') = Runner.up unsteady logged runner empty in
    (Fails r × (db' ≡ empty))
    ⊎ ((validate_applied (first ∷ []) (sort_by ascending []) ≡ ok tt)
        × (migrate logged (pending logged [] (first ∷ [])) empty ≡ ok db')
        × ((r ≡ ok (pending logged [] (first ∷ []))) ⊎ Fails r))
up-migrate_example = up-migrate logged unsteady runner empty

up_done : Runner.up steady logged runner empty ≡ (ok (first ∷ []), migrated)
unfolding Runner.up in_locked_transaction begin commit tx_exec executed next load_applied sort_by
    apply_all validate_applied apply_pending any insert_row with_objects
up_done = refl

up-again_example :
    (pending logged migrated.rows (first ∷ []) ≡ [])
    × ((Runner.up unsteady logged runner migrated).1 ≡ migrated)
up-again_example = up-again logged steady unsteady runner empty migrated (first ∷ []) up_done

-- A text is undone by dropping the last one that was executed.
abbrev dropped : Bytes → List Bytes → Result (List Bytes)
dropped text [] = err (foreign "nothing was executed")
dropped text (t ∷ texts) = ok texts

-- With every call answered the migration is undone.
down_done : Runner.down steady dropped runner (pos 3) migrated ≡ (ok (first ∷ []), empty)
unfolding Runner.down in_locked_transaction begin commit tx_exec executed next load_applied sort_by
    insert_by roll_back_last validate_applied validate_row roll_back take find select with_objects
    same
down_done = refl
