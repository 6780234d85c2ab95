-- ===== src/Migrations/Runner/Again.antt =====
-- A second `Up` after one that succeeded.
use family_tree_identity_mic.Shared.{
  ℕ, ◌≡◌, refl, inl, inr, ◌∙◌, ap, sym, arith, List, [], ◌∷◌, ◌||◌, true, any, select, All, All-map,
}
use family_tree_identity_mic.Domain.Errors.{Result, Result-cases, ok, err}
use family_tree_identity_mic.Postgres.Connection.{Network}
use family_tree_identity_mic.Security.Base64.{Bytes}
use family_tree_identity_mic.Migrations.Loader.{Migration}
use family_tree_identity_mic.Migrations.Runner.{
  AppliedMigration, Runner, Database, row_of, has_version, is_version_of, up,
}
use family_tree_identity_mic.Migrations.Runner.Applied.{migrate, pending, up-migrate}

module _ {S : Type 0} (execute : Bytes → S → Result S) where
  -- The versions that are recorded after a run.
  migrate-any :
      (v : ℕ) (ms : List Migration) (db db' : Database S)
      → migrate execute ms db ≡ ok db'
      → any (has_version v) db'.rows ≡ (any (is_version_of v) ms || any (has_version v) db.rows)
  unfolding migrate any
  migrate-any v [] db db' h = let kept : (db' ≡ db) = ground arith in rw kept refl
  migrate-any v (m ∷ ms) db db' h = elim (Result-cases (execute m.up_sql db.objects)) [
    | inl (e, h') ↦ ground arith
    | inr (objects, h') ↦
        let rest =
          migrate-any v ms (record { objects = objects; rows = row_of m ∷ db.rows }) db'
            (ground arith) in
        ground arith
  ]

  abbrev IsRecorded : List AppliedMigration → List Migration → Migration → Type 0
  IsRecorded rows all m =
      (any (is_version_of m.version) (pending execute rows all) || any (has_version m.version) rows)
      ≡ true

  each-IsRecorded :
      (rows : List AppliedMigration) (ms : List Migration) → All (IsRecorded rows ms) ms
  unfolding any select
  each-IsRecorded rows [] = tt
  each-IsRecorded rows (m ∷ ms) = (
    ground arith,
    All-map (IsRecorded rows ms) (IsRecorded rows (m ∷ ms)) ms (λ n recorded. ground arith)
        (each-IsRecorded rows ms),
  )

  pending-recorded :
      (rows : List AppliedMigration) (ms : List Migration)
      → All (λ m. any (has_version m.version) rows ≡ true) ms
      → pending execute rows ms ≡ []
  unfolding select
  pending-recorded rows [] all = refl
  pending-recorded rows (m ∷ ms) all = ground (arith, pending-recorded rows ms all.1)

  migrate-pending :
      (ms : List Migration) (db db' : Database S)
      → migrate execute (pending execute db.rows ms) db ≡ ok db'
      → pending execute db'.rows ms ≡ []
  migrate-pending ms db db' h = pending-recorded db'.rows ms (
      All-map (IsRecorded db.rows ms) (λ m. any (has_version m.version) db'.rows ≡ true) ms
        (λ m recorded. migrate-any m.version (pending execute db.rows ms) db db' h ∙ recorded)
        (each-IsRecorded db.rows ms))

  migrated_nothing : (db db' : Database S) → migrate execute [] db ≡ ok db' → db ≡ db'
  unfolding migrate
  migrated_nothing db db' h = ground arith

  ran :
      (net : Network) (runner : Runner) (db db' : Database S) (now : List Migration)
      → up net execute runner db ≡ (ok now, db')
      → migrate execute (pending execute db.rows runner.migrations) db ≡ ok db'
  ran net runner db db' now h = elim (up-migrate execute net runner db) [
    | inl (failed, _) ↦
        let (e, h') = failed in
        let broken : (◌≡◌ {A = Result (List Migration)} (err e) (ok now)) =
          sym h' ∙ ap (λ out. out.0) h in
        ground arith
    | inr (_, moved, _) ↦ moved ∙ ap (λ out. ok out.1) h
  ]

  -- After an `Up` that succeeded every migration of the files is recorded, and another one, whatever
  -- replies it gets, leaves the database as it is.
  pub up-again :
      (net net' : Network) (runner : Runner) (db db' : Database S) (now : List Migration)
      → up net execute runner db ≡ (ok now, db')
      → (pending execute db'.rows runner.migrations ≡ []) × ((up net' execute runner db').1 ≡ db')
  up-again net net' runner db db' now h =
      let finished = ran net runner db db' now h in
      let empty = migrate-pending runner.migrations db db' finished in
      (
        empty,
        elim (up-migrate execute net' runner db') [
          | inl (_, kept) ↦ kept
          | inr (_, moved, _) ↦
              let same = ap (λ ms. migrate execute ms db') (sym empty) ∙ moved in
              sym (migrated_nothing db' ((up net' execute runner db').1) same)
        ],
      )
