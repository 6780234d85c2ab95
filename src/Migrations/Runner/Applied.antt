-- ===== src/Migrations/Runner/Applied.antt =====
-- What `Up` does to the database, against a plain description of a migration run.
use family_tree_identity_mic.Shared.{
  suc, ◌≡◌, ◌⊎◌, refl, inl, inr, ◌∙◌, ap, sym, subst, arith, Bool, Bool-cases, List, [], ◌∷◌, not,
  ◌||◌, false, any, select, String,
}
use family_tree_identity_mic.Domain.Errors.{Result, Result-cases, ok, err}
use family_tree_identity_mic.Postgres.Connection.{Network}
use family_tree_identity_mic.Security.Base64.{Bytes}
use family_tree_identity_mic.Migrations.Loader.{Migration}
use family_tree_identity_mic.Migrations.Runner.{
  AppliedMigration, Runner, Database, Session, Action, ◌>>=◌, pure, lift, row_of, has_version,
  insert_by, sort_by, ascending, validate_applied, tx_exec, load_applied, with_objects, exec_text,
  insert_row, apply_pending, apply_all, up,
}
use family_tree_identity_mic.Migrations.Runner.Transaction.{
  Fails, Keeps, outcome-cases, bind-ok, bind-err, tx_exec-cases, bind-Keeps, tx_exec-Keeps,
  Reply-cases, started, in_locked_transaction-Ends,
}

module _ {S A B : Type 0} (m : Action S A) (f : A → Action S B) where
  pub bind-inverted :
      (s : Session S) {b : B} {s'' : Session S}
      → (m >>= f) s ≡ (ok b, s'')
      → (a : A) × (s' : Session S) × (m s ≡ (ok a, s')) × (f a s' ≡ (ok b, s''))
  bind-inverted s {b} {s''} h = elim (outcome-cases (m s)) [
    | inl (e, s', h') ↦
        let broken : (◌≡◌ {A = Result B} (err e) (ok b)) =
          ap (λ out. out.0) (sym (bind-err m f s h') ∙ h) in
        ground arith
    | inr (a, s', h') ↦ (a, s', h', sym (bind-ok m f s h') ∙ h)
  ]

pub tx_exec-inverted :
    {S : Type 0} (net : Network) (text : String) (f : Database S → Result (Database S))
    (s s' : Session S)
    → tx_exec net text f s ≡ (ok tt, s')
    → (db : Database S) × (f s.working ≡ ok db)
      × (s' ≡ record s { working = db; trip = suc s.trip })
tx_exec-inverted net text f s s' h = elim (tx_exec-cases net text f s) [
  | inl (e, h') ↦ ground arith
  | inr (db, e, h') ↦ (db, e, ground arith)
]

any-insert_by :
    (p : AppliedMigration → Bool) (before : AppliedMigration → AppliedMigration → Bool)
    (row : AppliedMigration) (rows : List AppliedMigration)
    → any p (insert_by before row rows) ≡ (p row || any p rows)
unfolding any insert_by
any-insert_by p before row [] = refl
any-insert_by p before row (r ∷ rows) = elim (Bool-cases (before row r)) [
  | inl e ↦ rw e refl
  | inr e ↦ rw e (ground (arith, any-insert_by p before row rows))
]

any-sort_by :
    (p : AppliedMigration → Bool) (before : AppliedMigration → AppliedMigration → Bool)
    (rows : List AppliedMigration)
    → any p (sort_by before rows) ≡ any p rows
unfolding any sort_by
any-sort_by p before [] = refl
any-sort_by p before (row ∷ rows) =
    any-insert_by p before row (sort_by before rows)
    ∙ ap (λ b. p row || b) (any-sort_by p before rows)

module _ {S : Type 0} (execute : Bytes → S → Result S) where
  -- The texts are executed in order, and each version is recorded.
  unfoldable pub migrate : List Migration → Database S → Result (Database S)
  migrate [] db = ok db
  migrate (m ∷ ms) db = elim (execute m.up_sql db.objects) [
    | err e ↦ err e
    | ok objects ↦ migrate ms (record { objects = objects; rows = row_of m ∷ db.rows })
  ]

  -- The migrations whose version is not recorded.
  abbrev pub pending : List AppliedMigration → List Migration → List Migration
  pending rows ms = select (λ m. not (any (has_version m.version) rows)) ms

  pending-sort_by :
      (rows : List AppliedMigration) (ms : List Migration)
      → pending (sort_by ascending rows) ms ≡ pending rows ms
  unfolding select
  pending-sort_by rows [] = refl
  pending-sort_by rows (m ∷ ms) =
      ground (arith, any-sort_by (has_version m.version) ascending rows, pending-sort_by rows ms)

  pub exec_text-inverted :
      (text : Bytes) (db db' : Database S)
      → exec_text execute text db ≡ ok db'
      → (objects : S) × (execute text db.objects ≡ ok objects)
        × (db' ≡ record db { objects = objects })
  unfolding with_objects
  exec_text-inverted text db db' h = elim (Result-cases (execute text db.objects)) [
    | inl (e, h') ↦ ground arith
    | inr (objects, h') ↦ (objects, h', ground arith)
  ]

  abbrev recorded_in : Migration → Database S → Database S
  recorded_in m db = record db { rows = row_of m ∷ db.rows }

  insert_row-inverted :
      (m : Migration) (db db' : Database S)
      → insert_row m db ≡ ok db'
      → (any (has_version m.version) db.rows ≡ false)
        × (db' ≡ record db { rows = row_of m ∷ db.rows })
  unfolding insert_row
  insert_row-inverted m db db' h = ground arith

  module _ (net : Network) where
    apply_pending-Keeps :
        (applied : List AppliedMigration) (ms : List Migration)
        → Keeps net (apply_pending net execute applied ms)
    unfolding apply_pending
    apply_pending-Keeps applied [] s = refl
    apply_pending-Keeps applied (m ∷ ms) s =
        elim (Bool-cases (any (has_version m.version) applied)) [
          | inl e ↦ rw e (apply_pending-Keeps applied ms s)
          | inr e ↦ rw e (
              bind-Keeps net (tx_exec net "apply migration" (exec_text execute m.up_sql)) _
                (tx_exec-Keeps net _ _)
                (λ _.
                  bind-Keeps net (tx_exec net "record migration" (insert_row m)) _
                    (tx_exec-Keeps net _ _)
                    (λ _.
                      bind-Keeps net (apply_pending net execute applied ms) _
                        (apply_pending-Keeps applied ms) (λ now s'. refl)))
                s)
        ]

    -- One migration: its text is executed, and its row inserted.
    apply_one :
        (m : Migration) (s s1 s2 : Session S)
        → tx_exec net "apply migration" (exec_text execute m.up_sql) s ≡ (ok tt, s1)
        → tx_exec net "record migration" (insert_row m) s1 ≡ (ok tt, s2)
        → (objects : S) × (execute m.up_sql s.working.objects ≡ ok objects)
          × (s2.working ≡ record { objects = objects; rows = row_of m ∷ s.working.rows })
    apply_one m s s1 s2 h h' =
        let (db, e, at_1) = tx_exec-inverted net "apply migration" _ s s1 h in
        let (db', e', at_2) = tx_exec-inverted net "record migration" _ s1 s2 h' in
        let (objects, made, whole) = exec_text-inverted m.up_sql s.working db e in
        let (_, recorded) = insert_row-inverted m s1.working db' e' in
        (
          objects,
          made,
          ap (λ s. s.working) at_2
              ∙ recorded
              ∙ ap (λ s. recorded_in m s.working) at_1
              ∙ ap (recorded_in m) whole,
        )

    migrate_step :
        (m : Migration) (ms now' now : List Migration) (s s2 s3 s' : Session S) (objects : S)
        → execute m.up_sql s.working.objects ≡ ok objects
        → s2.working ≡ record { objects = objects; rows = row_of m ∷ s.working.rows }
        → (now' ≡ ms) × (migrate ms s2.working ≡ ok s3.working)
        → pure (m ∷ now') s3 ≡ (ok now, s')
        → (now ≡ m ∷ ms) × (migrate (m ∷ ms) s.working ≡ ok s'.working)
    unfolding migrate
    migrate_step m ms now' now s s2 s3 s' objects made moved (all, rest) h =
        rw (made, migrate)
          (
            ground (arith, ap (λ out. out.0) h),
            ap (migrate ms) (sym moved) ∙ rest ∙ ap (λ out. ok out.1.working) h,
          )

    apply_pending-migrate :
        (applied : List AppliedMigration) (ms : List Migration) (s s' : Session S)
        (now : List Migration)
        → apply_pending net execute applied ms s ≡ (ok now, s')
        → (now ≡ pending applied ms) × (migrate (pending applied ms) s.working ≡ ok s'.working)
    unfolding apply_pending migrate select
    apply_pending-migrate applied [] s s' now h = (ground arith, ground arith)
    apply_pending-migrate applied (m ∷ ms) s s' now h =
        elim (Bool-cases (any (has_version m.version) applied)) [
          | inl e ↦ rw e (apply_pending-migrate applied ms s s' now (rw (e, apply_pending) at h))
          | inr e ↦
              let (_, s1, h1, k1) =
                bind-inverted (tx_exec net "apply migration" (exec_text execute m.up_sql)) _ s
                  (rw (e, apply_pending) at h) in
              let (_, s2, h2, k2) =
                bind-inverted (tx_exec net "record migration" (insert_row m)) _ s1 k1 in
              let (now', s3, h3, k3) =
                bind-inverted (apply_pending net execute applied ms) _ s2 k2 in
              let (objects, made, moved) = apply_one m s s1 s2 h1 h2 in
              rw e (
                migrate_step m (pending applied ms) now' now s s2 s3 s' objects made moved
                  (apply_pending-migrate applied ms s2 s3 now' h3) k3)
        ]

    pub load_applied-inverted :
        (s s' : Session S) (applied : List AppliedMigration)
        → load_applied net s ≡ (ok applied, s')
        → (applied ≡ sort_by ascending s.working.rows) × (s'.working ≡ s.working)
    unfolding load_applied
    load_applied-inverted s s' applied h = elim (Reply-cases (net s.trip)) [
      | inl e ↦ (ground arith, ground arith)
      | inr other ↦ elim other [
        | inl e ↦ (ground arith, ground arith)
        | inr e ↦ (ground arith, ground arith)
      ]
    ]

    pub load_applied-Keeps : Keeps {S = S} net (load_applied net)
    unfolding load_applied
    load_applied-Keeps s = elim (Reply-cases (net s.trip)) [
      | inl e ↦ rw (e, load_applied) refl
      | inr other ↦ elim other [
        | inl e ↦ rw (e, load_applied) refl
        | inr e ↦ rw (e, load_applied) refl
      ]
    ]

    apply_all-Keeps : (runner : Runner) → Keeps net (apply_all net execute runner)
    unfolding apply_all
    apply_all-Keeps runner = bind-Keeps net (load_applied net) _ load_applied-Keeps (λ applied.
        bind-Keeps net (lift (validate_applied runner.migrations applied)) _ (λ s. refl)
          (λ _. apply_pending-Keeps applied runner.migrations))

    abbrev Migrates :
        Runner → Database S → List Migration → Database S → List AppliedMigration → Type 0
    Migrates runner db now db' applied =
        (validate_applied runner.migrations applied ≡ ok tt)
        × (now ≡ pending applied runner.migrations)
        × (migrate (pending applied runner.migrations) db ≡ ok db')

    apply_all_step :
        (runner : Runner) (applied : List AppliedMigration) (s s1 s2 s' : Session S)
        (now : List Migration)
        → (applied ≡ sort_by ascending s.working.rows) × (s1.working ≡ s.working)
        → lift (validate_applied runner.migrations applied) s1 ≡ (ok tt, s2)
        → (now ≡ pending applied runner.migrations)
          × (migrate (pending applied runner.migrations) s2.working ≡ ok s'.working)
        → Migrates runner s.working now s'.working (sort_by ascending s.working.rows)
    apply_all_step runner applied s s1 s2 s' now (sorted, at_1) checked (all, moved) =
        subst (Migrates runner s.working now s'.working) sorted (
          ap (λ out. out.0) checked,
          all,
          ap (migrate (pending applied runner.migrations))
                (sym at_1 ∙ ap (λ out. out.1.working) checked)
              ∙ moved,
        )

    apply_all-migrate :
        (runner : Runner) (s s' : Session S) (now : List Migration)
        → apply_all net execute runner s ≡ (ok now, s')
        → Migrates runner s.working now s'.working (sort_by ascending s.working.rows)
    unfolding apply_all
    apply_all-migrate runner s s' now h =
        let (applied, s1, h1, k1) = bind-inverted (load_applied net) _ s h in
        let (_, s2, h2, k2) =
          bind-inverted (lift (validate_applied runner.migrations applied)) _ s1 k1 in
        apply_all_step runner applied s s1 s2 s' now (load_applied-inverted s s1 applied h1) h2
          (apply_pending-migrate applied runner.migrations s2 s' now k2)

    -- Whatever replies the calls get, `Up` leaves the database as it was and fails, or has executed the
    -- texts of all migrations that were not recorded, in the order of the files, and has recorded
    -- them; before that every row was found among the files. It reports those migrations, or an error
    -- when the answer to the commit was lost.
    pub up-migrate :
        (runner : Runner) (db : Database S)
        → let (r, db') = up net execute runner db in
          let rows = sort_by ascending db.rows in
          (Fails r × (db' ≡ db))
          ⊎ ((validate_applied runner.migrations rows ≡ ok tt)
              × (migrate (pending db.rows runner.migrations) db ≡ ok db')
              × ((r ≡ ok (pending db.rows runner.migrations)) ⊎ Fails r))
    unfolding up
    up-migrate runner db =
        elim (in_locked_transaction-Ends net (apply_all net execute runner) db
          (apply_all-Keeps runner)) [
            | inl failed ↦ inl failed
            | inr (now, s, h, kept, told) ↦
                let (checked, all, moved) = apply_all-migrate runner (started net db) s now h in
                let same = pending-sort_by db.rows runner.migrations in
                inr (
                  checked,
                  ap (λ ms. migrate ms db) (sym same) ∙ moved ∙ ap ok (sym kept),
                  subst
                      (λ ms.
                        ((up net execute runner db).0 ≡ ok ms)
                        ⊎ Fails ((up net execute runner db).0))
                      (all ∙ same) told,
                )
          ]
