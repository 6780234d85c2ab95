-- ===== src/Migrations/Runner/Transaction.antt =====
-- How `inLockedTransaction` ends, whatever the network does.
use family_tree_identity_mic.Shared.{
  suc, ◌≡◌, ◌⊎◌, refl, inl, inr, ◌∙◌, arith, String, ap, sym, subst,
}
use family_tree_identity_mic.Domain.Errors.{
  DriverError, Error, driver, wrap, Result, Result-cases, ok, err,
}
use family_tree_identity_mic.Postgres.Connection.{Reply, answered, refused, lost, Network}
use family_tree_identity_mic.Migrations.Runner.{
  Database, Session, Action, ◌>>=◌, ◌>>◌, next, pure, begin, commit, executed, tx_exec,
  in_locked_transaction,
}

pub Reply-cases : (r : Reply) → (r ≡ answered) ⊎ (r ≡ refused) ⊎ (r ≡ lost)
Reply-cases answered = inl refl
Reply-cases refused = inr (inl refl)
Reply-cases lost = inr (inr refl)

abbrev pub Fails : {A : Type 0} → Result A → Type 0
Fails r = (e : Error) × (r ≡ err e)

module _ {S A : Type 0} where
  pub outcome-cases :
      (out : Result A × Session S)
      → ((e : Error) × (s : Session S) × (out ≡ (err e, s)))
        ⊎ ((a : A) × (s : Session S) × (out ≡ (ok a, s)))
  outcome-cases (ok a, s) = inr (a, s, refl)
  outcome-cases (err e, s) = inl (e, s, refl)

  module _ {B : Type 0} (m : Action S A) (f : A → Action S B) (s : Session S) where
    pub bind-ok : {a : A} {s' : Session S} → m s ≡ (ok a, s') → (m >>= f) s ≡ f a s'
    unfolding next
    bind-ok h = ap (λ out. next out f) h

    pub bind-err : {e : Error} {s' : Session S} → m s ≡ (err e, s') → (m >>= f) s ≡ (err e, s')
    unfolding next
    bind-err h = ap (λ out. next out f) h

module _ {S : Type 0} (net : Network) where
  pub tx_exec-cases :
      (text : String) (f : Database S → Result (Database S)) (s : Session S)
      → ((e : Error) × (tx_exec net text f s ≡ (err e, s)))
        ⊎ ((db : Database S) × (f s.working ≡ ok db)
            × (tx_exec net text f s ≡ (ok tt, record s { working = db; trip = suc s.trip })))
  unfolding tx_exec executed
  tx_exec-cases text f s = elim (Reply-cases (net s.trip)) [
    | inl e ↦ elim (Result-cases (f s.working)) [
      | inl (e', h) ↦ inl (wrap text e', rw (e, tx_exec, h, executed) refl)
      | inr (db, h) ↦ inr (db, h, rw (e, tx_exec, h, executed) refl)
    ]
    | inr other ↦ elim other [
      | inl e ↦ inl (wrap text (driver DriverError.disconnected), rw (e, tx_exec) refl)
      | inr e ↦ inl (wrap text (driver DriverError.disconnected), rw (e, tx_exec) refl)
    ]
  ]

  -- A statement that changes nothing.
  call-cases :
      (text : String) (s : Session S)
      → ((e : Error) × (tx_exec net text ok s ≡ (err e, s)))
        ⊎ (tx_exec net text ok s ≡ (ok tt, record s { trip = suc s.trip }))
  call-cases text s = elim (tx_exec-cases text ok s) [
    | inl failure ↦ inl failure
    | inr (db, same, h) ↦ inr (let kept : (db ≡ s.working) = ground arith in rw kept at h)
  ]

  pub begin-cases :
      (s : Session S)
      → ((e : Error) × (begin net s ≡ (err e, s)))
        ⊎ (begin net s ≡ (ok tt, record s { working = s.stored; trip = suc s.trip }))
  unfolding begin
  begin-cases s = elim (Reply-cases (net s.trip)) [
    | inl e ↦ inr (rw (e, begin) refl)
    | inr other ↦ elim other [
      | inl e ↦
          inl (
            wrap "begin migration transaction" (driver DriverError.disconnected),
            rw (e, begin) refl,
          )
      | inr e ↦
          inl (
            wrap "begin migration transaction" (driver DriverError.disconnected),
            rw (e, begin) refl,
          )
    ]
  ]

  pub commit-cases :
      (s : Session S)
      → ((e : Error) × (commit net s ≡ (err e, s)))
        ⊎ ((e : Error) × (commit net s ≡ (err e, record s { stored = s.working })))
        ⊎ (commit net s ≡ (ok tt, record s { stored = s.working; trip = suc s.trip }))
  unfolding commit
  commit-cases s = elim (Reply-cases (net s.trip)) [
    | inl e ↦ inr (inr (rw (e, commit) refl))
    | inr other ↦ elim other [
      | inl e ↦ inl (
        wrap "commit migration transaction" (driver DriverError.disconnected),
        rw (e, commit) refl,
      )
      | inr e ↦ inr (
          inl (
            wrap "commit migration transaction" (driver DriverError.disconnected),
            rw (e, commit) refl,
          ))
    ]
  ]

  -- A chain of calls leaves the committed database alone.
  abbrev pub Keeps : {A : Type 0} → Action S A → Type 0
  Keeps m = (s : Session S) → (m s).1.stored ≡ s.stored

  pub bind-Keeps :
      {A B : Type 0} (m : Action S A) (f : A → Action S B)
      → Keeps m
      → ((a : A) → Keeps (f a))
      → Keeps (m >>= f)
  bind-Keeps m f first next s = elim (outcome-cases (m s)) [
    | inl (e, s', h) ↦
        ap (λ out. out.1.stored) (bind-err m f s h) ∙ ap (λ out. out.1.stored) (sym h) ∙ first s
    | inr (a, s', h) ↦
        ap (λ out. out.1.stored) (bind-ok m f s h)
        ∙ next a s'
        ∙ ap (λ out. out.1.stored) (sym h)
        ∙ first s
  ]

  pub tx_exec-Keeps :
      (text : String) (f : Database S → Result (Database S)) → Keeps (tx_exec net text f)
  tx_exec-Keeps text f s = elim (tx_exec-cases text f s) [
    | inl (e, h) ↦ ap (λ out. out.1.stored) h
    | inr (db, _, h) ↦ ap (λ out. out.1.stored) h
  ]

  -- The operation's session, after the three calls before it.
  abbrev pub started : Database S → Session S
  started db = record { stored = db; working = db; trip = 3 }

  module _ {A : Type 0} (operation : Action S A) (db : Database S) where
    -- The transaction fails and leaves the database alone, or the operation succeeds and what it left
    -- in the working copy is committed; an error is still told when the answer to the commit is lost.
    abbrev pub Ends : Result A × Session S → Type 0
    Ends out =
        (Fails out.0 × (out.1.stored ≡ db))
        ⊎ ((a : A) × (s : Session S) × (operation (started db) ≡ (ok a, s))
            × (out.1.stored ≡ s.working)
            × ((out.0 ≡ ok a) ⊎ Fails out.0))

    commit-Ends :
        (a : A) (s : Session S)
        → operation (started db) ≡ (ok a, s)
        → s.stored ≡ db
        → Ends ((commit net >> pure a) s)
    unfolding next
    commit-Ends a s h kept = elim (commit-cases s) [
      | inl (e, h') ↦ rw h' (inl ((e, refl), kept))
      | inr other ↦ elim other [
        | inl (e, h') ↦ rw h' (inr (a, s, h, refl, inr (e, refl)))
        | inr h' ↦ rw h' (inr (a, s, h, refl, inl refl))
      ]
    ]

    operation-Ends : Keeps operation → Ends ((operation >>= λ a. commit net >> pure a) (started db))
    operation-Ends keeps = elim (outcome-cases (operation (started db))) [
      | inl (e, s, h) ↦
          subst Ends (sym (bind-err operation _ _ h))
            (inl ((e, refl), ap (λ out. out.1.stored) (sym h) ∙ keeps (started db)))
      | inr (a, s, h) ↦
          subst Ends (sym (bind-ok operation _ _ h))
            (commit-Ends a s h (ap (λ out. out.1.stored) (sym h) ∙ keeps (started db)))
    ]

    -- A call that fails ends the transaction; one that succeeds hands on to the next.
    step-Ends :
        (m : Action S (Unit {0})) (rest : Action S A) (s s' : Session S)
        → s.stored ≡ db
        → ((e : Error) × (m s ≡ (err e, s))) ⊎ (m s ≡ (ok tt, s'))
        → Ends (rest s')
        → Ends ((m >> rest) s)
    step-Ends m rest s s' kept (inl (e, h)) ends =
        subst Ends (sym (bind-err m _ s h)) (inl ((e, refl), kept))
    step-Ends m rest s s' kept (inr h) ends = subst Ends (sym (bind-ok m _ s h)) ends

    pub in_locked_transaction-Ends :
        Keeps operation
        → Ends
            (in_locked_transaction net operation (record { stored = db; working = db; trip = 0 }))
    unfolding in_locked_transaction
    in_locked_transaction-Ends keeps = step-Ends (begin net) _ _ _ refl (begin-cases _) (
        step-Ends (tx_exec net "acquire migration advisory lock" ok) _ _ _ refl (call-cases _ _) (
          step-Ends (tx_exec net "ensure schema_migrations table" ok) _ _ _ refl (call-cases _ _)
            (operation-Ends keeps)))
