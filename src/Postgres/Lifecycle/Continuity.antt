-- ===== src/Postgres/Lifecycle/Continuity.antt =====
-- What every history of calls keeps of a session, and of the table of sessions.
use mathlib.Core.Option
use family_tree_identity_mic.Shared.{
  ℕ, ◌≡◌, refl, ap, inl, inr, Bool, Bool-cases, true, false, Option, some, List, [], ◌∷◌, arith,
  ◌==◌, is_some, any, any-find, any-holds, find, find-update, update,
}
use family_tree_identity_mic.Domain.Email.{TextLibrary}
use family_tree_identity_mic.Domain.User.{Uuid}
use family_tree_identity_mic.Postgres.Tables.{Db, SessionRow}
use family_tree_identity_mic.Postgres.Connection.{Network}
use family_tree_identity_mic.Postgres.Sql.{SqlLibrary}
use family_tree_identity_mic.Postgres.Updates.{rotated}
use family_tree_identity_mic.Postgres.Calls.{Call, perform, replay}
use family_tree_identity_mic.Postgres.Lifecycle.{
  SessionStep, kept, opened, closed, renewed, closed_at,
}
use family_tree_identity_mic.Postgres.Lifecycle.Steps.{perform-SessionStep}

abbrev pub find_session : Uuid → List SessionRow → Option SessionRow
find_session id = find (λ s. s.id == id)

-- The same session later: its owner, its start and its absolute expiry are as they were, and it is
-- revoked if it was.
pub record Continues (s t : SessionRow) : Type 0 where
  pub owner : t.user_id ≡ s.user_id
  pub start : t.created_at ≡ s.created_at
  pub expiry : t.expires_at ≡ s.expires_at
  pub closed : is_some s.revoked_at ≡ true → is_some t.revoked_at ≡ true

-- A session that was there is there still.
abbrev pub StillThere : Uuid → SessionRow → List SessionRow → Type 0
StillThere id s after = (t : SessionRow) × (find_session id after ≡ some t) × Continues s t

Continues-trans : {s t u : SessionRow} → Continues s t → Continues t u → Continues s u
Continues-trans a b = ground arith

updated-StillThere :
    (id : Uuid) (s : SessionRow) (before : List SessionRow) (which : SessionRow → Bool)
    (change : SessionRow → SessionRow)
    → ((x : SessionRow) → (change x).id ≡ x.id)
    → Continues s (change s)
    → find_session id before ≡ some s
    → StillThere id s (update which change before)
updated-StillThere id s before which change same_id continues e =
    let found =
      find-update (λ x. x.id == id) which change before
        (λ x _. ap (λ (n : ℕ). n == id) (same_id x)) in
    elim (Bool-cases (which s)) [
      | inl hit ↦ (change s, rw (found, e, Option.map, hit) refl, continues)
      | inr miss ↦ (s, rw (found, e, Option.map, miss) refl, ground arith)
    ]

-- A new row under another identifier hides no session.
find_session-opened :
    (id : Uuid) (s row : SessionRow) (before : List SessionRow)
    → any (λ x. x.id == row.id) before ≡ false
    → find_session id before ≡ some s
    → find_session id (row ∷ before) ≡ some s
unfolding find
find_session-opened id s row before new_id h = elim (Bool-cases (row.id == id)) [
  | inl hit ↦
      let taken =
        any-holds (λ (x : SessionRow). x.id == id) (λ x. x.id == row.id) before
          (λ x e. ground arith) (any-find (λ x. x.id == id) before h) in
      cc
  | inr miss ↦ rw miss h
]

SessionStep-StillThere :
    (id : Uuid) (s : SessionRow) {before after : List SessionRow}
    → SessionStep before after
    → find_session id before ≡ some s
    → StillThere id s after
SessionStep-StillThere id s (kept e) h = (s, rw e h, ground arith)
SessionStep-StillThere id s {before} (opened row live order new_id new_hash e) h =
    (s, rw e (find_session-opened id s row before new_id h), ground arith)
SessionStep-StillThere id s {before} (closed which time e) h =
    rw e (updated-StillThere id s before which (closed_at time) (λ x. refl) (ground arith) h)
SessionStep-StillThere id s {before} (renewed i n ua a now fresh e) h = rw e (
    updated-StillThere id s before (λ x. x.id == i) (rotated n ua a now) (λ x. refl) (ground arith)
      h)

module _ (lib : TextLibrary) (sql : SqlLibrary) where
  -- A session that is in the tables stays there through every history of calls, on any network,
  -- with its owner, its start and its absolute expiry; and once it is revoked it stays revoked.
  pub replay-StillThere :
      (calls : List (Network × Call)) (id : Uuid) (s : SessionRow) (db : Db)
      → find_session id db.sessions ≡ some s
      → StillThere id s (replay lib sql calls db).sessions
  unfolding replay
  replay-StillThere [] id s db h = (s, h, ground arith)
  replay-StillThere ((net, call) ∷ calls) id s db h =
      let (t, found, first) =
        SessionStep-StillThere id s (perform-SessionStep lib sql db net call) h in
      let (u, found', rest) = replay-StillThere calls id t (perform lib sql net call db).1 found in
      (u, found', Continues-trans first rest)
