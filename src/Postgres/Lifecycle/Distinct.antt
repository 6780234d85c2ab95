-- ===== src/Postgres/Lifecycle/Distinct.antt =====
-- No two sessions share an identifier or a token, and each ends after it starts.
use family_tree_identity_mic.Shared.{
  ◌<◌, ◌≡◌, refl, inl, inr, Bool, Bool-cases, true, false, not, ◌&&◌, Option, List, [], ◌∷◌, arith,
  ◌==◌, any, update, All, All-any, All-update, Unique, Unique-update, same, same_comm, Text,
}
use family_tree_identity_mic.Domain.Email.{TextLibrary}
use family_tree_identity_mic.Domain.User.{Uuid, Time}
use family_tree_identity_mic.Postgres.Tables.{Db, SessionRow}
use family_tree_identity_mic.Postgres.Connection.{Network}
use family_tree_identity_mic.Postgres.Sql.{SqlLibrary}
use family_tree_identity_mic.Postgres.Updates.{rotated}
use family_tree_identity_mic.Postgres.Calls.{Call, perform, replay}
use family_tree_identity_mic.Postgres.Lifecycle.{
  SessionStep, kept, opened, closed, renewed, closed_at,
}
use family_tree_identity_mic.Postgres.Lifecycle.Steps.{perform-SessionStep}

abbrev pub same_id : SessionRow → SessionRow → Bool
same_id a b = b.id == a.id

abbrev pub same_token : SessionRow → SessionRow → Bool
same_token a b = same a.refresh_token_hash b.refresh_token_hash

pub record AreDistinct (sessions : List SessionRow) : Type 0 where
  pub ids : Unique same_id sessions
  pub hashes : Unique same_token sessions
  pub ordered : All (λ s. s.created_at < s.expires_at) sessions

-- The token that a session is given is no other session's.
module _ (id : Uuid) (hash agent : Text) (address : Option Text) (now : Time) where
  abbrev chosen : SessionRow → Bool
  chosen s = s.id == id

  abbrev changed : SessionRow → SessionRow
  changed = rotated hash agent address now

  abbrev taken : SessionRow → Bool
  taken s = not (s.id == id) && same s.refresh_token_hash hash

  -- Behind the session itself no row is changed, and none has the token.
  others-same :
      (x : SessionRow) (xs : List SessionRow)
      → chosen x ≡ true
      → All (λ y. same_id x y ≡ false) xs
      → any taken xs ≡ false
      → All (λ y. same hash y.refresh_token_hash ≡ false) (update chosen changed xs)
  unfolding any update
  others-same x [] e apart free = tt
  others-same x (y ∷ ys) e apart free =
      ground (arith, others-same x ys e apart.1, same_comm hash y.refresh_token_hash)

  -- Behind another session the rows keep their tokens, or have the new one.
  rotated-same_token :
      (x : SessionRow) (xs : List SessionRow)
      → same x.refresh_token_hash hash ≡ false
      → All (λ y. same_token x y ≡ false) xs
      → All (λ y. same_token x y ≡ false) (update chosen changed xs)
  rotated-same_token x xs free apart =
      All-update (λ y. same_token x y ≡ false) chosen changed xs (λ y e hit. free) apart

  rotated-Unique :
      (xs : List SessionRow)
      → Unique same_id xs
      → Unique same_token xs
      → any taken xs ≡ false
      → Unique same_token (update chosen changed xs)
  unfolding any update
  rotated-Unique [] ids hashes free = tt
  rotated-Unique (x ∷ xs) ids hashes free =
      let rest = rotated-Unique xs ids.1 hashes.1 in
      elim (Bool-cases (chosen x)) [
        | inl hit ↦ rw hit (others-same x xs hit ids.0 (ground arith), rest (ground arith))
        | inr miss ↦ rw miss (rotated-same_token x xs (ground arith) hashes.0, rest (ground arith))
      ]

SessionStep-AreDistinct :
    {before after : List SessionRow}
    → SessionStep before after
    → AreDistinct before
    → AreDistinct after
SessionStep-AreDistinct (kept e) v = rw e v
SessionStep-AreDistinct {before} (opened row live order id hash e) v = rw e (record {
  ids = (All-any (λ s. s.id == row.id) before id, v.ids);
  hashes = (All-any (λ s. same row.refresh_token_hash s.refresh_token_hash) before hash, v.hashes);
  ordered = (order, v.ordered);
})
SessionStep-AreDistinct {before} (closed which time e) v = rw e (record {
  ids = Unique-update same_id which (closed_at time) before (λ x y. refl) (λ x y. refl) v.ids;
  hashes =
      Unique-update same_token which (closed_at time) before (λ x y. refl) (λ x y. refl) v.hashes;
  ordered =
      All-update (λ s. s.created_at < s.expires_at) which (closed_at time) before (λ x h _. h)
        v.ordered;
})
SessionStep-AreDistinct {before} (renewed i n ua a now fresh e) v =
    let which = λ (s : SessionRow). s.id == i in
    let change = rotated n ua a now in
    rw e (record {
      ids = Unique-update same_id which change before (λ x y. refl) (λ x y. refl) v.ids;
      hashes = rotated-Unique i n ua a now before v.ids v.hashes fresh;
      ordered =
          All-update (λ s. s.created_at < s.expires_at) which change before (λ x h _. h) v.ordered;
    })

module _ (lib : TextLibrary) (sql : SqlLibrary) where
  -- No history of calls, on any network, brings two sessions to one identifier or one refresh
  -- token, or a session to an end that is not after its start.
  pub replay-AreDistinct :
      (calls : List (Network × Call)) (db : Db)
      → AreDistinct db.sessions
      → AreDistinct (replay lib sql calls db).sessions
  unfolding replay
  replay-AreDistinct [] db v = v
  replay-AreDistinct ((net, call) ∷ calls) db v =
      replay-AreDistinct calls (perform lib sql net call db).1
        (SessionStep-AreDistinct (perform-SessionStep lib sql db net call) v)
