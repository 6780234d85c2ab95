-- ===== src/Postgres/Reuse/Exchange.antt =====
-- The sessions after a refresh token was exchanged, searched for the old token and for the new one.
use mathlib.Core.Option
use family_tree_identity_mic.Shared.{
  ◌≡◌, refl, ◌∙◌, ap, ◌⊎◌, inl, inr, true, false, not, ◌&&◌, Option, some, none, List, ◌∷◌, arith,
  ◌==◌, ==_iff, any, any-some, any-holds, any-update, find-holds, find_join, find_join-any,
  find_join-none, find_join-update, find_join-holds, Unique-apart, update, All, All-always, All-map,
  All-both, All-any, same, same_refl, same-eq, same_comm, Text, if◌then◌else◌,
}
use family_tree_identity_mic.Domain.User.{Time}
use family_tree_identity_mic.Postgres.Tables.{SessionRow, UserRow, UsedTokenRow}
use family_tree_identity_mic.Postgres.Selects.{is_session_pair, is_used_pair}
use family_tree_identity_mic.Postgres.Updates.{rotated, revoked_once}
use family_tree_identity_mic.Postgres.Sessions.{used_token}
use family_tree_identity_mic.Postgres.Lifecycle.Distinct.{AreDistinct, same_id, same_token}

module _ (old new agent : Text) (address : Option Text) (now : Time) (s : SessionRow) (u : UserRow)
    (sessions : List SessionRow) (users : List UserRow) (distinct : AreDistinct sessions)
    (found : find_join (is_session_pair old) sessions users ≡ some (s, u))
    (other : same new old ≡ false)
    (free : any (λ v. not (v.id == s.id) && same v.refresh_token_hash new) sessions ≡ false) where
  abbrev exchanged : List SessionRow
  exchanged = update (λ v. v.id == s.id) (rotated new agent address now) sessions

  -- The session itself had the old token; no other session has either token.
  abbrev Settled : SessionRow → Type 0
  Settled v =
      (((v.id == s.id) ≡ true) × (v ≡ s))
      ⊎ (((v.id == s.id) ≡ false)
          × (same v.refresh_token_hash old ≡ false)
          × (same v.refresh_token_hash new ≡ false))

  token_was : s.refresh_token_hash ≡ old
  token_was =
      same-eq _ _ (ground (arith, find_join-holds (is_session_pair old) sessions users found))

  settle :
      (v : SessionRow)
      → (v ≡ s) ⊎ (same_id s v ≡ false)
      → ((v ≡ s) ⊎ (same_token s v ≡ false))
        × ((not (v.id == s.id) && same v.refresh_token_hash new) ≡ false)
      → Settled v
  settle v (inl e) other_token = inl (rw e (ground arith), e)
  settle v (inr apart) (inl e, unused) = absurd (ground arith)
  settle v (inr apart) (inr e, unused) =
      inr (apart, ground (arith, token_was, same_comm old v.refresh_token_hash), ground arith)

  All-Settled : All Settled sessions
  All-Settled =
      let ids =
        Unique-apart same_id (is_session_pair old) sessions users (λ x y. ground arith) distinct.ids
          found in
      let tokens =
        Unique-apart same_token (is_session_pair old) sessions users
          (λ x y. same_comm x.refresh_token_hash y.refresh_token_hash) distinct.hashes found in
      All-both (λ v. (v ≡ s) ⊎ (same_id s v ≡ false)) _ Settled sessions settle ids
        (All-both (λ v. (v ≡ s) ⊎ (same_token s v ≡ false))
          (λ v. (not (v.id == s.id) && same v.refresh_token_hash new) ≡ false) _ sessions
          (λ v a b. (a, b)) tokens
          (All-any (λ v. not (v.id == s.id) && same v.refresh_token_hash new) sessions free))

  -- A row after the exchange, read by the test for either token.
  exchanged_old :
      (v : SessionRow)
      → Settled v
      → (y : UserRow)
      → is_session_pair old (if v.id == s.id then rotated new agent address now v else v) y ≡ false
  exchanged_old v (inl (hit, e)) y = rw hit (ground arith)
  exchanged_old v (inr (miss, was, unused)) y = rw miss (ground arith)

  exchanged_new :
      (v : SessionRow)
      → Settled v
      → (y : UserRow)
      → is_session_pair new (if v.id == s.id then rotated new agent address now v else v) y
        ≡ is_session_pair old v y
  exchanged_new v (inl (hit, e)) y =
      rw hit (
        ground (arith, same_refl new, same_refl old, ap SessionRow.refresh_token_hash e, token_was))
  exchanged_new v (inr (miss, was, unused)) y = rw miss (ground arith)

  -- The old token is no session's any more.
  pub old_gone : find_join (is_session_pair old) exchanged users ≡ none
  old_gone =
      find_join-update (λ v y. false) (is_session_pair old) (λ v. v.id == s.id)
        (rotated new agent address now) sessions users
        (All-map Settled _ sessions exchanged_old All-Settled)
      ∙ ap (Option.map _) (
          find_join-none (λ v y. false) sessions users
            (All-map Settled _ sessions (λ v h y. refl) All-Settled))

  -- The new one is that of the same session.
  pub new_there :
      find_join (is_session_pair new) exchanged users ≡ some (rotated new agent address now s, u)
  new_there =
      find_join-update (is_session_pair old) (is_session_pair new) (λ v. v.id == s.id)
        (rotated new agent address now) sessions users
        (All-map Settled _ sessions exchanged_new All-Settled)
      ∙ rw (found, Option.map, (==_iff s.id s.id).1 refl) refl

  -- The old token is found among the used ones, with its session.
  pub used_there :
      (used : List UsedTokenRow)
      → (t : SessionRow) × (find_join (is_used_pair old) (used_token old s now ∷ used) exchanged
          ≡ some (used_token old s now, t))
        × ((t.id == s.id) ≡ true)
  unfolding find_join
  used_there used =
      let here =
        find_join-any (is_session_pair old) (λ v. v.id == s.id) sessions users found
          (ground arith) in
      let there =
        any-update (λ v. v.id == s.id) (λ v. v.id == s.id) (rotated new agent address now) sessions
          (λ v e. refl)
        ∙ here in
      let (t, e) =
        any-some (is_used_pair old (used_token old s now)) exchanged (
          any-holds (λ v. v.id == s.id) _ exchanged (λ v e. ground (arith, same_refl old)) there) in
      (
        t,
        rw (e, find_join) refl,
        ground (arith, find-holds (is_used_pair old (used_token old s now)) exchanged e),
      )

  -- Revoking the session leaves its new token in place.
  pub revoked_there :
      (t : SessionRow) (later : Time)
      → (t.id == s.id) ≡ true
      → find_join
          (is_session_pair new)
          (update (λ v. v.id == t.id) (revoked_once later) exchanged)
          users
        ≡ some (revoked_once later (rotated new agent address now s), u)
  revoked_there t later e =
      let hit : (s.id == t.id) ≡ true = ground arith in
      find_join-update (is_session_pair new) (is_session_pair new) (λ v. v.id == t.id)
        (revoked_once later) exchanged users (All-always _ exchanged (λ v y. ground arith))
      ∙ rw (new_there, Option.map, hit) refl
