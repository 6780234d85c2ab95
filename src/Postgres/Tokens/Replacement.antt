-- ===== src/Postgres/Tokens/Replacement.antt =====
-- A request for a password reset leaves one open reset token to its user.
use family_tree_identity_mic.Shared.{
  ◌≡◌, refl, Bool, Bool-cases, inl, inr, true, false, not, ◌&&◌, List, [], ◌∷◌, arith, ◌==◌,
  is_none, any, any-find, any-update, ◌∙◌, sym, select, update, find, Option-cases, same, ◌<◌,
}
use family_tree_identity_mic.Domain.Errors.{ok}
use family_tree_identity_mic.Domain.User.{Uuid, Time, is_active}
use family_tree_identity_mic.Ports.{PasswordResetRecord}
use family_tree_identity_mic.Postgres.Tables.{Db, TokenRow, UserRow, is_reset}
use family_tree_identity_mic.Postgres.Connection.{Network, steady}
use family_tree_identity_mic.Postgres.Inserts.{insert_token}
use family_tree_identity_mic.Postgres.Selects.{lock_active_user}
use family_tree_identity_mic.Postgres.Updates.{spent, spend_reset_tokens}
use family_tree_identity_mic.Postgres.Stored.{is_no_rows}
use family_tree_identity_mic.Postgres.Passwords.{
  create_password_reset, replace_reset_token, reset_token,
}
use family_tree_identity_mic.Postgres.Atomicity.{Atomic-ok, create_password_reset-Atomic}

-- A reset token of the user that was not used.
abbrev pub is_open_reset : Uuid → TokenRow → Bool
is_open_reset user_id t = t.user_id == user_id && is_reset t.purpose && is_none t.used_at

module _ (user_id : Uuid) (now : Time) where
  select-spent :
      (tokens : List TokenRow)
      → select (is_open_reset user_id) (update (is_open_reset user_id) (spent now) tokens) ≡ []
  unfolding select update
  select-spent [] = refl
  select-spent (t ∷ ts) = elim (Bool-cases (is_open_reset user_id t)) [
    | inl hit ↦ rw hit (ground (arith, select-spent ts))
    | inr miss ↦ rw (miss, miss) (select-spent ts)
  ]

  -- What is not an open reset token of the user stays as it is.
  select-others :
      (tokens : List TokenRow)
      → select (λ t. not (t.user_id == user_id)) (update (is_open_reset user_id) (spent now) tokens)
        ≡ select (λ t. not (t.user_id == user_id)) tokens
  unfolding select update
  select-others [] = refl
  select-others (t ∷ ts) = ground (arith, select-others ts)

module _ (r : PasswordResetRecord) (db : Db) where
  request_tables :
      (create_password_reset steady r db).0 ≡ ok tt
      → (r.created_at < r.expires_at)
        × (any (λ u. u.id == r.user_id && is_active u.status && is_none u.deleted_at) db.users
            ≡ true)
        × (any (λ t. same r.token_hash t.token_hash) db.tokens ≡ false)
        × ((create_password_reset steady r db).1 ≡ record db {
          tokens = reset_token r ∷ update (is_open_reset r.user_id) (spent r.created_at) db.tokens;
        })
  unfolding create_password_reset replace_reset_token lock_active_user spend_reset_tokens
      insert_token is_no_rows
  request_tables success =
      let is_locked =
        λ (u : UserRow). u.id == r.user_id && is_active u.status && is_none u.deleted_at in
      let clash = λ (t : TokenRow). same r.token_hash t.token_hash in
      let kept =
        any-update clash (is_open_reset r.user_id) (spent r.created_at) db.tokens (λ t e. refl) in
      elim (Option-cases (find is_locked db.users)) [
        | inl e ↦ absurd (ground arith)
        | inr (u, e) ↦
            (ground arith, any-find is_locked db.users e, sym kept ∙ ground arith, ground arith)
      ]

-- A request for a password reset that succeeds, on any network, is of an active user that is not
-- deleted. Its token was no token's hash before, it is not expired, and afterwards it is the only
-- open reset token of the user; the tokens of other users stay as they were.
pub create_password_reset-Replaces :
    (net : Network) (r : PasswordResetRecord) (db : Db)
    → (create_password_reset net r db).0 ≡ ok tt
    → let after = (create_password_reset net r db).1 in
      (any (λ u. u.id == r.user_id && is_active u.status && is_none u.deleted_at) db.users ≡ true)
      × (any (λ t. same r.token_hash t.token_hash) db.tokens ≡ false)
      × (r.created_at < r.expires_at)
      × (select (is_open_reset r.user_id) after.tokens ≡ reset_token r ∷ [])
      × (select (λ t. not (t.user_id == r.user_id)) after.tokens
          ≡ select (λ t. not (t.user_id == r.user_id)) db.tokens)
unfolding select
create_password_reset-Replaces net r db success =
    let same_call =
      Atomic-ok (create_password_reset net r db) (create_password_reset steady r db)
        (create_password_reset-Atomic net db r) success in
    let (early, active, new, tables) = request_tables r db (rw same_call at success) in
    rw (same_call, tables)
      (
        active,
        new,
        early,
        ground (arith, select-spent r.user_id r.created_at db.tokens),
        ground (arith, select-others r.user_id r.created_at db.tokens),
      )
