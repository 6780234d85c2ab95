-- ===== src/Postgres/Lifecycle.antt =====
-- What the repository's calls do to the table of sessions: the steps of a session's life.
pub mod Steps
pub mod Continuity
pub mod Distinct
use family_tree_identity_mic.Shared.{
  ℕ, ◌<◌, ◌≡◌, Bool, true, false, not, ◌&&◌, Option, some, none, List, ◌∷◌, ◌==◌, any, update, Text,
  same,
}
use family_tree_identity_mic.Domain.User.{Uuid, Time}
use family_tree_identity_mic.Postgres.Tables.{SessionRow}
use family_tree_identity_mic.Postgres.Updates.{rotated}

abbrev pub closed_at : (SessionRow → Time) → SessionRow → SessionRow
closed_at time s = record s { revoked_at = some (time s) }

-- One call leaves the sessions alone, opens a session, revokes some, or gives one a new token.
pub data SessionStep (before after : List SessionRow) : Type 0 where
  kept : after ≡ before → SessionStep before after
  opened :
      (row : SessionRow)
      → row.revoked_at ≡ none
      → row.created_at < row.expires_at
      → any (λ s. s.id == row.id) before ≡ false
      → any (λ s. same row.refresh_token_hash s.refresh_token_hash) before ≡ false
      → after ≡ row ∷ before
      → SessionStep before after
  closed :
      (which : SessionRow → Bool) (time : SessionRow → Time)
      → after ≡ update which (closed_at time) before
      → SessionStep before after
  renewed :
      (id : Uuid) (new_hash user_agent : Text) (address : Option Text) (now : Time)
      → any (λ s. not (s.id == id) && same s.refresh_token_hash new_hash) before ≡ false
      → after ≡ update (λ s. s.id == id) (rotated new_hash user_agent address now) before
      → SessionStep before after
