-- ===== src/Postgres/Tables.antt =====
-- The tables of migrations/000001_create_identity_schema.up.sql and
-- migrations/000002_add_refresh_token_history.up.sql. A nullable column is an `Option`.
use family_tree_identity_mic.Shared.{ℕ, Option, List, [], Text, Bool, true, false}
use family_tree_identity_mic.Domain.User.{Uuid, Time, UserStatus}

pub record UserRow : Type 0 where
  pub id : Uuid
  pub email : Text
  pub normalized_email : Text
  pub display_name : Text
  pub status : UserStatus
  pub email_verified_at : Option Time
  pub created_at : Time
  pub updated_at : Time
  pub deleted_at : Option Time
  pub version : ℕ

pub record CredentialRow : Type 0 where
  pub user_id : Uuid
  pub password_hash : Text
  pub password_changed_at : Time
  pub failed_login_count : ℕ
  pub locked_until : Option Time
  pub created_at : Time
  pub updated_at : Time

pub record SessionRow : Type 0 where
  pub id : Uuid
  pub user_id : Uuid
  pub refresh_token_hash : Text
  pub user_agent : Text
  pub ip_address : Option Text
  pub expires_at : Time
  pub last_used_at : Time
  pub revoked_at : Option Time
  pub created_at : Time

-- The texts that `one_time_tokens_purpose_check` admits.
pub data Purpose : Type 0 where
  verify_email reset_password : Purpose

abbrev pub is_verification : Purpose → Bool
is_verification Purpose.verify_email = true
is_verification Purpose.reset_password = false

abbrev pub is_reset : Purpose → Bool
is_reset Purpose.verify_email = false
is_reset Purpose.reset_password = true

-- `one_time_tokens`.
pub record TokenRow : Type 0 where
  pub id : Uuid
  pub user_id : Uuid
  pub purpose : Purpose
  pub token_hash : Text
  pub expires_at : Time
  pub used_at : Option Time
  pub created_at : Time

-- `used_refresh_tokens`.
pub record UsedTokenRow : Type 0 where
  pub token_hash : Text
  pub session_id : Uuid
  pub used_at : Time
  pub expires_at : Time

pub record Db : Type 0 where
  pub users : List UserRow
  pub credentials : List CredentialRow
  pub sessions : List SessionRow
  pub tokens : List TokenRow
  pub used_tokens : List UsedTokenRow

abbrev pub empty : Db
empty = record { users = []; credentials = []; sessions = []; tokens = []; used_tokens = [] }
