-- ===== src/Application/Metadata.antt =====
-- `normalizeSessionMetadata` of service.go, and the records of a session request and its answer.
pub mod Bounds
use family_tree_identity_mic.Shared.{
  not, Option, none, some, Text, ltb, is_empty, byte_length, trim_space, if◌then◌else◌,
}
use family_tree_identity_mic.Domain.Errors.{DomainError, sentinel, Result, ok, err}
use family_tree_identity_mic.Domain.User.{User, Time}
use family_tree_identity_mic.Application.Service.{Address, max_user_agent_bytes}

pub record SessionMetadata : Type 0 where
  pub user_agent : Text
  pub ip_address : Text

pub record LoginCommand : Type 0 where
  pub email : Text
  pub password : Text
  pub metadata : SessionMetadata

pub record RefreshSessionCommand : Type 0 where
  pub refresh_token : Text
  pub metadata : SessionMetadata

pub record SessionResult : Type 0 where
  pub user : User
  pub access_token : Text
  pub refresh_token : Text
  pub access_token_expires_at : Time
  pub refresh_token_expires_at : Time

-- Lines 470 to 476.
unfoldable pub with_address : Text → Option Address → Result SessionMetadata
with_address user_agent none = err (sentinel DomainError.invalid_session_metadata)
with_address user_agent (some address) =
    if not (is_empty address.zone)
    then err (sentinel DomainError.invalid_session_metadata)
    else ok (record { user_agent = user_agent; ip_address = address.text })

unfoldable pub normalize_session_metadata :
    (Text → Option Address) → SessionMetadata → Result SessionMetadata
normalize_session_metadata parse_addr metadata =
    let user_agent = trim_space metadata.user_agent in
    let ip_address = trim_space metadata.ip_address in
    if ltb max_user_agent_bytes (byte_length user_agent)
    then err (sentinel DomainError.invalid_session_metadata)
    else if is_empty ip_address
    then ok (record { user_agent = user_agent; ip_address = ip_address })
    else with_address user_agent (parse_addr ip_address)
