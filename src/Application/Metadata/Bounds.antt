-- ===== src/Application/Metadata/Bounds.antt =====
-- What accepted session metadata looks like.
use family_tree_identity_mic.Shared.{
  ◌≤◌, ◌≡◌, ◌⊎◌, inl, inr, Bool-cases, Option-cases, Option, some, true, arith, Text, is_empty,
  byte_length, trim_space,
}
use family_tree_identity_mic.Domain.Errors.{ok}
use family_tree_identity_mic.Application.Service.{Address, max_user_agent_bytes}
use family_tree_identity_mic.Application.Metadata.{
  SessionMetadata, with_address, normalize_session_metadata,
}

-- Metadata that is accepted has the trimmed user agent, of at most 512 bytes; and its address is
-- empty, when the trimmed one was, or the canonical text of an address without a zone that the trimmed
-- one parses as.
pub normalize_session_metadata_bounds :
    (parse_addr : Text → Option Address) (raw metadata : SessionMetadata)
    → normalize_session_metadata parse_addr raw ≡ ok metadata
    → (metadata.user_agent ≡ trim_space raw.user_agent)
      × (byte_length metadata.user_agent ≤ max_user_agent_bytes)
      × (((is_empty (trim_space raw.ip_address) ≡ true)
            × (metadata.ip_address ≡ trim_space raw.ip_address))
          ⊎ ((address : Address) × (parse_addr (trim_space raw.ip_address) ≡ some address)
              × (is_empty address.zone ≡ true)
              × (metadata.ip_address ≡ address.text)))
unfolding normalize_session_metadata with_address
normalize_session_metadata_bounds parse_addr raw metadata h =
    elim (Bool-cases (is_empty (trim_space raw.ip_address))) [
      | inl e ↦ (ground arith, ground arith, inl (e, ground arith))
      | inr e ↦ elim (Option-cases (parse_addr (trim_space raw.ip_address))) [
        | inl e' ↦ absurd (ground arith)
        | inr (address, e') ↦
            (ground arith, ground arith, inr (address, e', ground arith, ground arith))
      ]
    ]
