-- ===== src/Security.antt =====
-- internal/security: password hashes, opaque tokens and access tokens.
pub mod Base64
pub mod Scan
pub mod Utf8
pub mod Password
pub mod Token
pub mod AccessToken
