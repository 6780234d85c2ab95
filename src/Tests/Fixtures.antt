-- ===== src/Tests/Fixtures.antt =====
-- A small database and a service on it, on which the theorems and the code are tried.
use family_tree_identity_mic.Shared.{none, some, [], ◌∷◌, Text, ◌==◌, if◌then◌else◌}
use family_tree_identity_mic.Domain.Email.{TextLibrary}
use family_tree_identity_mic.Domain.User.{UserStatus, Uuid}
use family_tree_identity_mic.Postgres.Tables.{
  Db, UserRow, CredentialRow, SessionRow, TokenRow, Purpose,
}
use family_tree_identity_mic.Postgres.Connection.{Network, answered, refused, lost}
use family_tree_identity_mic.Postgres.Sql.{SqlLibrary}

-- Every text is an address and lower case, and every text is an `inet`.
abbrev pub plain : TextLibrary
plain = record { parse_address = λ s. some s; to_lower = λ s. s }

abbrev pub plain_sql : SqlLibrary
plain_sql = record { lower = λ s. s; parse_inet = λ s. some s; inet_text = λ s. s }

abbrev pub alice_address : Text
alice_address = b'a' ∷ b'@' ∷ b'x' ∷ []

abbrev pub bob_address : Text
bob_address = b'b' ∷ b'@' ∷ b'x' ∷ []

abbrev pub carol_address : Text
carol_address = b'c' ∷ b'@' ∷ b'x' ∷ []

-- Active, with a session, a reset token and a password.
abbrev pub alice : UserRow
alice = record {
  id = 1;
  email = alice_address;
  normalized_email = alice_address;
  display_name = b'A' ∷ [];
  status = UserStatus.active;
  email_verified_at = some 5;
  created_at = 1;
  updated_at = 5;
  deleted_at = none;
  version = 2;
}

-- Pending, with a verification token.
abbrev pub bob : UserRow
bob = record {
  id = 2;
  email = bob_address;
  normalized_email = bob_address;
  display_name = b'B' ∷ [];
  status = UserStatus.pending;
  email_verified_at = none;
  created_at = 3;
  updated_at = 3;
  deleted_at = none;
  version = 1;
}

abbrev pub credential : Uuid → Text → CredentialRow
credential id hash = record {
  user_id = id;
  password_hash = hash;
  password_changed_at = 1;
  failed_login_count = 0;
  locked_until = none;
  created_at = 1;
  updated_at = 1;
}

abbrev pub old_token : Text
old_token = b'o' ∷ []

abbrev pub new_token : Text
new_token = b'n' ∷ []

abbrev pub alice_session : SessionRow
alice_session = record {
  id = 10;
  user_id = 1;
  refresh_token_hash = old_token;
  user_agent = [];
  ip_address = none;
  expires_at = 100;
  last_used_at = 6;
  revoked_at = none;
  created_at = 6;
}

abbrev pub bob_token : Text
bob_token = b'v' ∷ []

abbrev pub alice_token : Text
alice_token = b'r' ∷ []

abbrev pub token_of : Uuid → Uuid → Purpose → Text → TokenRow
token_of id user_id purpose hash = record {
  id = id;
  user_id = user_id;
  purpose = purpose;
  token_hash = hash;
  expires_at = 90;
  used_at = none;
  created_at = 4;
}

abbrev pub old_hash : Text
old_hash = b'h' ∷ []

abbrev pub new_hash : Text
new_hash = b'g' ∷ []

abbrev pub db : Db
db = record {
  users = alice ∷ bob ∷ [];
  credentials = credential 1 old_hash ∷ credential 2 old_hash ∷ [];
  sessions = alice_session ∷ [];
  tokens =
      token_of 20 2 Purpose.verify_email bob_token
      ∷ token_of 21 1 Purpose.reset_password alice_token
      ∷ [];
  used_tokens = [];
}

-- The answer to the fifth round trip, a commit, is lost.
abbrev pub unsteady : Network
unsteady n = if n == 4 then lost else answered

-- The second round trip fails.
abbrev pub broken : Network
broken n = if n == 1 then refused else answered
