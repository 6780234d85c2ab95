-- ===== src/Domain/User.antt =====
-- internal/identity/domain/user.go and session.go. Times are counted in microseconds, the
-- resolution of the database; a UUID is a number, with 0 for `uuid.Nil`.
use family_tree_identity_mic.Shared.{ℕ, Bool, true, false, Option, none, Text, trim_space}
use family_tree_identity_mic.Domain.Email.{Email}

abbrev pub Time : Type 0
Time = ℕ

abbrev pub Uuid : Type 0
Uuid = ℕ

-- `UserStatus` is a string type with four constants; `other` is any other text.
pub data UserStatus : Type 0 where
  pending active blocked deleting : UserStatus
  other : Text → UserStatus

abbrev pub is_active : UserStatus → Bool
is_active UserStatus.active = true
is_active UserStatus.pending = false
is_active UserStatus.blocked = false
is_active UserStatus.deleting = false
is_active (UserStatus.other s) = false

-- `email_verified_at` and `deleted_at` are pointers, `none` for nil.
pub record User : Type 0 where
  pub id : Uuid
  pub email : Email
  pub display_name : Text
  pub status : UserStatus
  pub email_verified_at : Option Time
  pub created_at : Time
  pub updated_at : Time
  pub deleted_at : Option Time
  pub version : ℕ

unfoldable pub new_user : Uuid → Email → Text → Time → User
unfolding trim_space
new_user id email display_name now = record {
  id = id;
  email = email;
  display_name = trim_space display_name;
  status = UserStatus.pending;
  email_verified_at = none;
  created_at = now;
  updated_at = now;
  deleted_at = none;
  version = 1;
}

pub record UserSession : Type 0 where
  pub id : Uuid
  pub user_id : Uuid
  pub user_agent : Text
  pub ip_address : Text
  pub created_at : Time
  pub last_used_at : Time
  pub expires_at : Time
