-- ===== src/Models/User.antt =====
-- internal/models/user.go and refresh_token.go. An IP address stays the text that it was read from.
use activity_events_api.Prelude.{ℕ, Bool, true, false, not, Option, none, some, length, ◌==◌}
use activity_events_api.Go.Text.{Bytes, trim_space, to_lower}
use activity_events_api.Go.Clock.{Time, before}

pub data Role : Type 0 where
  user admin : Role

abbrev pub max_email_len : ℕ
max_email_len = 254

pub record User : Type 0 where
  pub id : ℕ
  pub email : Bytes
  pub password_hash : Option Bytes
  pub role : Role
  pub google_sub : Option Bytes
  pub name : Option Bytes
  pub email_verified : Bool
  pub created_at : Time
  pub updated_at : Time

pub record UserSummary : Type 0 where
  pub id : ℕ
  pub email : Bytes
  pub role : Role
  pub event_count : ℕ
  pub last_event_at : Option Time

filled : Option Bytes → Bool
filled none = false
filled (some s) = not (length s == 0)

unfoldable pub has_password : User → Bool
unfolding filled
has_password u = filled u.password_hash

unfoldable pub has_google : User → Bool
unfolding filled
has_google u = filled u.google_sub

unfoldable pub normalize_email : Bytes → Bytes
unfolding trim_space to_lower
normalize_email email = to_lower (trim_space email)

pub record RefreshToken : Type 0 where
  pub id : ℕ
  pub family_id : ℕ
  pub user_id : ℕ
  pub token_hash : Bytes
  pub user_agent : Option Bytes
  pub ip : Option Bytes
  pub created_at : Time
  pub expires_at : Time
  pub revoked_at : Option Time
  pub replaced_by : Option ℕ

unfoldable pub is_set : Option Time → Bool
is_set none = false
is_set (some t) = true

unfoldable pub revoked : RefreshToken → Bool
unfolding is_set
revoked t = is_set t.revoked_at

unfoldable pub expired : RefreshToken → Time → Bool
expired t now = not (before now t.expires_at)
