-- ===== src/Models/Oauth.antt =====
-- internal/models/google_oauth.go.
use activity_events_api.Prelude.{ℕ, Option}
use activity_events_api.Go.Text.{Bytes}
use activity_events_api.Go.Clock.{Time}

pub record GoogleOauthState : Type 0 where
  pub state_hash : Bytes
  pub code_verifier : Bytes
  pub redirect_to : Option Bytes
  pub created_at : Time
  pub expires_at : Time

pub record GoogleOauthCode : Type 0 where
  pub code_hash : Bytes
  pub user_id : ℕ
  pub created_at : Time
  pub expires_at : Time
  pub used_at : Option Time
