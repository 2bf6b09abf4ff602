-- ===== src/Models/Event.antt =====
-- internal/models/event.go. Identifiers come from identity columns and are natural numbers.
use activity_events_api.Prelude.{ℕ, ◌*◌, Option}
use activity_events_api.Go.Text.{Bytes, trim_space, to_lower}
use activity_events_api.Go.Clock.{Time}

abbrev pub max_event_type_len : ℕ
max_event_type_len = 64

abbrev pub max_payload_bytes : ℕ
max_payload_bytes = 8 * 1024

pub record Event : Type 0 where
  pub id : ℕ
  pub user_id : ℕ
  pub type : Bytes
  pub payload : Bytes
  pub occurred_at : Time
  pub created_at : Time
  pub idempotency_key : Option Bytes

unfoldable pub normalize_event_type : Bytes → Bytes
unfolding trim_space to_lower
normalize_event_type t = to_lower (trim_space t)
