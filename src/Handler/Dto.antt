-- ===== src/Handler/Dto.antt =====
-- internal/handler/dto.go: the bodies of requests and responses. `UTC()` does not change an instant. How a
-- duration and a date are printed is the standard library's part and stands in `Formats`.
use activity_events_api.Prelude.{ℕ, ◌+◌, Bool, Option, List, map, Error, length}
use activity_events_api.Go.Text.{Bytes, codes, trim_space}
use activity_events_api.Go.Clock.{Time, Duration}
use activity_events_api.Models.Event.{Event}
use activity_events_api.Models.Aggregation.{
  ActivityBucket, AggregationRun, DailyActivity, RunStatus, RunTrigger,
}
use activity_events_api.Models.User.{User, UserSummary, Role, has_password, has_google}
use activity_events_api.Service.Event.{EventInput, BatchResult}
use activity_events_api.Service.Event.Page.{EventPage}
use activity_events_api.Service.Aggregation.{Stats}
use activity_events_api.Service.Auth.{Session}

-- An email is trimmed while the body is read.
unfoldable pub email_field : Bytes → Bytes
unfolding trim_space
email_field raw = trim_space raw

pub record RegisterRequest : Type 0 where
  pub email : Bytes
  pub password : Bytes

pub record LoginRequest : Type 0 where
  pub email : Bytes
  pub password : Bytes

pub record RefreshRequest : Type 0 where
  pub refresh_token : Bytes

pub record ExchangeRequest : Type 0 where
  pub code : Bytes

pub record EventRequest : Type 0 where
  pub type : Bytes
  pub payload : Bytes
  pub occurred_at : Option Time
  pub idempotency_key : Bytes

unfoldable pub to_input : EventRequest → EventInput
to_input r = record {
  type = r.type;
  payload = r.payload;
  occurred_at = r.occurred_at;
  idempotency_key = r.idempotency_key;
}

pub record BatchRequest : Type 0 where
  pub events : List EventRequest

pub record TriggerRequest : Type 0 where
  pub bucket_start : Option Time

pub record EventResponse : Type 0 where
  pub id : ℕ
  pub type : Bytes
  pub payload : Bytes
  pub occurred_at : Time
  pub created_at : Time
  pub idempotency_key : Option Bytes

unfoldable pub new_event_response : Event → EventResponse
new_event_response e = record {
  id = e.id;
  type = e.type;
  payload = e.payload;
  occurred_at = e.occurred_at;
  created_at = e.created_at;
  idempotency_key = e.idempotency_key;
}

pub record EventPageResponse : Type 0 where
  pub user_id : ℕ
  pub items : List EventResponse
  pub next_cursor : Bytes

unfoldable pub new_event_page_response : ℕ → EventPage → EventPageResponse
unfolding new_event_response
new_event_page_response user_id page = record {
  user_id = user_id;
  items = map new_event_response page.items;
  next_cursor = page.next_cursor;
}

pub record BatchResponse : Type 0 where
  pub created : List EventResponse
  pub created_count : ℕ
  pub duplicates : ℕ

unfoldable pub new_batch_response : BatchResult → BatchResponse
unfolding new_event_response
new_batch_response result = record {
  created = map new_event_response result.created;
  created_count = length (map new_event_response result.created);
  duplicates = result.duplicates;
}

pub record AccountResponse : Type 0 where
  pub id : ℕ
  pub email : Bytes
  pub role : Role
  pub event_count : ℕ
  pub last_event_at : Option Time

unfoldable pub new_account_response : UserSummary → AccountResponse
new_account_response u = record {
  id = u.id;
  email = u.email;
  role = u.role;
  event_count = u.event_count;
  last_event_at = u.last_event_at;
}

unfoldable pub new_accounts_response : List UserSummary → List AccountResponse
unfolding new_account_response
new_accounts_response users = map new_account_response users

pub record MethodsResponse : Type 0 where
  pub password : Bool
  pub google : Bool

pub record UserResponse : Type 0 where
  pub id : ℕ
  pub email : Bytes
  pub role : Role
  pub name : Option Bytes
  pub email_verified : Bool
  pub with_password : Bool
  pub with_google : Bool
  pub created_at : Time

unfoldable pub new_user_response : User → UserResponse
unfolding has_password has_google
new_user_response u = record {
  id = u.id;
  email = u.email;
  role = u.role;
  name = u.name;
  email_verified = u.email_verified;
  with_password = has_password u;
  with_google = has_google u;
  created_at = u.created_at;
}

pub record SessionResponse : Type 0 where
  pub access_token : Bytes
  pub refresh_token : Bytes
  pub token_type : Bytes
  pub expires_in : ℕ
  pub user : UserResponse

unfoldable pub new_session_response : Session → SessionResponse
unfolding new_user_response
new_session_response s = record {
  access_token = s.access_token;
  refresh_token = s.refresh_token;
  token_type = codes "Bearer";
  expires_in = s.expires_in;
  user = new_user_response s.user;
}

pub record RunResponse : Type 0 where
  pub id : ℕ
  pub bucket_start : Time
  pub bucket_end : Time
  pub status : RunStatus
  pub trigger : RunTrigger
  pub users_touched : ℕ
  pub started_at : Time
  pub finished_at : Option Time
  pub error : Option Error

unfoldable pub new_run_response : AggregationRun → RunResponse
new_run_response r = record {
  id = r.id;
  bucket_start = r.bucket_start;
  bucket_end = r.bucket_end;
  status = r.status;
  trigger = r.trigger;
  users_touched = r.users_touched;
  started_at = r.started_at;
  finished_at = r.finished_at;
  error = r.error;
}

unfoldable pub new_runs_response : List AggregationRun → List RunResponse
unfolding new_run_response
new_runs_response runs = map new_run_response runs

pub record BucketResponse : Type 0 where
  pub bucket_start : Time
  pub bucket_end : Time
  pub event_count : ℕ
  pub type_counts : List (Bytes × ℕ)
  pub first_event_at : Time
  pub last_event_at : Time

unfoldable pub new_bucket_response : Duration → ActivityBucket → BucketResponse
new_bucket_response bucket b = record {
  bucket_start = b.bucket_start;
  bucket_end = b.bucket_start + bucket;
  event_count = b.event_count;
  type_counts = b.type_counts;
  first_event_at = b.first_event_at;
  last_event_at = b.last_event_at;
}

pub record DayResponse : Type 0 where
  pub day : Bytes
  pub event_count : ℕ
  pub type_counts : List (Bytes × ℕ)

pub record StatsResponse : Type 0 where
  pub user_id : ℕ
  pub from : Time
  pub to : Time
  pub bucket : Bytes
  pub buckets : List BucketResponse
  pub days : List DayResponse

-- `Duration.String`, `Time.Format(time.DateOnly)` and `time.Parse(time.RFC3339, …)`.
pub record Formats : Type 0 where
  pub duration_string : Duration → Bytes
  pub date_only : Time → Bytes
  pub parse_rfc3339 : Bytes → Option Time

unfoldable pub new_day_response : Formats → DailyActivity → DayResponse
new_day_response f d = record {
  day = f.date_only d.day;
  event_count = d.event_count;
  type_counts = d.type_counts;
}

unfoldable pub new_stats_response : Formats → ℕ → Stats → StatsResponse
unfolding new_bucket_response new_day_response
new_stats_response f user_id s = record {
  user_id = user_id;
  from = s.from;
  to = s.to;
  bucket = f.duration_string s.bucket;
  buckets = map (new_bucket_response s.bucket) s.buckets;
  days = map (new_day_response f) s.days;
}
