-- ===== src/Handler/Reply.antt =====
-- internal/response/response.go, and what internal/handler shares: the caller, the user that a request is
-- about, and the readers of query parameters. Status codes are net/http's.
use Prim.Native.String.{String}
use activity_events_api.Prelude.{
  ℕ, suc, Bool, true, false, not, Option, none, some, List, [], ◌∷◌, ◌==◌, if◌then◌else◌,
}
use activity_events_api.Prelude.Int.{ℤ, pos}
use activity_events_api.Go.Text.{Bytes, bytes_eq, codes}
use activity_events_api.Go.Decimal.{parse_int}
use activity_events_api.Go.Clock.{Time}
use activity_events_api.Models.User.{Role, user, admin}
use activity_events_api.Service.Auth.{ClientMeta}
use activity_events_api.Handler.Dto.{
  EventResponse, EventPageResponse, BatchResponse, AccountResponse, MethodsResponse,
  SessionResponse, UserResponse, RunResponse, StatsResponse, Formats,
}

-- The codes of response.go.
pub data Code : Type 0 where
  validation_failed invalid_credentials email_taken password_login_unavailable invalid_token : Code
  unauthorized forbidden not_found payload_too_large invalid_oauth_state invalid_cursor : Code
  bucket_not_closed google_disabled google_email_unverified internal_error : Code

pub data Body : Type 0 where
  empty : Body
  -- `ErrorEnvelope`
  failure : Code → String → Body
  event : EventResponse → Body
  page : EventPageResponse → Body
  batch : BatchResponse → Body
  accounts : List AccountResponse → Body
  methods : MethodsResponse → Body
  session : SessionResponse → Body
  account : UserResponse → Body
  run : RunResponse → Body
  runs : List RunResponse → Body
  stats : StatsResponse → Body
  -- `gin.H` of texts
  facts : List (Bytes × Bytes) → Body
  -- `c.Redirect`
  location : Bytes → Body

pub record Response : Type 0 where
  pub status : ℕ
  pub headers : List (Bytes × Bytes)
  pub body : Body

unfoldable pub json : ℕ → Body → Response
json status body = record { status = status; headers = []; body = body }

-- `response.Error`
unfoldable pub reply_error : ℕ → Code → String → Response
unfolding json
reply_error status code message = json status (failure code message)

-- The request as gin shows it. `caller` and `role` are what the guard has set in the context.
pub record Request : Type 0 where
  pub method : Bytes
  pub path : Bytes
  pub query : List (Bytes × Bytes)
  pub headers : List (Bytes × Bytes)
  pub body : Bytes
  pub user_agent : Bytes
  pub client_ip : Bytes
  pub request_id : Option Bytes
  pub caller : Option ℕ
  pub role : Option Role

-- The first value of a key, the empty string if there is none.
unfoldable pub value_of : Bytes → List (Bytes × Bytes) → Bytes
value_of key [] = []
value_of key ((k, v) ∷ rest) = if bytes_eq k key then v else value_of key rest

-- `c.QueryArray`
unfoldable pub values_of : Bytes → List (Bytes × Bytes) → List Bytes
values_of key [] = []
values_of key ((k, v) ∷ rest) =
    let others = values_of key rest in if bytes_eq k key then v ∷ others else others

-- What `ShouldBindJSON` gives.
pub data Binding (A : Type 0) : Type 0 where
  bound : A → Binding A
  -- `io.EOF`: there is no body
  no_body : Binding A
  -- `http.MaxBytesError`
  too_large : Binding A
  malformed : String → Binding A

-- Either a value, or the response that was written instead.
pub data Step (A : Type 0) : Type 0 where
  go : A → Step A
  stop : Response → Step A

-- The rest of a handler, unless a response stands already.
abbrev pub proceed : {W A : Type 0} → Step A → (A → W → Response × W) → W → Response × W
proceed (go a) f w = f a w
proceed (stop r) f w = (r, w)

unfoldable pub bind_json : {A : Type 0} → Binding A → Step A
unfolding reply_error
bind_json (bound a) = go a
bind_json no_body = stop (reply_error 400 validation_failed "EOF")
bind_json too_large = stop (reply_error 413 payload_too_large "Request body is too large")
bind_json (malformed message) = stop (reply_error 400 validation_failed message)

unfoldable pub client_meta : Request → ClientMeta
client_meta c = record { user_agent = c.user_agent; ip = c.client_ip }

unfoldable pub caller_or : Option ℕ → Step ℕ
unfolding reply_error
caller_or (some id) = go id
caller_or none =
    stop (reply_error 401 unauthorized "Authorization header with a bearer token is required")

unfoldable pub current_user : Request → Step ℕ
unfolding caller_or
current_user c = caller_or c.caller

unfoldable pub is_admin : Option Role → Bool
is_admin (some admin) = true
is_admin (some user) = false
is_admin none = false

unfoldable pub other_user : Option Role → ℕ → ℕ → Step ℕ
unfolding is_admin reply_error
other_user role self requested =
    if requested == self
    then go self
    else if not (is_admin role)
    then stop (reply_error 403 forbidden "Reading another user's activity requires the admin role")
    else go requested

unfoldable pub requested_user : Option Role → ℕ → Option ℤ → Step ℕ
unfolding other_user reply_error
requested_user role self (some (pos (suc n))) = other_user role self (suc n)
requested_user role self other =
    stop (reply_error 400 validation_failed "user_id must be a positive number")

unfoldable pub named_user : Option Role → ℕ → Bytes → Step ℕ
unfolding requested_user
named_user role self [] = go self
named_user role self (b ∷ bs) = requested_user role self (parse_int (b ∷ bs))

unfoldable pub target_user : Request → ℕ → Step ℕ
unfolding named_user value_of
target_user c self = named_user c.role self (value_of (codes "user_id") c.query)

unfoldable pub parsed_time : String → Option Time → Step (Option Time)
unfolding reply_error
parsed_time message none = stop (reply_error 400 validation_failed message)
parsed_time message (some t) = go (some t)

unfoldable pub read_time : Formats → String → Bytes → Step (Option Time)
unfolding parsed_time
read_time f message [] = go none
read_time f message (b ∷ bs) = parsed_time message (f.parse_rfc3339 (b ∷ bs))

-- `message` is the key with " must be an RFC 3339 timestamp".
unfoldable pub time_query : Formats → Request → Bytes → String → Step (Option Time)
unfolding read_time value_of
time_query f c key message = read_time f message (value_of key c.query)

unfoldable pub parsed_limit : Option ℤ → Step ℤ
unfolding reply_error
parsed_limit none = stop (reply_error 400 validation_failed "limit must be a number")
parsed_limit (some n) = go n

unfoldable pub read_limit : Bytes → Step ℤ
unfolding parsed_limit
read_limit [] = go (pos 0)
read_limit (b ∷ bs) = parsed_limit (parse_int (b ∷ bs))

-- The `limit` of the three listings; `Atoi` reads what `ParseInt` of 64 bits does.
unfoldable pub limit_query : Request → Step ℤ
unfolding read_limit value_of
limit_query c = read_limit (value_of (codes "limit") c.query)
