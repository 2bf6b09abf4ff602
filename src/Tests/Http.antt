-- ===== src/Tests/Http.antt =====
-- Requests to the handlers and the routes, over a table of two events.
use activity_events_api.Prelude.{
  ◌*◌, ◌≡◌, refl, true, false, none, some, [], ◌∷◌, map, arith, ok, err, repository, database,
  raise, Exec, auth, invalid_token, if◌then◌else◌,
}
use activity_events_api.Go.Text.{Bytes, codes, bytes_eq}
use activity_events_api.Go.Clock.{hour}
use activity_events_api.Models.User.{user, admin}
use activity_events_api.Handler.Dto.{EventRequest, EventPageResponse, Formats, new_event_response}
use activity_events_api.Handler.Reply.{Request, Response, bound, no_body, page, json, empty}
use activity_events_api.Handler.Event.{create, list_events}
use activity_events_api.Handler.Auth.{AuthApi}
use activity_events_api.Handler.Access.{Shown}
use activity_events_api.Middleware.Auth.{Identity}
use activity_events_api.Router.{Deps, dispatch, guard_of, routes}
use activity_events_api.Router.Guarded.{Admitted, administrator, needs, routes-Admitted}
use activity_events_api.Models.Event.{normalize_event_type}
use activity_events_api.Repository.Event.{list}
use activity_events_api.Service.Event as EventService
use activity_events_api.System.{World, event_deps, aggregation_deps}
use activity_events_api.System.Api.{event_api, aggregation_api}
use activity_events_api.System.Access.{list_events-page}
use activity_events_api.System.Refusal.{create-client}
use activity_events_api.Tests.Events.{braces, noon, click, one_click}
use activity_events_api.Tests.Pages.{resting}

abbrev formats : Formats
formats = record {
  duration_string = λ d. codes "1h0m0s";
  date_only = λ t. codes "2023-11-14";
  parse_rfc3339 = λ s. none;
}

-- A request of user 7, who has no role of its own.
abbrev get_from : Bytes → Request
get_from path = record {
  method = codes "GET";
  path = path;
  query = [];
  headers = (codes "Authorization", codes "Bearer secret") ∷ [];
  body = [];
  user_agent = [];
  client_ip = [];
  request_id = none;
  caller = some 7;
  role = some user;
}

abbrev own_page : EventPageResponse
own_page = record {
  user_id = 7;
  items = map new_event_response (click 1 noon ∷ []);
  next_cursor = [];
}

own_page_answered :
    (list_events
      (event_api (event_deps braces (λ s. true)))
      formats
      (get_from (codes "/api/v1/events"))
      (resting (one_click []))).0.body
    ≡ page own_page
unfolding list_events event_api event_deps EventService.list_events list
own_page_answered = refl

list_events-page_example : Shown (get_from (codes "/api/v1/events")) 7 own_page
list_events-page_example =
    list_events-page braces (λ s. true) formats (get_from (codes "/api/v1/events")) 7
      (resting (one_click [])) own_page refl own_page_answered

abbrev untyped : EventRequest
untyped = record { type = []; payload = []; occurred_at = none; idempotency_key = [] }

refused_status :
    (create
      (event_api (event_deps braces (λ s. true)))
      formats
      (get_from (codes "/api/v1/events"))
      (bound untyped)
      (resting (one_click []))).0.status
    ≡ 400
unfolding create event_api event_deps EventService.record_event normalize_event_type
refused_status = refl

create-client_example :
    (create
      (event_api (event_deps braces (λ s. true)))
      formats
      (get_from (codes "/api/v1/events"))
      (bound untyped)
      (resting (one_click []))).1.db
    ≡ one_click []
create-client_example =
    create-client braces (λ s. true) formats (get_from (codes "/api/v1/events")) (bound untyped)
      (resting (one_click [])) (omega (arith, refused_status)) (omega (arith, refused_status))

-- Signs nobody in and knows no account.
abbrev no_auth : AuthApi World
no_auth = record {
  register = λ email password meta. raise (repository database);
  login = λ email password meta. raise (repository database);
  start_google_flow = λ redirect_to. raise (repository database);
  complete_google_flow = λ code state. raise (repository database);
  exchange_google_code = λ code meta. raise (repository database);
  refresh = λ raw meta. raise (repository database);
  logout = λ raw. raise (repository database);
  user_of = λ id. raise (repository database);
  accounts = λ limit. raise (repository database);
}

abbrev silent : Request → World → Response × World
silent c w = (json 404 empty, w)

-- Takes the token `secret` for an admin's.
abbrev secret_only : Bytes → Exec World Identity
secret_only raw w = (
  if bytes_eq raw (codes "secret")
      then ok (record { user_id = 7; role = admin })
      else err (auth invalid_token),
  w,
)

abbrev wired : Deps World
wired = record {
  runs_api = true;
  allowed_origins = [];
  health = record { ping = λ w. (true, w); version = codes "1"; mode = codes "all" };
  metrics = silent;
  docs_page = silent;
  docs_spec = silent;
  event_stream = silent;
  no_route = silent;
  new_id = λ w. (codes "id", w);
  formats = formats;
  bodies = record {
    register = λ s. no_body;
    login = λ s. no_body;
    refresh = λ s. no_body;
    exchange = λ s. no_body;
    event = λ s. no_body;
    batch = λ s. no_body;
    trigger = λ s. no_body;
  };
  auth = some (record { service = no_auth; frontend_url = []; google = false; encode = λ q. [] });
  guard = some secret_only;
  events = some (event_api (event_deps braces (λ s. true)));
  aggregation = some (aggregation_api (aggregation_deps (4 * hour) 12));
}

routes-Admitted_example :
    Admitted secret_only silent
      (get_from (codes "/api/v1/admin/users"))
      (resting (one_click []))
      administrator
      (dispatch secret_only silent
        (routes wired)
        (get_from (codes "/api/v1/admin/users"))
        (resting (one_click [])))
unfolding needs guard_of
routes-Admitted_example =
    routes-Admitted wired (get_from (codes "/api/v1/admin/users")) (resting (one_click []))
