-- ===== src/Router.antt =====
-- internal/router/router.go: which handler answers a method and a path, behind which guards. gin compares
-- paths exactly here, as no route has a parameter and the redirects are off or do not apply.
pub mod Guarded
use activity_events_api.Prelude.{
  ℕ, Bool, true, false, ◌&&◌, Option, none, some, List, [], ◌∷◌, ◌++◌, Exec, err, auth,
  invalid_token, if◌then◌else◌,
}
use activity_events_api.Go.Text.{Bytes, codes, bytes_eq}
use activity_events_api.Models.User.{Role, admin}
use activity_events_api.Handler.Dto.{
  RegisterRequest, LoginRequest, RefreshRequest, ExchangeRequest, EventRequest, BatchRequest,
  TriggerRequest, Formats,
}
use activity_events_api.Handler.Reply.{Request, Response, Binding}
use activity_events_api.Handler.Auth as AuthHandler
use activity_events_api.Handler.Auth.{AuthApi}
use activity_events_api.Handler.Event as EventHandler
use activity_events_api.Handler.Event.{EventApi}
use activity_events_api.Handler.Aggregation as AggregationHandler
use activity_events_api.Handler.Aggregation.{AggregationApi}
use activity_events_api.Handler.Health.{Health, live, ready}
use activity_events_api.Middleware.{Handler}
use activity_events_api.Middleware.Auth.{Identity, require_auth, require_role}
use activity_events_api.Middleware.Cors.{cors}
use activity_events_api.Middleware.Around.{request_id}

pub data Guard : Type 0 where
  -- `RequireAuth()`
  signed_in : Guard
  -- `RequireRole(roles...)`
  with_role : List Role → Guard

pub record Route (W : Type 0) : Type 0 where
  pub method : Bytes
  pub path : Bytes
  pub guards : List Guard
  pub handler : Handler W

-- `ShouldBindJSON` behind the body limit, for each kind of body.
pub record Bodies : Type 0 where
  pub register : Bytes → Binding RegisterRequest
  pub login : Bytes → Binding LoginRequest
  pub refresh : Bytes → Binding RefreshRequest
  pub exchange : Bytes → Binding ExchangeRequest
  pub event : Bytes → Binding EventRequest
  pub batch : Bytes → Binding BatchRequest
  pub trigger : Bytes → Binding TriggerRequest

-- `handler.Auth`
pub record Auth (W : Type 0) : Type 0 where
  pub service : AuthApi W
  pub frontend_url : Bytes
  pub google : Bool
  pub encode : List (Bytes × Bytes) → Bytes

-- The handlers that are not modelled stand as they are; `no_route` is gin's answer to an unknown path.
pub record Deps (W : Type 0) : Type 0 where
  pub runs_api : Bool
  pub allowed_origins : List Bytes
  pub health : Health W
  pub metrics : Handler W
  pub docs_page : Handler W
  pub docs_spec : Handler W
  pub event_stream : Handler W
  pub no_route : Handler W
  pub new_id : W → Bytes × W
  pub formats : Formats
  pub bodies : Bodies
  pub auth : Option (Auth W)
  pub guard : Option (Bytes → Exec W Identity)
  pub events : Option (EventApi W)
  pub aggregation : Option (AggregationApi W)

admin_only : List Guard
admin_only = signed_in ∷ with_role (admin ∷ []) ∷ []

module _ {W : Type 0} where
  get : Bytes → List Guard → Handler W → Route W
  get path guards h = record { method = codes "GET"; path = path; guards = guards; handler = h }

  post : Bytes → List Guard → Handler W → Route W
  post path guards h = record { method = codes "POST"; path = path; guards = guards; handler = h }

  run_guards : (Bytes → Exec W Identity) → List Guard → Handler W → Handler W
  unfolding require_auth require_role
  run_guards parse [] h = h
  run_guards parse (signed_in ∷ gs) h = require_auth parse (run_guards parse gs h)
  run_guards parse (with_role roles ∷ gs) h = require_role roles (run_guards parse gs h)

  unfoldable pub dispatch : (Bytes → Exec W Identity) → Handler W → List (Route W) → Handler W
  unfolding run_guards bytes_eq
  dispatch parse no_route [] c w = no_route c w
  dispatch parse no_route (r ∷ rs) c w =
      if bytes_eq r.method c.method && bytes_eq r.path c.path
      then run_guards parse r.guards r.handler c w
      else dispatch parse no_route rs c w

  public_routes : Deps W → List (Route W)
  unfolding get live ready
  public_routes d =
      get (codes "/healthz") [] (live d.health)
      ∷ get (codes "/readyz") [] (ready d.health)
      ∷ get (codes "/metrics") [] d.metrics
      ∷ []

  docs_routes : Deps W → List (Route W)
  unfolding get
  docs_routes d =
      get (codes "/docs") [] d.docs_page ∷ get (codes "/openapi.yaml") [] d.docs_spec ∷ []

  auth_routes : Bodies → Auth W → List (Route W)
  unfolding get post AuthHandler.show_methods AuthHandler.register AuthHandler.login
      AuthHandler.google_start AuthHandler.google_callback AuthHandler.google_exchange
      AuthHandler.refresh AuthHandler.logout AuthHandler.me
  auth_routes b a =
      get (codes "/api/v1/auth/methods") []
        (AuthHandler.show_methods a.service a.frontend_url a.google a.encode)
      ∷ post (codes "/api/v1/auth/register") [] (λ c.
        AuthHandler.register a.service a.frontend_url a.google a.encode c (b.register c.body))
      ∷ post (codes "/api/v1/auth/login") []
          (λ c. AuthHandler.login a.service a.frontend_url a.google a.encode c (b.login c.body))
      ∷ get (codes "/api/v1/auth/google/start") []
          (AuthHandler.google_start a.service a.frontend_url a.google a.encode)
      ∷ get (codes "/api/v1/auth/google/callback") []
          (AuthHandler.google_callback a.service a.frontend_url a.google a.encode)
      ∷ post (codes "/api/v1/auth/google/exchange") [] (λ c.
        AuthHandler.google_exchange a.service a.frontend_url a.google a.encode c
          (b.exchange c.body))
      ∷ post (codes "/api/v1/auth/refresh") []
          (λ c. AuthHandler.refresh a.service a.frontend_url a.google a.encode c (b.refresh c.body))
      ∷ post (codes "/api/v1/auth/logout") []
          (λ c. AuthHandler.logout a.service a.frontend_url a.google a.encode c (b.refresh c.body))
      ∷ get (codes "/api/v1/auth/me") (signed_in ∷ [])
          (AuthHandler.me a.service a.frontend_url a.google a.encode)
      ∷ []

  event_routes : Deps W → EventApi W → List (Route W)
  unfolding get post EventHandler.create EventHandler.create_batch EventHandler.list_events
  event_routes d e =
      post (codes "/api/v1/events") (signed_in ∷ [])
        (λ c. EventHandler.create e d.formats c (d.bodies.event c.body))
      ∷ post (codes "/api/v1/events/batch") (signed_in ∷ [])
          (λ c. EventHandler.create_batch e d.formats c (d.bodies.batch c.body))
      ∷ get (codes "/api/v1/events") (signed_in ∷ []) (EventHandler.list_events e d.formats)
      ∷ get (codes "/api/v1/events/stream") (signed_in ∷ []) d.event_stream
      ∷ []

  aggregation_routes : Deps W → Auth W → AggregationApi W → List (Route W)
  unfolding get post admin_only AggregationHandler.stats AggregationHandler.trigger
      AggregationHandler.list_runs AuthHandler.list_accounts
  aggregation_routes d a g =
      get (codes "/api/v1/stats/activity") (signed_in ∷ []) (AggregationHandler.stats g d.formats)
      ∷ get (codes "/api/v1/admin/users") admin_only
          (AuthHandler.list_accounts a.service a.frontend_url a.google a.encode)
      ∷ post (codes "/api/v1/admin/aggregation/runs") admin_only
          (λ c. AggregationHandler.trigger g d.formats c (d.bodies.trigger c.body))
      ∷ get (codes "/api/v1/admin/aggregation/runs") admin_only
          (AggregationHandler.list_runs g d.formats)
      ∷ []

  -- `registerAPI`, with its early returns.
  from_aggregation : Deps W → Auth W → Option (AggregationApi W) → List (Route W)
  unfolding aggregation_routes
  from_aggregation d a none = []
  from_aggregation d a (some g) = aggregation_routes d a g

  from_events : Deps W → Auth W → Option (EventApi W) → List (Route W)
  unfolding event_routes from_aggregation
  from_events d a none = []
  from_events d a (some e) = event_routes d e ++ from_aggregation d a d.aggregation

  unfoldable pub register_api :
      Deps W → Option (Auth W) → Option (Bytes → Exec W Identity) → List (Route W)
  unfolding auth_routes from_events
  register_api d none guard = []
  register_api d (some a) none = []
  register_api d (some a) (some parse) = auth_routes d.bodies a ++ from_events d a d.events

  unfoldable pub routes : Deps W → List (Route W)
  unfolding public_routes docs_routes register_api
  routes d =
      public_routes d ++ (if d.runs_api then docs_routes d ++ register_api d d.auth d.guard else [])

  -- Without a guard no route asks for it.
  refuse_all : Bytes → Exec W Identity
  refuse_all raw w = (err (auth invalid_token), w)

  unfoldable pub guard_of : Option (Bytes → Exec W Identity) → Bytes → Exec W Identity
  unfolding refuse_all
  guard_of none = refuse_all
  guard_of (some parse) = parse

  -- `New`: the layers around the routes. Logging, the counters, the recovery from panics and the body limit
  -- are left out.
  unfoldable pub engine : Deps W → Handler W
  unfolding request_id cors dispatch routes guard_of
  engine d =
      request_id d.new_id
        (cors d.allowed_origins (dispatch (guard_of d.guard) d.no_route (routes d)))
