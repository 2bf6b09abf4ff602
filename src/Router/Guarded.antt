-- ===== src/Router/Guarded.antt =====
-- Whom the routes let in.
use activity_events_api.Prelude.{
  ◌≡◌, arith, ◌⊎◌, refl, sym, ap, Bool, true, false, ◌||◌, inl, inr, Option, none, some, List, [],
  ◌∷◌, ◌++◌, Result, ok, err, Exec, all, Bool-cases, if◌then◌else◌,
}
use activity_events_api.Go.Text.{Bytes, codes, bytes_eq, bytes_eq_iff, has_prefix}
use activity_events_api.Models.User.{Role, user, admin}
use activity_events_api.Handler.Reply.{Request, Response, forbidden, reply_error, json, value_of}
use activity_events_api.Middleware.{Handler}
use activity_events_api.Middleware.Auth.{
  Identity, bearer_token, require_auth, require_role, same_role, with_token, with_identity,
  checked_role,
}
use activity_events_api.Handler.Aggregation.{AggregationApi}
use activity_events_api.Handler.Event.{EventApi}
use activity_events_api.Router.{
  Guard, signed_in, with_role, Route, Auth, Deps, get, post, run_guards, dispatch, public_routes,
  docs_routes, auth_routes, event_routes, admin_only, aggregation_routes, from_aggregation,
  from_events, register_api, routes, guard_of,
}

pub data Need : Type 0 where
  anyone signed administrator : Need

-- Who may use a path, by its prefix.
unfoldable pub needs : Bytes → Need
unfolding has_prefix bytes_eq
needs path =
    if has_prefix path (codes "/api/v1/admin/")
    then administrator
    else if has_prefix path (codes "/api/v1/events")
    then signed
    else if has_prefix path (codes "/api/v1/stats/")
    then signed
    else if bytes_eq path (codes "/api/v1/auth/me")
    then signed
    else anyone

-- Whether the guards of a route are those that its path needs.
fits : Need → List Guard → Bool
fits anyone gs = true
fits signed (signed_in ∷ []) = true
fits administrator (signed_in ∷ with_role (admin ∷ []) ∷ []) = true
fits _ _ = false

module _ {W : Type 0} where
  route_fits : Route W → Bool
  unfolding fits needs
  route_fits r = fits (needs r.path) r.guards

  all-append :
      (p : Route W → Bool) (rs ss : List (Route W))
      → all p rs ≡ true
      → all p ss ≡ true
      → all p (rs ++ ss) ≡ true
  all-append p [] ss h k = k
  all-append p (r ∷ rs) ss h k = ground (arith, all-append p rs ss)

  aggregation-fits :
      (d : Deps W) (a : Auth W) (g : Option (AggregationApi W))
      → all route_fits (from_aggregation d a g) ≡ true
  unfolding from_aggregation route_fits aggregation_routes get post admin_only
  aggregation-fits d a none = refl
  aggregation-fits d a (some g) = refl

  events-fits :
      (d : Deps W) (a : Auth W) (e : Option (EventApi W))
      → all route_fits (from_events d a e) ≡ true
  unfolding from_events route_fits event_routes get post
  events-fits d a none = refl
  events-fits d a (some e) = aggregation-fits d a d.aggregation

  register_api-fits :
      (d : Deps W) (a : Option (Auth W)) (g : Option (Bytes → Exec W Identity))
      → all route_fits (register_api d a g) ≡ true
  unfolding register_api route_fits auth_routes get post
  register_api-fits d none g = refl
  register_api-fits d (some a) none = refl
  register_api-fits d (some a) (some parse) = events-fits d a d.events

  routes-fits : (d : Deps W) → all route_fits (routes d) ≡ true
  unfolding routes route_fits public_routes docs_routes get
  routes-fits d = elim (Bool-cases d.runs_api) [
    | inl c ↦ rw c (register_api-fits d d.auth d.guard)
    | inr c ↦ rw c refl
  ]

module _ {W : Type 0} (parse : Bytes → Exec W Identity) (no_route : Handler W) (c : Request)
    (w : W) where
  -- The request carries a token that the parser accepts, for this identity.
  pub record Identified (i : Identity) : Type 0 where
    pub token : Bytes
    pub sent : bearer_token (value_of (codes "Authorization") c.headers) ≡ some token
    pub accepted : (parse token w).0 ≡ ok i

  -- No handler has run, but the parser at most: the path is unknown, or the answer is 401 or 403.
  pub data Refused (out : Response × W) : Type 0 where
    unknown : out ≡ no_route c w → Refused out
    without_token : out.0.status ≡ 401 → out.1 ≡ w → Refused out
    bad_token : (raw : Bytes) → out.0.status ≡ 401 → out.1 ≡ (parse raw w).1 → Refused out
    wrong_role : (raw : Bytes) → out.0.status ≡ 403 → out.1 ≡ (parse raw w).1 → Refused out

  abbrev pub Admitted : Need → Response × W → Type 0
  Admitted anyone out = Unit {0}
  Admitted signed out = Refused out ⊎ ((i : Identity) × Identified i)
  Admitted administrator out = Refused out ⊎ ((i : Identity) × Identified i × (i.role ≡ admin))

  with_token-signed :
      (h : Handler W) (t : Option Bytes)
      → bearer_token (value_of (codes "Authorization") c.headers) ≡ t
      → Refused (with_token parse h c t w) ⊎ ((i : Identity) × Identified i)
  unfolding with_token with_identity reply_error json
  with_token-signed h none e = inl (without_token refl refl)
  with_token-signed h (some raw) e = with_identity-signed (parse raw w).0 refl
    where
      with_identity-signed :
          (r : Result Identity)
          → (parse raw w).0 ≡ r
          → Refused (with_identity parse h c (r, (parse raw w).1)) ⊎ ((i : Identity) × Identified i)
      with_identity-signed (err x) k = inl (bad_token raw refl refl)
      with_identity-signed (ok i) k = inr (i, record { token = raw; sent = e; accepted = k })

  with_token-administrator :
      (h : Handler W) (t : Option Bytes)
      → bearer_token (value_of (codes "Authorization") c.headers) ≡ t
      → Refused (with_token parse (require_role (admin ∷ []) h) c t w)
        ⊎ ((i : Identity) × Identified i × (i.role ≡ admin))
  unfolding with_token with_identity reply_error json require_role checked_role same_role
  with_token-administrator h none e = inl (without_token refl refl)
  with_token-administrator h (some raw) e = by_identity (parse raw w).0 refl
    where
      by_role :
          (i : Identity) (role : Role)
          → i.role ≡ role
          → (parse raw w).0 ≡ ok i
          → Refused (
              if same_role i.role admin || false
              then h (record c { caller = some i.user_id; role = some i.role }) (parse raw w).1
              else (
                reply_error 403 forbidden "This action requires a different role",
                (parse raw w).1,
              ))
            ⊎ ((i : Identity) × Identified i × (i.role ≡ admin))
      by_role i user e k = rw e (inl (wrong_role raw refl refl))
      by_role i admin e' k = inr (i, record { token = raw; sent = e; accepted = k }, e')

      by_identity :
          (r : Result Identity)
          → (parse raw w).0 ≡ r
          → Refused (with_identity parse (require_role (admin ∷ []) h) c (r, (parse raw w).1))
            ⊎ ((i : Identity) × Identified i × (i.role ≡ admin))
      by_identity (err x) k = inl (bad_token raw refl refl)
      by_identity (ok i) k = by_role i i.role refl k

  not_found-Admitted : (n : Need) → Admitted n (no_route c w)
  not_found-Admitted anyone = tt
  not_found-Admitted signed = inl (unknown refl)
  not_found-Admitted administrator = inl (unknown refl)

  run_guards-Admitted :
      (n : Need) (gs : List Guard) (h : Handler W)
      → fits n gs ≡ true
      → Admitted n (run_guards parse gs h c w)
  unfolding fits run_guards require_auth
  run_guards-Admitted anyone gs h e = tt
  run_guards-Admitted signed (signed_in ∷ []) h e = with_token-signed h _ refl
  run_guards-Admitted administrator (signed_in ∷ with_role (admin ∷ []) ∷ []) h e =
      with_token-administrator h _ refl
  run_guards-Admitted n gs h e = absurd (cc)

  dispatch-Admitted :
      (rs : List (Route W))
      → all route_fits rs ≡ true
      → Admitted (needs c.path) (dispatch parse no_route rs c w)
  unfolding dispatch
  dispatch-Admitted [] h = not_found-Admitted (needs c.path)
  dispatch-Admitted (r ∷ rs) h = elim (Bool-cases (route_fits r)) [
    | inr unfit ↦ absurd (let k = rw unfit at h in cc)
    | inl fit ↦
        let rest = dispatch-Admitted rs (rw fit at h) in
        elim (Bool-cases (bytes_eq r.method c.method)) [
          | inr other ↦ rw other rest
          | inl same ↦ elim (Bool-cases (bytes_eq r.path c.path)) [
            | inr elsewhere ↦ rw (same, elsewhere) rest
            | inl here ↦
                let need : needs r.path ≡ needs c.path =
                  ap needs ((bytes_eq_iff r.path c.path).0 here) in
                rw (same, here)
                  (run_guards-Admitted (needs c.path) r.guards r.handler
                    (rw (sym need) (unfold route_fits in fit)))
          ]
        ]
  ]

module _ {W : Type 0} where
  -- Whatever is wired: a request to a path under /api/v1/admin/ reaches a handler only with a token that the
  -- parser accepts for the role admin, and one to the events, the statistics or /api/v1/auth/me only with a
  -- token that it accepts. Else the path is unknown, or the answer is 401 or 403 and only the parser has run.
  pub routes-Admitted :
      (d : Deps W) (c : Request) (w : W)
      → Admitted
          (guard_of d.guard)
          d.no_route
          c
          w
          (needs c.path)
          (dispatch (guard_of d.guard) d.no_route (routes d) c w)
  routes-Admitted d c w =
      dispatch-Admitted (guard_of d.guard) d.no_route c w (routes d) (routes-fits d)
