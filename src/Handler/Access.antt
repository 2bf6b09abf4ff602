-- ===== src/Handler/Access.antt =====
-- Whose activity the handlers of internal/handler/event.go show.
use activity_events_api.Prelude.{
  ℕ, zero, suc, ◌≡◌, ◌⊎◌, inl, inr, refl, sym, ap, Bool, true, false, Option, none, some, List, [],
  ◌∷◌, map, Result, ok, err, Error, repository, service, auth, All, registered_email, invalid_email,
  invalid_credentials, password_login_unavailable, invalid_refresh_token, invalid_google_token,
  google_disabled, google_email_unverified, invalid_oauth_state, invalid_exchange_code,
  user_not_found, invalid_event_type, invalid_event_payload, event_time_out_of_range,
  invalid_idempotency_key, duplicate_idempotency_key, empty_batch, batch_too_large, invalid_cursor,
  invalid_time_range, bucket_not_closed, stats_range_too_large, Bool-cases, ◌==◌,
}
use activity_events_api.Prelude.Int.{ℤ, pos, negsuc}
use activity_events_api.Go.Text.{Bytes, codes}
use Prim.Native.String.{String}
use activity_events_api.Go.Decimal.{parse_int}
use activity_events_api.Go.Clock.{Time}
use activity_events_api.Models.Event.{Event}
use activity_events_api.Models.User.{Role}
use activity_events_api.Service.Event.Page.{EventQuery, EventPage}
use activity_events_api.Handler.Dto.{
  EventPageResponse, Formats, new_event_response, new_event_page_response,
}
use activity_events_api.Handler.Reply.{
  Request, Response, Body, page, Step, go, stop, proceed, current_user, target_user, named_user,
  requested_user, other_user, is_admin, caller_or, read_time, parsed_time, read_limit, parsed_limit,
  limit_query, time_query, value_of, reply_error, json,
}
use activity_events_api.Handler.Event.{EventApi, fail, answer, list_events}

-- A listing answers with events of the user that the query names.
pub record IsOwn {W : Type 0} (api : EventApi W) : Type 0 where
  pub own :
      (q : EventQuery) (w w' : W) (p : EventPage)
      → api.list q w ≡ (ok p, w')
      → All (λ e. e.user_id ≡ q.user_id) p.items

is_page : Body → Bool
is_page (page p) = true
is_page _ = false

-- A step goes on with a value that satisfies `P`, or has answered with something else than a page.
Goes : {A : Type 0} → (A → Type 0) → Step A → Type 0
Goes P (go a) = P a
Goes P (stop r) = is_page r.body ≡ false

-- Whose activity a caller may ask for.
abbrev pub MayRead : Option Role → ℕ → ℕ → Type 0
MayRead role self target = (target ≡ self) ⊎ (is_admin role ≡ true)

other_user-Goes :
    (role : Option Role) (self requested : ℕ)
    → Goes (MayRead role self) (other_user role self requested)
unfolding other_user Goes reply_error json is_page
other_user-Goes role self requested = elim (Bool-cases (requested == self)) [
  | inl c ↦ rw c (inl refl)
  | inr c ↦ elim (Bool-cases (is_admin role)) [ inl d ↦ rw (c, d) (inr d) | inr d ↦ rw (c, d) refl ]
]

target_user-Goes : (c : Request) (self : ℕ) → Goes (MayRead c.role self) (target_user c self)
unfolding target_user named_user requested_user Goes reply_error json is_page
target_user-Goes c self = named_user-Goes c.role self (value_of (codes "user_id") c.query)
  where
    requested_user-Goes :
        (role : Option Role) (self : ℕ) (n : Option ℤ)
        → Goes (MayRead role self) (requested_user role self n)
    requested_user-Goes role self (some (pos (suc n))) = other_user-Goes role self (suc n)
    requested_user-Goes role self (some (pos zero)) = refl
    requested_user-Goes role self (some (negsuc n)) = refl
    requested_user-Goes role self none = refl

    named_user-Goes :
        (role : Option Role) (self : ℕ) (raw : Bytes)
        → Goes (MayRead role self) (named_user role self raw)
    named_user-Goes role self [] = inl refl
    named_user-Goes role self (b ∷ bs) = requested_user-Goes role self (parse_int (b ∷ bs))

limit_query-Goes : (c : Request) → Goes (λ _. Unit {0}) (limit_query c)
unfolding limit_query read_limit parsed_limit Goes reply_error json is_page
limit_query-Goes c = read_limit-Goes (value_of (codes "limit") c.query)
  where
    parsed_limit-Goes : (n : Option ℤ) → Goes (λ _. Unit {0}) (parsed_limit n)
    parsed_limit-Goes none = refl
    parsed_limit-Goes (some n) = tt

    read_limit-Goes : (raw : Bytes) → Goes (λ _. Unit {0}) (read_limit raw)
    read_limit-Goes [] = tt
    read_limit-Goes (b ∷ bs) = parsed_limit-Goes (parse_int (b ∷ bs))

time_query-Goes :
    (f : Formats) (c : Request) (key : Bytes) (message : String)
    → Goes (λ _. Unit {0}) (time_query f c key message)
unfolding time_query read_time parsed_time Goes reply_error json is_page
time_query-Goes f c key message = read_time-Goes (value_of key c.query)
  where
    parsed_time-Goes : (t : Option Time) → Goes (λ _. Unit {0}) (parsed_time message t)
    parsed_time-Goes none = refl
    parsed_time-Goes (some t) = tt

    read_time-Goes : (raw : Bytes) → Goes (λ _. Unit {0}) (read_time f message raw)
    read_time-Goes [] = tt
    read_time-Goes (b ∷ bs) = parsed_time-Goes (f.parse_rfc3339 (b ∷ bs))

-- A handler that answers with a page has gone on with a value of its step.
proceed-page :
    {W A : Type 0} {P : A → Type 0} {Q : Type 0} (s : Step A) (f : A → W → Response × W) (w : W)
    (p : EventPageResponse)
    → Goes P s
    → ((a : A) → P a → (f a w).0.body ≡ page p → Q)
    → (proceed s f w).0.body ≡ page p
    → Q
unfolding Goes is_page
proceed-page (go a) f w p g k h = k a g h
proceed-page (stop r) f w p g k h = absurd (let said = ap is_page h in cc)

current_user-Goes :
    (c : Request) (self : ℕ) → c.caller ≡ some self → Goes (λ u. u ≡ self) (current_user c)
unfolding current_user caller_or Goes
current_user-Goes c self h = rw h refl

fail-page : (e : Error) → is_page (fail e).body ≡ false
unfolding fail reply_error json is_page
fail-page (service registered_email) = refl
fail-page (service invalid_email) = refl
fail-page (service invalid_credentials) = refl
fail-page (service password_login_unavailable) = refl
fail-page (service invalid_refresh_token) = refl
fail-page (service invalid_google_token) = refl
fail-page (service google_disabled) = refl
fail-page (service google_email_unverified) = refl
fail-page (service invalid_oauth_state) = refl
fail-page (service invalid_exchange_code) = refl
fail-page (service user_not_found) = refl
fail-page (service invalid_event_type) = refl
fail-page (service invalid_event_payload) = refl
fail-page (service event_time_out_of_range) = refl
fail-page (service invalid_idempotency_key) = refl
fail-page (service duplicate_idempotency_key) = refl
fail-page (service empty_batch) = refl
fail-page (service batch_too_large) = refl
fail-page (service invalid_cursor) = refl
fail-page (service invalid_time_range) = refl
fail-page (service bucket_not_closed) = refl
fail-page (service stats_range_too_large) = refl
fail-page (repository e) = refl
fail-page (auth e) = refl

-- What a page that was answered shows.
pub record Shown (c : Request) (self : ℕ) (p : EventPageResponse) : Type 0 where
  pub events : List Event
  pub items : p.items ≡ map new_event_response events
  pub theirs : All (λ e. e.user_id ≡ p.user_id) events
  pub allowed : MayRead c.role self p.user_id

shown : EventPageResponse → Body → EventPageResponse
shown d (page p) = p
shown d _ = d

module _ {W : Type 0} (api : EventApi W) (own : IsOwn api) (c : Request) (self : ℕ) where
  answer-Shown :
      (q : EventQuery) (r : Result EventPage × W) (w : W) (p : EventPageResponse)
      → api.list q w ≡ r
      → MayRead c.role self q.user_id
      → (answer (λ p. json 200 (page (new_event_page_response q.user_id p))) r).0.body ≡ page p
      → Shown c self p
  unfolding answer json new_event_page_response shown is_page
  answer-Shown q (ok listed, w') w p h may answered =
      let same = ap (shown p) answered in
      rw (sym same) (record {
        events = listed.items;
        items = refl;
        theirs = own.own q w w' listed h;
        allowed = may;
      })
  answer-Shown q (err e, w') w p h may answered =
      absurd (let clash = fail-page e in let said = ap is_page answered in cc)

  -- A caller is known, and listings hold events of the user that they are asked for. Then a page that the
  -- handler answers holds events of the user that it names, who is the caller, or the caller is an admin.
  pub list_events-Shown :
      (formats : Formats) (w : W) (p : EventPageResponse)
      → c.caller ≡ some self
      → (list_events api formats c w).0.body ≡ page p
      → Shown c self p
  unfolding list_events
  list_events-Shown formats w p known =
      proceed-page (current_user c) _ w p (current_user-Goes c self known) λ u is_self.
        proceed-page (target_user c u) _ w p (target_user-Goes c u) λ target may.
          proceed-page (limit_query c) _ w p (limit_query-Goes c) λ limit _.
            proceed-page (time_query formats c (codes "from") "from must be an RFC 3339 timestamp")
              _ w p (time_query-Goes formats c (codes "from") "from must be an RFC 3339 timestamp")
              λ from _.
                proceed-page (time_query formats c (codes "to") "to must be an RFC 3339 timestamp")
                  _ w p (time_query-Goes formats c (codes "to") "to must be an RFC 3339 timestamp")
                  λ to _. answer-Shown _ _ w p refl (rw is_self at may)
