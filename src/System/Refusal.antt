-- ===== src/System/Refusal.antt =====
-- What is stored when the handlers of events answer that the request was at fault.
use activity_events_api.Prelude.{
  ℕ, ◌≡◌, ◌≤◌, ◌<◌, ◌⊎◌, refl, sym, Bool, true, false, inl, inr, Option, Result, ok, err, Error,
  repository, Exec, ◌>>=◌, pure, effect, continue, arith,
}
use activity_events_api.Go.Text.{Bytes}
use activity_events_api.Models.Event.{Event}
use activity_events_api.Repository.Db.{Db}
use activity_events_api.Repository.Event
use activity_events_api.Repository.Event.{
  insert_event, insert_row, scan_event, by_idempotency_key, existing_event, insert_all,
  after_refusal, type_check, conflicts, draw_id, row_of,
}
use activity_events_api.Service.Event.{EventDeps, EventInput, record_event, normalize, announce}
use activity_events_api.Handler.Dto.{EventRequest, to_input, Formats, new_event_response}
use activity_events_api.Handler.Reply.{
  Request, Response, Binding, bind_json, json, reply_error, current_user, proceed, Step, go, stop,
  event,
}
use activity_events_api.Handler.Event.{create, fail, answer, created_status, with_key}
use activity_events_api.System.{World, in_db, event_deps, clock_now}
use activity_events_api.System.Api.{event_api}
use activity_events_api.Repository.Event.Failures.{from_repository, Clean, create-Clean}

created_response : Event × Bool → Response
unfolding json created_status
created_response r = json (created_status r.1) (event (new_event_response r.0))

-- A value, or an error of the repository, or tables that are as before.
Kept : {A : Type 0} → Db → Result A × World → Type 0
Kept db (ok a, w) = Unit {0}
Kept db (err e, w) = (from_repository e ≡ true) ⊎ (w.db ≡ db)

-- A call that leaves the tables alone, whatever it gives.
Quiet : {A : Type 0} → Exec World A → Type 0
Quiet m = (w : World) → (m w).1.db ≡ w.db

continue-Quiet :
    {A B : Type 0} (r : Result A) (f : A → Exec World B) (w : World)
    → ((a : A) → Quiet (f a))
    → (continue r f w).1.db ≡ w.db
unfolding Quiet
continue-Quiet (ok a) f w h = h a w
continue-Quiet (err e) f w h = refl

continue-Kept :
    {A B : Type 0} (db : Db) (r : Result A) (f : A → Exec World B) (w : World)
    → w.db ≡ db
    → ((a : A) → Kept db (f a w))
    → Kept db (continue r f w)
unfolding Kept
continue-Kept db (ok a) f w same h = h a
continue-Kept db (err e) f w same h = inr same

proceed-client :
    {A : Type 0} (s : Step A) (f : A → World → Response × World) (w : World)
    → ((a : A) → 400 ≤ (f a w).0.status → (f a w).0.status < 500 → (f a w).1.db ≡ w.db)
    → 400 ≤ (proceed s f w).0.status
    → (proceed s f w).0.status < 500
    → (proceed s f w).1.db ≡ w.db
proceed-client (go a) f w h low high = h a low high
proceed-client (stop r) f w h low high = refl

module _ (jsonb : Bytes → Option Bytes) (unmarshals : Bytes → Bool) where
  deps : EventDeps World
  deps = event_deps jsonb unmarshals

  normalize-Quiet : (u : ℕ) (i : EventInput) → Quiet (normalize deps u i)
  unfolding Quiet normalize deps event_deps clock_now
  normalize-Quiet u i w = ground arith

  stored-Kept :
      (e : Event) (w : World)
      → Kept w.db
          ((deps.create e >>= λ result. effect (announce deps result) >>= λ _. pure result) w)
  unfolding deps event_deps in_db Kept Clean
  stored-Kept e w =
      settled (Event.create jsonb e w.db).0 (record w { db = (Event.create jsonb e w.db).1 })
        (create-Clean jsonb e w.db)
    where
      settled :
          (r : Result (Event × Bool)) (w' : World)
          → Clean r
          → Kept w.db (continue r (λ result. effect (announce deps result) >>= λ _. pure result) w')
      settled (ok a) w' h = tt
      settled (err e) w' h = inl h

  record_event-Kept : (u : ℕ) (i : EventInput) (w : World) → Kept w.db (record_event deps u i w)
  unfolding record_event Kept Quiet
  record_event-Kept u i w =
      continued (normalize deps u i w).0 (normalize deps u i w).1 (normalize-Quiet u i w)
    where
      continued :
          (r : Result Event) (w' : World)
          → w'.db ≡ w.db
          → Kept w.db (
              continue r
                (λ event. deps.create event >>= λ result.
                  effect (announce deps result) >>= λ _. pure result)
                w')
      continued (ok e) w' same = rw (sym same) (stored-Kept e w')
      continued (err e) w' same = inr same

  fail-client : (e : Error) → from_repository e ≡ true → (fail e).status ≡ 500
  unfolding from_repository fail reply_error json
  fail-client (repository e) h = refl
  fail-client e h = absurd (cc)

  answer-client :
      (db : Db) (out : Result (Event × Bool) × World)
      → Kept db out
      → 400 ≤ (answer created_response out).0.status
      → (answer created_response out).0.status < 500
      → (answer created_response out).1.db ≡ db
  unfolding Kept answer created_response created_status json
  answer-client db (ok (e, true), w) k low high = absurd (omega arith)
  answer-client db (ok (e, false), w) k low high = absurd (omega arith)
  answer-client db (err e, w) (inl r) low high = absurd (let five = fail-client e r in omega arith)
  answer-client db (err e, w) (inr same) low high = same

  -- Over the service and the tables, whatever statement fails: when the handler that stores an event
  -- answers with a status that blames the request (400 to 499), the tables are as before.
  pub create-client :
      (formats : Formats) (c : Request) (body : Binding EventRequest) (w : World)
      → 400 ≤ (create (event_api (event_deps jsonb unmarshals)) formats c body w).0.status
      → (create (event_api (event_deps jsonb unmarshals)) formats c body w).0.status < 500
      → (create (event_api (event_deps jsonb unmarshals)) formats c body w).1.db ≡ w.db
  unfolding create created_response event_api deps
  create-client formats c body w = proceed-client (current_user c) _ w λ user_id.
      proceed-client (bind_json body) _ w
        λ req. answer-client w.db _ (record_event-Kept user_id (to_input (with_key c req)) w)
