-- ===== src/System/Access.antt =====
-- The listing of events from the handler down to the table: whose events a page shows.
use activity_events_api.Prelude.{
  ℕ, zero, suc, ◌≡◌, refl, sym, ap, ◌∙◌, Bool, true, false, inl, inr, Bool-cases, Option, none,
  some, List, [], ◌∷◌, Result, ok, err, ◌>>=◌, lift, gets, pure, Error, All, take, filterb, length,
  ◌==◌, if◌then◌else◌, then_ok, not, ==_iff,
}
use activity_events_api.Prelude.Sequence.{bind-Sequenced, ok_of_pure}
use activity_events_api.Prelude.Int.{ℤ}
use activity_events_api.Go.Text.{Bytes}
use activity_events_api.Go.Clock.{Time}
use activity_events_api.Models.Event.{Event}
use activity_events_api.Repository.Db.{Db, statement}
use activity_events_api.Repository.Event.{EventFilter, matches, select_events, list}
use activity_events_api.Repository.Event.Order.{All-order_by_newest}
use activity_events_api.Service.Event.{EventDeps}
use activity_events_api.Service.Event as EventService
use activity_events_api.Service.Event.Page.{
  EventQuery, EventPage, filter_of, page_of, in_order, cursor_of_query, with_cursor,
}
use activity_events_api.Handler.Dto.{EventPageResponse, Formats}
use activity_events_api.Handler.Reply.{Request, page}
use activity_events_api.Handler.Event.{list_events}
use activity_events_api.Handler.Access.{IsOwn, Shown, list_events-Shown}
use activity_events_api.System.{World, in_db, event_deps}
use activity_events_api.System.Api.{event_api}

Owned : ℕ → List Event → Type 0
Owned user es = All (λ e. e.user_id ≡ user) es

Owned-take : (user n : ℕ) (es : List Event) → Owned user es → Owned user (take n es)
unfolding Owned
Owned-take user zero es h = tt
Owned-take user (suc n) [] h = tt
Owned-take user (suc n) (e ∷ es) h = (h.0, Owned-take user n es h.1)

matches-user : (f : EventFilter) (e : Event) → matches f e ≡ true → e.user_id ≡ f.user_id
unfolding matches
matches-user f e h = elim (Bool-cases (e.user_id == f.user_id)) [
  | inl c ↦ (==_iff _ _).0 c
  | inr c ↦ absurd (let k = rw c at h in cc)
]

Owned-filterb : (f : EventFilter) (es : List Event) → Owned f.user_id (filterb (matches f) es)
unfolding Owned
Owned-filterb f [] = tt
Owned-filterb f (e ∷ es) = elim (Bool-cases (matches f e)) [
  | inl c ↦ rw c (matches-user f e c, Owned-filterb f es)
  | inr c ↦ rw c (Owned-filterb f es)
]

select_events-Owned : (f : EventFilter) (rows : List Event) → Owned f.user_id (select_events f rows)
unfolding select_events Owned
select_events-Owned f rows = Owned-take f.user_id f.limit _ (
    All-order_by_newest (λ e. e.user_id ≡ f.user_id) (filterb (matches f) rows)
      (Owned-filterb f rows))

page_of-Owned : (user n : ℕ) (es : List Event) → Owned user es → Owned user (page_of n es).items
unfolding page_of
page_of-Owned user n es h = elim (Bool-cases (length es == n)) [
  | inl c ↦ rw c (Owned-take user _ es h)
  | inr c ↦ rw c h
]

with_cursor-user : (f : EventFilter) (c : Option (Time × ℤ)) → (with_cursor f c).user_id ≡ f.user_id
unfolding with_cursor
with_cursor-user f none = refl
with_cursor-user f (some (t, i)) = refl

made_from :
    (f g : EventFilter) (ordered : Bool) (c : Result (Option (Time × ℤ))) (e : Error)
    → (if not ordered then err e else then_ok c (λ c. ok (with_cursor f c))) ≡ ok g
    → g.user_id ≡ f.user_id
made_from f g false c x h = absurd (cc)
made_from f g true (err e) x h = absurd (cc)
made_from f g true (ok c) x h =
    let same : with_cursor f c ≡ g = cc in
    ap (λ (g : EventFilter). g.user_id) (sym same) ∙ with_cursor-user f c

filter_of-user : (q : EventQuery) (f : EventFilter) → filter_of q ≡ ok f → f.user_id ≡ q.user_id
unfolding filter_of
filter_of-user q f h = made_from _ f (in_order q.from q.to) (cursor_of_query q.cursor) _ h

list-Owned :
    (f : EventFilter) (db : Db) (es : List Event) → (list f db).0 ≡ ok es → Owned f.user_id es
unfolding list
list-Owned f db es h =
    let answer = ap (λ (r : Result (List Event)). (r, (list f db).1)) h in
    let s = bind-Sequenced statement (λ _. gets (λ db. select_events f db.events)) db es _ answer in
    rw (sym (ok_of_pure (select_events f s.between.events) es s.between _ s.second))
      (select_events-Owned f s.between.events)

module _ (jsonb_object : Bytes → Option Bytes) (unmarshals : Bytes → Bool) where
  deps : EventDeps World
  deps = event_deps jsonb_object unmarshals

  listed-Owned :
      (f : EventFilter) (w w' : World) (p : EventPage)
      → (deps.list f >>= λ events. pure (page_of f.limit events)) w ≡ (ok p, w')
      → Owned f.user_id p.items
  unfolding deps event_deps in_db
  listed-Owned f w w' p h =
      let s = bind-Sequenced (deps.list f) (λ events. pure (page_of f.limit events)) w p w' h in
      rw (sym (ok_of_pure (page_of f.limit s.value) p s.between w' s.second)) (
        page_of-Owned f.user_id f.limit s.value
          (list-Owned f w.db s.value (ap (λ (a : Result (List Event) × World). a.0) s.first)))

  deps-IsOwn : IsOwn (event_api deps)
  unfolding event_api EventService.list_events Owned
  deps-IsOwn = record {
    own = λ q w w' p h.
        let s =
          bind-Sequenced (lift (filter_of q))
            (λ f. deps.list f >>= λ events. pure (page_of f.limit events)) w p w' h in
        let asked =
          filter_of-user q s.value (ap (λ (a : Result EventFilter × World). a.0) s.first) in
        rw (sym asked) (listed-Owned s.value s.between w' p s.second);
  }

  -- For a caller who is known, over the services and the tables: a page that the handler of the listing
  -- answers holds only events of the user that it names, who is the caller, or the caller is an admin.
  pub list_events-page :
      (formats : Formats) (c : Request) (self : ℕ) (w : World) (p : EventPageResponse)
      → c.caller ≡ some self
      → (list_events (event_api (event_deps jsonb_object unmarshals)) formats c w).0.body ≡ page p
      → Shown c self p
  unfolding deps
  list_events-page formats c self w p known answered =
      list_events-Shown (event_api deps) deps-IsOwn c self formats w p known answered
