-- ===== src/Tests/Keys.antt =====
-- A token of one minute, and the cache of keys over two requests.
use activity_events_api.Prelude.{
  ◌+◌, ◌*◌, ◌≡◌, ◌≤◌, refl, sym, ap, Bool-cases, inl, inr, Bool, true, false, ◌&&◌, Option, none,
  some, arith, ok, ==_iff, ◌==◌, if◌then◌else◌,
}
use activity_events_api.Go.Text.{Bytes, codes, bytes_eq, bytes_eq_iff}
use activity_events_api.Go.Decimal.{format_int}
use activity_events_api.Go.Clock.{Time, hour, minute, second}
use activity_events_api.Models.User.{admin}
use activity_events_api.Auth.Jwt.{
  Claims, Manager, Library, IsFaithful, claims_for, issue, parse, numeric_date,
}
use activity_events_api.Auth.Jwt.RoundTrip.{parse-issue}
use activity_events_api.Auth.Keys.{
  new_verifier, Verifier, Readings, no_document, refresh_keys, jwks_ttl,
}
use activity_events_api.Auth.Keys.Spaced.{
  started, refreshed, Spaced, Reachable-Spaced, jwks_ttl_bounds,
}

abbrev manager : Manager
manager = record { secret = codes "s"; issuer = codes "api"; access_ttl = minute }

-- What is written for user 7, an admin, an hour into the first day.
abbrev written : Claims
written = claims_for manager 7 admin (codes "id") hour

same_claims : Claims → Claims → Bool
unfolding bytes_eq
same_claims c d =
    bytes_eq c.role d.role
    && (bytes_eq c.subject d.subject
        && (bytes_eq c.issuer d.issuer
            && (bytes_eq c.id d.id
                && ((c.issued_at == d.issued_at)
                    && ((c.not_before == d.not_before) && (c.expires_at == d.expires_at))))))

both : (a b : Bool) → a && b ≡ true → (a ≡ true) × (b ≡ true)
both true b h = (refl, h)
both false b h = absurd (cc)

same_claims-eq : (c d : Claims) → same_claims c d ≡ true → c ≡ d
unfolding same_claims
same_claims-eq c d h =
    let (h0, t0) = both (bytes_eq c.role d.role) _ h in
    let (h1, t1) = both (bytes_eq c.subject d.subject) _ t0 in
    let (h2, t2) = both (bytes_eq c.issuer d.issuer) _ t1 in
    let (h3, t3) = both (bytes_eq c.id d.id) _ t2 in
    let (h4, t4) = both (c.issued_at == d.issued_at) _ t3 in
    let (h5, h6) = both (c.not_before == d.not_before) _ t4 in
    let e0 = (bytes_eq_iff c.role d.role).0 h0 in
    let e1 = (bytes_eq_iff c.subject d.subject).0 h1 in
    let e2 = (bytes_eq_iff c.issuer d.issuer).0 h2 in
    let e3 = (bytes_eq_iff c.id d.id).0 h3 in
    let e4 = (==_iff c.issued_at d.issued_at).0 h4 in
    let e5 = (==_iff c.not_before d.not_before).0 h5 in
    let e6 = (==_iff c.expires_at d.expires_at).0 h6 in
    λ i. record {
      role = e0 i;
      subject = e1 i;
      issuer = e2 i;
      id = e3 i;
      issued_at = e4 i;
      not_before = e5 i;
      expires_at = e6 i;
    }

-- A library that signs these claims alone.
abbrev one_token : Library
one_token = record {
  sign = λ secret c. if same_claims c written then some (codes "token") else none;
  verify = λ secret issuer now raw. some written;
}

one_token-IsFaithful : IsFaithful one_token
one_token-IsFaithful = record {
  verifies = λ secret c raw now signed from until. elim (Bool-cases (same_claims c written)) [
    | inl same ↦ ap some (sym (same_claims-eq c written same))
    | inr other ↦ absurd (let nothing = rw other at signed in cc)
  ];
}

written-signed : same_claims written written ≡ true
unfolding same_claims claims_for format_int
written-signed = refl

token-issued :
    issue one_token manager 7 admin (codes "id") hour
    ≡ ok (record { token = codes "token"; expires_at = hour + minute })
unfolding issue
token-issued = rw written-signed refl

parse-issue_example :
    parse one_token manager (codes "token") (hour + second)
    ≡ ok (record { user_id = 7; role = admin })
parse-issue_example =
    parse-issue one_token manager 7 admin (codes "id") hour (hour + second)
      (record { token = codes "token"; expires_at = hour + minute }) one_token-IsFaithful
      (omega arith) (omega arith) token-issued (omega arith) (unfold numeric_date in omega arith)

jwks_ttl_bounds_example :
    (minute ≤ jwks_ttl (codes "public, max-age=9223372037"))
    × (jwks_ttl (codes "public, max-age=9223372037") ≤ 24 * hour)
jwks_ttl_bounds_example = jwks_ttl_bounds (codes "public, max-age=9223372037")

-- No padded text can be read.
abbrev no_padding : Bytes → Option Bytes
no_padding s = none

abbrev at : Time → Readings
at t = record { checked = t; scheduled = t; stored = t }

abbrev asked_twice : Verifier
asked_twice =
    (refresh_keys no_padding (at (2 * hour)) no_document
      (refresh_keys no_padding (at hour) no_document new_verifier).1).1

Reachable-Spaced_example : Spaced asked_twice.requests
Reachable-Spaced_example = Reachable-Spaced no_padding asked_twice (
    refreshed _ (at (2 * hour)) no_document (omega arith)
      (refreshed new_verifier (at hour) no_document (omega arith) started))
