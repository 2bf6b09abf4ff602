-- ===== src/Auth/Jwt/RoundTrip.antt =====
-- An access token is accepted until it expires, and names the user and the role that it was issued for.
use activity_events_api.Prelude.{
  ℕ, zero, suc, ◌+◌, ◌^◌, ◌≤◌, ◌<◌, ◌≡◌, refl, sym, ap, Option, none, some, ok, arith,
}
use activity_events_api.Prelude.Int.{pos}
use activity_events_api.Go.Text.{Bytes, bytes_eq}
use activity_events_api.Go.Decimal.{parse_int-format_int}
use activity_events_api.Go.Clock.{Time}
use activity_events_api.Models.User.{Role, user, admin}
use activity_events_api.Service.Auth.{Access}
use activity_events_api.Auth.Jwt.{
  Manager, Library, IsFaithful, numeric_date, role_text, role_of, positive, user_id_of, claims_for,
  signed, identity, accepted, issue, parse,
}

role_of-role_text : (r : Role) → role_of (role_text r) ≡ some r
unfolding role_of role_text bytes_eq
role_of-role_text user = refl
role_of-role_text admin = refl

positive-pos : (n : ℕ) → 0 < n → positive (some (pos n)) ≡ some n
unfolding positive
positive-pos zero h = absurd (omega arith)
positive-pos (suc n) h = refl

user_id_of-claims_for :
    (m : Manager) (n : ℕ) (r : Role) (id : Bytes) (now : Time)
    → 0 < n
    → n < 2 ^ 63
    → user_id_of (claims_for m n r id now) ≡ some n
unfolding user_id_of claims_for
user_id_of-claims_for m n r id now low high =
    rw (parse_int-format_int (pos n) high) (positive-pos n low)

role-claims_for :
    (m : Manager) (n : ℕ) (r : Role) (id : Bytes) (now : Time)
    → role_of (claims_for m n r id now).role ≡ some r
unfolding claims_for
role-claims_for m n r id now = role_of-role_text r

not_before-claims_for :
    (m : Manager) (n : ℕ) (r : Role) (id : Bytes) (now later : Time)
    → now ≤ later
    → (claims_for m n r id now).not_before ≤ later
unfolding claims_for numeric_date
not_before-claims_for m n r id now later h = omega arith

expires_at-claims_for :
    (m : Manager) (n : ℕ) (r : Role) (id : Bytes) (now later : Time)
    → later < numeric_date (now + m.access_ttl)
    → later < (claims_for m n r id now).expires_at
unfolding claims_for
expires_at-claims_for m n r id now later h = h

ok_injective : {A : Type 0} {a b : A} → ok a ≡ ok b → a ≡ b
ok_injective {A} {a} {b} h = cc

signed-token :
    (expires_at : Time) (o : Option Bytes) (a : Access)
    → signed expires_at o ≡ ok a
    → (o ≡ some a.token) × (a.expires_at ≡ expires_at)
unfolding signed
signed-token expires_at none a h = absurd (cc)
signed-token expires_at (some raw) a h =
    let same = ok_injective h in
    (ap (λ (b : Access). some b.token) same, sym (ap (λ (b : Access). b.expires_at) same))

accepted-claims_for :
    (m : Manager) (n : ℕ) (r : Role) (id : Bytes) (now : Time)
    → 0 < n
    → n < 2 ^ 63
    → accepted (some (claims_for m n r id now)) ≡ ok (record { user_id = n; role = r })
unfolding accepted identity
accepted-claims_for m n r id now low high =
    rw (user_id_of-claims_for m n r id now low high, role-claims_for m n r id now) refl

-- With a library that is faithful, for a user id from 1 to the greatest int64: a token that was issued is
-- accepted from then on, until the second in which it expires begins, and names the user and the role.
pub parse-issue :
    (l : Library) (m : Manager) (n : ℕ) (r : Role) (id : Bytes) (now later : Time) (a : Access)
    → IsFaithful l
    → 0 < n
    → n < 2 ^ 63
    → issue l m n r id now ≡ ok a
    → now ≤ later
    → later < numeric_date a.expires_at
    → parse l m a.token later ≡ ok (record { user_id = n; role = r })
unfolding parse issue
parse-issue l m n r id now later a faithful low high issued from until =
    let s =
      signed-token (now + m.access_ttl) (l.sign m.secret (claims_for m n r id now)) a issued in
    rw
      (faithful.verifies m.secret (claims_for m n r id now) a.token later s.0
        (not_before-claims_for m n r id now later from)
        (expires_at-claims_for m n r id now later (rw (sym s.1) until)))
      (accepted-claims_for m n r id now low high)
