-- ===== src/System/Sessions.antt =====
-- A refresh token that comes back after its use ends the whole family.
use activity_events_api.Prelude.{
  ℕ, ◌≡◌, refl, true, some, [], err, service, invalid_refresh_token, find, ◌==◌, if◌then◌else◌,
}
use activity_events_api.Go.Text.{Bytes, bytes_eq}
use activity_events_api.Models.User.{RefreshToken, revoked}
use activity_events_api.Repository.Db.Up.{statement_up}
use activity_events_api.Repository.Token.{by_hash, found_token, revoke_rows}
use activity_events_api.Repository.Token.Rotation.{live, live-revoke_rows, revoke_family_up}
use activity_events_api.Service.Auth.{
  AuthDeps, ClientMeta, refresh, refresh_stored, revoke_compromised,
}
use activity_events_api.System.{World, auth_deps, in_db, clock_now}

-- With the database up, a refresh with a token that stands revoked in the table is refused, and afterwards
-- no token of its family is live, while every other family has as many live tokens as before.
pub refresh_reused :
    (d : AuthDeps World) (raw : Bytes) (meta : ClientMeta) (w : World) (stored : RefreshToken)
    (f : ℕ)
    → w.db.faults ≡ []
    → find (λ t. bytes_eq t.token_hash (d.hash_token raw)) w.db.tokens ≡ some stored
    → revoked stored ≡ true
    → ((refresh (auth_deps d) raw meta w).0 ≡ err (service invalid_refresh_token))
      × (live f (refresh (auth_deps d) raw meta w).1.db.tokens
          ≡ (if f == stored.family_id then 0 else live f w.db.tokens))
unfolding refresh refresh_stored revoke_compromised auth_deps in_db clock_now by_hash found_token
refresh_reused d raw meta w stored f up found used = (
  rw (statement_up w.db up, found, used, revoke_family_up stored.family_id w.db up) refl,
  rw (statement_up w.db up, found, used, revoke_family_up stored.family_id w.db up)
      (unfold revoke_rows in live-revoke_rows f stored.family_id w.db.clock w.db.tokens),
)
