-- ===== src/Service/Auth/Renewal.antt =====
-- What a refresh that succeeds must have checked and done.
use activity_events_api.Prelude.{
  ℕ, ◌≡◌, refl, sym, ap, false, inl, inr, Bool-cases, Result, ok, err, Error, service, repository,
  invalid_refresh_token, token_already_rotated, Exec, ◌>>=◌, catch, settle, raise, reading, pure,
  none, ◌+◌,
}
use activity_events_api.Go.Text.{Bytes}
use activity_events_api.Go.Clock.{Time}
use activity_events_api.Models.User.{User, RefreshToken, revoked, expired}
use activity_events_api.Service.Auth.{
  AuthDeps, ClientMeta, Session, when_missing, issue_session, new_refresh_token, after_rotation,
  renew, refresh_stored, refresh, revoke_compromised, text_ptr,
}
use activity_events_api.Prelude.Sequence.{bind-Sequenced, no_answer}
use activity_events_api.Service.Auth.Soundness.{issue_session-user}

made_of : Result (RefreshToken × Bytes) → RefreshToken → RefreshToken
made_of (ok (t, raw)) u = t
made_of (err e) u = u

module _ {W : Type 0} (d : AuthDeps W) where
  -- What stands behind a session that a refresh gave: the token is stored, is neither revoked nor expired,
  -- the session is its owner's, and the token was rotated into one of the same family and owner.
  pub record Refreshed (raw : Bytes) (w : W) (s : Session) : Type 0 where
    pub stored : RefreshToken
    pub next : RefreshToken
    pub before_rotation : W
    pub found : (d.by_hash (d.hash_token raw) w).0 ≡ ok stored
    pub live : revoked stored ≡ false
    pub in_time : expired stored (d.now (d.by_hash (d.hash_token raw) w).1).0 ≡ false
    pub owner : (d.by_id stored.user_id (d.now (d.by_hash (d.hash_token raw) w).1).1).0 ≡ ok s.user
    pub rotated : (d.rotate stored.id next before_rotation).0 ≡ ok tt
    pub same_family : next.family_id ≡ stored.family_id
    pub same_owner : next.user_id ≡ s.user.id

  record Renewed (stored : RefreshToken) (u : User) (s : Session) : Type 0 where
    next : RefreshToken
    before : W
    rotated : (d.rotate stored.id next before).0 ≡ ok tt
    same_family : next.family_id ≡ stored.family_id
    same_owner : next.user_id ≡ u.id
    for_user : s.user ≡ u

  record Made (uid family : ℕ) (t : RefreshToken) : Type 0 where
    of_family : t.family_id ≡ family
    of_user : t.user_id ≡ uid

  token_with : ℕ → ℕ → ClientMeta → Time → Bytes → Exec W (RefreshToken × Bytes)
  unfolding text_ptr
  token_with uid family meta now raw = reading d.new_uuid >>= λ id. pure (
    record {
      id = id;
      family_id = family;
      user_id = uid;
      token_hash = d.hash_token raw;
      user_agent = text_ptr meta.user_agent;
      ip = d.parse_ip meta.ip;
      created_at = 0;
      expires_at = now + d.refresh_ttl;
      revoked_at = none;
      replaced_by = none;
    },
    raw,
  )

  new_refresh_token-Made :
      (uid family : ℕ) (meta : ClientMeta) (now : Time) (w w' : W) (t : RefreshToken) (raw : Bytes)
      → new_refresh_token d uid family meta now w ≡ (ok (t, raw), w')
      → Made uid family t
  unfolding new_refresh_token made_of
  new_refresh_token-Made uid family meta now w w' t raw h =
      let drawn =
        bind-Sequenced d.random_token (token_with uid family meta now) w (t, raw) w'
          (unfold token_with in h) in
      let e : made_of (token_with uid family meta now drawn.value drawn.between).0 t ≡ t =
        ap (λ (p : Result (RefreshToken × Bytes) × W). made_of p.0 t) drawn.second in
      record {
        of_family = unfold token_with in sym (ap (λ x. x.family_id) e);
        of_user = unfold token_with in sym (ap (λ x. x.user_id) e);
      }

  after_rotation-fails :
      (stored : RefreshToken) (e : Error) (w w' : W) (s : Session)
      → ¬ (after_rotation d stored e w ≡ (ok s, w'))
  unfolding after_rotation
  after_rotation-fails stored (repository token_already_rotated) w w' s h =
      let tried =
        bind-Sequenced (revoke_compromised d stored) (λ _. raise (service invalid_refresh_token)) w
          s w' h in
      no_answer _ tried.between w' s tried.second
  after_rotation-fails stored e w w' s h = no_answer _ w w' s h

  rotation-Renewed :
      (stored t : RefreshToken) (raw : Bytes) (now : Time) (u : User) (w1 w2 w' : W)
      (r : Result (Unit {0})) (s : Session)
      → Made u.id stored.family_id t
      → d.rotate stored.id t w1 ≡ (r, w2)
      → settle r (λ _. issue_session d u raw now) (after_rotation d stored) w2 ≡ (ok s, w')
      → Renewed stored u s
  rotation-Renewed stored t raw now u w1 w2 w' (ok _) s made h k = record {
    next = t;
    before = w1;
    rotated = rw h refl;
    same_family = made.of_family;
    same_owner = made.of_user;
    for_user = issue_session-user d u raw now w2 w' s k;
  }
  rotation-Renewed stored t raw now u w1 w2 w' (err e) s made h k =
      absurd (after_rotation-fails stored e w2 w' s k)

  renew-Renewed :
      (stored : RefreshToken) (meta : ClientMeta) (now : Time) (u : User) (w w' : W) (s : Session)
      → renew d stored meta now u w ≡ (ok s, w')
      → Renewed stored u s
  unfolding renew
  renew-Renewed stored meta now u w w' s h =
      let made =
        bind-Sequenced (new_refresh_token d u.id stored.family_id meta now)
          (λ made.
            catch (d.rotate stored.id made.0) (λ _. issue_session d u made.1 now)
              (after_rotation d stored))
          w s w' h in
      rotation-Renewed stored made.value.0 made.value.1 now u made.between
        (d.rotate stored.id made.value.0 made.between).1 w'
        (d.rotate stored.id made.value.0 made.between).0 s
        (new_refresh_token-Made u.id stored.family_id meta now w made.between made.value.0
          made.value.1 made.first)
        refl made.second

  owner-Refreshed :
      (raw : Bytes) (meta : ClientMeta) (w w1 w2 w' : W) (stored : RefreshToken) (r : Result User)
      (s : Session)
      → d.by_hash (d.hash_token raw) w ≡ (ok stored, w1)
      → revoked stored ≡ false
      → expired stored (d.now w1).0 ≡ false
      → d.by_id stored.user_id (d.now w1).1 ≡ (r, w2)
      → settle r
          (renew d stored meta (d.now w1).0)
          (λ e. raise (when_missing (service invalid_refresh_token) e))
          w2
        ≡ (ok s, w')
      → Refreshed raw w s
  owner-Refreshed raw meta w w1 w2 w' stored (ok u) s found live in_time owner h =
      let done = renew-Renewed stored meta (d.now w1).0 u w2 w' s h in
      record {
        stored = stored;
        next = done.next;
        before_rotation = done.before;
        found = rw found refl;
        live = live;
        in_time = rw found in_time;
        owner = rw (found, owner, done.for_user) refl;
        rotated = done.rotated;
        same_family = done.same_family;
        same_owner = rw done.for_user done.same_owner;
      }
  owner-Refreshed raw meta w w1 w2 w' stored (err e) s found live in_time owner h =
      absurd (no_answer _ w2 w' s h)

  stored-Refreshed :
      (raw : Bytes) (meta : ClientMeta) (w w1 w' : W) (r : Result RefreshToken) (s : Session)
      → d.by_hash (d.hash_token raw) w ≡ (r, w1)
      → settle r
          (λ stored. reading d.now >>= refresh_stored d meta stored)
          (λ e. raise (when_missing (service invalid_refresh_token) e))
          w1
        ≡ (ok s, w')
      → Refreshed raw w s
  unfolding refresh_stored
  stored-Refreshed raw meta w w1 w' (err e) s found h = absurd (no_answer _ w1 w' s h)
  stored-Refreshed raw meta w w1 w' (ok stored) s found h = elim (Bool-cases (revoked stored)) [
    | inl used ↦ absurd (
        let tried =
          bind-Sequenced (revoke_compromised d stored) (λ _. raise (service invalid_refresh_token))
            (d.now w1).1 s w' (rw used at h) in
        no_answer _ tried.between w' s tried.second)
    | inr live ↦ elim (Bool-cases (expired stored (d.now w1).0)) [
      | inl late ↦ absurd (no_answer _ (d.now w1).1 w' s (rw (live, late) at h))
      | inr in_time ↦
          owner-Refreshed raw meta w w1 (d.by_id stored.user_id (d.now w1).1).1 w' stored
            (d.by_id stored.user_id (d.now w1).1).0 s found live in_time refl
            (rw (live, in_time) at h)
    ]
  ]

  -- A refresh that succeeds had a stored token, neither revoked nor expired; the session is that of the
  -- token's owner, and the token was rotated into one of the same family and owner.
  pub refresh-Refreshed :
      (raw : Bytes) (meta : ClientMeta) (w w' : W) (s : Session)
      → refresh d raw meta w ≡ (ok s, w')
      → Refreshed raw w s
  unfolding refresh
  refresh-Refreshed raw meta w w' s h =
      stored-Refreshed raw meta w (d.by_hash (d.hash_token raw) w).1 w'
        (d.by_hash (d.hash_token raw) w).0 s refl h
