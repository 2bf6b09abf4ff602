-- ===== src/Service/Auth/Soundness.antt =====
-- Who gets a session: what a login and a refresh that succeed must have checked.
use activity_events_api.Prelude.{
  ℕ, ◌≡◌, refl, sym, ap, true, inl, inr, Bool-cases, Result, ok, err, service, invalid_credentials,
  settle, lift, pure, ◌>>◌, raise,
}
use activity_events_api.Prelude.Sequence.{bind-Sequenced, no_answer}
use activity_events_api.Go.Text.{Bytes}
use activity_events_api.Models.User.{User, has_password}
use activity_events_api.Service.Auth.{
  AuthDeps, ClientMeta, Session, check_email, check_password, or_empty, when_missing, issue_session,
  session_of, new_refresh_token, start_session, log_in_user, login_normalized, login,
}

answered : Result Session → User → User
answered (ok s) u = s.user
answered (err e) u = u

module _ {W : Type 0} (d : AuthDeps W) where
  pub issue_session-user :
      (u : User) (raw : Bytes) (now : ℕ) (w w' : W) (s : Session)
      → issue_session d u raw now w ≡ (ok s, w')
      → s.user ≡ u
  unfolding issue_session session_of answered
  issue_session-user u raw now w w' s h = sym (
      ap (λ (p : Result Session × W). answered p.0 u)
        (bind-Sequenced (lift (d.issue u.id u.role now))
          (λ access. pure (session_of d u raw access)) w s w' h).second)

  start_session-user :
      (u : User) (meta : ClientMeta) (w w' : W) (s : Session)
      → start_session d u meta w ≡ (ok s, w')
      → s.user ≡ u
  unfolding start_session
  start_session-user u meta w w' s h =
      let now = d.now w in
      let family = d.new_uuid now.1 in
      let made =
        bind-Sequenced (new_refresh_token d u.id family.0 meta now.0)
          (λ made. d.create_token made.0 >> issue_session d u made.1 now.0) family.1 s w' h in
      let stored =
        bind-Sequenced (d.create_token made.value.0) (λ _. issue_session d u made.value.1 now.0)
          made.between s w' made.second in
      issue_session-user u made.value.1 now.0 stored.between w' s stored.second

  -- What stands behind a session that a login gave.
  pub record LoggedIn (email password : Bytes) (w : W) (s : Session) : Type 0 where
    pub normalized : Bytes
    pub valid : check_email email ≡ ok normalized
    pub found : (d.by_email normalized w).0 ≡ ok s.user
    pub with_password : has_password s.user ≡ true
    pub matched : check_password d (or_empty s.user.password_hash) password ≡ true

  logged_in :
      (email normalized password : Bytes) (meta : ClientMeta) (w w1 w' : W) (u : User) (s : Session)
      → check_email email ≡ ok normalized
      → d.by_email normalized w ≡ (ok u, w1)
      → log_in_user d password meta u w1 ≡ (ok s, w')
      → LoggedIn email password w s
  unfolding log_in_user
  logged_in email normalized password meta w w1 w' u s valid found h =
      elim (Bool-cases (has_password u)) [
        | inr without ↦ absurd (no_answer _ w1 w' s (rw without at h))
        | inl with_password ↦
            elim (Bool-cases (check_password d (or_empty u.password_hash) password)) [
              | inr wrong ↦ absurd (no_answer _ w1 w' s (rw (with_password, wrong) at h))
              | inl matched ↦
                  let same = start_session-user u meta w1 w' s (rw (with_password, matched) at h) in
                  record {
                    normalized = normalized;
                    valid = valid;
                    found = rw (found, same) refl;
                    with_password = rw same with_password;
                    matched = rw same matched;
                  }
            ]
      ]

  after_lookup :
      (email normalized password : Bytes) (meta : ClientMeta) (w w1 w' : W) (r : Result User)
      (s : Session)
      → check_email email ≡ ok normalized
      → d.by_email normalized w ≡ (r, w1)
      → settle r
          (log_in_user d password meta)
          (λ e. raise (when_missing (service invalid_credentials) e))
          w1
        ≡ (ok s, w')
      → LoggedIn email password w s
  after_lookup email normalized password meta w w1 w' (ok u) s valid found h =
      logged_in email normalized password meta w w1 w' u s valid found h
  after_lookup email normalized password meta w w1 w' (err e) s valid found h =
      absurd (no_answer _ w1 w' s h)

  after_check :
      (email password : Bytes) (meta : ClientMeta) (w w' : W) (r : Result Bytes) (s : Session)
      → check_email email ≡ r
      → login_normalized d r password meta w ≡ (ok s, w')
      → LoggedIn email password w s
  unfolding login_normalized
  after_check email password meta w w' (ok normalized) s valid h =
      after_lookup email normalized password meta w (d.by_email normalized w).1 w'
        (d.by_email normalized w).0 s valid refl h
  after_check email password meta w w' (err e) s valid h = absurd (no_answer _ w w' s h)

  -- A login that succeeds gives a session of the user whom the repository knows under the normalised
  -- email, who has a password, and whose password matches the one given.
  pub login-LoggedIn :
      (email password : Bytes) (meta : ClientMeta) (w w' : W) (s : Session)
      → login d email password meta w ≡ (ok s, w')
      → LoggedIn email password w s
  unfolding login
  login-LoggedIn email password meta w w' s h =
      after_check email password meta w w' (check_email email) s refl h
