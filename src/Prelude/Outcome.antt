-- ===== src/Prelude/Outcome.antt =====
-- What a Go function that returns `(T, error)` hands back, and state passing for those with effects.
-- The sentinel errors are constructors, so `errors.Is(err, ErrX)` is a match; `%w` wrapping keeps the
-- sentinel, and the wrapped text is left out.

pub data RepositoryError : Type 0 where
  not_found email_taken google_sub_taken token_already_rotated bucket_locked : RepositoryError
  -- any failure of the connection or of a statement
  database : RepositoryError

pub data ServiceError : Type 0 where
  registered_email invalid_email invalid_credentials password_login_unavailable : ServiceError
  invalid_refresh_token invalid_google_token google_disabled google_email_unverified : ServiceError
  invalid_oauth_state invalid_exchange_code user_not_found : ServiceError
  invalid_event_type invalid_event_payload event_time_out_of_range : ServiceError
  invalid_idempotency_key duplicate_idempotency_key empty_batch batch_too_large : ServiceError
  invalid_cursor invalid_time_range bucket_not_closed stats_range_too_large : ServiceError

pub data AuthError : Type 0 where
  password_too_short password_too_long invalid_token : AuthError
  -- bcrypt, the random source or the signing of a token failed
  crypto : AuthError

pub data Error : Type 0 where
  repository : RepositoryError → Error
  service : ServiceError → Error
  auth : AuthError → Error

pub data Result {ℓ} (A : Type ℓ) : Type ℓ where
  ok : A → Result A
  err : Error → Result A

-- A call that may change the world `W` before it returns.
abbrev pub Exec {ℓ} : Type ℓ → Type ℓ → Type ℓ
Exec W A = W → Result A × W

module _ {ℓ} {W A : Type ℓ} where
  abbrev pub pure : A → Exec W A
  pure a w = (ok a, w)

  abbrev pub raise : Error → Exec W A
  raise e w = (err e, w)

  abbrev pub lift : Result A → Exec W A
  lift r w = (r, w)

  abbrev pub gets : (W → A) → Exec W A
  gets f w = (ok (f w), w)

module _ {ℓ} {W A B : Type ℓ} where
  abbrev pub continue : Result A → (A → Exec W B) → Exec W B
  continue (ok a) f w = f a w
  continue (err e) f w = (err e, w)

  infixl 5 ◌>>=◌ ◌>>◌
  abbrev pub ◌>>=◌ : Exec W A → (A → Exec W B) → Exec W B
  ◌>>=◌ m f w = continue (m w).0 f (m w).1

  abbrev pub ◌>>◌ : Exec W A → Exec W B → Exec W B
  m >> n = m >>= λ _. n

  abbrev pub settle : Result A → (A → Exec W B) → (Error → Exec W B) → Exec W B
  settle (ok a) f h w = f a w
  settle (err e) f h w = h e w

  -- `switch { case err == nil: … ; case errors.Is(err, …): … }`
  abbrev pub catch : Exec W A → (A → Exec W B) → (Error → Exec W B) → Exec W B
  catch m f h w = settle (m w).0 f h (m w).1

-- A step that cannot fail.
abbrev pub effect : {W : Type 0} → (W → W) → Exec W (Unit {0})
effect f w = (ok tt, f w)

module _ {ℓ} {A B : Type ℓ} where
  abbrev pub then_ok : Result A → (A → Result B) → Result B
  then_ok (ok a) f = f a
  then_ok (err e) f = err e

-- A clock: reading it cannot fail.
abbrev pub reading {ℓ} : {W A : Type ℓ} → (W → A × W) → Exec W A
reading f w = (ok (f w).0, (f w).1)
