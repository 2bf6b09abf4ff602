-- ===== src/Prelude/Sequence.antt =====
-- Sequences of calls that may fail: what a success says of the parts.
use mathlib.Core.Path.{◌≡◌, refl, ap}
use mathlib.Core.Bool.{Bool, true, false}
use activity_events_api.Prelude.Outcome.{Result, ok, err, Error, Exec, ◌>>=◌, continue}

-- A sequence that succeeds has succeeded in its first half.
pub record Sequenced {W A B : Type 0} (m : Exec W A) (f : A → Exec W B) (w : W) (b : B) (w' : W)
    : Type 0 where
  pub value : A
  pub between : W
  pub first : m w ≡ (ok value, between)
  pub second : f value between ≡ (ok b, w')

continue-Sequenced :
    {W A B : Type 0} (m : Exec W A) (f : A → Exec W B) (w : W) (r : Result A) (w1 : W) (b : B)
    (w' : W)
    → m w ≡ (r, w1)
    → continue r f w1 ≡ (ok b, w')
    → Sequenced m f w b w'
continue-Sequenced m f w (ok a) w1 b w' h k = record {
  value = a;
  between = w1;
  first = h;
  second = k;
}
continue-Sequenced m f w (err e) w1 b w' h k = absurd (let clash = ap (λ p. p.0) k in cc)

pub bind-Sequenced :
    {W A B : Type 0} (m : Exec W A) (f : A → Exec W B) (w : W) (b : B) (w' : W)
    → (m >>= f) w ≡ (ok b, w')
    → Sequenced m f w b w'
bind-Sequenced m f w b w' h = continue-Sequenced m f w (m w).0 (m w).1 b w' refl h

failed : {A : Type 0} → Result A → Bool
failed (ok a) = false
failed (err e) = true

pub no_answer :
    {W A : Type 0} (e : Error) (w w' : W) (a : A) → ¬ (◌≡◌ {A = Result A × W} (err e, w) (ok a, w'))
no_answer {W} {A} e w w' a h = let clash = ap (λ (p : Result A × W). failed p.0) h in cc

pub ok_of_pure :
    {W A : Type 0} (a b : A) (w w' : W) → ◌≡◌ {A = Result A × W} (ok a, w) (ok b, w') → a ≡ b
ok_of_pure {W} {A} a b w w' h = let answered = ap (λ (p : Result A × W). p.0) h in cc
