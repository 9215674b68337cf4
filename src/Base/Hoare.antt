-- ===== src/Base/Hoare.antt =====
-- What holds of a state before and after an action, with one rule for each way to build an action.
use mathlib.Core.Path.{◌≡◌}
use mathlib.Core.Bool.{Bool, true, false}
use mathlib.Core.Option.{Option, none, some}
use Prim.Native.String.{String}
use updater_service.Base.Tests.{if◌then◌else◌}
use mathlib.Core.Logic.{◌≢◌, ite}
use updater_service.Base.Equality.{◌==◌, string_eq, string_dec}
use updater_service.Base.Errors.{Error}
use updater_service.Base.Effects
use updater_service.Base.Effects.{
  Result, ok, err, Act, pure, raise, ignore, attempt, wrapped, on_result, on_option, ◌>>=◌,
}

-- `m` keeps `P`, whether it returns a value or an error.
pub record Preserves {ℓ} {S A : Type ℓ} (P : S → Type ℓ) (m : Act S A) : Type ℓ where
  pub at : (before : S) → P before → P (m before).1

module _ {ℓ} {A S : Type ℓ} {P : S → Type ℓ} where
  pub Preserves-pure : (a : A) → Preserves P (pure a)
  unfolding pure
  Preserves-pure a = record { at = λ before held. held }

  pub Preserves-raise : (e : Error) → Preserves P (raise {A = A} e)
  unfolding raise
  Preserves-raise e = record { at = λ before held. held }

  pub Preserves-ignore : (m : Act S A) → Preserves P m → Preserves P (ignore m)
  Preserves-ignore m k = record { at = k.at }

  pub Preserves-attempt : (m : Act S A) → Preserves P m → Preserves P (attempt m)
  Preserves-attempt m k = record { at = k.at }

  pub Preserves-wrapped :
      (message : String) (m : Act S A) → Preserves P m → Preserves P (wrapped message m)
  Preserves-wrapped message m k = record { at = k.at }

  pub Preserves-if :
      (b : Bool) (m n : Act S A) → Preserves P m → Preserves P n → Preserves P (if b then m else n)
  Preserves-if true m n km kn = km
  Preserves-if false m n km kn = kn

module _ {ℓ} {A B S : Type ℓ} {P : S → Type ℓ} where
  pub Preserves-on_result :
      (r : Result A) (f : Error → Act S B) (g : A → Act S B)
      → ((e : Error) → Preserves P (f e))
      → ((a : A) → Preserves P (g a))
      → Preserves P (on_result r f g)
  Preserves-on_result (ok a) f g kf kg = kg a
  Preserves-on_result (err e) f g kf kg = kf e

  pub Preserves-on_option :
      (o : Option A) (m : Act S B) (g : A → Act S B)
      → Preserves P m
      → ((a : A) → Preserves P (g a))
      → Preserves P (on_option o m g)
  Preserves-on_option none m g km kg = km
  Preserves-on_option (some a) m g km kg = kg a

  pub Preserves-bind :
      (m : Act S A) (f : A → Act S B)
      → Preserves P m
      → ((a : A) → Preserves P (f a))
      → Preserves P (m >>= f)
  unfolding ◌>>=◌
  Preserves-bind m f km kf = record {
    at = λ before held. by_result (m before).0 (m before).1 (km.at before held);
  }
    where
      by_result : (r : Result A) (t : S) → P t → P (Effects.continue r f t).1
      by_result (ok a) t h = (kf a).at t h
      by_result (err e) t h = h

pub ruleset preserving = (
  Preserves-pure, Preserves-raise, Preserves-ignore, Preserves-attempt, Preserves-wrapped,
  Preserves-if, Preserves-on_result, Preserves-on_option, Preserves-bind,
)

-- `m` run in a state with `P` ends with `Q a` if it returns `a`, and with `E` if it returns an error.
abbrev pub Post {ℓ} : {S A : Type ℓ} → (A → S → Type ℓ) → (S → Type ℓ) → Result A × S → Type ℓ
Post Q E (r, s) = on_result r (λ _. E s) (λ a. Q a s)

pub record Ensures {ℓ} {S A : Type ℓ} (P : S → Type ℓ) (m : Act S A) (Q : A → S → Type ℓ)
    (E : S → Type ℓ) : Type ℓ where
  pub at : (s : S) → P s → Post Q E (m s)

module _ {ℓ} {S A : Type ℓ} {P : S → Type ℓ} where
  pub Ensures-keeps : {m : Act S A} → Preserves P m → Ensures P m (λ _. P) P
  Ensures-keeps {m} k = record { at = λ s h. by_result (m s).0 (k.at s h) }
    where
      by_result : {T : Type ℓ} (r : Result A) → T → on_result r (λ _. T) (λ _. T)
      by_result (ok a) t = t
      by_result (err e) t = t

module _ {ℓ} {S A : Type ℓ} {P E : S → Type ℓ} {Q : A → S → Type ℓ} where
  pub Ensures-weaken :
      {m : Act S A} {P' E' : S → Type ℓ} {Q' : A → S → Type ℓ}
      → Ensures P' m Q' E'
      → ((s : S) → P s → P' s)
      → ((a : A) (s : S) → Q' a s → Q a s)
      → ((s : S) → E' s → E s)
      → Ensures P m Q E
  Ensures-weaken {m} {P'} {E'} {Q'} t p q e = record {
    at = λ s h. by_result (m s).0 (m s).1 (t.at s (p s h));
  }
    where
      by_result : (r : Result A) (s : S) → Post Q' E' (r, s) → Post Q E (r, s)
      by_result (ok a) s x = q a s x
      by_result (err x) s y = e s y

  -- An error that is handled in place leaves the state that it found.
  pub Ensures-attempt :
      {m : Act S A} {F : S → Type ℓ}
      → Ensures P m Q E
      → Ensures P (attempt m) (λ r s. Post Q E (r, s)) F
  Ensures-attempt t = record { at = t.at }

module _ {ℓ} {S A B : Type ℓ} {P E : S → Type ℓ} {R : A → S → Type ℓ} {Q : B → S → Type ℓ} where
  pub Ensures-bind :
      {m : Act S A} {f : A → Act S B}
      → Ensures P m R E
      → ((a : A) → Ensures (R a) (f a) Q E)
      → Ensures P (m >>= f) Q E
  unfolding ◌>>=◌
  Ensures-bind {m} {f} t u = record { at = λ s h. by_result (m s).0 (m s).1 (t.at s h) }
    where
      by_result : (r : Result A) (s : S) → Post R E (r, s) → Post Q E (Effects.continue r f s)
      by_result (ok a) s x = (u a).at s x
      by_result (err x) s y = y

-- What holds of both branches of a test for equality holds of the test.
pub on_equal {ℓ κ} :
    {A : Type ℓ} (P : A → Type κ) (x y : String) (a b : A)
    → (x ≡ y → P a)
    → (x ≢ y → P b)
    → P (if x == y then a else b)
on_equal P x y a b f g = elim (string_dec x y) as (λ d. P (if (ite d true false) then a else b)) [
  | yes e ↦ f e
  | no n ↦ g n
]
