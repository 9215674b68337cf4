-- ===== src/Base/Effects.antt =====
-- Functions that may return an error, and methods that change a state and may return one. What was
-- written before an error stays written, so the state comes back beside the error too.
use mathlib.Core.Path.{◌≡◌, refl}
use mathlib.Core.Logic.{◌⊎◌, inl, inr}
use mathlib.Core.Option.{Option, none, some}
use Prim.Native.String.{String}
use updater_service.Base.Errors.{Error, wrap}

pub data Result {ℓ} (A : Type ℓ) : Type ℓ where
  ok : A → Result A
  err : Error → Result A

pub Result-cases {ℓ} :
    {A : Type ℓ} (r : Result A) → ((a : A) × (r ≡ ok a)) ⊎ ((e : Error) × (r ≡ err e))
Result-cases (ok a) = inl (a, refl)
Result-cases (err e) = inr (e, refl)

abbrev pub on_result {ℓ κ} : {A : Type ℓ} {B : Type κ} → Result A → (Error → B) → (A → B) → B
on_result (ok a) f g = g a
on_result (err e) f g = f e

abbrev pub on_option {ℓ κ} : {A : Type ℓ} {B : Type κ} → Option A → B → (A → B) → B
on_option none b f = b
on_option (some a) b f = f a

abbrev pub map_result {ℓ κ} : {A : Type ℓ} {B : Type κ} → (A → B) → Result A → Result B
map_result f (ok a) = ok (f a)
map_result f (err e) = err e

abbrev pub Act {ℓ} : Type ℓ → Type ℓ → Type ℓ
Act S A = S → Result A × S

module _ {ℓ} {A S : Type ℓ} where
  unfoldable pub pure : A → Act S A
  pure value state = (ok value, state)

  unfoldable pub raise : Error → Act S A
  raise failure state = (err failure, state)

  -- `return …, err` for an error that may be nil
  unfoldable pub lift : Result A → Act S A
  lift answer state = (answer, state)

module _ {ℓ} {A B S : Type ℓ} where
  -- The rest of a block, which an error skips.
  abbrev pub continue : Result A → (A → Act S B) → Act S B
  continue (err failure) rest state = (err failure, state)
  continue (ok value) rest state = rest value state

  infixl 10 ◌>>=◌ ◌>>◌
  -- `pure`, `raise` and `lift` open together with it.
  unfoldable pub ◌>>=◌ : Act S A → (A → Act S B) → Act S B
  unfolding pure raise lift
  ◌>>=◌ action rest state = continue (action state).0 rest (action state).1

  abbrev pub ◌>>◌ : Act S A → Act S B → Act S B
  first >> second = first >>= λ _. second

-- How a call to a service outside the process ends: it is served, it fails with no effect, or it
-- takes effect and its reply is lost, so that the caller sees an error all the same.
pub data Outcome : Type 0 where
  served : Outcome
  refused : Error → Outcome
  lost : Error → Outcome

-- A call whose effect on the service's state is `f`.
abbrev pub call {ℓ} : {S A : Type ℓ} → Outcome → (S → A × S) → Act S A
call served f s = let (a, s') = f s in (ok a, s')
call (refused e) f s = (err e, s)
call (lost e) f s = (err e, (f s).1)

-- A call whose error the caller drops, and one whose error it handles itself.
abbrev pub ignore {ℓ} : {S A : Type ℓ} → Act S A → Act S (Unit {ℓ})
ignore m s = (ok tt, (m s).1)

abbrev pub attempt {ℓ} : {S A : Type ℓ} → Act S A → Act S (Result A)
attempt m s = let (r, s') = m s in (ok r, s')

-- fmt.Errorf("message: %w", err)
abbrev pub wrapping {ℓ} : {A : Type ℓ} → String → Result A → Result A
wrapping message (ok a) = ok a
wrapping message (err e) = err (wrap message e)

abbrev pub wrapped {ℓ} : {S A : Type ℓ} → String → Act S A → Act S A
wrapped message m s = let (r, s') = m s in (wrapping message r, s')
