-- ===== src/Base/Table.antt =====
-- An SQL table as the list of its rows, each under its primary key. An UPDATE reports the rows that
-- it changed, as MariaDB does for a connection opened without `clientFoundRows`: a row that the
-- WHERE clause selects and that already holds the new values is not counted.
use Prim.Native.Nat.{ℕ, ◌+◌}
use Prim.Native.String.{String}
use mathlib.Core.Path.{◌≡◌, refl}
use mathlib.Core.Bool.{Bool, ◌&&◌, not}
use mathlib.Core.Option.{Option, none, some}
use mathlib.Core.List.{List, [], ◌∷◌, ◌++◌}
use native.Mathlib.Omega.{arith}
use updater_service.Base.Tests.{if◌then◌else◌}
use updater_service.Base.Equality.{◌==◌, string_eq}

module _ {ℓ} {Row : Type ℓ} where
  -- UPDATE … SET set WHERE test
  unfoldable pub update : (Row → Bool) → (Row → Row) → List Row → List Row
  update test set [] = []
  update test set (r ∷ rows) = (if test r then set r else r) ∷ update test set rows

  -- The rows that the update changes; `same old new` says that a row stays as it was.
  unfoldable pub affected : (Row → Bool) → (Row → Row) → (Row → Row → Bool) → List Row → ℕ
  affected test set same [] = 0
  affected test set same (r ∷ rows) =
      (if test r && not (same r (set r)) then 1 else 0) + affected test set same rows

module _ {ℓ} {Row : Type ℓ} (key : Row → String) where
  -- SELECT … WHERE key = ?
  unfoldable pub select : String → List Row → Option Row
  select k [] = none
  select k (r ∷ rows) = if key r == k then some r else select k rows

  -- No two rows share a primary key.
  abbrev pub IsKeyed : List Row → Type ℓ
  IsKeyed [] = Unit
  IsKeyed (r ∷ rows) = (select (key r) rows ≡ none) × IsKeyed rows

  -- The row that a SELECT finds has the key that it was asked for.
  abbrev pub IsAt : String → Option Row → Type 0
  IsAt k none = Unit
  IsAt k (some r) = key r ≡ k

  pub select-IsAt : (k : String) (rows : List Row) → IsAt k (select k rows)
  unfolding select
  select-IsAt k [] = tt
  select-IsAt k (r ∷ rows) = ground (arith, select-IsAt k rows)

  abbrev pub updated : (Row → Bool) → (Row → Row) → Option Row → Option Row
  updated test set none = none
  updated test set (some r) = some (if test r then set r else r)

  pub select-update :
      (test : Row → Bool) (set : Row → Row) (k : String) (rows : List Row)
      → ((r : Row) → key (set r) ≡ key r)
      → select k (update test set rows) ≡ updated test set (select k rows)
  unfolding select update
  select-update test set k [] keep = refl
  select-update test set k (r ∷ rows) keep =
      ground (arith, keep r, select-update test set k rows keep)

  pub update-IsKeyed :
      (test : Row → Bool) (set : Row → Row) (rows : List Row)
      → ((r : Row) → key (set r) ≡ key r)
      → IsKeyed rows
      → IsKeyed (update test set rows)
  unfolding update
  update-IsKeyed test set [] keep h = tt
  update-IsKeyed test set (r ∷ rows) keep h = (
    ground (arith, keep r, h.0, select-update test set (key r) rows keep),
    update-IsKeyed test set rows keep h.1,
  )

  pub select-append :
      (k : String) (rows : List Row) (r : Row)
      → select k (rows ++ r ∷ [])
        ≡ elim (select k rows) [ none ↦ if key r == k then some r else none | some q ↦ some q ]
  unfolding select
  select-append k [] r = refl
  select-append k (q ∷ rows) r = ground (arith, select-append k rows r)

  pub append-IsKeyed :
      (rows : List Row) (r : Row)
      → select (key r) rows ≡ none
      → IsKeyed rows
      → IsKeyed (rows ++ r ∷ [])
  unfolding select
  append-IsKeyed [] r fresh h = (refl, tt)
  append-IsKeyed (q ∷ rows) r fresh h =
      (ground (arith, h.0, select-append (key q) rows r), append-IsKeyed rows r (ground arith) h.1)

  pub affected_absent :
      (p : Row → Bool) (set : Row → Row) (same : Row → Row → Bool) (k : String) (rows : List Row)
      → select k rows ≡ none
      → affected (λ r. key r == k && p r) set same rows ≡ 0
  unfolding affected select
  affected_absent p set same k [] h = refl
  affected_absent p set same k (r ∷ rows) h = ground (arith, affected_absent p set same k rows)

  -- An update under a primary key changes one row at most.
  pub affected_keyed :
      (p : Row → Bool) (set : Row → Row) (same : Row → Row → Bool) (k : String) (rows : List Row)
      → IsKeyed rows
      → affected (λ r. key r == k && p r) set same rows
        ≡ elim (select k rows) [ none ↦ 0 | some r ↦ if p r && not (same r (set r)) then 1 else 0 ]
  unfolding affected select
  affected_keyed p set same k [] h = refl
  affected_keyed p set same k (r ∷ rows) h =
      ground (arith, affected_keyed p set same k rows, affected_absent p set same k rows)
