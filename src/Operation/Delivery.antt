-- ===== src/Operation/Delivery.antt =====
-- Results arrive at the entry late, twice or out of order; each is one `AdvanceStatus`.
use updater_service.Base.{
  ℕ, suc, ap, sym, ◌∙◌, Option-cases, inl, inr, max, ◌≡◌, refl, String, ◌&&◌, Option, none, some,
  List, [], ◌∷◌, ◌==◌, string_eq, served, call, select, updated, select-IsAt, arith,
}
use mathlib.Core.List.{Perm, Permᴰ}
use mathlib.Core.Logic.{∥∥₁_elim}
use native.Mathlib.Nat.{ℕ_set}
use updater_service.Operation.{Time, Status, status_eq, Operation}
use updater_service.Operation.Repository.{
  Operations, key, status_rank, may_advance, set_status, exec, advance_status,
}
use updater_service.Operation.Progress.{
  level, stage_of, stage, select-exec, rows-advance_status, may_advance-level,
}

-- `AdvanceStatus` on the row that it finds.
abbrev advanced : String → Time → Status → Option Operation → Option Operation
advanced id now next row = elim (status_rank next) [
  | none ↦ row
  | some rank ↦
      updated key (λ op. op.id == id && may_advance op.status rank next) (set_status next now) row
]

select-advance_status :
    (now : Time) (id : String) (next : Status) (rows : Operations)
    → select key id (advance_status served now id next rows).1
      ≡ advanced id now next (select key id rows)
select-advance_status now id next rows = rw rows-advance_status (by_rank (status_rank next) refl)
  where
    by_rank :
        (r : Option ℕ)
        → status_rank next ≡ r
        → select key id (elim r [
          | none ↦ rows
          | some rank ↦
              (call served
                (exec (λ op. op.id == id && may_advance op.status rank next) next now)
                rows).1
        ])
          ≡ elim r [
            | none ↦ select key id rows
            | some rank ↦
                updated key
                  (λ op. op.id == id && may_advance op.status rank next)
                  (set_status next now)
                  (select key id rows)
          ]
    by_rank none e = refl
    by_rank (some rank) e = select-exec served _ next now id rows

level_of_no_rank : (next : Status) → status_rank next ≡ none → level next ≡ 0
unfolding status_rank
level_of_no_rank next e = ground arith

advanced-level :
    (now : Time) (id : String) (next : Status) (op : Operation)
    → op.id ≡ id
    → stage_of (advanced id now next (some op)) ≡ suc (max (level op.status) (level next))
unfolding set_status
advanced-level now id next op at = elim (Option-cases (status_rank next)) [
  | inl e ↦ ground (arith, e, level_of_no_rank next e)
  | inr (rank, e) ↦ ground (arith, e, at, may_advance-level op.status next rank e)
]

advance_found :
    (now : Time) (id : String) (next : Status) (rows : Operations) (op : Operation)
    → select key id rows ≡ some op
    → stage id (advance_status served now id next rows).1 ≡ suc (max (level op.status) (level next))
advance_found now id next rows op found =
    rw (select-advance_status, found)
      (advanced-level now id next op (ground (arith, select-IsAt key id rows)))

-- The results of one operation, as the entry receives them.
unfoldable pub deliver : String → List (Time × Status) → Operations → Operations
deliver id [] rows = rows
deliver id ((now, next) ∷ results) rows =
    deliver id results (advance_status served now id next rows).1

-- The furthest of a level and the results' levels.
abbrev pub furthest : ℕ → List (Time × Status) → ℕ
furthest n [] = n
furthest n ((_, next) ∷ results) = max (level next) (furthest n results)

furthest_max :
    (n m : ℕ) (results : List (Time × Status))
    → furthest (max n m) results ≡ max m (furthest n results)
furthest_max n m [] = omega arith
furthest_max n m ((t, next) ∷ results) = omega (arith, furthest_max n m results)

-- When the results of an operation have been delivered, in whatever order, it is as far along as the
-- furthest of them says, or as it was.
pub stage-deliver :
    (id : String) (results : List (Time × Status)) (rows : Operations) (op : Operation)
    → select key id rows ≡ some op
    → stage id (deliver id results rows) ≡ suc (furthest (level op.status) results)
unfolding deliver
stage-deliver id [] rows op found = rw found
stage-deliver id ((now, next) ∷ results) rows op found =
    let rows' = (advance_status served now id next rows).1 in
    elim (Option-cases (select key id rows')) [
      | inl gone ↦ absurd (ground (arith, gone, advance_found now id next rows op found))
      | inr (op', there) ↦
          stage-deliver id results rows' op' there
          ∙ ground (
            arith,
            there,
            advance_found now id next rows op found,
            furthest_max (level op.status) (level next) results,
          )
    ]

furthest-permᴰ :
    (n : ℕ) {xs ys : List (Time × Status)} → Permᴰ xs ys → furthest n xs ≡ furthest n ys
furthest-permᴰ n Permᴰ.nil = refl
furthest-permᴰ n (Permᴰ.cons e p) =
    omega (arith, ap (λ (r : Time × Status). level r.1) e, furthest-permᴰ n p)
furthest-permᴰ n (Permᴰ.swap e d) =
    omega (arith, ap (λ (r : Time × Status). level r.1) e, ap (λ (r : Time × Status). level r.1) d)
furthest-permᴰ n (Permᴰ.trans p q) = furthest-permᴰ n p ∙ furthest-permᴰ n q

-- The order in which the results of an operation arrive does not matter to how far it gets.
stage-deliver-perm :
    (id : String) (xs ys : List (Time × Status)) (rows : Operations) (op : Operation)
    → select key id rows ≡ some op
    → Perm xs ys
    → stage id (deliver id xs rows) ≡ stage id (deliver id ys rows)
stage-deliver-perm id xs ys rows op found p =
    stage-deliver id xs rows op found
    ∙ ap suc (∥∥₁_elim p (ℕ_set _ _) (furthest-permᴰ (level op.status)))
    ∙ sym (stage-deliver id ys rows op found)
