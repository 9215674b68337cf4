-- ===== src/Entry/Dispatch/Marks.antt =====
-- internal/entry/handler.go: `advanceOperation` to DISPATCHED succeeds once for an operation.
use updater_service.Base.{
  ℕ, String, ◌≡◌, ◌≢◌, ◌≤◌, ◌<◌, refl, Bool, true, false, List, Outcome, served, refused, lost,
  arith, ◌==◌, string_eq, if◌then◌else◌, ◌>>=◌, ok, err, Result, inl, inr, Act, Preserves, Ensures,
  Post, ◌&&◌, ◌⊎◌, suc, length, Ensures-bind, Ensures-weaken, Ensures-keeps, select-IsAt,
  select-update, IsKeyed, affected_keyed, pure, ap,
}
use updater_service.Operation.{Time, Operation, dispatched}
use updater_service.Operation.Repository
use updater_service.Operation.Repository.{Operations, key}
use updater_service.Operation.Progress.{stage, rows-get}
use updater_service.Operation.History.{history, stage-history, history-IsKeyed}
use updater_service.Message.{UpdateCommand}
use updater_service.Node.{status_eq as node_status_eq}
use updater_service.Node.Repository.{Nodes}
use updater_service.Entry.State.{World, Env, op_statement, node_statement, publish_command}
use updater_service.Entry.{advance_operation}

-- An update to DISPATCHED changes nothing once the operation is dispatched or further.
advance_sent :
    (o : Outcome) (t : Time) (k : String) (rows : Operations)
    → IsKeyed key rows
    → 3 ≤ stage k rows
    → (Repository.advance_status o t k dispatched rows).0 ≢ ok true
unfolding Repository.advance_status Repository.status_rank Repository.may_advance
    Repository.case_rank Repository.case_final ◌>>=◌
advance_sent o t k rows keyed h e = ground (
  arith,
  h,
  e,
  affected_keyed key (λ op. Repository.may_advance op.status 1 dispatched)
      (Repository.set_status dispatched t) Repository.same_row k rows keyed,
)

advance_marks :
    (o : Outcome) (t : Time) (k : String) (rows : Operations)
    → IsKeyed key rows
    → (Repository.advance_status o t k dispatched rows).0 ≡ ok true
    → 3 ≤ stage k (Repository.advance_status o t k dispatched rows).1
unfolding Repository.advance_status Repository.status_rank Repository.may_advance
    Repository.case_rank Repository.case_final Repository.set_status ◌>>=◌
advance_marks o t k rows keyed e =
    let test = λ (op : Operation). op.id == k && Repository.may_advance op.status 1 dispatched in
    ground (
      arith,
      e,
      select-IsAt key k rows,
      affected_keyed key (λ op. Repository.may_advance op.status 1 dispatched)
          (Repository.set_status dispatched t) Repository.same_row k rows keyed,
      select-update key test (Repository.set_status dispatched t) k rows (λ r. refl),
    )

module _ (env : Env) (k : String) (l : List (String × UpdateCommand)) (n : ℕ) where
  -- Nothing was sent since the list was `l`, and the operation is as far along as `n`.
  abbrev pub IsQuiet : World → Type 0
  IsQuiet w = IsKeyed key w.ops × (w.sent ≡ l) × n ≤ stage k w.ops

  -- At most one command was sent, and then the operation was not marked and is now.
  abbrev pub Marked : World → Type 0
  Marked w = 3 ≤ stage k w.ops × n < 3

  abbrev pub IsMarked : World → Type 0
  IsMarked w = (w.sent ≡ l) ⊎ ((length w.sent ≡ suc (length l)) × Marked w)

  abbrev pub Advanced : Bool → World → Type 0
  Advanced b w = (w.sent ≡ l) × (b ≡ true → Marked w)

  pub IsQuiet-nodes :
      {A : Type 0} (m : Outcome → Time → Act Nodes A) → Preserves IsQuiet (node_statement env m)
  unfolding node_statement
  IsQuiet-nodes m = record { at = λ w h. h }

  advancing :
      Ensures IsQuiet
        (op_statement env (λ o t. Repository.advance_status o t k dispatched))
        Advanced
        (λ w. w.sent ≡ l)
  unfolding op_statement
  advancing = record {
    at = λ w h.
        let rows = history (env.others w.calls) w.ops in
        by_result w h
          (Repository.advance_status (env.db w.calls) (env.clock w.calls) k dispatched rows).0 refl;
  }
    where
      by_result :
          (w : World)
          → IsQuiet w
          → (r : Result Bool)
          → (Repository.advance_status
              (env.db w.calls)
              (env.clock w.calls)
              k
              dispatched
              (history (env.others w.calls) w.ops)).0
            ≡ r
          → Post Advanced
              (λ w. w.sent ≡ l)
              (op_statement env (λ o t. Repository.advance_status o t k dispatched) w)
      by_result w h (ok false) e = rw e (h.1, λ q. absurd (ground (arith, q)))
      by_result w h (ok true) e =
          let rows = history (env.others w.calls) w.ops in
          let keyed = history-IsKeyed (env.others w.calls) w.ops h.0 in
          let fresh = advance_sent (env.db w.calls) (env.clock w.calls) k rows keyed in
          rw e (
            h.1,
            λ q. (
              advance_marks _ _ k rows keyed e,
              ground (arith, fresh, e, h.2, stage-history (env.others w.calls) k w.ops),
            ),
          )
      by_result w h (err x) e = rw e h.1

  get-Advanced : Preserves (Advanced true) (op_statement env (λ o _. Repository.get o k))
  unfolding op_statement
  get-Advanced = record {
    at = λ w h.
        let rows = history (env.others w.calls) w.ops in
        (
          h.0,
          λ q.
              let before = h.1 q in
              (
                ground (
                  arith,
                  before.0,
                  stage-history (env.others w.calls) k w.ops,
                  rows-get (env.db w.calls) k rows,
                ),
                before.1,
              ),
        );
  }

  pub advancing_operation :
      Ensures IsQuiet (advance_operation env k dispatched) Advanced (λ w. w.sent ≡ l)
  unfolding advance_operation pure
  advancing_operation = Ensures-bind advancing by_answer
    where
      by_answer :
          (b : Bool)
          → Ensures
              (Advanced b)
              (if b
                then (do op ← op_statement env (λ o _. Repository.get o k); pure true)
                else pure false)
              Advanced
              (λ w. w.sent ≡ l)
      by_answer false = record { at = λ w h. h }
      by_answer true =
          Ensures-bind
            (Ensures-weaken {E = λ w. w.sent ≡ l} (Ensures-keeps get-Advanced) (λ w h. h)
              (λ a w h. h) (λ w h. h.0))
            (λ _. record { at = λ w h. h })

  pub publishing :
      (subject : String) (c : UpdateCommand)
      → Ensures
          (λ w. (w.sent ≡ l) × Marked w)
          (publish_command env subject c)
          (λ _. IsMarked)
          IsMarked
  unfolding publish_command
  publishing subject c = record { at = λ w h. by_outcome w (env.nats w.calls) refl h }
    where
      by_outcome :
          (w : World) (o : Outcome)
          → env.nats w.calls ≡ o
          → (w.sent ≡ l) × Marked w
          → Post (λ _. IsMarked) IsMarked (publish_command env subject c w)
      by_outcome w served e h = rw e (inr (ap (λ x. suc (length x)) h.0, h.1))
      by_outcome w (refused x) e h = rw e (inl h.0)
      by_outcome w (lost x) e h = rw e (inr (ap (λ x. suc (length x)) h.0, h.1))
