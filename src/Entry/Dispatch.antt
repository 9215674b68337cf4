-- ===== src/Entry/Dispatch.antt =====
-- An operation is sent to its worker at most once.
pub mod Marks
use updater_service.Base.{
  ℕ, String, ◌<>◌, ◌≡◌, ◌≢◌, ◌≤◌, ◌<◌, refl, Bool, true, false, List, Outcome, served, refused,
  lost, arith, ◌==◌, string_eq, if◌then◌else◌, ◌>>=◌, ok, err, Result, inl, inr, Act, Preserves,
  preserving, Ensures, ◌&&◌, ◌⊎◌, suc, length, Ensures-bind, Ensures-weaken, Ensures-keeps, IsKeyed,
  raise, on_result, text, node_unavailable,
}
use updater_service.Operation.{Time, Operation, FileMetadata, dispatched}
use updater_service.Operation.Repository
use updater_service.Operation.Repository.{Operations, key}
use updater_service.Operation.Progress.{stage, rows-get}
use updater_service.Operation.History.{
  history-IsKeyed, step-IsKeyed, step, advancing as advancing_event,
}
use updater_service.Message.{UpdateCommand, command_prefix}
use updater_service.Node.{Node, online, status_eq as node_status_eq}
use updater_service.Node.Repository.{Nodes}
use updater_service.Entry.State.{World, Env, op_statement, node_statement, publish_command}
use updater_service.Entry.{advance_operation, dispatch_operation, command_for}
use updater_service.Entry.Dispatch.Marks.{
  IsQuiet, IsMarked, Advanced, IsQuiet-nodes, advancing_operation, publishing,
}

module _ (env : Env) (op : Operation) (meta : FileMetadata) where
  dispatching :
      (l : List (String × UpdateCommand)) (n : ℕ)
      → Ensures
          (IsQuiet env op.id l n)
          (dispatch_operation env op meta)
          (λ _. IsMarked env op.id l n)
          (IsMarked env op.id l n)
  unfolding dispatch_operation raise
  dispatching l n =
      Ensures-bind
        (Ensures-weaken (Ensures-keeps (IsQuiet-nodes env op.id l n _)) (λ w h. h) (λ a w h. h)
          (λ w h. inl h.1))
        by_target
    where
      by_done :
          (target : Node) (b : Bool)
          → Ensures {A = Unit {0}}
              (Advanced env op.id l n b)
              (if b
                then publish_command env
                    (command_prefix <> op.node_id)
                    (command_for env op meta target)
                else raise (text ("operation " <> op.id <> " not dispatched")))
              (λ _. IsMarked env op.id l n)
              (IsMarked env op.id l n)
      by_done target true =
          Ensures-weaken (publishing env op.id l n _ _) (λ w h. (h.0, h.1 refl)) (λ a w h. h)
            (λ w h. h)
      by_done target false = record { at = λ w h. inl h.0 }

      by_online :
          (target : Node) (b : Bool)
          → Ensures {A = Unit {0}}
              (IsQuiet env op.id l n)
              (if b
                then (do
                  done ← advance_operation env op.id dispatched
                  if done
                      then publish_command env
                          (command_prefix <> op.node_id)
                          (command_for env op meta target)
                      else raise (text ("operation " <> op.id <> " not dispatched")))
                else raise node_unavailable)
              (λ _. IsMarked env op.id l n)
              (IsMarked env op.id l n)
      by_online target true =
          Ensures-bind
            (Ensures-weaken (advancing_operation env op.id l n) (λ w h. h) (λ a w h. h)
              (λ w h. inl h))
            (by_done target)
      by_online target false = record { at = λ w h. inl h.1 }

      by_target :
          (target : Node)
          → Ensures {A = Unit {0}}
              (IsQuiet env op.id l n)
              (if target.status == online
                then (do
                  done ← advance_operation env op.id dispatched
                  if done
                      then publish_command env
                          (command_prefix <> op.node_id)
                          (command_for env op meta target)
                      else raise (text ("operation " <> op.id <> " not dispatched")))
                else raise node_unavailable)
              (λ _. IsMarked env op.id l n)
              (IsMarked env op.id l n)
      by_target target = by_online target (target.status == online)

  statement-IsKeyed :
      {A : Type 0} (m : Outcome → Time → Act Operations A)
      → ((o : Outcome) (t : Time) (rows : Operations)
          → IsKeyed key rows
          → IsKeyed key (m o t rows).1)
      → Preserves (λ w. IsKeyed key w.ops) (op_statement env m)
  unfolding op_statement
  statement-IsKeyed m on = record {
    at = λ w h. on _ _ _ (history-IsKeyed (env.others w.calls) w.ops h);
  }

  node-IsKeyed :
      {A : Type 0} (m : Outcome → Time → Act Nodes A)
      → Preserves (λ w. IsKeyed key w.ops) (node_statement env m)
  unfolding node_statement
  node-IsKeyed m = record { at = λ w h. h }

  publish-IsKeyed :
      (subject : String) (c : UpdateCommand)
      → Preserves (λ w. IsKeyed key w.ops) (publish_command env subject c)
  unfolding publish_command
  publish-IsKeyed subject c = record { at = λ w h. by_outcome w (env.nats w.calls) refl h }
    where
      by_outcome :
          (w : World) (o : Outcome)
          → env.nats w.calls ≡ o
          → IsKeyed key w.ops
          → IsKeyed key (publish_command env subject c w).1.ops
      by_outcome w served e h = rw e h
      by_outcome w (refused x) e h = rw e h
      by_outcome w (lost x) e h = rw e h

  dispatch-IsKeyed : Preserves (λ w. IsKeyed key w.ops) (dispatch_operation env op meta)
  unfolding dispatch_operation advance_operation Repository.advance_status step
  dispatch-IsKeyed =
      let first =
        statement-IsKeyed (λ o t. Repository.advance_status o t op.id dispatched)
          (λ o t rows h. step-IsKeyed (advancing_event o t op.id dispatched) rows h) in
      let second =
        statement-IsKeyed (λ o _. Repository.get o op.id) (λ o t rows h. rw rows-get h) in
      search (preserving, node-IsKeyed, publish-IsKeyed) depth 14

-- When two uploads of one operation finish and dispatch it, one after the other, in whatever way
-- other processes change the table in between and whichever calls fail, at most one command is sent,
-- if no two rows share an id.
pub sent_once :
    (first second : Env) (op : Operation) (meta meta' : FileMetadata) (w : World)
    → IsKeyed key w.ops
    → length (dispatch_operation second op meta' (dispatch_operation first op meta w).1).1.sent
      ≤ suc (length w.sent)
sent_once first second op meta meta' w keyed =
    let v = (dispatch_operation first op meta w).1 in
    let one =
      marked (dispatch_operation first op meta w).0
        ((dispatching first op meta w.sent (stage op.id w.ops)).at w (keyed, refl, omega arith)) in
    let keyed' = (dispatch-IsKeyed first op meta).at w keyed in
    let two =
      marked (dispatch_operation second op meta' v).0 (
        (dispatching second op meta' v.sent (stage op.id v.ops)).at v
          (keyed', refl, omega arith)) in
    elim one [
      | inl same ↦ elim two [
        | inl same' ↦ rw (same', same) (omega arith)
        | inr grown ↦ rw (grown.0, same) (omega arith)
      ]
      | inr grown ↦ elim two [
        | inl same' ↦ rw (same', grown.0) (omega arith)
        | inr grown' ↦ absurd (omega (arith, grown.1.0, grown'.1.1))
      ]
    ]
  where
    marked : {T : Type 0} (r : Result (Unit {0})) → on_result r (λ _. T) (λ _. T) → T
    marked (ok a) t = t
    marked (err e) t = t
