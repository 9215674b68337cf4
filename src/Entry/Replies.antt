-- ===== src/Entry/Replies.antt =====
-- internal/entry: what the answers of the entry say of its tables.
use mathlib.Core.Path.{subst}
use updater_service.Base.{
  ℕ, String, ◌≡◌, ◌≢◌, refl, Bool, true, false, Option, none, some, on_option, Outcome, served,
  wrap, no_rows, Result, ok, err, Act, ◌>>=◌, pure, raise, arith, ◌==◌, string_eq, if◌then◌else◌,
  select, select-append, Ensures, Ensures-bind, Ensures-keeps, Post, on_result, is_error, attempt,
  Error-discrete, error_eq, node_not_found, ◌||◌,
}
use updater_service.Operation.{Operation, pending, status_eq}
use updater_service.Operation.Repository
use updater_service.Operation.Repository.{Operations, key}
use updater_service.Operation.History.{history}
use updater_service.Node.{Node, online, status_eq as node_status_eq}
use updater_service.Node.Repository as Registry
use updater_service.Entry.State.{World, Env, op_statement, node_statement, now}
use updater_service.Entry.{
  on_upload_create, handle_create_update, pending_operation, store_update, create_update,
  create_update_on,
}

-- An upload for an operation that is not in the table is answered by 500 and an error, although the
-- handler has a case that answers 404.
pub missing_upload :
    (env : Env) (operation_id : String) (w : World)
    → env.trim operation_id ≢ ""
    → env.db w.calls ≡ served
    → select key (env.trim operation_id) (history (env.others w.calls) w.ops) ≡ none
    → (on_upload_create env operation_id w).0
      ≡ ok (500, some (wrap "operation lookup failed" no_rows))
unfolding on_upload_create op_statement Repository.get ◌>>=◌ pure raise is_error Error-discrete
missing_upload env operation_id w h up missing = ground (arith, h, up, missing)

-- A 202 is answered with the id of a row that is PENDING for what was asked.
abbrev pub IsCreated : String → String → ℕ × Option String → World → Type 0
IsCreated service node_id (code, id) w =
    code ≡ 202
    → on_option id ⊥ (λ id.
      on_option (select key id w.ops) ⊥
        (λ op. (op.status ≡ pending) × (op.service ≡ service) × (op.node_id ≡ node_id)))

create-select :
    (o : Outcome) (op : Operation) (rows : Operations)
    → (Repository.create o op rows).0 ≡ ok tt
    → select key op.id (Repository.create o op rows).1 ≡ some op
unfolding Repository.create
create-select o op rows h = ground (arith, h, select-append key op.id rows op)

module _ (env : Env) (service node_id : String) where
  abbrev Anything : World → Type 0
  Anything w = Unit

  storing :
      (id : String)
      → Ensures Anything (store_update env service node_id id) (IsCreated service node_id) Anything
  unfolding store_update op_statement now ◌>>=◌ pure
  storing id = record {
    at = λ w _.
        by_result w
          (Repository.create (env.db w.calls) (new w) (history (env.others w.calls) w.ops)).0 refl;
  }
    where
      new : World → Operation
      new w = pending_operation id service node_id (env.clock w.calls)

      by_result :
          (w : World) (r : Result (Unit {0}))
          → (Repository.create (env.db w.calls) (new w) (history (env.others w.calls) w.ops)).0 ≡ r
          → Post (IsCreated service node_id) Anything (store_update env service node_id id w)
      by_result w (ok tt) e =
          let found =
            create-select (env.db w.calls) (new w) (history (env.others w.calls) w.ops) e in
          rw e (λ _. rw found (refl, refl, refl))
      by_result w (err x) e = rw e (λ q. absurd (ground (arith, q)))

  otherwise :
      (code : ℕ)
      → code ≢ 202
      → Ensures {A = ℕ × Option String} Anything
          (pure (code, none))
          (IsCreated service node_id)
          Anything
  unfolding pure
  otherwise code other = record { at = λ w _ q. absurd (other q) }

  anyhow :
      {A B : Type 0} (m : Act World A) {f : A → Act World B} {Q : B → World → Type 0}
      → ((a : A) → Ensures Anything (f a) Q Anything)
      → Ensures Anything (m >>= f) Q Anything
  anyhow m u = Ensures-bind (Ensures-keeps {m = m} (record { at = λ w h. h })) u

  creating :
      Ensures Anything (create_update env service node_id) (IsCreated service node_id) Anything
  unfolding create_update
  creating = anyhow _ by_drawn
    where
      by_drawn :
          (r : Result String)
          → Ensures {A = ℕ × Option String} Anything
              (on_result r (λ e. pure (500, none)) (store_update env service node_id))
              (IsCreated service node_id)
              Anything
      by_drawn (ok id) = storing id
      by_drawn (err e) = otherwise 500 (λ q. ground (arith, q))

  choosing :
      (b : Bool)
      → Ensures Anything
          (if b then create_update env service node_id else pure (409, none))
          (IsCreated service node_id)
          Anything
  choosing true = creating
  choosing false = otherwise 409 (λ q. ground (arith, q))

  handling :
      Ensures Anything
        (handle_create_update env (ok (service, node_id)))
        (IsCreated service node_id)
        Anything
  unfolding handle_create_update
  handling = by_request (service == "" || node_id == "")
    where
      by_node :
          (r : Result Node)
          → Ensures {A = ℕ × Option String} Anything
              (on_result r
                (λ e. pure (if is_error e node_not_found then 404 else 500, none))
                (create_update_on env service node_id))
              (IsCreated service node_id)
              Anything
      by_node (ok node) = choosing (node.status == online)
      by_node (err e) = otherwise _ (λ q. ground (arith, q))

      by_request :
          (b : Bool)
          → Ensures {A = ℕ × Option String} Anything
              (if b then pure (400, none) else do
                target ← attempt (node_statement env (λ o _. Registry.get env.codec o node_id))
                on_result target
                    (λ e. pure (if is_error e node_not_found then 404 else 500, none))
                    (create_update_on env service node_id))
              (IsCreated service node_id)
              Anything
      by_request true = otherwise 400 (λ q. ground (arith, q))
      by_request false = anyhow _ by_node

-- When a request for an update is answered by 202, the table has a row under the id of the answer,
-- PENDING and for the service and the node of the request.
pub accepted_update :
    (env : Env) (service node_id id : String) (w : World)
    → (handle_create_update env (ok (service, node_id)) w).0 ≡ ok (202, some id)
    → on_option
        (select key id (handle_create_update env (ok (service, node_id)) w).1.ops)
        ⊥
        (λ op. (op.status ≡ pending) × (op.service ≡ service) × (op.node_id ≡ node_id))
accepted_update env service node_id id w h =
    let v = (handle_create_update env (ok (service, node_id)) w).1 in
    subst (λ r. on_result r (λ _. Unit {0}) (λ a. IsCreated service node_id a v)) h
      ((handling env service node_id).at w tt) refl
