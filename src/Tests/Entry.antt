-- ===== src/Tests/Entry.antt =====
-- internal/entry: an update that is requested, uploaded twice and dispatched.
use updater_service.Base.{
  ℕ, ◌+◌, ◌-◌, ◌≤◌, ℤ, pos, ◌<ℤ◌, min, String, ◌≡◌, ◌≢◌, refl, true, none, some, on_option, [], ◌∷◌,
  served, lost, text, ok, wrap, no_rows, select, update, affected, IsKeyed, string_dec, ℕ_discrete,
  ◌>>=◌, ne_of_beq, string_eq, length, arith,
}
use updater_service.Operation.{Operation, FileMetadata, pending, status_text}
use updater_service.Operation.Repository.{Operations, key}
use updater_service.Operation.History.{history}
use updater_service.Node.{Status, online, draining, offline, Status-discrete, Node}
use updater_service.Node.Repository.{NodeRow, Codec, Nodes, node_key, set_status, unchanged}
use updater_service.Node.Repository as Registry
use updater_service.Node.Registry.{status_of}
use updater_service.Entry.State.{World, Env}
use updater_service.Entry.{
  dispatch_operation, handle_create_update, on_upload_create, pending_operation, ready_file,
}
use updater_service.Entry.Dispatch.{sent_once}
use updater_service.Entry.Replies.{missing_upload, accepted_update}
use updater_service.Entry.Ranges.{partial, serve_range, range_served, backward_range}
use updater_service.Entry.Nodes.{Settings, set_draining, drain_answered}
use updater_service.Node.Leases.{IsLive}

abbrev codec : Codec
codec = record { encode = λ l. ok "[]"; decode = λ s. ok [] }

abbrev worker_row : NodeRow
worker_row = record {
  id = "node-1";
  instance_id = "first";
  status = online;
  address = "10.0.0.1";
  version = "1.0";
  capabilities = none;
  last_seen_at = 5;
  lease_expires_at = 20;
  started_at = 1;
  created_at = 1;
  updated_at = 5;
}

abbrev env : Env
env = record {
  db = λ n. served;
  others = λ n. [];
  node_events = λ n. [];
  nats = λ n. lost (text "timeout");
  clock = λ n. 10 + n;
  codec = codec;
  sha256 = λ path. ok "5e884898";
  random_id = λ n. ok "op-1";
  base = λ path. path;
  trim = λ s. s;
  base_url = "http://entry:8080";
}

abbrev empty : World
empty = record { ops = []; files = []; nodes = worker_row ∷ []; sent = []; calls = 0 }

abbrev op : Operation
op = pending_operation "op-1" "api" "node-1" 9

abbrev uploaded : World
uploaded = record { ops = op ∷ []; files = []; nodes = worker_row ∷ []; sent = []; calls = 0 }

abbrev meta : FileMetadata
meta = ready_file "op-1" "config.yaml" "/uploads/1" 3 "5e884898" 12

IsKeyed-uploaded : IsKeyed key uploaded.ops
unfolding select
IsKeyed-uploaded = (refl, tt)

sent_once_example :
    length (dispatch_operation env op meta (dispatch_operation env op meta uploaded).1).1.sent ≤ 1
sent_once_example = sent_once env env op meta meta uploaded IsKeyed-uploaded

-- The first of the two dispatches does send a command.
sent_first : length (dispatch_operation env op meta uploaded).1.sent ≡ 1
unfolding dispatch_operation updater_service.Entry.advance_operation
    updater_service.Entry.State.node_statement updater_service.Entry.State.op_statement
    updater_service.Entry.State.publish_command Registry.get Registry.scan_node
    updater_service.Node.Registry.node_history history
    updater_service.Operation.Repository.advance_status updater_service.Operation.Repository.get
    updater_service.Operation.Repository.status_rank
    updater_service.Operation.Repository.may_advance updater_service.Operation.Repository.case_rank
    updater_service.Operation.Repository.case_final updater_service.Operation.Status-discrete
    Status-discrete select update affected string_dec ℕ_discrete ◌>>=◌
sent_first = refl

range_served_example :
    (length : ℕ) × (serve_range 100 (some (some (pos 90, pos 120)))
      ≡ partial 90 (pos (min 120 (100 - 1))) (pos length))
    × (1 ≤ length)
    × (90 + length ≡ min 120 (100 - 1) + 1)
range_served_example = range_served 100 90 120 (omega arith) (omega arith)

backward_range_example :
    (length : ℤ) × (serve_range 100 (some (some (pos 5, pos 2))) ≡ partial 5 (pos 2) length)
    × (length <ℤ pos 0)
backward_range_example = backward_range 100 5 2 (omega arith) (omega arith)

named : ◌≢◌ {A = String} "op-9" ""
unfolding string_dec
named = ne_of_beq "op-9" "" refl

unknown : select key "op-9" (history [] uploaded.ops) ≡ none
unfolding select string_dec history
unknown = refl

missing_upload_example :
    (on_upload_create env "op-9" uploaded).0
    ≡ ok (500, some (wrap "operation lookup failed" no_rows))
missing_upload_example = missing_upload env "op-9" uploaded named refl unknown

accepted : (handle_create_update env (ok ("api", "node-1")) empty).0 ≡ ok (202, some "op-1")
unfolding handle_create_update updater_service.Entry.create_update
    updater_service.Entry.store_update updater_service.Entry.State.node_statement
    updater_service.Entry.State.op_statement updater_service.Entry.State.now
    updater_service.Entry.State.new_operation_id Registry.get Registry.scan_node
    updater_service.Node.Registry.node_history history updater_service.Operation.Repository.create
    Status-discrete select string_dec ◌>>=◌
accepted = refl

accepted_update_example :
    on_option
      (select key "op-1" (handle_create_update env (ok ("api", "node-1")) empty).1.ops)
      ⊥
      (λ op. (op.status ≡ pending) × (op.service ≡ "api") × (op.node_id ≡ "node-1"))
accepted_update_example = accepted_update env "api" "node-1" "op-1" empty accepted

abbrev settings : Settings
settings = record {
  codec = codec;
  trim = λ s. s;
  parse_time = λ s. ok 1;
  lease = pos 15;
  default_lease = 15;
}

drained :
    (set_draining settings served
      (λ r. r)
      served
      (λ r. r)
      served
      30
      "node-1"
      true
      (worker_row ∷ [])).0
    ≡ ok (200, some draining)
unfolding set_draining Registry.set_draining Registry.get Registry.scan_node set_status unchanged
    select update affected string_dec ℕ_discrete Status-discrete ◌>>=◌
drained = refl

IsKeyed-nodes : IsKeyed node_key (worker_row ∷ [])
unfolding select
IsKeyed-nodes = (refl, tt)

drain_answered_example :
    ((set_draining settings served
          (λ r. r)
          served
          (λ r. r)
          served
          30
          "node-1"
          true
          (worker_row ∷ [])).0
        ≡ ok (200, some draining)
      → (draining ≡ draining)
        × (status_of "node-1"
              (set_draining settings served
                (λ r. r)
                served
                (λ r. r)
                served
                30
                "node-1"
                true
                (worker_row ∷ [])).1
            ≡ some draining))
    × ((set_draining settings served
            (λ r. r)
            served
            (λ r. [])
            served
            30
            "node-1"
            true
            (worker_row ∷ [])).0
          ≡ ok (200, some draining)
        → (draining ≡ draining)
          × IsLive "node-1"
              (set_draining settings served
                (λ r. r)
                served
                (λ r. [])
                served
                30
                "node-1"
                true
                (worker_row ∷ [])).1)
drain_answered_example =
    drain_answered settings served (λ r. r) served (λ r. []) served 30 "node-1" true draining
      (worker_row ∷ []) IsKeyed-nodes
