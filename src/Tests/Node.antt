-- ===== src/Tests/Node.antt =====
-- internal/node: two nodes, one of which is draining.
use updater_service.Base.{
  String, ◌≡◌, ◌≢◌, refl, true, false, some, List, [], ◌∷◌, served, lost, text, ok, err, select,
  update, affected, IsKeyed, All, string_dec, ℕ_discrete, ◌>>=◌, stale_instance, ne_of_beq,
  string_eq,
}
use updater_service.Node.{offline, Status, online, draining, Status-discrete, Node}
use updater_service.Node.Repository.{
  scan_node, NodeRow, Codec, Nodes, node_key, heartbeat, goodbye, mark_expired, set_draining,
  set_status, unchanged, get,
}
use updater_service.Node.Registry.{
  Event, registering, beating, leaving, expiring, setting, node_history, status_of,
}
use updater_service.Node.Draining.{IsNoUndrain, draining_persists}
use updater_service.Node.Presence.{known_of, spec_history, node_history_refines}
use updater_service.Node.Leases.{stale_ignored, IsLeased, none_expired, IsLive, set_draining_obeyed}

abbrev codec : Codec
codec = record { encode = λ l. ok "[]"; decode = λ s. ok [] }

abbrev row : String → Status → NodeRow
row id status = record {
  id = id;
  instance_id = "second";
  status = status;
  address = "10.0.0.1";
  version = "1.0";
  capabilities = some "[]";
  last_seen_at = 5;
  lease_expires_at = 20;
  started_at = 1;
  created_at = 1;
  updated_at = 5;
}

abbrev rows : Nodes
rows = row "node-1" draining ∷ row "node-2" online ∷ []

IsKeyed-rows : IsKeyed node_key rows
unfolding select string_dec
IsKeyed-rows = (refl, (refl, tt))

abbrev newcomer : Node
newcomer = record {
  id = "node-1";
  instance_id = "third";
  status = online;
  address = "10.0.0.2";
  version = "1.1";
  capabilities = [];
  last_seen_at = 30;
  lease_expires_at = 45;
  started_at = 30;
  created_at = 30;
  updated_at = 30;
}

abbrev events : List Event
events =
    beating served 6 "node-1" "second" 21
    ∷ expiring served 25
    ∷ registering served newcomer
    ∷ setting served served 31 "node-2" false
    ∷ leaving (lost (text "bad connection")) 32 "node-1" "third"
    ∷ []

found : status_of "node-1" rows ≡ some draining
unfolding select string_dec
found = refl

no_undrain : All (IsNoUndrain "node-1") events
unfolding string_dec
no_undrain = (tt, (tt, (tt, ((λ e. absurd (ne_of_beq "node-2" "node-1" refl e)), (tt, tt)))))

draining_persists_example : status_of "node-1" (node_history codec events rows) ≡ some draining
draining_persists_example = draining_persists codec events "node-1" rows no_undrain found

late_instance : ◌≢◌ {A = String} "second" "first"
unfolding string_dec
late_instance = ne_of_beq "second" "first" refl

stale_ignored_example :
    ((heartbeat served 6 "node-2" "first" 21 rows).1 ≡ rows)
    × ((goodbye served 6 "node-2" "first" rows).1 ≡ rows)
    × (served ≡ served
        → ((heartbeat served 6 "node-2" "first" 21 rows).0 ≡ err stale_instance)
          × ((goodbye served 6 "node-2" "first" rows).0 ≡ err stale_instance))
unfolding select string_dec
stale_ignored_example = stale_ignored served 6 21 "node-2" "first" rows IsKeyed-rows late_instance

none_expired_example : All (IsLeased 25) (mark_expired served 25 rows).1
none_expired_example = none_expired 25 rows

drained : (set_draining codec served (λ r. r) served 6 "node-2" true rows).0 ≡ ok tt
unfolding set_draining set_status unchanged get affected update select string_dec ℕ_discrete
    Status-discrete ◌>>=◌
drained = refl

-- A heartbeat between the two statements brings a node back that was offline for the UPDATE.
abbrev woken : Nodes → Nodes
woken nodes = row "node-2" online ∷ []

asleep_drained :
    (set_draining codec served woken served 6 "node-2" true (row "node-2" offline ∷ [])).0 ≡ ok tt
unfolding set_draining set_status unchanged get affected update select string_dec ℕ_discrete
    Status-discrete ◌>>=◌ scan_node
asleep_drained = refl

set_draining_obeyed_example :
    ((set_draining codec served (λ r. r) served 6 "node-2" true rows).0 ≡ ok tt
      → status_of "node-2" (set_draining codec served (λ r. r) served 6 "node-2" true rows).1
        ≡ some draining)
    × ((set_draining codec served woken served 6 "node-2" true rows).0 ≡ ok tt
        → IsLive "node-2" (set_draining codec served woken served 6 "node-2" true rows).1)
set_draining_obeyed_example =
    set_draining_obeyed codec served woken served 6 "node-2" true rows IsKeyed-rows

node_history_refines_example :
    known_of
      (node_history codec (leaving served 30 "node-2" "second" ∷ expiring served 40 ∷ []) rows)
    ≡ spec_history codec
        (leaving served 30 "node-2" "second" ∷ expiring served 40 ∷ [])
        (known_of rows)
node_history_refines_example =
    node_history_refines codec (leaving served 30 "node-2" "second" ∷ expiring served 40 ∷ []) rows
