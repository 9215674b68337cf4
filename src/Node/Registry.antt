-- ===== src/Node/Registry.antt =====
-- What the entry and the administrators do to the registry of nodes, as events.
use updater_service.Base.{
  String, ◌≡◌, refl, Bool, Option, none, some, List, [], ◌∷◌, Outcome, on_option, string_eq, select,
  update, updated, select-update,
}
use updater_service.Operation.{Time}
use updater_service.Node.{Status, Node, status_eq}
use updater_service.Node.Repository.{
  NodeRow, Codec, Nodes, node_key, register, heartbeat, goodbye, mark_expired, set_draining, renew,
  renew_lease, end_lease, expire, set_status,
}

-- One call of a method, with the outcome of its statement and the time that it read.
pub data Event : Type 0 where
  registering : Outcome → Node → Event
  beating : Outcome → Time → String → String → Time → Event
  leaving : Outcome → Time → String → String → Event
  expiring : Outcome → Time → Event
  setting : Outcome → Outcome → Time → String → Bool → Event

-- The SELECT of a request to drain changes nothing, so what others do before it is an event of its own.
unfoldable pub step : Codec → Event → Nodes → Nodes
step codec (registering o n) rows = (register codec o n rows).1
step codec (beating o now id instance_id lease) rows = (heartbeat o now id instance_id lease rows).1
step codec (leaving o now id instance_id) rows = (goodbye o now id instance_id rows).1
step codec (expiring o now) rows = (mark_expired o now rows).1
step codec (setting writing reading now id drain) rows =
    (set_draining codec writing (λ r. r) reading now id drain rows).1

unfoldable pub node_history : Codec → List Event → Nodes → Nodes
unfolding step
node_history codec [] rows = rows
node_history codec (e ∷ events) rows = node_history codec events (step codec e rows)

-- The status of the node that a SELECT finds.
abbrev pub status_of : String → Nodes → Option Status
status_of id rows = on_option (select node_key id rows) none (λ r. some r.status)

-- Each statement as an update under the primary key.
module _ (id : String) (rows : Nodes) where
  pub select-renew_lease :
      (test : NodeRow → Bool) (now lease : Time)
      → select node_key id (update test (renew_lease now lease) rows)
        ≡ updated node_key test (renew_lease now lease) (select node_key id rows)
  unfolding renew_lease
  select-renew_lease test now lease = select-update node_key test _ id rows (λ r. refl)

  pub select-end_lease :
      (test : NodeRow → Bool) (now : Time)
      → select node_key id (update test (end_lease now) rows)
        ≡ updated node_key test (end_lease now) (select node_key id rows)
  unfolding end_lease
  select-end_lease test now = select-update node_key test _ id rows (λ r. refl)

  pub select-expire :
      (test : NodeRow → Bool) (now : Time)
      → select node_key id (update test (expire now) rows)
        ≡ updated node_key test (expire now) (select node_key id rows)
  unfolding expire
  select-expire test now = select-update node_key test _ id rows (λ r. refl)

  pub select-set_status :
      (test : NodeRow → Bool) (status : Status) (now : Time)
      → select node_key id (update test (set_status status now) rows)
        ≡ updated node_key test (set_status status now) (select node_key id rows)
  unfolding set_status
  select-set_status test status now = select-update node_key test _ id rows (λ r. refl)

  pub select-renew :
      (test : NodeRow → Bool) (new : NodeRow)
      → select node_key id (update test (renew new) rows)
        ≡ updated node_key test (renew new) (select node_key id rows)
  unfolding renew
  select-renew test new = select-update node_key test _ id rows (λ r. refl)
