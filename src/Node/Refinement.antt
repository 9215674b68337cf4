-- ===== src/Node/Refinement.antt =====
-- What each statement on the table of nodes does to the row under an id. Node.Presence compares it with
-- a specification.
use updater_service.Base.{
  String, ◌≡◌, Bool, true, false, ◌&&◌, not, Option, none, some, Outcome, served, refused, lost,
  arith, ◌==◌, string_eq, if◌then◌else◌, ◌>>=◌, update, updated, select, select-append, select-IsAt,
  Result-cases, inl, inr, raise, on_option, on_result,
}
use updater_service.Operation.{Time}
use updater_service.Node.{online, draining, offline, Node, status_eq}
use updater_service.Node.Repository.{
  NodeRow, Codec, Nodes, node_key, register, heartbeat, goodbye, mark_expired, set_draining, upsert,
  renew, renew_lease, end_lease, expire, is_expired, set_status, to_row,
}
use updater_service.Node.Registry.{
  Event, registering, beating, leaving, expiring, setting, step, select-renew_lease,
  select-end_lease, select-expire, select-set_status, select-renew,
}
use updater_service.Node.Draining.{rows-get}

abbrev pub Registry : Type 0
Registry = String → Option NodeRow

-- The statement takes effect.
abbrev pub takes_effect : Outcome → Bool
takes_effect served = true
takes_effect (refused e) = false
takes_effect (lost e) = true

-- The row of `id`, if it has one that the test accepts, is set.
abbrev pub adjust : String → (NodeRow → Bool) → (NodeRow → NodeRow) → Registry → Registry
adjust id test set registry k =
    on_option (registry k) none (λ r. some (if k == id && test r then set r else r))

abbrev pub adjust_all : (NodeRow → Bool) → (NodeRow → NodeRow) → Registry → Registry
adjust_all test set registry k = updated node_key test set (registry k)

-- The row of a node that registers is new, or is renewed.
abbrev pub insert : NodeRow → Registry → Registry
insert new registry k =
    if k == new.id then some (on_option (registry k) new (λ old. renew new old)) else registry k

-- What an event does to the map.
abbrev pub map_step : Codec → Event → Registry → Registry
map_step codec (registering o n) registry =
    on_result (codec.encode n.capabilities) (λ e. registry)
      (λ json. if takes_effect o then insert (to_row json n) registry else registry)
map_step codec (beating o now id instance_id lease) registry =
    if takes_effect o
    then adjust id (λ r. r.instance_id == instance_id) (renew_lease now lease) registry
    else registry
map_step codec (leaving o now id instance_id) registry =
    if takes_effect o
    then adjust id (λ r. r.instance_id == instance_id) (end_lease now) registry
    else registry
map_step codec (expiring o now) registry =
    if takes_effect o then adjust_all (is_expired now) (expire now) registry else registry
map_step codec (setting writing reading now id drain) registry =
    if takes_effect writing
    then adjust id (λ r. not (r.status == offline))
        (set_status (if drain then draining else online) now) registry
    else registry

-- What the table holds under each id.
abbrev pub rows_of : Nodes → Registry
rows_of rows k = select node_key k rows

module _ (codec : Codec) (k : String) (rows : Nodes) where
  rows_of-upsert : (new : NodeRow) → rows_of (upsert new rows) k ≡ insert new (rows_of rows) k
  unfolding upsert
  rows_of-upsert new = ground (
    arith,
    select-renew k rows (λ r. r.id == new.id) new,
    select-append node_key k rows new,
    select-IsAt node_key k rows,
    select-IsAt node_key new.id rows,
  )

  rows_of-beating :
      (o : Outcome) (now : Time) (id instance_id : String) (lease : Time)
      → rows_of (heartbeat o now id instance_id lease rows).1 k
        ≡ map_step codec (beating o now id instance_id lease) (rows_of rows) k
  unfolding heartbeat ◌>>=◌
  rows_of-beating o now id instance_id lease = ground (
    arith,
    select-renew_lease k rows (λ r. r.id == id && r.instance_id == instance_id) now lease,
    select-IsAt node_key k rows,
  )

  rows_of-leaving :
      (o : Outcome) (now : Time) (id instance_id : String)
      → rows_of (goodbye o now id instance_id rows).1 k
        ≡ map_step codec (leaving o now id instance_id) (rows_of rows) k
  unfolding goodbye ◌>>=◌
  rows_of-leaving o now id instance_id = ground (
    arith,
    select-end_lease k rows (λ r. r.id == id && r.instance_id == instance_id) now,
    select-IsAt node_key k rows,
  )

  rows_of-expiring :
      (o : Outcome) (now : Time)
      → rows_of (mark_expired o now rows).1 k ≡ map_step codec (expiring o now) (rows_of rows) k
  unfolding mark_expired
  rows_of-expiring o now = ground (arith, select-expire k rows (is_expired now) now)

  rows_of-setting :
      (writing reading : Outcome) (now : Time) (id : String) (drain : Bool)
      → rows_of (set_draining codec writing (λ r. r) reading now id drain rows).1 k
        ≡ map_step codec (setting writing reading now id drain) (rows_of rows) k
  unfolding set_draining ◌>>=◌
  rows_of-setting writing reading now id drain =
      let status = if drain then draining else online in
      let test = λ (r : NodeRow). r.id == id && not (r.status == offline) in
      ground (
        arith,
        select-IsAt node_key k rows,
        select-set_status k rows test status now,
        rows-get codec reading id (update test (set_status status now) rows),
      )

  rows_of-registering :
      (o : Outcome) (n : Node)
      → rows_of (register codec o n rows).1 k ≡ map_step codec (registering o n) (rows_of rows) k
  unfolding register raise
  rows_of-registering o n = elim (Result-cases (codec.encode n.capabilities)) [
    | inl (json, e) ↦ ground (arith, e, rows_of-upsert (to_row json n))
    | inr (x, e) ↦ ground (arith, e)
  ]

  pub rows_of-step :
      (event : Event) → rows_of (step codec event rows) k ≡ map_step codec event (rows_of rows) k
  unfolding step
  rows_of-step (registering o n) = rows_of-registering o n
  rows_of-step (beating o now id instance_id lease) = rows_of-beating o now id instance_id lease
  rows_of-step (leaving o now id instance_id) = rows_of-leaving o now id instance_id
  rows_of-step (expiring o now) = rows_of-expiring o now
  rows_of-step (setting writing reading now id drain) = rows_of-setting writing reading now id drain
