-- ===== src/Heartbeat/Rows.antt =====
-- What each message of a worker does to its row, in the entry that receives it.
use updater_service.Base.{
  ◌+◌, ◌≡◌, inl, inr, some, served, arith, refl, string_eq, none, Option-cases, Result-cases, ◌>>=◌,
  on_option, lift,
}
use updater_service.Operation.{Time}
use updater_service.Node.{online, Node, status_eq}
use updater_service.Node.Repository.{
  expire, set_status, Nodes, renew, renew_lease, end_lease, unless_draining,
}
use updater_service.Node.Registry.{Event, registering, beating, leaving, expiring, setting, step}
use updater_service.Node.Refinement.{map_step, rows_of, rows_of-step}
use updater_service.Entry.Nodes.{
  Settings, lease_or_default, process_node_register, process_node_heartbeat, process_node_goodbye,
}
use updater_service.Heartbeat.{HeartbeatManager, Published, registered, beat, left, registration}
use updater_service.Heartbeat.Received.{
  Delivery, receive, IsReadable, IsMine, IsKind, IsOver, IsBack, IsOwn, sign, farewell,
}

module _ (settings : Settings) (h : HeartbeatManager) (readable : IsReadable settings h) where
  -- The row that the entry makes of a registration.
  abbrev node_at : Time → Node
  node_at now = record {
    id = h.node_id;
    instance_id = h.instance_id;
    status = online;
    address = h.address;
    version = h.version;
    capabilities = h.capabilities;
    last_seen_at = now;
    lease_expires_at = now + lease_or_default settings;
    started_at = readable.started;
    created_at = now;
    updated_at = now;
  }

  receive-registered :
      (d : Delivery) (rows : Nodes)
      → receive settings (registered (registration h)) d rows
        ≡ step settings.codec (registering d.outcome (node_at d.now)) rows
  unfolding receive process_node_register registration step ◌>>=◌ lift
  receive-registered d rows = ground (
    arith, readable.trimmed_id, readable.trimmed_instance, readable.has_id, readable.has_instance,
    readable.parsed,
  )

  receive-beat :
      (d : Delivery) (rows : Nodes)
      → receive settings (beat (sign h)) d rows
        ≡ step settings.codec
            (beating d.outcome d.now h.node_id h.instance_id (d.here + lease_or_default settings))
            rows
  unfolding receive process_node_heartbeat step
  receive-beat d rows = ground (
    arith, readable.trimmed_id, readable.trimmed_instance, readable.has_id, readable.has_instance,
  )

  receive-left :
      (d : Delivery) (rows : Nodes)
      → receive settings (left (farewell h)) d rows
        ≡ step settings.codec (leaving d.outcome d.now h.node_id h.instance_id) rows
  unfolding receive process_node_goodbye step
  receive-left d rows = ground (
    arith, readable.trimmed_id, readable.trimmed_instance, readable.has_id, readable.has_instance,
  )

  pub step-IsMine :
      (event : Event) (rows : Nodes)
      → IsKind h event
      → IsMine h rows
      → IsMine h (step settings.codec event rows)
  unfolding renew renew_lease end_lease expire set_status
  step-IsMine event rows kind mine =
      rw (rows_of-step settings.codec h.node_id rows event) (by_event event kind)
    where
      by_event :
          (e : Event)
          → IsKind h e
          → on_option
              (map_step settings.codec e (rows_of rows) h.node_id)
              none
              (λ r. some r.instance_id)
            ≡ some h.instance_id
      by_event (registering o n) k = elim (Result-cases (settings.codec.encode n.capabilities)) [
        | inl (json, e) ↦ elim (Option-cases (rows_of rows h.node_id)) [
          | inl absent ↦ absurd (ground (arith, absent, mine))
          | inr (r, there) ↦ ground (arith, e, there, mine, k)
        ]
        | inr (x, e) ↦ ground (arith, e, mine)
      ]
      by_event (beating o now id instance_id lease) k = ground (arith, mine)
      by_event (leaving o now id instance_id) k = ground (arith, mine)
      by_event (expiring o now) k = ground (arith, mine)
      by_event (setting writing reading now id drain) k = ground (arith, mine)

  -- The worker's own messages leave the row its own.
  pub own-IsMine :
      (message : Published) (d : Delivery) (rows : Nodes)
      → IsOwn h message
      → IsMine h rows
      → IsMine h (receive settings message d rows)
  own-IsMine message d rows (inl e) mine =
      rw (e, receive-registered d rows)
        (step-IsMine (registering d.outcome (node_at d.now)) rows (λ _. refl) mine)
  own-IsMine message d rows (inr (inl e)) mine =
      rw (e, receive-beat d rows)
        (step-IsMine
          (beating d.outcome d.now h.node_id h.instance_id (d.here + lease_or_default settings))
          rows tt mine)
  own-IsMine message d rows (inr (inr e)) mine =
      rw (e, receive-left d rows)
        (step-IsMine (leaving d.outcome d.now h.node_id h.instance_id) rows tt mine)

  pub registered-IsMine :
      (d : Delivery) (rows : Nodes)
      → d.outcome ≡ served
      → IsMine h (receive settings (registered (registration h)) d rows)
  unfolding renew
  registered-IsMine d rows done =
      let there =
        rows_of-step settings.codec h.node_id rows (registering d.outcome (node_at d.now)) in
      rw (receive-registered d rows) (ground (arith, there, readable.encoded, done))

  pub left-IsOver :
      (d : Delivery) (rows : Nodes)
      → d.outcome ≡ served
      → IsMine h rows
      → IsOver h d.now (receive settings (left (farewell h)) d rows)
  unfolding end_lease unless_draining
  left-IsOver d rows done mine =
      let there =
        rows_of-step settings.codec h.node_id rows
          (leaving d.outcome d.now h.node_id h.instance_id) in
      elim (Option-cases (rows_of rows h.node_id)) [
        | inl absent ↦ absurd (ground (arith, absent, mine))
        | inr (r, found) ↦ (
          end_lease d.now r,
          rw (receive-left d rows) (ground (arith, there, done, found, mine)),
          ground (arith, found, mine),
          ground arith,
          refl,
        )
      ]

  -- A heartbeat that is handled later brings the node back.
  pub beat-IsBack :
      (d : Delivery) (rows : Nodes)
      → d.outcome ≡ served
      → IsMine h rows
      → IsBack h (d.here + lease_or_default settings) (receive settings (beat (sign h)) d rows)
  unfolding renew_lease unless_draining
  beat-IsBack d rows done mine =
      let lease = d.here + lease_or_default settings in
      let there =
        rows_of-step settings.codec h.node_id rows
          (beating d.outcome d.now h.node_id h.instance_id lease) in
      elim (Option-cases (rows_of rows h.node_id)) [
        | inl absent ↦ absurd (ground (arith, absent, mine))
        | inr (r, found) ↦ (
          renew_lease d.now lease r,
          rw (receive-beat d rows) (ground (arith, there, done, found, mine)),
          ground arith,
          refl,
        )
      ]
