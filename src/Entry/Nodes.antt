-- ===== src/Entry/Nodes.antt =====
-- internal/entry/handler.go: the messages of the nodes, the monitor of their leases, and what
-- administrators ask of them. Each is an action on the table of nodes.
use updater_service.Base.{
  ℕ, ℤ, pos, leb_ℤ, pos_part, ◌+◌, String, Bool, ◌||◌, ◌≡◌, List, [], ◌∷◌, Option, none, some, text,
  wrap, is_error, Result, ok, err, Outcome, Act, pure, raise, lift, attempt, wrapped, on_result,
  ◌>>=◌, ◌==◌, string_eq, nat_eq, if◌then◌else◌, node_not_found, node_offline, IsKeyed,
  Result-cases, inl, inr, arith, ◌∙◌, ap, sym,
}
use updater_service.Operation.{Time}
use updater_service.Node.{Status, Node, online, draining, offline, status_eq}
use updater_service.Node.Repository
use updater_service.Node.Repository.{Codec, Nodes, NodeRow, node_key, interrupted}
use updater_service.Node.Registry.{status_of}
use updater_service.Node.Draining.{rows-get}
use updater_service.Node.Leases.{IsLive, set_draining_obeyed}
use updater_service.Message.{NodeRegister, NodeHeartbeat, NodeGoodbye}

-- What the handlers use: the encoding of lists, strings.TrimSpace, time.Parse with RFC3339Nano, the
-- lease of the configuration and its default of 15 seconds.
pub record Settings : Type 0 where
  pub codec : Codec
  pub trim : String → String
  pub parse_time : String → Result Time
  pub lease : ℤ
  pub default_lease : Time

module _ (settings : Settings) where
  abbrev pub lease_or_default : Time
  lease_or_default =
      if leb_ℤ settings.lease (pos 0) then settings.default_lease else pos_part settings.lease

  unfoldable pub process_node_register : Outcome → Time → Result NodeRegister → Act Nodes Unit
  process_node_register o now (err e) = raise (wrap "decode node registration" e)
  process_node_register o now (ok payload) =
      let node_id = settings.trim payload.node_id in
      let instance_id = settings.trim payload.instance_id in
      if node_id == "" || instance_id == ""
      then raise (text "node_id and instance_id are required")
      else do
        started_at ← wrapped "parse started_at" (lift (settings.parse_time payload.started_at))
        Repository.register settings.codec o (record {
          id = node_id;
          instance_id = instance_id;
          status = online;
          address = payload.address;
          version = payload.version;
          capabilities = payload.capabilities;
          last_seen_at = now;
          lease_expires_at = now + lease_or_default;
          started_at = started_at;
          created_at = now;
          updated_at = now;
        })

  -- The clock is read here, and again by the repository.
  unfoldable pub process_node_heartbeat :
      Outcome → Time → Time → Result NodeHeartbeat → Act Nodes Unit
  process_node_heartbeat o here now (err e) = raise (wrap "decode node heartbeat" e)
  process_node_heartbeat o here now (ok payload) =
      let node_id = settings.trim payload.node_id in
      let instance_id = settings.trim payload.instance_id in
      if node_id == "" || instance_id == ""
      then raise (text "node_id and instance_id are required")
      else Repository.heartbeat o now node_id instance_id (here + lease_or_default)

  unfoldable pub process_node_goodbye : Outcome → Time → Result NodeGoodbye → Act Nodes Unit
  process_node_goodbye o now (err e) = raise (wrap "decode node goodbye" e)
  process_node_goodbye o now (ok payload) =
      let node_id = settings.trim payload.node_id in
      let instance_id = settings.trim payload.instance_id in
      if node_id == "" || instance_id == ""
      then raise (text "node_id and instance_id are required")
      else Repository.goodbye o now node_id instance_id

  -- The loop of `RunNodeMonitor` over the ticks that it sees before its context ends.
  unfoldable pub run_node_monitor : List (Outcome × Time) → Nodes → Nodes
  run_node_monitor [] rows = rows
  run_node_monitor ((o, now) ∷ ticks) rows =
      run_node_monitor ticks (Repository.mark_expired o now rows).1

  -- `List`: the code and the items, whose number is `total`.
  unfoldable pub list : (NodeRow → NodeRow → Bool) → Outcome → Act Nodes (ℕ × List Node)
  list sooner o = do
    found ← attempt (Repository.list settings.codec sooner o)
    on_result found (λ e. pure (500, [])) (λ items. pure (200, items))

  unfoldable pub get : Outcome → String → Act Nodes (ℕ × Option Node)
  get o id = do
    found ← attempt (Repository.get settings.codec o id)
    on_result found (λ e. pure (if is_error e node_not_found then 404 else 500, none))
        (λ node. pure (200, some node))

  -- `setDraining`: the code, and the status that is answered. Other processes may use the table
  -- before the UPDATE, and between it and the second SELECT.
  unfoldable pub set_draining :
      Outcome
      → (Nodes → Nodes)
      → Outcome
      → (Nodes → Nodes)
      → Outcome
      → Time
      → String
      → Bool
      → Act Nodes (ℕ × Option Status)
  set_draining first before writing between reading now id drain = do
    found ← attempt (Repository.get settings.codec first id)
    on_result found (λ e. pure (if is_error e node_not_found then 404 else 500, none))
        (λ node. if node.status == offline then pure (409, none) else do
          done ← attempt (
              interrupted before
                (Repository.set_draining settings.codec writing between reading now id drain))
          on_result done (λ e. pure (if is_error e node_offline then 409 else 500, none))
              (λ _. pure (200, some (if drain then draining else online))))

-- What a 200 says of the request to the repository.
answered :
    (settings : Settings) (first : Outcome) (before : Nodes → Nodes) (writing : Outcome)
    (between : Nodes → Nodes) (reading : Outcome) (now : Time) (id : String) (drain : Bool)
    (status : Status) (rows : Nodes)
    → (set_draining settings first before writing between reading now id drain rows).0
      ≡ ok (200, some status)
    → (status ≡ (if drain then draining else online))
      × ((Repository.set_draining settings.codec writing between reading now id drain
            (before rows)).0
          ≡ ok tt)
      × ((set_draining settings first before writing between reading now id drain rows).1
          ≡ (Repository.set_draining settings.codec writing between reading now id drain
              (before rows)).1)
unfolding set_draining ◌>>=◌ pure
answered settings first before writing between reading now id drain status rows h =
    let codec = settings.codec in
    let same = rows-get codec first id rows in
    elim (Result-cases (Repository.get codec first id rows).0) [
      | inr (e, missing) ↦ absurd (ground (arith, missing, h))
      | inl (n, found) ↦
          elim (Result-cases
            (Repository.set_draining codec writing between reading now id drain (before rows)).0) [
              | inr (e, refused) ↦ absurd (ground (arith, found, refused, h, same))
              | inl (tt, done) ↦
                  (ground (arith, found, done, h, same), done, ground (arith, found, done, h, same))
            ]
    ]

-- A request to drain or undrain a node that is answered by 200 is answered by the status that was asked
-- for. If no other process uses the table between the UPDATE and the SELECT after it, the node has that
-- status; if others do, in whatever way, the node is registered and not offline, though maybe with
-- another status. No two rows may share an id when the UPDATE runs.
pub drain_answered :
    (settings : Settings) (first : Outcome) (before : Nodes → Nodes) (writing : Outcome)
    (between : Nodes → Nodes) (reading : Outcome) (now : Time) (id : String) (drain : Bool)
    (status : Status) (rows : Nodes)
    → IsKeyed node_key (before rows)
    → ((set_draining settings first before writing (λ r. r) reading now id drain rows).0
          ≡ ok (200, some status)
        → (status ≡ (if drain then draining else online))
          × (status_of id
                (set_draining settings first before writing (λ r. r) reading now id drain rows).1
              ≡ some status))
      × ((set_draining settings first before writing between reading now id drain rows).0
            ≡ ok (200, some status)
          → (status ≡ (if drain then draining else online))
            × IsLive id
                (set_draining settings first before writing between reading now id drain rows).1)
drain_answered settings first before writing between reading now id drain status rows keyed = (
  λ h.
      let (asked, done, same) =
        answered settings first before writing (λ r. r) reading now id drain status rows h in
      (
        asked,
        rw same (
            (set_draining_obeyed settings.codec writing between reading now id drain (before rows)
                keyed).0
              done
            ∙ ap some (sym asked)),
      ),
  λ h.
      let (asked, done, same) =
        answered settings first before writing between reading now id drain status rows h in
      (
        asked,
        rw same (
            (set_draining_obeyed settings.codec writing between reading now id drain (before rows)
                keyed).1
              done),
      ),
)
