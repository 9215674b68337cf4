-- ===== src/Node/Leases.antt =====
-- Messages of earlier incarnations, and leases that run out.
use updater_service.Base.{
  String, ◌≡◌, ◌≢◌, ◌<◌, refl, Bool, ◌&&◌, Option, none, some, [], ◌∷◌, Outcome, served, on_option,
  arith, ◌==◌, string_eq, if◌then◌else◌, ◌>>=◌, select, update, affected, err, ok, All, IsKeyed,
  affected_keyed, select-IsAt, stale_instance, string_dec, Result-cases, Bool-cases, ltb, inl, inr,
  not, lift, raise,
}
use updater_service.Operation.{Time}
use updater_service.Node.{Status, online, draining, offline, Node, status_eq}
use updater_service.Node.Repository.{
  NodeRow, Codec, Nodes, node_key, heartbeat, goodbye, mark_expired, set_draining, get, renew_lease,
  end_lease, expire, is_expired, set_status, unless_draining, scan_node, unchanged,
}
use updater_service.Node.Registry.{status_of, select-set_status}
use updater_service.Node.Draining.{rows-get}

-- The node has no row, or one of another incarnation.
abbrev pub IsOther : String → String → Nodes → Type 0
IsOther id instance_id rows =
    on_option (select node_key id rows) Unit (λ r. r.instance_id ≢ instance_id)

abbrev IsOtherRow : String → String → NodeRow → Type 0
IsOtherRow id instance_id r = r.id ≡ id → r.instance_id ≢ instance_id

module _ (id instance_id : String) where
  absent-Other :
      (rows : Nodes) → select node_key id rows ≡ none → All (IsOtherRow id instance_id) rows
  unfolding select
  absent-Other [] h = tt
  absent-Other (r ∷ rows) h =
      (λ e. absurd (ground (arith, h, e)), absent-Other rows (ground (arith, h)))

  All-Other :
      (rows : Nodes)
      → IsKeyed node_key rows
      → IsOther id instance_id rows
      → All (IsOtherRow id instance_id) rows
  unfolding select
  All-Other [] keyed h = tt
  All-Other (r ∷ rows) keyed h = elim (string_dec r.id id) [
    | yes e ↦ (λ e. ground (arith, h, e), absent-Other rows (ground (arith, keyed.0, e)))
    | no n ↦ (λ e. absurd (n e), All-Other rows keyed.1 (ground (arith, h, n)))
  ]

  -- The test of an UPDATE that selects nothing.
  module _ (set : NodeRow → NodeRow) where
    update-Other :
        (rows : Nodes)
        → All (IsOtherRow id instance_id) rows
        → update (λ r. r.id == id && r.instance_id == instance_id) set rows ≡ rows
    unfolding update
    update-Other [] all = refl
    update-Other (r ∷ rows) all = ground (arith, all.0, update-Other rows all.1)

    affected-Other :
        (rows : Nodes)
        → All (IsOtherRow id instance_id) rows
        → affected (λ r. r.id == id && r.instance_id == instance_id) set unchanged rows ≡ 0
    unfolding affected
    affected-Other [] all = refl
    affected-Other (r ∷ rows) all = ground (arith, all.0, affected-Other rows all.1)

-- A heartbeat or a goodbye of an incarnation that is not the registered one changes no row, and is
-- answered by `ErrStaleInstance` when the database serves it.
pub stale_ignored :
    (o : Outcome) (now lease : Time) (id instance_id : String) (rows : Nodes)
    → IsKeyed node_key rows
    → IsOther id instance_id rows
    → ((heartbeat o now id instance_id lease rows).1 ≡ rows)
      × ((goodbye o now id instance_id rows).1 ≡ rows)
      × (o ≡ served
          → ((heartbeat o now id instance_id lease rows).0 ≡ err stale_instance)
            × ((goodbye o now id instance_id rows).0 ≡ err stale_instance))
unfolding heartbeat goodbye ◌>>=◌ raise
stale_ignored o now lease id instance_id rows keyed h =
    let all = All-Other id instance_id rows keyed h in
    let beat = affected-Other id instance_id (renew_lease now lease) rows all in
    let bye = affected-Other id instance_id (end_lease now) rows all in
    let beaten = update-Other id instance_id (renew_lease now lease) rows all in
    let gone = update-Other id instance_id (end_lease now) rows all in
    (
      ground (arith, beat, beaten),
      ground (arith, bye, gone),
      λ e. (ground (arith, beat, e), ground (arith, bye, e)),
    )

-- Not online, or with a lease that lasts.
abbrev pub IsLeased : Time → NodeRow → Type 0
IsLeased now r = r.status ≡ online → now < r.lease_expires_at

update-Leased :
    (now : Time) (rows : Nodes) → All (IsLeased now) (update (is_expired now) (expire now) rows)
unfolding update is_expired expire unless_draining
update-Leased now [] = tt
update-Leased now (r ∷ rows) = (λ e. ground (arith, e), update-Leased now rows)

-- When the database has served an expiry, no node is online with a lease that has run out.
pub none_expired : (now : Time) (rows : Nodes) → All (IsLeased now) (mark_expired served now rows).1
unfolding mark_expired
none_expired now rows = update-Leased now rows

module _ (codec : Codec) where
  scan_node-status : (r : NodeRow) (n : Node) → scan_node codec r ≡ ok n → n.status ≡ r.status
  unfolding scan_node
  scan_node-status r n h = ground (arith, h)

  get-status :
      (o : Outcome) (id : String) (rows : Nodes) (n : Node)
      → (get codec o id rows).0 ≡ ok n
      → status_of id rows ≡ some n.status
  unfolding get ◌>>=◌ raise lift
  get-status o id rows n h = by_row (select node_key id rows) refl
    where
      by_row :
          (row : Option NodeRow) → select node_key id rows ≡ row → status_of id rows ≡ some n.status
      by_row none e = ground (arith, h, e)
      by_row (some r) e = ground (arith, h, e, scan_node-status r n)

set_draining_alone :
    (codec : Codec) (writing reading : Outcome) (now : Time) (id : String) (drain : Bool)
    (rows : Nodes)
    → IsKeyed node_key rows
    → (set_draining codec writing (λ r. r) reading now id drain rows).0 ≡ ok tt
    → status_of id (set_draining codec writing (λ r. r) reading now id drain rows).1
      ≡ some (if drain then draining else online)
unfolding set_draining set_status unchanged ◌>>=◌ raise lift
set_draining_alone codec writing reading now id drain rows keyed h =
    let status = if drain then draining else online in
    let test = λ (r : NodeRow). not (r.status == offline) in
    let rows' =
      update (λ r. r.id == id && not (r.status == offline)) (set_status status now) rows in
    elim (Result-cases (get codec reading id rows').0) [
      | inl (n, e) ↦ ground (
        arith,
        h,
        e,
        get-status codec reading id rows' n e,
        rows-get codec reading id rows',
        select-IsAt node_key id rows,
        affected_keyed node_key test (set_status status now) unchanged id rows keyed,
        select-set_status id rows (λ r. r.id == id && not (r.status == offline)) status now,
      )
      | inr (x, e) ↦ ground (
        arith,
        h,
        e,
        rows-get codec reading id rows',
        select-IsAt node_key id rows,
        affected_keyed node_key test (set_status status now) unchanged id rows keyed,
        select-set_status id rows (λ r. r.id == id && not (r.status == offline)) status now,
      )
    ]

-- The node is registered, and not offline.
abbrev pub IsLive : String → Nodes → Type 0
IsLive id rows = (s : Status) × (status_of id rows ≡ some s) × (s ≢ offline)

set_draining-IsLive :
    (codec : Codec) (writing : Outcome) (between : Nodes → Nodes) (reading : Outcome) (now : Time)
    (id : String) (drain : Bool) (rows : Nodes)
    → IsKeyed node_key rows
    → (set_draining codec writing between reading now id drain rows).0 ≡ ok tt
    → IsLive id (set_draining codec writing between reading now id drain rows).1
unfolding set_draining set_status unchanged ◌>>=◌ raise lift
set_draining-IsLive codec writing between reading now id drain rows keyed h =
    let status = if drain then draining else online in
    let test = λ (r : NodeRow). not (r.status == offline) in
    let asked : status ≢ offline = ground arith in
    let changes =
      affected (λ (r : NodeRow). r.id == id && not (r.status == offline)) (set_status status now)
        unchanged rows in
    let rows' =
      update (λ r. r.id == id && not (r.status == offline)) (set_status status now) rows in
    elim (Bool-cases (ltb 0 changes)) [
      | inl changed ↦ (
        status,
        ground (
          arith,
          h,
          changed,
          select-IsAt node_key id rows,
          affected_keyed node_key test (set_status status now) unchanged id rows keyed,
          select-set_status id rows (λ r. r.id == id && not (r.status == offline)) status now,
        ),
        asked,
      )
      | inr same ↦ elim (Result-cases (get codec reading id (between rows')).0) [
        | inl (n, e) ↦ (
          n.status,
          ground (
            arith,
            h,
            e,
            same,
            get-status codec reading id (between rows') n e,
            rows-get codec reading id (between rows'),
          ),
          ground (arith, h, e, same),
        )
        | inr (x, e) ↦ absurd (ground (arith, h, e, same))
      ]
    ]

-- Alone, a request to drain or undrain a node that returns no error leaves it with the status that was
-- asked for, if no two rows share an id. If other processes use the table between its two statements,
-- in whatever way, it still ends with a node that is registered and not offline, though maybe with
-- another status.
pub set_draining_obeyed :
    (codec : Codec) (writing : Outcome) (between : Nodes → Nodes) (reading : Outcome) (now : Time)
    (id : String) (drain : Bool) (rows : Nodes)
    → IsKeyed node_key rows
    → ((set_draining codec writing (λ r. r) reading now id drain rows).0 ≡ ok tt
        → status_of id (set_draining codec writing (λ r. r) reading now id drain rows).1
          ≡ some (if drain then draining else online))
      × ((set_draining codec writing between reading now id drain rows).0 ≡ ok tt
          → IsLive id (set_draining codec writing between reading now id drain rows).1)
set_draining_obeyed codec writing between reading now id drain rows keyed = (
  set_draining_alone codec writing reading now id drain rows keyed,
  set_draining-IsLive codec writing between reading now id drain rows keyed,
)
