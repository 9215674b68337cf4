-- ===== src/Node/Draining.antt =====
-- A node that is draining stays so until an administrator ends it.
use updater_service.Base.{
  String, ◌≡◌, Bool, true, ◌&&◌, some, List, [], ◌∷◌, Outcome, served, refused, lost, arith, ◌==◌,
  string_eq, if◌then◌else◌, ◌>>=◌, update, select-append, Result-cases, inl, inr, All, call, raise,
  not, lift, select-IsAt,
}
use updater_service.Operation.{Time}
use updater_service.Node.{online, draining, offline, Node, status_eq}
use updater_service.Node.Repository.{
  NodeRow, Codec, Nodes, node_key, register, heartbeat, goodbye, mark_expired, set_draining, get,
  upsert, renew, renew_lease, end_lease, expire, is_expired, set_status, unless_draining, to_row,
}
use updater_service.Node.Registry.{
  Event, registering, beating, leaving, expiring, setting, step, node_history, status_of,
  select-renew_lease, select-end_lease, select-expire, select-set_status, select-renew,
}

-- The event is no successful request to end the draining of `k`.
abbrev pub IsNoUndrain : String → Event → Type 0
IsNoUndrain k (registering o n) = Unit
IsNoUndrain k (beating o now id instance_id lease) = Unit
IsNoUndrain k (leaving o now id instance_id) = Unit
IsNoUndrain k (expiring o now) = Unit
IsNoUndrain k (setting writing reading now id drain) = id ≡ k → drain ≡ true

pub rows-get :
    (codec : Codec) (o : Outcome) (id : String) (rows : Nodes) → (get codec o id rows).1 ≡ rows
unfolding get ◌>>=◌ raise lift
rows-get codec o id rows = ground arith

module _ (codec : Codec) (k : String) (rows : Nodes) (h : status_of k rows ≡ some draining) where
  upsert_draining : (new : NodeRow) → status_of k (upsert new rows) ≡ some draining
  unfolding upsert renew unless_draining
  upsert_draining new =
      ground
        (arith, h, select-renew k rows (λ r. r.id == new.id) new, select-append node_key k rows new)

  call_draining :
      (o : Outcome) (f : Nodes → Nodes)
      → status_of k (f rows) ≡ some draining
      → status_of k (call o (λ rows. (tt {0}, f rows)) rows).1 ≡ some draining
  call_draining served f g = g
  call_draining (refused e) f g = h
  call_draining (lost e) f g = g

  register_draining :
      (o : Outcome) (n : Node) → status_of k (register codec o n rows).1 ≡ some draining
  unfolding register raise
  register_draining o n = elim (Result-cases (codec.encode n.capabilities)) [
    | inl (json, e) ↦
        rw e (call_draining o (upsert (to_row json n)) (upsert_draining (to_row json n)))
    | inr (x, e) ↦ rw e h
  ]

  heartbeat_draining :
      (o : Outcome) (now : Time) (id instance_id : String) (lease : Time)
      → status_of k (heartbeat o now id instance_id lease rows).1 ≡ some draining
  unfolding heartbeat renew_lease unless_draining ◌>>=◌
  heartbeat_draining o now id instance_id lease = ground (
    arith,
    h,
    select-renew_lease k rows (λ r. r.id == id && r.instance_id == instance_id) now lease,
  )

  goodbye_draining :
      (o : Outcome) (now : Time) (id instance_id : String)
      → status_of k (goodbye o now id instance_id rows).1 ≡ some draining
  unfolding goodbye end_lease unless_draining ◌>>=◌
  goodbye_draining o now id instance_id =
      ground
        (arith, h, select-end_lease k rows (λ r. r.id == id && r.instance_id == instance_id) now)

  mark_expired_draining :
      (o : Outcome) (now : Time) → status_of k (mark_expired o now rows).1 ≡ some draining
  unfolding mark_expired expire unless_draining
  mark_expired_draining o now = ground (arith, h, select-expire k rows (is_expired now) now)

  set_draining_draining :
      (writing reading : Outcome) (now : Time) (id : String) (drain : Bool)
      → (id ≡ k → drain ≡ true)
      → status_of k (set_draining codec writing (λ r. r) reading now id drain rows).1
        ≡ some draining
  unfolding set_draining set_status ◌>>=◌
  set_draining_draining writing reading now id drain other =
      let rows' =
        update (λ r. r.id == id && not (r.status == offline))
          (set_status (if drain then draining else online) now) rows in
      ground (
        arith,
        h,
        other,
        select-IsAt node_key k rows,
        select-set_status k rows (λ r. r.id == id && not (r.status == offline))
            (if drain then draining else online) now,
        rows-get codec reading id rows',
      )

-- A node that is draining stays so whatever registrations, heartbeats, goodbyes, expiries and
-- requests to drain nodes follow, lost or not, until a request asks to undrain it.
pub draining_persists :
    (codec : Codec) (events : List Event) (k : String) (rows : Nodes)
    → All (IsNoUndrain k) events
    → status_of k rows ≡ some draining
    → status_of k (node_history codec events rows) ≡ some draining
unfolding node_history step
draining_persists codec [] k rows all h = h
draining_persists codec (registering o n ∷ events) k rows all h =
    draining_persists codec events k _ all.1 (register_draining codec k rows h o n)
draining_persists codec (beating o now id instance_id lease ∷ events) k rows all h =
    draining_persists codec events k _ all.1
      (heartbeat_draining codec k rows h o now id instance_id lease)
draining_persists codec (leaving o now id instance_id ∷ events) k rows all h =
    draining_persists codec events k _ all.1 (goodbye_draining codec k rows h o now id instance_id)
draining_persists codec (expiring o now ∷ events) k rows all h =
    draining_persists codec events k _ all.1 (mark_expired_draining codec k rows h o now)
draining_persists codec (setting writing reading now id drain ∷ events) k rows all h =
    draining_persists codec events k _ all.1
      (set_draining_draining codec k rows h writing reading now id drain all.0)
