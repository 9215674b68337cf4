-- ===== src/Node/Presence.antt =====
-- The registry of nodes as a map from ids to what is known of a node, with the rules of its life written
-- out by status, and the table of internal/node that implements it.
use updater_service.Base.{
  String, ◌≡◌, refl, ap, ◌∙◌, Bool, true, false, ◌&&◌, Option, none, some, List, [], ◌∷◌, arith,
  ◌==◌, string_eq, if◌then◌else◌, leb, Option-cases, Result-cases, inl, inr, on_option, on_result,
  ◌||◌,
}
use updater_service.Operation.{Time}
use updater_service.Node.{Status, online, draining, offline, other, status_eq, Status-discrete}
use updater_service.Node.Repository.{
  NodeRow, Codec, Nodes, renew, renew_lease, end_lease, expire, is_expired, set_status,
  unless_draining,
}
use updater_service.Node.Registry.{
  Event, registering, beating, leaving, expiring, setting, step, node_history,
}
use updater_service.Node.Refinement.{takes_effect, Registry, map_step, rows_of, rows_of-step}

-- What is known of a node.
pub record Presence : Type 0 where
  pub instance_id : String
  pub status : Status
  pub last_seen_at : Time
  pub lease_expires_at : Time
  pub created_at : Time

-- A node that gives a sign of life is online, one that leaves is offline, and neither ends a drain.
abbrev pub came : Status → Status
came online = online
came draining = draining
came offline = online
came (other _) = online

abbrev pub gone : Status → Status
gone online = offline
gone draining = draining
gone offline = offline
gone (other _) = offline

abbrev pub is_up : Status → Bool
is_up online = true
is_up draining = true
is_up offline = false
is_up (other _) = false

abbrev pub is_gone : Status → Bool
is_gone online = false
is_gone draining = false
is_gone offline = true
is_gone (other _) = false

abbrev pub Presences : Type 0
Presences = String → Option Presence

-- The presence of `id` changes, if it is there.
abbrev pub at : String → (Presence → Presence) → Presences → Presences
at id change known k = on_option (known k) none (λ p. some (if k == id then change p else p))

-- A heartbeat and a goodbye count if they are of the incarnation that is registered.
abbrev pub when_same : String → (Presence → Presence) → Presence → Presence
when_same instance_id change p = if p.instance_id == instance_id then change p else p

abbrev pub spec_step : Codec → Event → Presences → Presences
spec_step codec (registering o n) known = λ k.
    on_result (codec.encode n.capabilities) (λ e. known k)
      (λ json.
        if takes_effect o && k == n.id
        then some (record {
          instance_id = n.instance_id;
          status = on_option (known k) online (λ p. came p.status);
          last_seen_at = n.last_seen_at;
          lease_expires_at = n.lease_expires_at;
          created_at = on_option (known k) n.created_at (λ p. p.created_at);
        })
        else known k)
spec_step codec (beating o now id instance_id lease) known =
    if takes_effect o
    then at id
        (when_same instance_id
          (λ p. record p { status = came p.status; last_seen_at = now; lease_expires_at = lease }))
        known
    else known
spec_step codec (leaving o now id instance_id) known =
    if takes_effect o
    then at id
        (when_same instance_id (λ p. record p { status = gone p.status; lease_expires_at = now }))
        known
    else known
spec_step codec (expiring o now) known = λ k. on_option (known k) none (λ p. some (
    if takes_effect o && is_up p.status && leb p.lease_expires_at now
    then record p { status = gone p.status }
    else p))
spec_step codec (setting writing reading now id drain) known =
    if takes_effect writing
    then at id
        (λ p.
          if is_gone p.status then p else record p { status = if drain then draining else online })
        known
    else known

abbrev pub spec_history : Codec → List Event → Presences → Presences
spec_history codec [] known = known
spec_history codec (e ∷ events) known = spec_history codec events (spec_step codec e known)

-- What a row says of its node.
abbrev pub seen : Option NodeRow → Option Presence
seen row = on_option row none (λ r. some (record {
  instance_id = r.instance_id;
  status = r.status;
  last_seen_at = r.last_seen_at;
  lease_expires_at = r.lease_expires_at;
  created_at = r.created_at;
}))

abbrev pub known_of : Nodes → Presences
known_of rows k = seen (rows_of rows k)

came_lem : (s : Status) → came s ≡ unless_draining online s
unfolding unless_draining Status-discrete
came_lem online = refl
came_lem draining = refl
came_lem offline = refl
came_lem (other _) = refl

gone_lem : (s : Status) → gone s ≡ unless_draining offline s
unfolding unless_draining Status-discrete
gone_lem online = refl
gone_lem draining = refl
gone_lem offline = refl
gone_lem (other _) = refl

is_up_lem : (s : Status) → is_up s ≡ (s == online || s == draining)
unfolding Status-discrete
is_up_lem online = refl
is_up_lem draining = refl
is_up_lem offline = refl
is_up_lem (other _) = refl

is_gone_lem : (s : Status) → is_gone s ≡ (s == offline)
unfolding Status-discrete
is_gone_lem online = refl
is_gone_lem draining = refl
is_gone_lem offline = refl
is_gone_lem (other _) = refl

seen-map_step :
    (codec : Codec) (event : Event) (registry : Registry) (k : String)
    → seen (map_step codec event registry k) ≡ spec_step codec event (λ j. seen (registry j)) k
unfolding renew renew_lease end_lease expire is_expired set_status
seen-map_step codec (registering o n) registry k =
    elim (Result-cases (codec.encode n.capabilities)) [
      | inr (x, e) ↦ ground (arith, e)
      | inl (json, e) ↦ elim (Option-cases (registry k)) [
        | inl absent ↦ ground (arith, e, absent)
        | inr (r, there) ↦ ground (arith, e, there, came_lem r.status)
      ]
    ]
seen-map_step codec (beating o now id instance_id lease) registry k =
    elim (Option-cases (registry k)) [
      | inl absent ↦ ground (arith, absent)
      | inr (r, there) ↦ ground (arith, there, came_lem r.status)
    ]
seen-map_step codec (leaving o now id instance_id) registry k = elim (Option-cases (registry k)) [
  | inl absent ↦ ground (arith, absent)
  | inr (r, there) ↦ ground (arith, there, gone_lem r.status)
]
seen-map_step codec (expiring o now) registry k = elim (Option-cases (registry k)) [
  | inl absent ↦ ground (arith, absent)
  | inr (r, there) ↦ ground (arith, there, gone_lem r.status, is_up_lem r.status)
]
seen-map_step codec (setting writing reading now id drain) registry k =
    elim (Option-cases (registry k)) [
      | inl absent ↦ ground (arith, absent)
      | inr (r, there) ↦ ground (arith, there, is_gone_lem r.status)
    ]

-- The table of nodes implements the map with its rules: whatever calls the repository gets, and however
-- their statements end, what a SELECT by an id finds of a node's incarnation, status, times of its lease
-- and creation is what the map of the same calls has there.
pub node_history_refines :
    (codec : Codec) (events : List Event) (rows : Nodes)
    → known_of (node_history codec events rows) ≡ spec_history codec events (known_of rows)
unfolding node_history
node_history_refines codec [] rows = refl
node_history_refines codec (e ∷ events) rows =
    node_history_refines codec events (step codec e rows)
    ∙ ap (spec_history codec events)
        (λ i k. (ap seen (rows_of-step codec k rows e) ∙ seen-map_step codec e (rows_of rows) k) i)
