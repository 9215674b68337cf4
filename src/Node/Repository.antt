-- ===== src/Node/Repository.antt =====
-- internal/node/repository.go: the methods of `MariaDBNodeRepository`, on the rows of the table that
-- migrations/20260924042722_003_create_nodes.sql creates.
use updater_service.Base.{
  String, Bool, ◌&&◌, ◌||◌, not, Option, none, some, List, [], ◌∷◌, ◌++◌, ltb, leb, ◌==◌, string_eq,
  nat_eq, if◌then◌else◌, Outcome, call, Act, pure, raise, lift, on_option, on_result, ◌>>=◌, Result,
  ok, err, node_not_found, node_offline, stale_instance, select, update, affected, ℕ,
}
use updater_service.Operation.{Time}
use updater_service.Node.{Status, online, draining, offline, status_eq, Node}

-- A row, with the JSON text of the capabilities.
pub record NodeRow : Type 0 where
  pub id : String
  pub instance_id : String
  pub status : Status
  pub address : String
  pub version : String
  pub capabilities : Option String
  pub last_seen_at : Time
  pub lease_expires_at : Time
  pub started_at : Time
  pub created_at : Time
  pub updated_at : Time

-- json.Marshal and json.Unmarshal on lists of texts
pub record Codec : Type 0 where
  pub encode : List String → Result String
  pub decode : String → Result (List String)

abbrev pub Nodes : Type 0
Nodes = List NodeRow

abbrev pub node_key : NodeRow → String
node_key r = r.id

-- CASE WHEN status = 'DRAINING' THEN 'DRAINING' ELSE next END
unfoldable pub unless_draining : Status → Status → Status
unless_draining next old = if old == draining then draining else next

abbrev pub to_row : String → Node → NodeRow
to_row json n = record {
  id = n.id;
  instance_id = n.instance_id;
  status = online;
  address = n.address;
  version = n.version;
  capabilities = some json;
  last_seen_at = n.last_seen_at;
  lease_expires_at = n.lease_expires_at;
  started_at = n.started_at;
  created_at = n.created_at;
  updated_at = n.updated_at;
}

-- ON DUPLICATE KEY UPDATE: all but `created_at`.
unfoldable pub renew : NodeRow → NodeRow → NodeRow
renew new old = record new {
  id = old.id;
  status = unless_draining online old.status;
  created_at = old.created_at;
}

unfoldable pub upsert : NodeRow → Nodes → Nodes
upsert new rows = elim (select node_key new.id rows) [
  | none ↦ rows ++ new ∷ []
  | some _ ↦ update (λ r. r.id == new.id) (renew new) rows
]

unfoldable pub register : Codec → Outcome → Node → Act Nodes Unit
register codec o n =
    on_result (codec.encode n.capabilities) raise
      (λ json. call o (λ rows. (tt, upsert (to_row json n) rows)))

-- The columns that the UPDATE statements set.
unfoldable pub unchanged : NodeRow → NodeRow → Bool
unchanged a b =
    a.status == b.status
    && a.last_seen_at == b.last_seen_at
    && a.lease_expires_at == b.lease_expires_at
    && a.updated_at == b.updated_at

abbrev pub exec : (NodeRow → Bool) → (NodeRow → NodeRow) → Nodes → ℕ × Nodes
exec test set rows = (affected test set unchanged rows, update test set rows)

unfoldable pub renew_lease : Time → Time → NodeRow → NodeRow
renew_lease now lease r = record r {
  status = unless_draining online r.status;
  last_seen_at = now;
  lease_expires_at = lease;
  updated_at = now;
}

unfoldable pub heartbeat : Outcome → Time → String → String → Time → Act Nodes Unit
heartbeat o now id instance_id lease = do
  rows ← call o (exec (λ r. r.id == id && r.instance_id == instance_id) (renew_lease now lease))
  if rows == 0 then raise stale_instance else pure tt

unfoldable pub end_lease : Time → NodeRow → NodeRow
end_lease now r = record r {
  status = unless_draining offline r.status;
  lease_expires_at = now;
  updated_at = now;
}

unfoldable pub goodbye : Outcome → Time → String → String → Act Nodes Unit
goodbye o now id instance_id = do
  rows ← call o (exec (λ r. r.id == id && r.instance_id == instance_id) (end_lease now))
  if rows == 0 then raise stale_instance else pure tt

unfoldable pub is_expired : Time → NodeRow → Bool
is_expired now r = (r.status == online || r.status == draining) && leb r.lease_expires_at now

unfoldable pub expire : Time → NodeRow → NodeRow
expire now r = record r { status = unless_draining offline r.status; updated_at = now }

unfoldable pub mark_expired : Outcome → Time → Act Nodes Unit
mark_expired o now = call o (λ rows. (tt, update (is_expired now) (expire now) rows))

abbrev pub of_row : NodeRow → List String → Node
of_row r capabilities = record {
  id = r.id;
  instance_id = r.instance_id;
  status = r.status;
  address = r.address;
  version = r.version;
  capabilities = capabilities;
  last_seen_at = r.last_seen_at;
  lease_expires_at = r.lease_expires_at;
  started_at = r.started_at;
  created_at = r.created_at;
  updated_at = r.updated_at;
}

-- `scanNode`
unfoldable pub scan_node : Codec → NodeRow → Result Node
scan_node codec r = on_option r.capabilities (ok (of_row r [])) (λ json.
    if json == ""
    then ok (of_row r [])
    else on_result (codec.decode json) err (λ capabilities. ok (of_row r capabilities)))

unfoldable pub get : Codec → Outcome → String → Act Nodes Node
get codec o id = do
  row ← call o (λ rows. (select node_key id rows, rows))
  on_option row (raise node_not_found) (λ r. lift (scan_node codec r))

-- A statement that comes after what other processes do.
abbrev pub interrupted : {A : Type 0} → (Nodes → Nodes) → Act Nodes A → Act Nodes A
interrupted between m rows = m (between rows)

unfoldable pub set_status : Status → Time → NodeRow → NodeRow
set_status status now r = record r { status = status; updated_at = now }

-- Other processes may use the table between the two statements.
unfoldable pub set_draining :
    Codec → Outcome → (Nodes → Nodes) → Outcome → Time → String → Bool → Act Nodes Unit
set_draining codec writing between reading now id drain = do
  let status = if drain then draining else online
  rows ← call writing (exec (λ r. r.id == id && not (r.status == offline)) (set_status status now))
  if ltb 0 rows then pure tt else do
    record_ ← interrupted between (get codec reading id)
    if record_.status == offline then raise node_offline else pure tt

-- ORDER BY status, id, in the order `sooner` of the table's collation
unfoldable pub insert_node : (NodeRow → NodeRow → Bool) → NodeRow → Nodes → Nodes
insert_node sooner r [] = r ∷ []
insert_node sooner r (q ∷ rows) =
    let rest = insert_node sooner r rows in if sooner r q then r ∷ q ∷ rows else q ∷ rest

unfoldable pub order_nodes : (NodeRow → NodeRow → Bool) → Nodes → Nodes
order_nodes sooner [] = []
order_nodes sooner (r ∷ rows) = insert_node sooner r (order_nodes sooner rows)

-- The loop over `rows.Next`, which ends at the first row that cannot be read.
unfoldable pub scan_all : Codec → Nodes → Result (List Node)
scan_all codec [] = ok []
scan_all codec (r ∷ rows) =
    let rest = scan_all codec rows in
    on_result (scan_node codec r) err (λ n. on_result rest err (λ l. ok (n ∷ l)))

unfoldable pub list : Codec → (NodeRow → NodeRow → Bool) → Outcome → Act Nodes (List Node)
list codec sooner o = do
  rows ← call o (λ rows. (order_nodes sooner rows, rows))
  lift (scan_all codec rows)
