-- ===== src/Replicas.antt =====
-- src/platform/replicas.rs: the nodes that the service holds in memory, routing of reads and failover. Whether a
-- statement on the tables succeeds is an argument, and so are fresh identifiers; names of hosts, regions, counts of
-- connections and times, which no operation here looks at, are left out, and so are the tables.
pub mod Routing
pub mod Failover
mod Tests
use stackhouse.Prelude.{
  ℕ, zero, suc, ◌+◌, ◌/◌, ◌%◌, ◌^◌, max, Bool, true, false, not, ◌&&◌, Option, none, some, List, [],
  ◌∷◌, ◌++◌, if◌then◌else◌, retain, length, foldl, map, ◌==◌,
}
use stackhouse.Prelude.Text.{Text, text_eq}
use stackhouse.Errors.{StackhouseError, internal, not_found, Result, err, ok}

pub data NodeRole : Type 0 where
  primary replica standby : NodeRole

pub data NodeStatus : Type 0 where
  healthy degraded unhealthy offline promoting : NodeStatus

pub record ReplicaNode : Type 0 where
  pub id : Text
  pub tenant_id : ℕ
  pub role : NodeRole
  pub status : NodeStatus
  pub replication_lag_ms : ℕ

pub record ReplicaService : Type 0 where
  pub nodes : List ReplicaNode
  pub reads_total : ℕ
  pub reads_primary : ℕ
  pub reads_replica : ℕ
  pub round_robin_index : ℕ

pub record ReplicationStats : Type 0 where
  pub primary_id : Text
  pub replica_count : ℕ
  pub avg_replication_lag_ms : ℕ
  pub max_replication_lag_ms : ℕ
  pub total_reads_routed : ℕ
  pub reads_to_primary : ℕ
  pub reads_to_replicas : ℕ

abbrev pub is_primary_role : NodeRole → Bool
is_primary_role primary = true
is_primary_role _ = false

abbrev pub is_replica_role : NodeRole → Bool
is_replica_role replica = true
is_replica_role _ = false

abbrev pub is_healthy_status : NodeStatus → Bool
is_healthy_status healthy = true
is_healthy_status _ = false

abbrev pub is_primary : ℕ → ReplicaNode → Bool
is_primary tenant_id n = (n.tenant_id == tenant_id) && is_primary_role n.role

abbrev pub is_healthy_replica : ℕ → ReplicaNode → Bool
is_healthy_replica tenant_id n =
    (n.tenant_id == tenant_id) && (is_replica_role n.role && is_healthy_status n.status)

-- `fetch_add(1)` on a `u64`.
abbrev pub fetch_add_one : ℕ → ℕ
fetch_add_one n = (n + 1) % 2 ^ 64

-- `iter().find(p)`
unfoldable pub find : (ReplicaNode → Bool) → List ReplicaNode → Option ReplicaNode
find p [] = none
find p (n ∷ nodes) = let rest = find p nodes in if p n then some n else rest

-- Indexing; `none` is a panic.
abbrev pub get_elem? : List ReplicaNode → ℕ → Option ReplicaNode
get_elem? [] i = none
get_elem? (n ∷ nodes) zero = some n
get_elem? (n ∷ nodes) (suc i) = get_elem? nodes i

-- The answer (`none` is a panic) and the next state.
unfoldable pub route_read : ℕ → ReplicaService → Option (Result ReplicaNode) × ReplicaService
unfolding find
route_read tenant_id s =
    let s = record s { reads_total = fetch_add_one s.reads_total } in
    elim (retain (is_healthy_replica tenant_id) s.nodes) [
      | [] ↦ (
        elim (find (is_primary tenant_id) s.nodes) [
          | none ↦ some (err (internal "No primary node found"))
          | some n ↦ some (ok n)
        ],
        record s { reads_primary = fetch_add_one s.reads_primary },
      )
      | r ∷ replicas ↦ (
        elim (get_elem? (r ∷ replicas) (s.round_robin_index % length (r ∷ replicas))) [
          | none ↦ none
          | some n ↦ some (ok n)
        ],
        record s {
          reads_replica = fetch_add_one s.reads_replica;
          round_robin_index = fetch_add_one s.round_robin_index;
        },
      )
    ]

abbrev pub new_node : Text → ℕ → NodeRole → ReplicaNode
new_node id tenant_id role = record {
  id = id;
  tenant_id = tenant_id;
  role = role;
  status = healthy;
  replication_lag_ms = 0;
}

-- `inserted` is the answer of the insertion.
unfoldable pub register_node :
    Result (Unit {0}) → Text → ℕ → NodeRole → ReplicaService → Result ReplicaNode × ReplicaService
register_node inserted id tenant_id role s = elim inserted [
  | err e ↦ (err e, s)
  | ok _ ↦ (
    ok (new_node id tenant_id role),
    record s { nodes = s.nodes ++ (new_node id tenant_id role ∷ []) },
  )
]

-- `if let Some(old) = nodes.iter_mut().find(...) { old.role = NodeRole::Replica; }`
unfoldable pub demote_first : ℕ → List ReplicaNode → List ReplicaNode
demote_first tenant_id [] = []
demote_first tenant_id (n ∷ nodes) =
    let rest = demote_first tenant_id nodes in
    if is_primary tenant_id n then record n { role = replica } ∷ nodes else n ∷ rest

-- The node with the id becomes the primary; `none` where there is none.
unfoldable pub promote_first : Text → List ReplicaNode → Option (List ReplicaNode)
promote_first node_id [] = none
promote_first node_id (n ∷ nodes) =
    let rest = promote_first node_id nodes in
    if text_eq n.id node_id
    then some (record n { role = primary; status = promoting } ∷ nodes)
    else elim rest [ none ↦ none | some later ↦ some (n ∷ later) ]

abbrev pub id_or_default : Option ReplicaNode → Text
id_or_default none = []
id_or_default (some n) = n.id

-- Identifiers of the event, of the old primary and of the new one.
pub record FailoverEvent : Type 0 where
  pub id : Text
  pub old_primary_id : Text
  pub new_primary_id : Text

-- `recorded` is the answer of the three statements up to the first that fails.
unfoldable pub promote_to_primary :
    Result (Unit {0}) → Text → Text → ℕ → ReplicaService → Result FailoverEvent × ReplicaService
unfolding find demote_first promote_first
promote_to_primary recorded event_id node_id tenant_id s =
    let old_primary_id = id_or_default (find (is_primary tenant_id) s.nodes) in
    let demoted = demote_first tenant_id s.nodes in
    elim (promote_first node_id demoted) [
      | none ↦ (err (not_found "Node not found"), record s { nodes = demoted })
      | some nodes ↦ (
        elim recorded [
          | err e ↦ err e
          | ok _ ↦
              ok (record {
                id = event_id;
                old_primary_id = old_primary_id;
                new_primary_id = node_id;
              })
        ],
        record s { nodes = nodes },
      )
    ]

abbrev pub sum : List ℕ → ℕ
sum [] = 0
sum (x ∷ xs) = x + sum xs

abbrev pub largest : List ℕ → ℕ
largest [] = 0
largest (x ∷ xs) = max x (largest xs)

abbrev pub list_nodes : ℕ → ReplicaService → List ReplicaNode
list_nodes tenant_id s = retain (λ n. n.tenant_id == tenant_id) s.nodes

-- `sum::<u64>` of a release build wraps.
abbrev pub average : List ℕ → ℕ
average [] = 0
average (x ∷ xs) = (sum (x ∷ xs) % 2 ^ 64) / length (x ∷ xs)

unfoldable pub get_stats : ℕ → ReplicaService → ReplicationStats
unfolding find
get_stats tenant_id s =
    let tenant_nodes = list_nodes tenant_id s in
    let replicas = retain (λ n. is_replica_role n.role) tenant_nodes in
    let lags = map (λ n. n.replication_lag_ms) replicas in
    record {
      primary_id = id_or_default (find (λ n. is_primary_role n.role) tenant_nodes);
      replica_count = length replicas;
      avg_replication_lag_ms = average lags;
      max_replication_lag_ms = largest lags;
      total_reads_routed = s.reads_total;
      reads_to_primary = s.reads_primary;
      reads_to_replicas = s.reads_replica;
    }

-- `deleted` is the answer of the deletion.
unfoldable pub remove_node :
    Result (Unit {0}) → Text → ReplicaService → Result (Unit {0}) × ReplicaService
remove_node deleted node_id s = elim deleted [
  | err e ↦ (err e, s)
  | ok _ ↦ (ok tt, record s { nodes = retain (λ n. not (text_eq n.id node_id)) s.nodes })
]
