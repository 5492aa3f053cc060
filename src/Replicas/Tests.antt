-- ===== src/Replicas/Tests.antt =====
-- Tests and instances of the replicas.
use stackhouse.Prelude.{arith, true, ◌≡◌, refl, some, [], ◌∷◌, In, inl, inr}
use stackhouse.Prelude.Text.{codes}
use stackhouse.Errors.{ok, err, not_found}
use stackhouse.Replicas.{
  primary, replica, ReplicaNode, ReplicaService, new_node, route_read, promote_to_primary,
  get_stats, is_healthy_replica, remove_node, demote_first, promote_first,
}
use stackhouse.Replicas.Routing.{route_read-In}
use stackhouse.Replicas.Failover.{promote_to_primary-get_stats}

abbrev main_node : ReplicaNode
main_node = new_node (codes "a") 1 primary

abbrev west : ReplicaNode
west = new_node (codes "b") 1 replica

abbrev east : ReplicaNode
east = new_node (codes "c") 1 replica

abbrev service : ReplicaService
service = record {
  nodes = main_node ∷ (west ∷ (east ∷ []));
  reads_total = 0;
  reads_primary = 0;
  reads_replica = 0;
  round_robin_index = 0;
}

first_read : (route_read 1 service).0 ≡ some (ok west)
unfolding route_read
first_read = refl

second_read : (route_read 1 (route_read 1 service).1).0 ≡ some (ok east)
unfolding route_read
second_read = refl

third_read : (route_read 1 (route_read 1 (route_read 1 service).1).1).0 ≡ some (ok west)
unfolding route_read
third_read = refl

-- A node of another tenant can be promoted.
other_tenant :
    (promote_to_primary (ok tt) (codes "e") (codes "b") 2 service).0
    ≡ ok (record { id = codes "e"; old_primary_id = []; new_primary_id = codes "b" })
unfolding promote_to_primary demote_first promote_first
other_tenant = refl

stats_after_removal : (get_stats 1 (remove_node (ok tt) (codes "a") service).1).primary_id ≡ []
unfolding get_stats remove_node
stats_after_removal = refl

route_read-In_example :
    (n : ReplicaNode) × ((route_read 1 service).0 ≡ some (ok n))
    × In n service.nodes
    × (is_healthy_replica 1 n ≡ true)
    × ((route_read 1 service).1.reads_primary ≡ 0)
route_read-In_example = route_read-In 1 service west (inr (inl refl)) refl

promote_to_primary-get_stats_example :
    ((promote_to_primary (ok tt) (codes "e") (codes "x") 1 service).0
      ≡ err (not_found "Node not found"))
    × ((get_stats 1 (promote_to_primary (ok tt) (codes "e") (codes "x") 1 service).1).primary_id
        ≡ [])
promote_to_primary-get_stats_example =
    promote_to_primary-get_stats (ok tt) (codes "e") (codes "x") 1 service (omega arith)
      (refl, (refl, (refl, tt)))
