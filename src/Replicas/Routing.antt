-- ===== src/Replicas/Routing.antt =====
-- Where a read goes.
use stackhouse.Prelude.{
  ℕ, zero, suc, ◌%◌, ◌<◌, ◌≡◌, refl, sym, subst, true, some, List, [], ◌∷◌, arith, length, retain,
  In, In-retain, retain-In, List-cases, inl, inr,
}
use stackhouse.Errors.{ok}
use stackhouse.Replicas.{ReplicaNode, ReplicaService, get_elem?, is_healthy_replica, route_read}

get_elem?-In :
    (nodes : List ReplicaNode) (i : ℕ)
    → i < length nodes
    → (n : ReplicaNode) × (get_elem? nodes i ≡ some n) × In n nodes
get_elem?-In [] i h = absurd (omega arith)
get_elem?-In (n ∷ nodes) zero h = (n, refl, inl refl)
get_elem?-In (n ∷ nodes) (suc i) h =
    let (m, e, at) = get_elem?-In nodes i (omega arith) in (m, e, inr at)

-- Where the tenant has a healthy replica, a read is answered, with a healthy replica of the tenant: no index is
-- out of range and the primary is left alone.
pub route_read-In :
    (tenant_id : ℕ) (s : ReplicaService) (r : ReplicaNode)
    → In r s.nodes
    → is_healthy_replica tenant_id r ≡ true
    → (n : ReplicaNode) × ((route_read tenant_id s).0 ≡ some (ok n))
      × In n s.nodes
      × (is_healthy_replica tenant_id n ≡ true)
      × ((route_read tenant_id s).1.reads_primary ≡ s.reads_primary)
unfolding route_read
route_read-In tenant_id s r m h =
    let p = is_healthy_replica tenant_id in
    elim (List-cases (retain p s.nodes)) [
      | inl none_left ↦ absurd (subst (In r) none_left (retain-In p r s.nodes m h))
      | inr (x, rest, e) ↦
          let (n, found, at) =
            get_elem?-In (x ∷ rest) (s.round_robin_index % length (x ∷ rest)) (omega arith) in
          let (member, is) = In-retain p n s.nodes (subst (In n) (sym e) at) in
          (n, rw (e, route_read) (rw found refl), member, is, rw (e, route_read) refl)
    ]
