-- ===== src/Replicas/Failover.antt =====
-- A promotion that fails.
use stackhouse.Prelude.{
  ℕ, ◌≤◌, ◌≡◌, ◌∙◌, refl, ap, false, none, List, [], ◌∷◌, arith, length, retain, All, Bool-cases,
  inl, inr, ◌==◌,
}
use stackhouse.Prelude.Text.{Text, text_eq}
use stackhouse.Errors.{Result, err, not_found}
use stackhouse.Replicas.{
  replica, ReplicaNode, ReplicaService, find, is_primary, is_primary_role, demote_first,
  promote_first, promote_to_primary, id_or_default, get_stats,
}

promote_first-none :
    (node_id : Text) (tenant_id : ℕ) (nodes : List ReplicaNode)
    → All (λ n. text_eq n.id node_id ≡ false) nodes
    → promote_first node_id nodes ≡ none
unfolding promote_first
promote_first-none node_id tenant_id [] h = refl
promote_first-none node_id tenant_id (n ∷ nodes) (h, later) =
    rw (h, promote_first) (rw (promote_first-none node_id tenant_id nodes later) refl)

demote_first-All :
    (node_id : Text) (tenant_id : ℕ) (nodes : List ReplicaNode)
    → All (λ n. text_eq n.id node_id ≡ false) nodes
    → All (λ n. text_eq n.id node_id ≡ false) (demote_first tenant_id nodes)
unfolding demote_first
demote_first-All node_id tenant_id [] h = tt
demote_first-All node_id tenant_id (n ∷ nodes) (h, later) =
    elim (Bool-cases (is_primary tenant_id n)) [
      | inl is ↦ rw (is, demote_first) (h, later)
      | inr other ↦ rw (other, demote_first) (h, demote_first-All node_id tenant_id nodes later)
    ]

-- The primary that get_stats looks for, among all nodes.
find-retain :
    (tenant_id : ℕ) (nodes : List ReplicaNode)
    → find (λ n. is_primary_role n.role) (retain (λ n. n.tenant_id == tenant_id) nodes)
      ≡ find (is_primary tenant_id) nodes
unfolding find
find-retain tenant_id [] = refl
find-retain tenant_id (n ∷ nodes) = ground (arith, find-retain tenant_id nodes)

find-none :
    (tenant_id : ℕ) (nodes : List ReplicaNode)
    → length (retain (is_primary tenant_id) nodes) ≤ 0
    → find (is_primary tenant_id) nodes ≡ none
unfolding find
find-none tenant_id [] h = refl
find-none tenant_id (n ∷ nodes) h = elim (Bool-cases (is_primary tenant_id n)) [
  | inl is ↦ absurd (ground (arith, is))
  | inr other ↦ rw (other, find) (find-none tenant_id nodes (ground (arith, other)))
]

find-demote_first :
    (tenant_id : ℕ) (nodes : List ReplicaNode)
    → length (retain (is_primary tenant_id) nodes) ≤ 1
    → find (is_primary tenant_id) (demote_first tenant_id nodes) ≡ none
unfolding find demote_first
find-demote_first tenant_id [] h = refl
find-demote_first tenant_id (n ∷ nodes) h = elim (Bool-cases (is_primary tenant_id n)) [
  | inl is ↦
      rw (is, demote_first) (rw (no_primary, find) (find-none tenant_id nodes (ground (arith, is))))
  | inr other ↦
      rw (other, demote_first)
        (rw (other, find) (find-demote_first tenant_id nodes (ground (arith, other))))
]
  where
    no_primary : is_primary tenant_id (record n { role = replica }) ≡ false
    no_primary = ground arith

-- A tenant with at most one primary, and an id that no node has: the promotion is answered with 404, and yet
-- the tenant has no primary afterwards.
pub promote_to_primary-get_stats :
    (recorded : Result (Unit {0})) (event_id node_id : Text) (tenant_id : ℕ) (s : ReplicaService)
    → length (retain (is_primary tenant_id) s.nodes) ≤ 1
    → All (λ n. text_eq n.id node_id ≡ false) s.nodes
    → ((promote_to_primary recorded event_id node_id tenant_id s).0
        ≡ err (not_found "Node not found"))
      × ((get_stats tenant_id
            (promote_to_primary recorded event_id node_id tenant_id s).1).primary_id
          ≡ [])
unfolding promote_to_primary get_stats
promote_to_primary-get_stats recorded event_id node_id tenant_id s one unknown =
    let demoted = demote_first tenant_id s.nodes in
    let gone =
      promote_first-none node_id tenant_id demoted
        (demote_first-All node_id tenant_id s.nodes unknown) in
    (
      rw (gone, promote_to_primary) refl,
      rw (gone, promote_to_primary)
          (ap id_or_default
            (find-retain tenant_id demoted ∙ find-demote_first tenant_id s.nodes one)),
    )
