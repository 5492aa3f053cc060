-- ===== src/Inference/Batch/Merge.antt =====
-- One column merged into the unified map.
use stackhouse.Prelude.{
  ◌≡◌, refl, sym, subst, inl, inr, true, List, [], ◌∷◌, arith, All, In, some, if◌then◌else◌, foldl,
  Option-cases, Bool-cases,
}
use stackhouse.Prelude.Text.{Text, text_eq, text_eq_iff}
use stackhouse.Prelude.Assoc.{Assoc, get, insert, get-insert}
use stackhouse.Inference.{InferredColumn, merge, absorb, values_of}
use stackhouse.Inference.Lattice.{Absorbs, common_type_idem, common_type-least, Absorbs-common_type}

abbrev pub Covers : Assoc InferredColumn → InferredColumn → Type 0
Covers m c =
    (e : InferredColumn) × (get c.name m ≡ some e)
    × Absorbs e.pg_type c.pg_type
    × (c.is_nested ≡ true → e.is_nested ≡ true)

-- Every entry stands under its own name.
abbrev pub IsKeyed : Assoc InferredColumn → Type 0
IsKeyed m = All (λ e. e.1.name ≡ e.0) m

pub name-get :
    (k : Text) (e : InferredColumn) (m : Assoc InferredColumn)
    → IsKeyed m
    → get k m ≡ some e
    → e.name ≡ k
unfolding get
name-get k e [] h g = cc
name-get k e ((j, v) ∷ m) h g = ground (arith, text_eq_iff j k, name-get k e m h.1)

insert-IsKeyed :
    (k : Text) (c : InferredColumn) (m : Assoc InferredColumn)
    → c.name ≡ k
    → IsKeyed m
    → IsKeyed (insert k c m)
unfolding insert
insert-IsKeyed k c [] n h = (n, tt)
insert-IsKeyed k c ((j, v) ∷ m) n h = ground (arith, text_eq_iff j k, insert-IsKeyed k c m n h.1)

pub get-merge :
    (m : Assoc InferredColumn) (c : InferredColumn) (k : Text)
    → get k (merge m c) ≡ (if text_eq c.name k then some (absorb c (get c.name m)) else get k m)
unfolding merge
get-merge m c k = get-insert c.name k (absorb c (get c.name m)) m

merge-IsKeyed : (m : Assoc InferredColumn) (c : InferredColumn) → IsKeyed m → IsKeyed (merge m c)
unfolding merge absorb
merge-IsKeyed m c keyed = elim (Option-cases (get c.name m)) [
  | inl fresh ↦ insert-IsKeyed c.name (absorb c (get c.name m)) m (rw fresh refl) keyed
  | inr (old, found) ↦
      insert-IsKeyed c.name (absorb c (get c.name m)) m
        (rw found (name-get c.name old m keyed found)) keyed
]

merge-Covers_self : (m : Assoc InferredColumn) (c : InferredColumn) → Covers (merge m c) c
unfolding absorb
merge-Covers_self m c = elim (Option-cases (get c.name m)) [
  | inl fresh ↦ (
    c,
    ground (arith, get-merge m c c.name, text_eq_iff c.name c.name),
    common_type_idem c.pg_type,
    λ h. h,
  )
  | inr (old, found) ↦ (
    absorb c (some old),
    ground (arith, get-merge m c c.name, text_eq_iff c.name c.name),
    (common_type-least old.pg_type c.pg_type c.pg_type).1,
    λ h. ground arith,
  )
]

merge-Covers : (m : Assoc InferredColumn) (d c : InferredColumn) → Covers m c → Covers (merge m d) c
unfolding absorb
merge-Covers m d c (e, found, absorbs, nested) = elim (Bool-cases (text_eq d.name c.name)) [
  | inl same ↦ (
    absorb d (some e),
    ground (arith, get-merge m d c.name, text_eq_iff d.name c.name),
    Absorbs-common_type e.pg_type c.pg_type d.pg_type absorbs,
    λ h. ground (arith, nested),
  )
  | inr other ↦ (e, ground (arith, get-merge m d c.name), absorbs, nested)
]

pub foldl-Covers_kept :
    (cs : List InferredColumn) (m : Assoc InferredColumn) (c : InferredColumn)
    → Covers m c
    → Covers (foldl merge m cs) c
foldl-Covers_kept [] m c h = h
foldl-Covers_kept (d ∷ cs) m c h = foldl-Covers_kept cs (merge m d) c (merge-Covers m d c h)

pub foldl-Covers :
    (cs : List InferredColumn) (m : Assoc InferredColumn) (c : InferredColumn)
    → In c cs
    → Covers (foldl merge m cs) c
foldl-Covers [] m c i = elim i [ ]
foldl-Covers (d ∷ cs) m c (inl e) =
    subst (Covers (foldl merge (merge m d) cs)) (sym e)
      (foldl-Covers_kept cs (merge m d) d (merge-Covers_self m d))
foldl-Covers (d ∷ cs) m c (inr i) = foldl-Covers cs (merge m d) c i

pub foldl-IsKeyed :
    (cs : List InferredColumn) (m : Assoc InferredColumn) → IsKeyed m → IsKeyed (foldl merge m cs)
foldl-IsKeyed [] m h = h
foldl-IsKeyed (d ∷ cs) m h = foldl-IsKeyed cs (merge m d) (merge-IsKeyed m d h)

pub In-values_of :
    (k : Text) (e : InferredColumn) (m : Assoc InferredColumn)
    → get k m ≡ some e
    → In e (values_of m)
unfolding get
In-values_of k e [] h = cc
In-values_of k e ((j, v) ∷ m) h = elim (Bool-cases (text_eq j k)) [
  | inl same ↦ inl (ground arith)
  | inr other ↦ inr (In-values_of k e m (ground arith))
]
