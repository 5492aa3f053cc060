-- ===== src/Prelude/Assoc.antt =====
-- `HashMap`, `DashMap` and `serde_json::Map` with text keys, as association lists.
use Prim.Native.Nat.{suc}
use mathlib.Core.Path.{◌≡◌, refl}
use mathlib.Core.Bool.{true, false}
use mathlib.Core.Option.{Option, none, some}
use mathlib.Core.List.{List, [], ◌∷◌}
use native.Mathlib.Omega.{arith}
use stackhouse.Prelude.Tests.{if◌then◌else◌, is_some}
use stackhouse.Prelude.Lists.{length}
use stackhouse.Prelude.Text.{Text, text_eq, text_eq_iff, text_eq_refl}

abbrev pub Assoc {ℓ} : Type ℓ → Type ℓ
Assoc V = List (Text × V)

module _ {ℓ} {V : Type ℓ} where
  unfoldable pub get : Text → Assoc V → Option V
  get k [] = none
  get k ((j, v) ∷ m) = if text_eq j k then some v else get k m

  unfoldable pub insert : Text → V → Assoc V → Assoc V
  insert k v [] = (k, v) ∷ []
  insert k v ((j, w) ∷ m) = if text_eq j k then (j, v) ∷ m else (j, w) ∷ insert k v m

  unfoldable pub remove : Text → Assoc V → Assoc V
  remove k [] = []
  remove k ((j, v) ∷ m) = let rest = remove k m in if text_eq j k then rest else (j, v) ∷ rest

  -- `entry(k).or_insert(v)` read back.
  unfoldable pub get_or : V → Text → Assoc V → V
  get_or d k m = elim (get k m) [ none ↦ d | some v ↦ v ]

  pub get-insert :
      (k j : Text) (v : V) (m : Assoc V)
      → get j (insert k v m) ≡ (if text_eq k j then some v else get j m)
  unfolding get insert
  get-insert k j v [] = refl
  get-insert k j v ((i, w) ∷ m) =
      ground (arith, text_eq_iff k j, text_eq_iff i k, text_eq_iff i j, get-insert k j v m)

  pub get-insert_self : (k : Text) (v : V) (m : Assoc V) → get k (insert k v m) ≡ some v
  get-insert_self k v m = simp (get-insert, text_eq_refl)

  pub get-insert_same :
      (k j : Text) (v : V) (m : Assoc V) → text_eq k j ≡ true → get j (insert k v m) ≡ some v
  get-insert_same k j v m e = ground (arith, get-insert k j v m)

  pub get-insert_other :
      (k j : Text) (v : V) (m : Assoc V) → text_eq k j ≡ false → get j (insert k v m) ≡ get j m
  get-insert_other k j v m e = ground (arith, get-insert k j v m)

  pub get-remove :
      (k j : Text) (m : Assoc V) → get j (remove k m) ≡ (if text_eq k j then none else get j m)
  unfolding get remove
  get-remove k j [] = ground arith
  get-remove k j ((i, w) ∷ m) =
      ground (arith, text_eq_iff k j, text_eq_iff i k, text_eq_iff i j, get-remove k j m)

  pub get-remove_same : (k j : Text) (m : Assoc V) → text_eq k j ≡ true → get j (remove k m) ≡ none
  get-remove_same k j m e = ground (arith, get-remove k j m)

  pub get-remove_other :
      (k j : Text) (m : Assoc V) → text_eq k j ≡ false → get j (remove k m) ≡ get j m
  get-remove_other k j m e = ground (arith, get-remove k j m)

  pub get-remove_self : (k : Text) (m : Assoc V) → get k (remove k m) ≡ none
  get-remove_self k m = simp (get-remove, text_eq_refl)

  pub length-insert :
      (k : Text) (v : V) (m : Assoc V)
      → length (insert k v m) ≡ (if is_some (get k m) then length m else suc (length m))
  unfolding get insert
  length-insert k v [] = refl
  length-insert k v ((i, w) ∷ m) = ground (arith, length-insert k v m)

  pub get_or_of_some :
      (d : V) (k : Text) (m : Assoc V) (v : V) → get k m ≡ some v → get_or d k m ≡ v
  unfolding get_or
  get_or_of_some d k m v e = rw (e, get_or) refl

  pub get_or_of_none : (d : V) (k : Text) (m : Assoc V) → get k m ≡ none → get_or d k m ≡ d
  unfolding get_or
  get_or_of_none d k m e = rw (e, get_or) refl
