-- ===== src/Realtime/Presence/Unique.antt =====
-- Maps without a repeated key, under the changes that presence makes to them.
use stackhouse.Prelude.{◌≡◌, refl, Bool, Option, none, some, [], ◌∷◌, arith, if◌then◌else◌, retain}
use stackhouse.Prelude.Text.{Text, text_eq_iff}
use stackhouse.Prelude.Assoc.{Assoc, get, insert, remove, get-insert, get-remove}

-- A map without a repeated key, as a `HashMap` is.
abbrev pub IsUnique : {V : Type 0} → Assoc V → Type 0
IsUnique [] = Unit
IsUnique ((k, v) ∷ m) = (get k m ≡ none) × IsUnique m

abbrev pub keep : {V : Type 0} → (V → Bool) → Option V → Option V
keep p none = none
keep p (some v) = if p v then some v else none

module _ {V : Type 0} where
  pub get-retain :
      (p : V → Bool) (k : Text) (m : Assoc V)
      → IsUnique m
      → get k (retain (λ e. p e.1) m) ≡ keep p (get k m)
  unfolding get
  get-retain p k [] h = refl
  get-retain p k ((j, v) ∷ m) h = ground (arith, text_eq_iff j k, get-retain p k m h.1)

  pub get-retain-none :
      (p : V → Bool) (k : Text) (m : Assoc V)
      → get k m ≡ none
      → get k (retain (λ e. p e.1) m) ≡ none
  unfolding get
  get-retain-none p k [] h = refl
  get-retain-none p k ((j, v) ∷ m) h = ground (arith, get-retain-none p k m)

  pub retain-IsUnique : (p : V → Bool) (m : Assoc V) → IsUnique m → IsUnique (retain (λ e. p e.1) m)
  retain-IsUnique p [] h = tt
  retain-IsUnique p ((j, v) ∷ m) h =
      ground (arith, get-retain-none p j m h.0, retain-IsUnique p m h.1)

  pub insert-IsUnique : (k : Text) (v : V) (m : Assoc V) → IsUnique m → IsUnique (insert k v m)
  unfolding insert get
  insert-IsUnique k v [] h = (refl, tt)
  insert-IsUnique k v ((j, w) ∷ m) h =
      ground
        (arith, text_eq_iff j k, text_eq_iff k j, get-insert k j v m, insert-IsUnique k v m h.1)

  pub get-remove-none : (k j : Text) (m : Assoc V) → get j m ≡ none → get j (remove k m) ≡ none
  get-remove-none k j m h = ground (arith, get-remove k j m)

  pub remove-IsUnique : (k : Text) (m : Assoc V) → IsUnique m → IsUnique (remove k m)
  unfolding remove
  remove-IsUnique k [] h = tt
  remove-IsUnique k ((j, w) ∷ m) h =
      ground (arith, get-remove-none k j m h.0, remove-IsUnique k m h.1)
