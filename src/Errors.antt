-- ===== src/Errors.antt =====
-- src/platform/error.rs: the errors of every operation and their HTTP status. An error carries the
-- format string of its message; what the program fills in (names, counts, the database's own
-- text) is not modelled.
pub mod Response
use Prim.Native.String.{String}
use stackhouse.Prelude.{◌≡◌, refl, ◌⊎◌, inl, inr, Bool, true, false, List, [], ◌∷◌}

pub data StackhouseError : Type 0 where
  database json invalid_identifier schema column_limit_exceeded : String → StackhouseError
  table_not_found invalid_payload migration_failed internal : String → StackhouseError
  unauthorized forbidden conflict not_found storage : String → StackhouseError
  rate_limited brain : String → StackhouseError

pub data Result {ℓ} (T : Type ℓ) : Type ℓ where
  err : StackhouseError → Result T
  ok : T → Result T

infixl 5 ◌>>=◌ ◌>>◌
-- The operator `?`, with what comes after it.
abbrev pub ◌>>=◌ {ℓ₁ ℓ₂} : {T : Type ℓ₁} {U : Type ℓ₂} → Result T → (T → Result U) → Result U
err failure >>= next = err failure
ok value >>= next = next value

abbrev pub ◌>>◌ {ℓ₁} : {U : Type ℓ₁} → Result (Unit {0}) → Result U → Result U
err failure >> next = err failure
ok _ >> next = next

-- `if test { return Err(e) }`.
abbrev pub fail_if : Bool → StackhouseError → Result (Unit {0})
fail_if true e = err e
fail_if false e = ok tt

-- `for x in xs { f(x)?; }`.
unfoldable pub for_each {ℓ} : {A : Type ℓ} → (A → Result (Unit {0})) → List A → Result (Unit {0})
for_each f [] = ok tt
for_each f (x ∷ xs) = f x >>= λ _. for_each f xs

abbrev pub is_ok {ℓ} : {A : Type ℓ} → Result A → Bool
is_ok (ok _) = true
is_ok (err _) = false

pub ok-injective {ℓ} : {A : Type ℓ} {a b : A} → ok a ≡ ok b → a ≡ b
ok-injective h = cc

-- What came before a success was one.
pub >>=-eq-ok {ℓ₁ ℓ₂} :
    {T : Type ℓ₁} {U : Type ℓ₂} (first : Result T) (next : T → Result U) {answer : U}
    → (first >>= next) ≡ ok answer
    → (value : T) × (first ≡ ok value) × (next value ≡ ok answer)
>>=-eq-ok (err failure) next h = cc
>>=-eq-ok (ok value) next h = (value, refl, h)

-- A test that would have failed did not hold.
pub fail_if-ok {ℓ} :
    {A : Type ℓ} (test : Bool) (e : StackhouseError) (m : Result A) {a : A}
    → (fail_if test e >> m) ≡ ok a
    → (test ≡ false) × (m ≡ ok a)
fail_if-ok true e m h = cc
fail_if-ok false e m h = (refl, h)

pub fail_if-last : (test : Bool) (e : StackhouseError) → fail_if test e ≡ ok tt → test ≡ false
fail_if-last true e h = cc
fail_if-last false e h = refl

pub Result-cases {ℓ} :
    {A : Type ℓ} (r : Result A) → ((e : StackhouseError) × (r ≡ err e)) ⊎ ((a : A) × (r ≡ ok a))
Result-cases (err e) = inl (e, refl)
Result-cases (ok a) = inr (a, refl)
