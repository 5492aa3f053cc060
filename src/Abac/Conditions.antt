-- ===== src/Abac/Conditions.antt =====
-- src/security/abac.rs: `resolve_attribute` and `evaluate_condition`. `now` is the time of day as `%H:%M`.
use stackhouse.Prelude.{
  Bool, true, false, not, ◌&&◌, ◌||◌, Option, none, some, [], ◌∷◌, if◌then◌else◌, ltb, ◌==◌,
  reverse,
}
use stackhouse.Prelude.Text.{Text, codes, text_eq, split_once}
use stackhouse.Prelude.Text
use stackhouse.Prelude.Assoc.{get}
use stackhouse.Json.{
  Value, Number, number, string, array, object, Values, nil, cons, Fields, end, field,
}
use stackhouse.Abac.Types.{ConditionOp, Condition, AuthorizationRequest, Libraries}
use stackhouse.Abac.Cidr

unfoldable pub resolve_attribute : Text → AuthorizationRequest → Option Value
resolve_attribute attribute request = elim (split_once b'.' attribute) [
  | none ↦ none
  | some (scope, name) ↦
      if text_eq scope (codes "user") || text_eq scope (codes "principal")
      then get name request.principal.attributes
      else if text_eq scope (codes "resource")
      then get name request.resource.attributes
      else if text_eq scope (codes "env") || text_eq scope (codes "environment")
      then get name request.environment
      else none
]

-- `a <= b` on strings.
abbrev pub text_le : Text → Text → Bool
text_le [] t = true
text_le (c ∷ s) [] = false
text_le (c ∷ s) (d ∷ t) = let rest = text_le s t in if ltb c d then true else c == d && rest

abbrev pub ends_with : Text → Text → Bool
ends_with p s = Text.starts_with (reverse p) (reverse s)

abbrev pub text_field : Text → Text → Fields → Text
text_field key d end = d
text_field key d (field k v rest) =
    let others = text_field key d rest in
    if text_eq k key then elim v [ string t ↦ t | _ ↦ d ] else others

-- `arr.contains(v)`
abbrev pub member : Libraries → Value → Values → Bool
member lib v nil = false
member lib v (cons w ws) = lib.value_eq v w || member lib v ws

-- A test on two strings, on two numbers, and on a value and an array.
abbrev pub strings : (Text → Text → Bool) → Option Value → Value → Bool
strings test (some (string a)) (string b) = test a b
strings test _ _ = false

abbrev pub numbers : (Number → Number → Bool) → Option Value → Value → Bool
numbers test (some (number a)) (number b) = test a b
numbers test _ _ = false

abbrev pub among : Libraries → Option Value → Value → Bool
among lib (some v) (array vs) = member lib v vs
among lib _ _ = false

abbrev pub not_among : Libraries → Option Value → Value → Bool
not_among lib (some v) (array vs) = not (member lib v vs)
not_among lib _ _ = true

abbrev pub is_equal : Libraries → Option Value → Value → Bool
is_equal lib none w = false
is_equal lib (some v) w = lib.value_eq v w

abbrev pub found_in : Option Bool → Bool
found_in none = false
found_in (some b) = b

abbrev pub between : Text → Value → Bool
between now (object range) =
    text_le (text_field (codes "start") (codes "00:00") range) now
    && text_le now (text_field (codes "end") (codes "23:59") range)
between now _ = false

-- The arms of `evaluate_condition`, on the value of the attribute.
unfoldable pub holds : Libraries → Text → ConditionOp → Option Value → Value → Bool
holds lib now ConditionOp.equals actual value = is_equal lib actual value
holds lib now ConditionOp.not_equals actual value = not (is_equal lib actual value)
holds lib now ConditionOp.contains actual value = strings (λ a b. Text.contains b a) actual value
holds lib now ConditionOp.is_in actual value = among lib actual value
holds lib now ConditionOp.not_in actual value = not_among lib actual value
holds lib now ConditionOp.greater_than actual value =
    numbers (λ a b. lib.number_lt b a) actual value
holds lib now ConditionOp.less_than actual value = numbers lib.number_lt actual value
holds lib now ConditionOp.starts_with actual value =
    strings (λ a b. Text.starts_with b a) actual value
holds lib now ConditionOp.ends_with actual value = strings (λ a b. ends_with b a) actual value
holds lib now ConditionOp.matches actual value =
    strings (λ a b. found_in (lib.search b a)) actual value
holds lib now ConditionOp.ip_in_cidr actual value = strings Cidr.ip_in_cidr actual value
holds lib now ConditionOp.time_between actual value = between now value

unfoldable pub evaluate_condition : Libraries → Text → Condition → AuthorizationRequest → Bool
unfolding holds
evaluate_condition lib now condition request =
    holds lib now condition.operator (resolve_attribute condition.attribute request) condition.value
