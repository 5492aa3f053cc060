-- ===== src/Cron.antt =====
-- src/platform/scheduler.rs: `CronExpression`, with the arithmetic of a release build on `u8`. White space
-- is that of ASCII.
pub mod Steps
pub mod Bounds
pub mod Every
mod Tests
use stackhouse.Prelude.{
  ℕ, zero, suc, ◌+◌, ◌-◌, ◌%◌, Bool, true, false, not, ◌&&◌, Option, none, some, List, [], ◌∷◌,
  ◌++◌, if◌then◌else◌, ltb, leb, ◌==◌, retain, any,
}
use stackhouse.Prelude.Text.{Text, codes, text_eq, split, split_once, is_whitespace, parse_unsigned}
use stackhouse.Errors.{StackhouseError, Result, ok, err, invalid_payload, ◌>>=◌}

-- The values of `(s..=e)`: `n` counts them.
abbrev pub count_from : ℕ → ℕ → List ℕ
count_from zero s = []
count_from (suc n) s = s ∷ count_from n (s + 1)

abbrev pub inclusive : ℕ → ℕ → List ℕ
inclusive s e = count_from (e + 1 - s) s

-- `while v <= end { values.push(v); v += step; }`. `none` is the end of the fuel.
unfoldable pub step_values : ℕ → ℕ → ℕ → ℕ → Option (List ℕ)
step_values zero v end step = none
step_values (suc fuel) v end step =
    let rest = step_values fuel ((v + step) % 256) end step in
    if leb v end then elim rest [ none ↦ none | some vs ↦ some (v ∷ vs) ] else some []

-- A `u8`, with the message of its place.
abbrev pub parse_u8 : StackhouseError → Text → Result ℕ
parse_u8 e t = elim (parse_unsigned 256 t) [ none ↦ err e | some n ↦ ok n ]

abbrev pub bad_range : StackhouseError
bad_range = invalid_payload "Invalid cron range"

abbrev pub bad_value : StackhouseError
bad_value = invalid_payload "Invalid cron value"

abbrev pub bad_step : StackhouseError
bad_step = invalid_payload "Invalid cron step"

-- `s-e`
abbrev pub both : Text → Text → Result (ℕ × ℕ)
both s e = parse_u8 bad_range s >>= λ a. parse_u8 bad_range e >>= λ b. ok (a, b)

-- Start and end of a range with a step.
unfoldable pub step_range : ℕ → ℕ → Text → Result (ℕ × ℕ)
step_range min max range =
    if text_eq range (codes "*") then ok (min, max) else elim (split_once b'-' range) [
      | some (s, e) ↦ both s e
      | none ↦ parse_u8 bad_value range >>= λ s. ok (s, max)
    ]

-- What has run to its end.
abbrev pub ended : {A : Type 0} → Option A → Option (Result A)
ended none = none
ended (some a) = some (ok a)

-- One part of a field.
unfoldable pub part_values : ℕ → ℕ → ℕ → Text → Option (Result (List ℕ))
unfolding step_range step_values
part_values fuel min max part = elim (split_once b'/' part) [
  | some (range, step_text) ↦ elim (parse_u8 bad_step step_text) [
    | err e ↦ some (err e)
    | ok step ↦ elim (step_range min max range) [
      | err e ↦ some (err e)
      | ok (start, end) ↦ ended (step_values fuel start end step)
    ]
  ]
  | none ↦ elim (split_once b'-' part) [
    | some (s, e) ↦ some (both s e >>= λ r. ok (inclusive r.0 r.1))
    | none ↦ some (parse_u8 bad_value part >>= λ v. ok (v ∷ []))
  ]
]

unfoldable pub parts_values : ℕ → ℕ → ℕ → List Text → Option (Result (List ℕ))
unfolding part_values
parts_values fuel min max [] = some (ok [])
parts_values fuel min max (part ∷ parts) = elim (part_values fuel min max part) [
  | none ↦ none
  | some r ↦ elim r [
    | err e ↦ some (err e)
    | ok vs ↦ elim (parts_values fuel min max parts) [
      | none ↦ none
      | some r' ↦ some (r' >>= λ ws. ok (vs ++ ws))
    ]
  ]
]

abbrev pub insert_sorted : ℕ → List ℕ → List ℕ
insert_sorted v [] = v ∷ []
insert_sorted v (w ∷ ws) = let rest = insert_sorted v ws in if leb v w then v ∷ w ∷ ws else w ∷ rest

-- `sort_unstable`
abbrev pub sort : List ℕ → List ℕ
sort [] = []
sort (v ∷ vs) = insert_sorted v (sort vs)

-- `dedup`
abbrev pub dedup : List ℕ → List ℕ
dedup [] = []
dedup (v ∷ []) = v ∷ []
dedup (v ∷ (w ∷ ws)) = let rest = dedup (w ∷ ws) in if v == w then rest else v ∷ rest

abbrev pub in_bounds : ℕ → ℕ → ℕ → Bool
in_bounds min max v = leb min v && leb v max

unfoldable pub tidy : ℕ → ℕ → List ℕ → List ℕ
tidy min max vs = dedup (sort (retain (in_bounds min max) vs))

unfoldable pub parse_field : ℕ → ℕ → ℕ → Text → Option (Result (List ℕ))
unfolding tidy parts_values
parse_field fuel min max field =
    if text_eq field (codes "*")
    then some (ok (inclusive min max))
    else elim (parts_values fuel min max (split b',' field)) [
      | none ↦ none
      | some r ↦ some (r >>= λ vs. ok (tidy min max vs))
    ]

-- `split_whitespace`
abbrev pub starts_word : Text → Bool
starts_word [] = false
starts_word (c ∷ s) = not (is_whitespace c)

abbrev pub attach : ℕ → List Text → List Text
attach c [] = (c ∷ []) ∷ []
attach c (w ∷ ws) = (c ∷ w) ∷ ws

unfoldable pub split_whitespace : Text → List Text
split_whitespace [] = []
split_whitespace (c ∷ s) =
    let rest = split_whitespace s in
    if is_whitespace c then rest else if starts_word s then attach c rest else (c ∷ []) ∷ rest

pub record CronExpression : Type 0 where
  pub minutes : List ℕ
  pub hours : List ℕ
  pub days_of_month : List ℕ
  pub months : List ℕ
  pub days_of_week : List ℕ

-- The operator `?` under the fuel.
abbrev pub then_field :
    Option (Result (List ℕ))
    → (List ℕ → Option (Result CronExpression))
    → Option (Result CronExpression)
then_field none go = none
then_field (some (err e)) go = some (err e)
then_field (some (ok vs)) go = go vs

abbrev pub wrong_count : Option (Result CronExpression)
wrong_count =
    some (err (invalid_payload "Cron expression must have 5 fields (min hour dom month dow)"))

unfoldable pub parse : ℕ → Text → Option (Result CronExpression)
unfolding parse_field split_whitespace
parse fuel expr = elim (split_whitespace expr) [
  | min ∷ (hour ∷ (dom ∷ (month ∷ (dow ∷ [])))) ↦ then_field (parse_field fuel 0 59 min) (λ minutes.
      then_field (parse_field fuel 0 23 hour) (λ hours.
        then_field (parse_field fuel 1 31 dom) (λ days_of_month.
          then_field (parse_field fuel 1 12 month) (λ months.
            then_field (parse_field fuel 0 6 dow) (λ days_of_week. some (
              ok (record {
                minutes = minutes;
                hours = hours;
                days_of_month = days_of_month;
                months = months;
                days_of_week = days_of_week;
              })))))))
  | _ ↦ wrong_count
]

-- The clock's reading in UTC; `weekday` is 1 for Monday to 7 for Sunday.
pub record Now : Type 0 where
  pub minute : ℕ
  pub hour : ℕ
  pub day : ℕ
  pub month : ℕ
  pub weekday : ℕ

abbrev pub holds : ℕ → List ℕ → Bool
holds v vs = any (λ w. w == v) vs

unfoldable pub matches_now : CronExpression → Now → Bool
matches_now c now =
    holds now.minute c.minutes
    && holds now.hour c.hours
    && holds now.day c.days_of_month
    && holds now.month c.months
    && holds (now.weekday % 7) c.days_of_week
