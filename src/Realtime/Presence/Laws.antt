-- ===== src/Realtime/Presence/Laws.antt =====
-- Who is listed in a channel.
use stackhouse.Prelude.{
  ℕ, ◌-◌, ◌^◌, ◌≤◌, ◌<◌, ◌≡◌, refl, sym, ◌∙◌, ap, subst, true, false, not, Option, none, some, [],
  ◌∷◌, arith, ltb, if◌then◌else◌, map, is_empty, All, Bool-cases, inl, inr,
}
use stackhouse.Prelude.Text.{Text, text_eq, text_eq_iff}
use stackhouse.Prelude.Assoc.{get, get_or, insert, get-insert_self, get_or_of_some}
use stackhouse.Json.{Value}
use stackhouse.Realtime.Presence.Unique.{
  IsUnique, keep, get-retain, get-retain-none, retain-IsUnique, insert-IsUnique,
}
use stackhouse.Realtime.Presence.{
  presence_timeout_secs, PresenceEntry, Users, PresenceState, is_present, present_users, cleanup,
  track,
}

-- No channel twice, and in a channel no user twice.
abbrev pub IsWellFormed : PresenceState → Type 0
IsWellFormed state = IsUnique state × All (λ c. IsUnique c.1) state

-- The entry of a user in a channel.
abbrev pub lookup : Text → Text → PresenceState → Option PresenceEntry
lookup channel user_id state = get user_id (get_or [] channel state)

abbrev swept : ℕ → PresenceState → PresenceState
swept now state = map (λ c. (c.0, present_users now c.1)) state

get-none_map :
    (now : ℕ) (k : Text) (state : PresenceState)
    → get k state ≡ none
    → get k (swept now state) ≡ none
unfolding get
get-none_map now k [] h = refl
get-none_map now k ((j, v) ∷ m) h = ground (arith, get-none_map now k m)

swept-IsUnique : (now : ℕ) (state : PresenceState) → IsUnique state → IsUnique (swept now state)
swept-IsUnique now [] h = tt
swept-IsUnique now ((k, v) ∷ m) h = (get-none_map now k m h.0, swept-IsUnique now m h.1)

cleanup-IsUnique : (now : ℕ) (state : PresenceState) → IsUnique state → IsUnique (cleanup now state)
unfolding cleanup
cleanup-IsUnique now state h =
    retain-IsUnique (λ us. not (is_empty us)) (swept now state) (swept-IsUnique now state h)

get_or_nil :
    (channel user_id : Text) (state : PresenceState)
    → get channel state ≡ none
    → lookup channel user_id state ≡ none
unfolding get_or get
get_or_nil channel user_id state h = rw (h, get_or) refl

lookup_here :
    (channel user_id k : Text) (users : Users) (state : PresenceState)
    → text_eq k channel ≡ true
    → lookup channel user_id ((k, users) ∷ state) ≡ get user_id users
unfolding get_or get
lookup_here channel user_id k users state e = rw (e, get_or, get) refl

lookup_past :
    (channel user_id k : Text) (users : Users) (state : PresenceState)
    → text_eq k channel ≡ false
    → lookup channel user_id ((k, users) ∷ state) ≡ lookup channel user_id state
unfolding get_or get
lookup_past channel user_id k users state e = rw (e, get_or, get) refl

-- A channel in front, swept, and dropped if nobody is left in it.
cleanup_empty :
    (now : ℕ) (k : Text) (users : Users) (state : PresenceState)
    → is_empty (present_users now users) ≡ true
    → cleanup now ((k, users) ∷ state) ≡ cleanup now state
unfolding cleanup
cleanup_empty now k users state e = rw (e, cleanup) refl

cleanup_kept :
    (now : ℕ) (k : Text) (users : Users) (state : PresenceState)
    → is_empty (present_users now users) ≡ false
    → cleanup now ((k, users) ∷ state) ≡ (k, present_users now users) ∷ cleanup now state
unfolding cleanup
cleanup_kept now k users state e = rw (e, cleanup) refl

get_of_empty : (user_id : Text) (users : Users) → is_empty users ≡ true → get user_id users ≡ none
unfolding get
get_of_empty user_id [] e = refl
get_of_empty user_id (u ∷ users) e = cc

get-cleanup-none :
    (now : ℕ) (k : Text) (state : PresenceState)
    → get k state ≡ none
    → get k (cleanup now state) ≡ none
unfolding cleanup
get-cleanup-none now k state h =
    get-retain-none (λ us. not (is_empty us)) k (swept now state) (get-none_map now k state h)

lookup-cleanup_nil :
    (now : ℕ) (channel user_id : Text)
    → lookup channel user_id (cleanup now []) ≡ keep (is_present now) (lookup channel user_id [])
unfolding cleanup get_or get
lookup-cleanup_nil now channel user_id = refl

-- The cleanup drops exactly the entries that are not present at its instant: every other entry of
-- every channel is found as before, if no channel, and in a channel no user, stands twice.
pub lookup-cleanup :
    (now : ℕ) (channel user_id : Text) (state : PresenceState)
    → IsWellFormed state
    → lookup channel user_id (cleanup now state)
      ≡ keep (is_present now) (lookup channel user_id state)
lookup-cleanup now channel user_id [] h = lookup-cleanup_nil now channel user_id
lookup-cleanup now channel user_id ((k, users) ∷ state) ((fresh, unique), (one, all_unique)) =
    let swept_user = get-retain (is_present now) user_id users one in
    let others = lookup-cleanup now channel user_id state (unique, all_unique) in
    elim (Bool-cases (is_empty (present_users now users))) [
      | inl gone ↦ elim (Bool-cases (text_eq k channel)) [
        | inl here ↦
            ap (lookup channel user_id) (cleanup_empty now k users state gone)
            ∙ get_or_nil channel user_id (cleanup now state) (
                subst (λ x. get x (cleanup now state) ≡ none) ((text_eq_iff k channel).0 here)
                  (get-cleanup-none now k state fresh))
            ∙ sym (get_of_empty user_id (present_users now users) gone)
            ∙ swept_user
            ∙ ap (keep (is_present now)) (sym (lookup_here channel user_id k users state here))
        | inr past ↦
            ap (lookup channel user_id) (cleanup_empty now k users state gone)
            ∙ others
            ∙ ap (keep (is_present now)) (sym (lookup_past channel user_id k users state past))
      ]
      | inr left ↦ elim (Bool-cases (text_eq k channel)) [
        | inl here ↦
            ap (lookup channel user_id) (cleanup_kept now k users state left)
            ∙ lookup_here channel user_id k (present_users now users) (cleanup now state) here
            ∙ swept_user
            ∙ ap (keep (is_present now)) (sym (lookup_here channel user_id k users state here))
        | inr past ↦
            ap (lookup channel user_id) (cleanup_kept now k users state left)
            ∙ lookup_past channel user_id k (present_users now users) (cleanup now state) past
            ∙ others
            ∙ ap (keep (is_present now)) (sym (lookup_past channel user_id k users state past))
      ]
    ]

-- A whole number of seconds below the timeout, for a clock that fits 64 bits and goes forward.
is_present_lem :
    (now : ℕ) (e : PresenceEntry)
    → e.last_seen ≤ now
    → now < 2 ^ 64
    → is_present now e ≡ ltb (now - e.last_seen) presence_timeout_secs
unfolding is_present
is_present_lem now e h k = ground arith

All-insert :
    (k : Text) (us : Users) (state : PresenceState)
    → IsUnique us
    → All (λ c. IsUnique c.1) state
    → All (λ c. IsUnique c.1) (insert k us state)
unfolding insert
All-insert k us [] h a = (h, tt)
All-insert k us ((j, vs) ∷ state) h a = elim (Bool-cases (text_eq j k)) [
  | inl same ↦ rw (same, insert) (h, a.1)
  | inr other ↦ rw (other, insert) (a.0, All-insert k us state h a.1)
]

get_or-IsUnique :
    (k : Text) (state : PresenceState)
    → All (λ c. IsUnique c.1) state
    → IsUnique (get_or [] k state)
unfolding get_or get
get_or-IsUnique k [] a = tt
get_or-IsUnique k ((j, vs) ∷ state) a = elim (Bool-cases (text_eq j k)) [
  | inl same ↦ rw (same, get_or, get) a.0
  | inr other ↦ rw (other, get_or, get) (get_or-IsUnique k state a.1)
]

track-IsWellFormed :
    (channel user_id status : Text) (metadata : Value) (seen : ℕ) (state : PresenceState)
    → IsWellFormed state
    → IsWellFormed (track channel user_id status metadata seen state)
unfolding track
track-IsWellFormed channel user_id status metadata seen state (unique, all_unique) = (
  insert-IsUnique channel _ state unique,
  All-insert channel _ state
      (insert-IsUnique user_id _ (get_or [] channel state)
        (get_or-IsUnique channel state all_unique))
      all_unique,
)

-- The entry that `track` makes.
abbrev pub entry : Text → Text → Text → Value → ℕ → PresenceEntry
entry channel user_id status metadata seen = record {
  user_id = user_id;
  channel = channel;
  status = status;
  metadata = metadata;
  last_seen = seen;
}

lookup-track :
    (channel user_id status : Text) (metadata : Value) (seen : ℕ) (state : PresenceState)
    → lookup channel user_id (track channel user_id status metadata seen state)
      ≡ some (entry channel user_id status metadata seen)
unfolding track
lookup-track channel user_id status metadata seen state =
    ap (get user_id) (get_or_of_some [] channel _ _ (get-insert_self channel _ state))
    ∙ get-insert_self user_id _ (get_or [] channel state)

-- After a user is tracked, a cleanup keeps the user's entry, as it was given, for less than thirty
-- seconds and drops it from then on, if no channel and in a channel no user stands twice before,
-- and the clock goes forward and fits 64 bits.
pub cleanup-track :
    (channel user_id status : Text) (metadata : Value) (seen now : ℕ) (state : PresenceState)
    → IsWellFormed state
    → seen ≤ now
    → now < 2 ^ 64
    → lookup channel user_id (cleanup now (track channel user_id status metadata seen state)) ≡ (
        if ltb (now - seen) presence_timeout_secs
        then some (entry channel user_id status metadata seen)
        else none)
cleanup-track channel user_id status metadata seen now state h before fits =
    lookup-cleanup now channel user_id (track channel user_id status metadata seen state)
      (track-IsWellFormed channel user_id status metadata seen state h)
    ∙ ap (keep (is_present now)) (lookup-track channel user_id status metadata seen state)
    ∙ ap (λ b. if b then some (entry channel user_id status metadata seen) else none)
        (is_present_lem now (entry channel user_id status metadata seen) before fits)
