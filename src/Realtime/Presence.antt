-- ===== src/Realtime/Presence.antt =====
-- src/realtime/presence.rs: `PresenceService`. The clock is an argument, in seconds; the
-- subtraction in the cleanup is one of `u64`, which wraps around in the release build.
mod Unique
pub mod Laws
mod Tests
use stackhouse.Prelude.{
  ℕ, ◌+◌, ◌-◌, ◌%◌, ◌^◌, Bool, true, false, not, Option, none, some, List, [], ◌∷◌, ltb,
  if◌then◌else◌, map, retain, is_empty,
}
use stackhouse.Prelude.Text.{Text}
use stackhouse.Prelude.Assoc.{Assoc, get, get_or, insert, remove}
use stackhouse.Json.{Value}

-- `PRESENCE_TIMEOUT_SECS`
abbrev pub presence_timeout_secs : ℕ
presence_timeout_secs = 30

pub record PresenceEntry : Type 0 where
  pub user_id : Text
  pub channel : Text
  pub status : Text
  pub metadata : Value
  pub last_seen : ℕ

abbrev pub Users : Type 0
Users = Assoc PresenceEntry

-- `struct PresenceService`: users by channel.
abbrev pub PresenceState : Type 0
PresenceState = Assoc Users

-- `now - entry.last_seen < PRESENCE_TIMEOUT_SECS`
unfoldable pub is_present : ℕ → PresenceEntry → Bool
is_present now entry = ltb ((now + 2 ^ 64 - entry.last_seen) % 2 ^ 64) presence_timeout_secs

abbrev pub present_users : ℕ → Users → Users
present_users now users = retain (λ e. is_present now e.1) users

-- One round of the background task.
unfoldable pub cleanup : ℕ → PresenceState → PresenceState
cleanup now state = retain (λ c. not (is_empty c.1)) (map (λ c. (c.0, present_users now c.1)) state)

unfoldable pub track : Text → Text → Text → Value → ℕ → PresenceState → PresenceState
track channel user_id status metadata now state =
    insert channel
      (insert user_id
        (record {
          user_id = user_id;
          channel = channel;
          status = status;
          metadata = metadata;
          last_seen = now;
        })
        (get_or [] channel state))
      state

unfoldable pub untrack : Text → Text → PresenceState → PresenceState
untrack channel user_id state = elim (get channel state) [
  | none ↦ state
  | some users ↦ insert channel (remove user_id users) state
]

unfoldable pub get_channel : Text → PresenceState → List PresenceEntry
get_channel channel state = map (λ e. e.1) (get_or [] channel state)

unfoldable pub get_channels : PresenceState → List Text
get_channels state = map (λ c. c.0) state
