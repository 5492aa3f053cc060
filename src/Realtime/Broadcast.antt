-- ===== src/Realtime/Broadcast.antt =====
-- src/realtime/broadcast.rs: `BroadcastService`. The sender of a channel belongs to tokio: the
-- messages that it has been given are kept in order, the last first.
pub mod Laws
mod Tests
use stackhouse.Prelude.{
  ℕ, ◌+◌, Bool, Option, none, some, List, [], ◌∷◌, ◌++◌, ltb, if◌then◌else◌, map, length, take,
  drop, reverse,
}
use stackhouse.Prelude.Text.{Text}
use stackhouse.Prelude.Assoc.{Assoc, get, get_or, insert}
use stackhouse.Json.{Value}

-- `MAX_HISTORY`
abbrev pub max_history : ℕ
max_history = 100

pub record BroadcastMessage : Type 0 where
  pub channel : Text
  pub event : Text
  pub payload : Value
  pub sender_id : Option Text
  pub timestamp : ℕ

-- `struct ChannelState`
pub record ChannelState : Type 0 where
  pub sender : List BroadcastMessage
  pub history : List BroadcastMessage
  pub subscriber_count : ℕ

-- `struct BroadcastService`
abbrev pub BroadcastService : Type 0
BroadcastService = Assoc ChannelState

abbrev pub new_channel : ChannelState
new_channel = record { sender = []; history = []; subscriber_count = 0 }

-- `history.push(msg)`, and `history.remove(0)` above the maximum.
unfoldable pub push_history : BroadcastMessage → List BroadcastMessage → List BroadcastMessage
push_history msg history =
    let pushed = history ++ (msg ∷ []) in
    if ltb max_history (length pushed) then drop 1 pushed else pushed

unfoldable pub send : Text → Text → Value → Option Text → ℕ → BroadcastService → BroadcastService
unfolding push_history
send channel event payload sender_id now channels =
    let msg : BroadcastMessage = record {
      channel = channel;
      event = event;
      payload = payload;
      sender_id = sender_id;
      timestamp = now;
    } in
    let state = get_or new_channel channel channels in
    insert channel
      (record state { sender = msg ∷ state.sender; history = push_history msg state.history })
      channels

unfoldable pub subscribe : Text → BroadcastService → BroadcastService
subscribe channel channels =
    let state = get_or new_channel channel channels in
    insert channel (record state { subscriber_count = state.subscriber_count + 1 }) channels

unfoldable pub get_history : Text → ℕ → BroadcastService → List BroadcastMessage
get_history channel limit channels = elim (get channel channels) [
  | none ↦ []
  | some state ↦ take limit (reverse state.history)
]

-- `list_channels`: name, subscribers and length of the history.
unfoldable pub list_channels : BroadcastService → List (Text × (ℕ × ℕ))
list_channels channels = map (λ c. (c.0, (c.1.subscriber_count, length c.1.history))) channels
