-- ===== src/Realtime/Broadcast/Tests.antt =====
-- Two messages to one channel.
use stackhouse.Prelude.{◌≡◌, none, [], ◌∷◌, map, take, reverse}
use stackhouse.Prelude.Text.{codes}
use stackhouse.Json.{null}
use stackhouse.Realtime.Broadcast.{BroadcastMessage, get_history}
use stackhouse.Realtime.Broadcast.Laws.{recent, stamped, send_all, get_history-send_all}

abbrev hello : BroadcastMessage
hello = record {
  channel = codes "room";
  event = codes "hello";
  payload = null;
  sender_id = none;
  timestamp = 1;
}

abbrev bye : BroadcastMessage
bye = record hello { event = codes "bye"; timestamp = 2 }

get_history-send_all_example :
    get_history (codes "room") 1 (send_all (codes "room") (hello ∷ bye ∷ []) [])
    ≡ take 1 (reverse (recent (map (stamped (codes "room")) (hello ∷ bye ∷ []))))
get_history-send_all_example = get_history-send_all (codes "room") 1 (hello ∷ bye ∷ [])
