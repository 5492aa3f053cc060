-- ===== src/Realtime/Broadcast/Laws.antt =====
-- What a channel's history holds.
use stackhouse.Prelude.{
  ℕ, zero, suc, ◌-◌, ◌≤◌, ◌≡◌, refl, sym, ◌∙◌, ap, List, [], ◌∷◌, ◌++◌, arith, ltb, map, length,
  take, drop, reverse, length-append, inl, inr, Bool-cases, Option-cases,
}
use stackhouse.Prelude.Text.{Text}
use stackhouse.Prelude.Assoc.{get, get_or, get-insert_self, get_or_of_some}
use stackhouse.Realtime.Broadcast.{
  max_history, BroadcastMessage, ChannelState, BroadcastService, new_channel, push_history, send,
  get_history,
}

drop-append :
    {A : Type 0} (k : ℕ) (xs ys : List A) → k ≤ length xs → drop k (xs ++ ys) ≡ drop k xs ++ ys
drop-append zero xs ys h = refl
drop-append (suc k) [] ys h = absurd (omega arith)
drop-append (suc k) (x ∷ xs) ys h = drop-append k xs ys (omega arith)

drop-drop : {A : Type 0} (k : ℕ) (xs : List A) → drop 1 (drop k xs) ≡ drop (suc k) xs
drop-drop zero xs = refl
drop-drop (suc k) [] = refl
drop-drop (suc k) (x ∷ xs) = drop-drop k xs

length-drop : {A : Type 0} (k : ℕ) (xs : List A) → length (drop k xs) ≡ length xs - k
length-drop zero xs = omega arith
length-drop (suc k) [] = omega arith
length-drop (suc k) (x ∷ xs) = omega (arith, length-drop k xs)

-- The last `max_history` of a list.
abbrev pub recent : List BroadcastMessage → List BroadcastMessage
recent xs = drop (length xs - max_history) xs

push_history-recent :
    (m : BroadcastMessage) (xs : List BroadcastMessage)
    → push_history m (recent xs) ≡ recent (xs ++ (m ∷ []))
unfolding push_history
push_history-recent m xs =
    let k = length xs - max_history in
    let cut = sym (drop-append k xs (m ∷ []) (omega arith)) in
    let one = length-append xs (m ∷ []) in
    let old = length-drop k xs in
    let new = length-append (recent xs) (m ∷ []) in
    elim (Bool-cases (ltb max_history (length (recent xs ++ (m ∷ []))))) [
      | inl full ↦
          rw (full, push_history)
            (ap (drop 1) cut
              ∙ drop-drop k (xs ++ (m ∷ []))
              ∙ ap (λ n. drop n (xs ++ (m ∷ []))) {x = suc k} (ground (arith, one, old, new)))
      | inr room ↦
          rw (room, push_history)
            (cut ∙ ap (λ n. drop n (xs ++ (m ∷ []))) {x = k} (ground (arith, one, old, new)))
    ]

-- The message as `send` makes it.
abbrev pub stamped : Text → BroadcastMessage → BroadcastMessage
stamped channel m = record m { channel = channel }

abbrev pub send_all : Text → List BroadcastMessage → BroadcastService → BroadcastService
send_all channel [] channels = channels
send_all channel (m ∷ ms) channels =
    send_all channel ms (send channel m.event m.payload m.sender_id m.timestamp channels)

append_nil : (xs : List BroadcastMessage) → xs ++ [] ≡ xs
append_nil [] = refl
append_nil (x ∷ xs) = ap (λ zs. x ∷ zs) (append_nil xs)

append_step :
    (xs : List BroadcastMessage) (m : BroadcastMessage) (ys : List BroadcastMessage)
    → (xs ++ (m ∷ [])) ++ ys ≡ xs ++ (m ∷ ys)
append_step [] m ys = refl
append_step (x ∷ xs) m ys = ap (λ zs. x ∷ zs) (append_step xs m ys)

send-history :
    (channel : Text) (m : BroadcastMessage) (channels : BroadcastService)
    → (get_or new_channel channel
        (send channel m.event m.payload m.sender_id m.timestamp channels)).history
      ≡ push_history (stamped channel m) (get_or new_channel channel channels).history
unfolding send
send-history channel m channels =
    ap (λ (s : ChannelState). s.history)
      (get_or_of_some new_channel channel _ _ (get-insert_self channel _ channels))

send_all-history :
    (channel : Text) (ms sent : List BroadcastMessage) (channels : BroadcastService)
    → (get_or new_channel channel channels).history ≡ recent sent
    → (get_or new_channel channel (send_all channel ms channels)).history
      ≡ recent (sent ++ map (stamped channel) ms)
send_all-history channel [] sent channels h = h ∙ ap recent (sym (append_nil sent))
send_all-history channel (m ∷ ms) sent channels h =
    send_all-history channel ms (sent ++ (stamped channel m ∷ []))
      (send channel m.event m.payload m.sender_id m.timestamp channels)
      (send-history channel m channels
        ∙ ap (push_history (stamped channel m)) h
        ∙ push_history-recent (stamped channel m) sent)
    ∙ ap recent (append_step sent (stamped channel m) (map (stamped channel) ms))

take_nil : (n : ℕ) → take n (reverse {A = BroadcastMessage} []) ≡ []
take_nil zero = refl
take_nil (suc n) = refl

get_history_lem :
    (channel : Text) (limit : ℕ) (channels : BroadcastService)
    → get_history channel limit channels
      ≡ take limit (reverse (get_or new_channel channel channels).history)
unfolding get_history get_or
get_history_lem channel limit channels = elim (Option-cases (get channel channels)) [
  | inl e ↦ rw (e, get_history, get_or) (sym (take_nil limit))
  | inr (state, e) ↦ rw (e, get_history, get_or) refl
]

-- After any number of messages to one channel of a new service, its history holds the last
-- hundred of them, and a reader gets the newest of those first, up to the limit asked for.
pub get_history-send_all :
    (channel : Text) (limit : ℕ) (ms : List BroadcastMessage)
    → get_history channel limit (send_all channel ms [])
      ≡ take limit (reverse (recent (map (stamped channel) ms)))
unfolding get_or get
get_history-send_all channel limit ms =
    get_history_lem channel limit (send_all channel ms [])
    ∙ ap (λ h. take limit (reverse h)) (send_all-history channel ms [] [] refl)
