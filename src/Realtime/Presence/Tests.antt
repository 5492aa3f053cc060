-- ===== src/Realtime/Presence/Tests.antt =====
-- One channel with one user.
use stackhouse.Prelude.{◌≡◌, refl, [], ◌∷◌}
use stackhouse.Prelude.Text.{codes}
use stackhouse.Prelude.Assoc.{get}
use stackhouse.Json.{null}
use stackhouse.Realtime.Presence.{PresenceState, is_present, cleanup}
use stackhouse.Realtime.Presence.Unique.{keep}
use stackhouse.Realtime.Presence.Laws.{IsWellFormed, lookup, entry, lookup-cleanup}

abbrev one_user : PresenceState
one_user =
    (codes "room", (codes "ann", entry (codes "room") (codes "ann") (codes "online") null 100) ∷ [])
    ∷ []

one_user-IsWellFormed : IsWellFormed one_user
unfolding get
one_user-IsWellFormed = ((refl, tt), ((refl, tt), tt))

lookup-cleanup_example :
    lookup (codes "room") (codes "ann") (cleanup 129 one_user)
    ≡ keep (is_present 129) (lookup (codes "room") (codes "ann") one_user)
lookup-cleanup_example =
    lookup-cleanup 129 (codes "room") (codes "ann") one_user one_user-IsWellFormed
