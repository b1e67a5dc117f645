-- ===== src/Collaboration/Tests.antt =====
-- Rooms, presence and a socket at concrete inputs.
use tiletopia.Prelude.{ℕ, ◌≡◌, refl, ◌↔◌, true, false, some, List, [], ◌∷◌, All}
use tiletopia.Prelude.Res.{ok}
use tiletopia.Collaboration.Maps.{get, insert, remove}
use tiletopia.Collaboration.Rooms.{Rooms, no_rooms, acquire_room, release_room, push_update}
use tiletopia.Collaboration.Counted.{Hold, IsCounted}
use tiletopia.Collaboration.Releases.{
  Reach, empty, let_in, left, Reach-IsCounted, release_all, release_all-Reach,
}
use tiletopia.Collaboration.Presence.{join, leave, get_presence, is_connected, is_present}
use tiletopia.Collaboration.Roster.{
  PresenceEvent, joins, leaves, after_events, last_joined, is_present-last,
}
use tiletopia.Collaboration.Socket.{
  Shared, Arrival, text, client_closed, joined_message, chat, Stamped, handle_socket,
  handle_socket_lem, on_arrival, socket_loop, presence,
}

-- User 2 opens room 1, whose channel is 7; user 3 joins it.
abbrev one_room : Rooms
one_room = record {
  by_id = (1, record { tx = 7; owner = 2; connections = 1 }) ∷ [];
  owned = (2, 1) ∷ [];
  connections_by_user = (2, 1) ∷ [];
}

abbrev two_in_room : Rooms
two_in_room = record {
  by_id = (1, record { tx = 7; owner = 2; connections = 2 }) ∷ [];
  owned = (2, 1) ∷ [];
  connections_by_user = (2, 1) ∷ (3, 1) ∷ [];
}

abbrev opener : Hold
opener = record { room = 1; user = 2 }

abbrev joiner : Hold
joiner = record { room = 1; user = 3 }

opens : acquire_room 7 1 2 no_rooms ≡ (ok 7, one_room)
unfolding acquire_room get insert
opens = refl

enters : acquire_room 9 1 3 one_room ≡ (ok 7, two_in_room)
unfolding acquire_room get insert
enters = refl

owner_leaves : push_update (release_room 1 2 two_in_room) 1 ≡ some 7
unfolding release_room get insert remove
owner_leaves = refl

reached : Reach two_in_room (joiner ∷ opener ∷ [])
reached = let_in 9 1 3 7 (let_in 7 1 2 7 empty opens) enters

-- The owner leaves, the joiner stays.
Reach-IsCounted_example : IsCounted (release_room 1 2 two_in_room) (joiner ∷ [])
Reach-IsCounted_example = Reach-IsCounted (left (joiner ∷ []) [] 1 2 reached)

release_all-Reach_example : release_all two_in_room (joiner ∷ opener ∷ []) ≡ no_rooms
release_all-Reach_example = release_all-Reach two_in_room (joiner ∷ opener ∷ []) reached

-- Two connections of user 2 join room 1, and one leaves.
abbrev one_tab_closes : List PresenceEvent
one_tab_closes = leaves 1 2 10 ∷ joins 1 2 "Ann" 11 ∷ joins 1 2 "Ann" 10 ∷ []

still_present : is_present (after_events one_tab_closes) 1 2 ≡ true
unfolding is_present after_events join leave get insert remove
still_present = refl

listed :
    get_presence 1 (after_events one_tab_closes)
    ≡ record { user_id = 2; user_name = "Ann"; color = "#e06c75" } ∷ []
unfolding get_presence after_events join leave get insert remove
listed = refl

is_present-last_example :
    ((conn : ℕ)
      → is_connected (after_events one_tab_closes) 1 2 conn ≡ last_joined one_tab_closes 1 2 conn)
    × ((is_present (after_events one_tab_closes) 1 2 ≡ true)
        ↔ ((conn : ℕ) × (last_joined one_tab_closes 1 2 conn ≡ true)))
is_present-last_example = is_present-last one_tab_closes 1 2

-- A client that says it is user 99 joins and chats, on connection 5 of user 2.
abbrev forging : List (Arrival ℕ)
forging = text (some (joined_message 99 "Ann")) ∷ text (some (chat 99 3)) ∷ client_closed ∷ []

abbrev fresh_shared : Shared ℕ
fresh_shared = record { sessions = []; rooms = one_room; sent = [] }

stamps :
    (handle_socket (λ name. 3) 1 2 5 forging fresh_shared).sent
    ≡ presence []
      ∷ chat 2 3
      ∷ presence (record { user_id = 2; user_name = "Ann"; color = "#e06c75" } ∷ [])
      ∷ []
unfolding handle_socket socket_loop on_arrival join leave get_presence get insert remove
    release_room
stamps = refl

no_connection : is_connected [] 1 2 5 ≡ false
unfolding is_connected get
no_connection = refl

handle_socket_lem_example :
    let after = handle_socket (λ name. 3) 1 2 5 forging fresh_shared in
    ((b v d : ℕ) → is_connected after.sessions b v d ≡ is_connected [] b v d)
    × (after.rooms ≡ release_room 1 2 one_room)
    × All (Stamped 2) after.sent
handle_socket_lem_example =
    handle_socket_lem (λ name. 3) 1 2 5 fresh_shared forging no_connection tt
