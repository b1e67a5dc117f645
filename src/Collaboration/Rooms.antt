-- ===== src/Collaboration/Rooms.antt =====
-- The rooms that connections hold open, of crates/tiletopia-server/src/realtime.rs. A room's id, a
-- user's and a broadcast channel are numbers.
use tiletopia.Prelude.{
  ℕ, ◌+◌, ◌-◌, ◌*◌, String, ◌||◌, Option, none, some, List, [], ltb, leb, ◌==◌, if◌then◌else◌,
  length,
}
use tiletopia.Prelude.Res.{Res, ok, err}
use tiletopia.Collaboration.Maps.{get, insert, remove}

abbrev pub max_rooms_per_user : ℕ
max_rooms_per_user = 8

abbrev pub max_rooms : ℕ
max_rooms = 512

abbrev pub max_connections_per_room : ℕ
max_connections_per_room = 23

abbrev pub max_connections_per_user : ℕ
max_connections_per_user = 2 * max_rooms_per_user

pub data RoomRefusal : Type 0 where
  room_limit : RoomRefusal
  room_full : RoomRefusal
  too_many_connections : RoomRefusal

abbrev pub close_reason : RoomRefusal → String
close_reason room_limit = "room limit"
close_reason room_full = "room full"
close_reason too_many_connections = "too many connections"

pub record Room : Type 0 where
  pub tx : ℕ
  pub owner : ℕ
  pub connections : ℕ

-- `existing.connections` assigned
abbrev pub with_connections : Room → ℕ → Room
with_connections existing connections = record {
  tx = existing.tx;
  owner = existing.owner;
  connections = connections;
}

pub record Rooms : Type 0 where
  pub by_id : List (ℕ × Room)
  pub owned : List (ℕ × ℕ)
  pub connections_by_user : List (ℕ × ℕ)

abbrev pub no_rooms : Rooms
no_rooms = record { by_id = []; owned = []; connections_by_user = [] }

-- `copied().unwrap_or(0)`
abbrev pub or_zero : Option ℕ → ℕ
or_zero none = 0
or_zero (some n) = n

-- `count -= 1` of a usize, with its wrap-around
abbrev pub less_one : ℕ → ℕ
less_one count = if count == 0 then 18446744073709551615 else count - 1

abbrev pub write_count : List (ℕ × ℕ) → ℕ → ℕ → List (ℕ × ℕ)
write_count counts key count = if count == 0 then remove key counts else insert key count counts

abbrev pub decrement_found : List (ℕ × ℕ) → ℕ → Option ℕ → List (ℕ × ℕ)
decrement_found counts key none = counts
decrement_found counts key (some count) = write_count counts key (less_one count)

abbrev pub decrement_count : List (ℕ × ℕ) → ℕ → List (ℕ × ℕ)
decrement_count counts key = decrement_found counts key (get key counts)

-- The connection is counted for its user once the room has let it in.
abbrev pub count_connection : ℕ → Rooms → Rooms
count_connection user rooms = record {
  by_id = rooms.by_id;
  owned = rooms.owned;
  connections_by_user =
      insert user (or_zero (get user rooms.connections_by_user) + 1) rooms.connections_by_user;
}

abbrev pub join_existing : ℕ → ℕ → Room → Rooms → Res RoomRefusal ℕ × Rooms
join_existing room user existing rooms =
    if leb max_connections_per_room existing.connections then (err room_full, rooms) else (
      ok existing.tx,
      count_connection user (record {
        by_id = insert room (with_connections existing (existing.connections + 1)) rooms.by_id;
        owned = rooms.owned;
        connections_by_user = rooms.connections_by_user;
      }),
    )

abbrev pub open_room : ℕ → ℕ → ℕ → Rooms → Res RoomRefusal ℕ × Rooms
open_room channel room user rooms =
    let owned = or_zero (get user rooms.owned) in
    if leb max_rooms_per_user owned || leb max_rooms (length rooms.by_id)
    then (err room_limit, rooms)
    else (
      ok channel,
      count_connection user (record {
        by_id = insert room (record { tx = channel; owner = user; connections = 1 }) rooms.by_id;
        owned = insert user (owned + 1) rooms.owned;
        connections_by_user = rooms.connections_by_user;
      }),
    )

abbrev pub enter : ℕ → ℕ → ℕ → Option Room → Rooms → Res RoomRefusal ℕ × Rooms
enter channel room user (some existing) rooms = join_existing room user existing rooms
enter channel room user none rooms = open_room channel room user rooms

-- `channel` is the one that `broadcast::channel` makes for a room that is new.
unfoldable pub acquire_room : ℕ → ℕ → ℕ → Rooms → Res RoomRefusal ℕ × Rooms
acquire_room channel room user rooms =
    if leb max_connections_per_user (or_zero (get user rooms.connections_by_user))
    then (err too_many_connections, rooms)
    else enter channel room user (get room rooms.by_id) rooms

abbrev pub release_hold : ℕ → Option Room → Rooms → Rooms
release_hold room none rooms = rooms
release_hold room (some existing) rooms =
    let connections = less_one existing.connections in
    if ltb 0 connections
    then record {
      by_id = insert room (with_connections existing connections) rooms.by_id;
      owned = rooms.owned;
      connections_by_user = rooms.connections_by_user;
    }
    else record {
      by_id = remove room rooms.by_id;
      owned = decrement_count rooms.owned existing.owner;
      connections_by_user = rooms.connections_by_user;
    }

unfoldable pub release_room : ℕ → ℕ → Rooms → Rooms
release_room room user rooms = release_hold room (get room rooms.by_id) (record {
  by_id = rooms.by_id;
  owned = rooms.owned;
  connections_by_user = decrement_count rooms.connections_by_user user;
})

-- `push_update`: the channel that the data is sent to, if the room is open.
abbrev pub channel_of : Option Room → Option ℕ
channel_of none = none
channel_of (some existing) = some existing.tx

abbrev pub push_update : Rooms → ℕ → Option ℕ
push_update rooms room = channel_of (get room rooms.by_id)
