-- ===== src/Collaboration/Presence.antt =====
-- Who is present in which room, `PresenceTracker` of crates/tiletopia-server/src/realtime.rs. A
-- room's id, a user's and a connection's are numbers.
use tiletopia.Prelude.{
  ℕ, ◌%◌, String, Bool, true, false, ◌||◌, Option, none, some, List, [], ◌∷◌, ◌==◌, if◌then◌else◌,
  is_some, length, get_elem?, set,
}
use tiletopia.Collaboration.Maps.{get, insert, remove}

pub record PresenceEntry : Type 0 where
  pub user_id : ℕ
  pub user_name : String
  pub color : String

pub record PresenceUser : Type 0 where
  pub entry : PresenceEntry
  pub connections : List ℕ

abbrev pub Users : Type 0
Users = List (ℕ × PresenceUser)

abbrev pub Sessions : Type 0
Sessions = List (ℕ × Users)

abbrev pub presence_colors : List String
presence_colors =
    "#e06c75" ∷ "#61afef" ∷ "#98c379" ∷ "#d19a66" ∷ "#c678dd" ∷ "#56b6c2" ∷ "#e5c07b" ∷ "#be5046"
    ∷ []

abbrev or_uncolored : Option String → String
or_uncolored none = ""
or_uncolored (some color) = color

-- `PRESENCE_COLORS[index]`, for an index in range
abbrev presence_color : ℕ → String
presence_color index = or_uncolored (get_elem? presence_colors index)

-- A `HashSet` of connections.
abbrev pub contains : ℕ → List ℕ → Bool
contains c [] = false
contains c (d ∷ set) = (d == c) || contains c set

abbrev pub add : ℕ → List ℕ → List ℕ
add c set = if contains c set then set else c ∷ set

abbrev pub discard : ℕ → List ℕ → List ℕ
discard c [] = []
discard c (d ∷ set) = let rest = discard c set in if d == c then rest else d ∷ rest

abbrev pub is_empty {ℓ} : {A : Type ℓ} → List A → Bool
is_empty [] = true
is_empty (x ∷ xs) = false

-- `or_default()`
abbrev pub or_no_users : Option Users → Users
or_no_users none = []
or_no_users (some users) = users

abbrev pub joined_user : ℕ → String → ℕ → ℕ → Option PresenceUser → PresenceUser
joined_user user_id user_name conn color_idx (some user) = record {
  entry = record { user_id = user.entry.user_id; user_name = user_name; color = user.entry.color };
  connections = add conn user.connections;
}
joined_user user_id user_name conn color_idx none = record {
  entry = record { user_id = user_id; user_name = user_name; color = presence_color color_idx };
  connections = conn ∷ [];
}

unfoldable pub join : ℕ → ℕ → String → ℕ → Sessions → Sessions
join asset_id user_id user_name conn sessions =
    let asset_users = or_no_users (get asset_id sessions) in
    let color_idx = length asset_users % length presence_colors in
    insert asset_id
      (insert user_id (joined_user user_id user_name conn color_idx (get user_id asset_users))
        asset_users)
      sessions

abbrev pub leave_users : ℕ → ℕ → Option PresenceUser → Users → Users
leave_users user_id conn none asset_users = asset_users
leave_users user_id conn (some user) asset_users =
    let connections = discard conn user.connections in
    if is_empty connections
    then remove user_id asset_users
    else insert user_id (record { entry = user.entry; connections = connections }) asset_users

abbrev pub leave_session : ℕ → ℕ → ℕ → Option Users → Sessions → Sessions
leave_session asset_id user_id conn none sessions = sessions
leave_session asset_id user_id conn (some users) sessions =
    let asset_users = leave_users user_id conn (get user_id users) users in
    if is_empty asset_users then remove asset_id sessions else insert asset_id asset_users sessions

unfoldable pub leave : ℕ → ℕ → ℕ → Sessions → Sessions
leave asset_id user_id conn sessions =
    leave_session asset_id user_id conn (get asset_id sessions) sessions

abbrev pub entries : Users → List PresenceEntry
entries [] = []
entries ((user_id, user) ∷ users) = user.entry ∷ entries users

unfoldable pub get_presence : ℕ → Sessions → List PresenceEntry
get_presence asset_id sessions = entries (or_no_users (get asset_id sessions))

-- The connections of a user that is not there are none.
abbrev pub connections_of : Option PresenceUser → List ℕ
connections_of none = []
connections_of (some user) = user.connections

abbrev pub seen : Sessions → ℕ → ℕ → Option PresenceUser
seen sessions asset_id user_id = get user_id (or_no_users (get asset_id sessions))

-- Whether this connection holds this user's presence in the room, and whether the user is there.
unfoldable pub is_connected : Sessions → ℕ → ℕ → ℕ → Bool
is_connected sessions asset_id user_id conn =
    contains conn (connections_of (seen sessions asset_id user_id))

unfoldable pub is_present : Sessions → ℕ → ℕ → Bool
is_present sessions asset_id user_id = is_some (seen sessions asset_id user_id)
