-- ===== src/Collaboration/Socket.antt =====
-- One connection's socket, `handle_socket` of crates/tiletopia-server/src/realtime.rs. Cameras and
-- the like are values of a parameter; a room's id, a user's and a connection's are numbers.
use tiletopia.Prelude.{
  ℕ, String, ◌≡◌, refl, sym, ap, ◌∙◌, inl, inr, Bool, true, false, not, ◌&&◌, ◌||◌, Option, none,
  some, List, [], ◌∷◌, ltb, ◌==◌, if◌then◌else◌, ==_iff, Bool-cases, All,
}
use tiletopia.Collaboration.Rooms.{Rooms, release_room}
use tiletopia.Collaboration.Presence.{
  PresenceEntry, Sessions, join, leave, get_presence, is_connected,
}
use tiletopia.Collaboration.Roster.{is_connected-join, is_connected-leave}
use tiletopia.Collaboration.Seen.{both}

pub data CollabMessage (P : Type 0) : Type 0 where
  joined_message : (user_id : ℕ) (user_name : String) → CollabMessage P
  left_message : (user_id : ℕ) → CollabMessage P
  cursor : (user_id : ℕ) (place : P) → CollabMessage P
  chat : (user_id : ℕ) (text : P) → CollabMessage P
  presence : (users : List PresenceEntry) → CollabMessage P
  view_changed : (user_id : ℕ) (camera : P) → CollabMessage P

module _ {P : Type 0} where
  abbrev pub with_sender : CollabMessage P → ℕ → CollabMessage P
  with_sender (joined_message user_id user_name) sub = joined_message sub user_name
  with_sender (left_message user_id) sub = left_message sub
  with_sender (cursor user_id place) sub = cursor sub place
  with_sender (chat user_id text) sub = chat sub text
  with_sender (presence users) sub = presence users
  with_sender (view_changed user_id camera) sub = view_changed sub camera

-- What one turn of the loop meets: a broadcast, sent on to the client or not, the receiver behind or
-- closed, a message of the client, or its end.
pub data Arrival (P : Type 0) : Type 0 where
  forwarded : Bool → Arrival P
  lagged : ℕ → Arrival P
  channel_closed : Arrival P
  client_closed : Arrival P
  text : Option (CollabMessage P) → Arrival P
  other : Arrival P

-- What the socket shares with the others, and what it has broadcast so far, the last first.
pub record Shared (P : Type 0) : Type 0 where
  pub sessions : Sessions
  pub rooms : Rooms
  pub sent : List (CollabMessage P)

-- The connection of a socket, compared with another.
abbrev mine : ℕ → ℕ → ℕ → ℕ → ℕ → ℕ → Bool
mine room sub conn b v d = both room b sub v && (conn == d)

-- A message of this user, or the room's list of who is present.
abbrev pub Stamped : {P : Type 0} → ℕ → CollabMessage P → Type 0
Stamped sub (joined_message user_id user_name) = user_id ≡ sub
Stamped sub (left_message user_id) = user_id ≡ sub
Stamped sub (cursor user_id place) = user_id ≡ sub
Stamped sub (chat user_id words) = user_id ≡ sub
Stamped sub (presence users) = Unit
Stamped sub (view_changed user_id camera) = user_id ≡ sub

module _ {P : Type 0} (name_chars : String → ℕ) (room sub conn : ℕ) where
  abbrev pub send : CollabMessage P → Shared P → Shared P
  send message shared = record {
    sessions = shared.sessions;
    rooms = shared.rooms;
    sent = message ∷ shared.sent;
  }

  abbrev pub set_sessions : Sessions → Shared P → Shared P
  set_sessions sessions shared = record {
    sessions = sessions;
    rooms = shared.rooms;
    sent = shared.sent;
  }

  abbrev pub broadcast_presence : Shared P → Shared P
  broadcast_presence shared = send (presence (get_presence room shared.sessions)) shared

  -- Whether the loop goes on, then `joined` and what is shared.
  abbrev pub on_message : CollabMessage P → Bool → Shared P → Bool × Bool × Shared P
  on_message (joined_message user_id user_name) joined shared =
      if ltb 64 (name_chars user_name) then (false, joined, shared) else (
        true,
        true,
        broadcast_presence (set_sessions (join room sub user_name conn shared.sessions) shared),
      )
  on_message (left_message user_id) joined shared =
      (true, false, broadcast_presence (set_sessions (leave room sub conn shared.sessions) shared))
  on_message (cursor user_id place) joined shared =
      (true, joined, send (cursor user_id place) shared)
  on_message (chat user_id words) joined shared = (true, joined, send (chat user_id words) shared)
  on_message (view_changed user_id camera) joined shared =
      (true, joined, send (view_changed user_id camera) shared)
  on_message (presence users) joined shared = (true, joined, shared)

  unfoldable pub on_arrival : Arrival P → Bool → Shared P → Bool × Bool × Shared P
  on_arrival (forwarded sent_on) joined shared = (sent_on, joined, shared)
  on_arrival (lagged n) joined shared = (true, joined, shared)
  on_arrival channel_closed joined shared = (false, joined, shared)
  on_arrival client_closed joined shared = (false, joined, shared)
  on_arrival (text (some message)) joined shared =
      on_message (with_sender message sub) joined shared
  on_arrival (text none) joined shared = (true, joined, shared)
  on_arrival other joined shared = (true, joined, shared)

  -- The loop, over what arrives until it breaks.
  unfoldable pub socket_loop : List (Arrival P) → Bool → Shared P → Bool × Shared P
  socket_loop [] joined shared = (joined, shared)
  socket_loop (arrival ∷ arrivals) joined shared =
      let (goes_on, joined, shared) = on_arrival arrival joined shared in
      let rest = socket_loop arrivals joined shared in if goes_on then rest else (joined, shared)

  abbrev pub clean_up : Bool × Shared P → Shared P
  clean_up (joined, shared) =
      let left =
        if joined
        then broadcast_presence (set_sessions (leave room sub conn shared.sessions) shared)
        else shared in
      record {
        sessions = left.sessions;
        rooms = release_room room sub left.rooms;
        sent = left.sent;
      }

  unfoldable pub handle_socket : List (Arrival P) → Shared P → Shared P
  handle_socket arrivals shared = clean_up (socket_loop arrivals false shared)

  module _ (start : Shared P) where
    -- The socket has changed no presence but its own connection's, which is as `joined` says.
    record Keeps (joined : Bool) (shared : Shared P) : Type 0 where
      connections :
          (b v d : ℕ)
          → is_connected shared.sessions b v d
            ≡ (if mine room sub conn b v d then joined else is_connected start.sessions b v d)
      rooms : shared.rooms ≡ start.rooms
      sent : All (Stamped sub) shared.sent

    joined_now :
        (m joined old : Bool) → (m || (if m then joined else old)) ≡ (if m then true else old)
    joined_now true joined old = refl
    joined_now false joined old = refl

    left_now :
        (m joined old : Bool) → (not m && (if m then joined else old)) ≡ (if m then false else old)
    left_now true joined old = refl
    left_now false joined old = refl

    left-Keeps :
        (joined : Bool) (shared : Shared P)
        → Keeps joined shared
        → Keeps false
            (broadcast_presence (set_sessions (leave room sub conn shared.sessions) shared))
    left-Keeps joined shared k = record {
      connections = λ b v d.
          is_connected-leave room sub conn shared.sessions b v d
          ∙ (ap (λ t. not (mine room sub conn b v d) && t) (k.connections b v d)
              ∙ left_now (mine room sub conn b v d) joined (is_connected start.sessions b v d));
      rooms = k.rooms;
      sent = (tt, k.sent);
    }

    joined-Keeps :
        (name : String) (joined : Bool) (shared : Shared P)
        → Keeps joined shared
        → Keeps true
            (broadcast_presence (set_sessions (join room sub name conn shared.sessions) shared))
    joined-Keeps name joined shared k = record {
      connections = λ b v d.
          is_connected-join room sub name conn shared.sessions b v d
          ∙ (ap (λ t. mine room sub conn b v d || t) (k.connections b v d)
              ∙ joined_now (mine room sub conn b v d) joined (is_connected start.sessions b v d));
      rooms = k.rooms;
      sent = (tt, k.sent);
    }

    sent-Keeps :
        (message : CollabMessage P) (joined : Bool) (shared : Shared P)
        → Stamped sub message
        → Keeps joined shared
        → Keeps joined (send message shared)
    sent-Keeps message joined shared stamped k = record {
      connections = k.connections;
      rooms = k.rooms;
      sent = (stamped, k.sent);
    }

    on_message-Keeps :
        (message : CollabMessage P) (joined : Bool) (shared : Shared P)
        → Keeps joined shared
        → let after = on_message (with_sender message sub) joined shared in Keeps after.1 after.2
    on_message-Keeps (joined_message user_id user_name) joined shared k =
        elim (Bool-cases (ltb 64 (name_chars user_name))) [
          | inl e ↦ rw e k
          | inr e ↦ rw e (joined-Keeps user_name joined shared k)
        ]
    on_message-Keeps (left_message user_id) joined shared k = left-Keeps joined shared k
    on_message-Keeps (cursor user_id place) joined shared k =
        sent-Keeps (cursor sub place) joined shared refl k
    on_message-Keeps (chat user_id words) joined shared k =
        sent-Keeps (chat sub words) joined shared refl k
    on_message-Keeps (view_changed user_id camera) joined shared k =
        sent-Keeps (view_changed sub camera) joined shared refl k
    on_message-Keeps (presence users) joined shared k = k

    on_arrival-Keeps :
        (arrival : Arrival P) (joined : Bool) (shared : Shared P)
        → Keeps joined shared
        → let after = on_arrival arrival joined shared in Keeps after.1 after.2
    unfolding on_arrival
    on_arrival-Keeps (forwarded sent_on) joined shared k = k
    on_arrival-Keeps (lagged n) joined shared k = k
    on_arrival-Keeps channel_closed joined shared k = k
    on_arrival-Keeps client_closed joined shared k = k
    on_arrival-Keeps (text (some message)) joined shared k =
        on_message-Keeps message joined shared k
    on_arrival-Keeps (text none) joined shared k = k
    on_arrival-Keeps other joined shared k = k

    socket_loop-Keeps :
        (arrivals : List (Arrival P)) (joined : Bool) (shared : Shared P)
        → Keeps joined shared
        → let after = socket_loop arrivals joined shared in Keeps after.0 after.1
    unfolding socket_loop
    socket_loop-Keeps [] joined shared k = k
    socket_loop-Keeps (arrival ∷ arrivals) joined shared k =
        let next = on_arrival-Keeps arrival joined shared k in
        elim (Bool-cases (on_arrival arrival joined shared).0) [
          | inl e ↦ rw e (socket_loop-Keeps arrivals _ _ next)
          | inr e ↦ rw e next
        ]

    start-Keeps :
        is_connected start.sessions room sub conn ≡ false
        → All (Stamped sub) start.sent
        → Keeps false start
    start-Keeps fresh stamped = record {
      connections = λ b v d. elim (Bool-cases (room == b)) [
        | inr e ↦ rw e refl
        | inl e ↦ elim (Bool-cases (sub == v)) [
          | inr f ↦ rw (e, f) refl
          | inl f ↦ elim (Bool-cases (conn == d)) [
            | inr g ↦ rw (e, f, g) refl
            | inl g ↦
                rw (e, f, g)
                  (sym (ap (λ j. is_connected start.sessions j v d) ((==_iff room b).0 e))
                    ∙ (sym (ap (λ j. is_connected start.sessions room j d) ((==_iff sub v).0 f))
                        ∙ (sym (
                              ap (λ j. is_connected start.sessions room sub j)
                                ((==_iff conn d).0 g))
                            ∙ fresh)))
          ]
        ]
      ];
      rooms = refl;
      sent = stamped;
    }

    -- Whatever arrives at a socket whose connection held no presence: in the end each connection
    -- holds the presence that it held before, the room has been released once, and every message
    -- that the socket broadcast names its authenticated user as the sender, if it names any.
    pub handle_socket_lem :
        (arrivals : List (Arrival P))
        → is_connected start.sessions room sub conn ≡ false
        → All (Stamped sub) start.sent
        → let after = handle_socket arrivals start in
          ((b v d : ℕ) → is_connected after.sessions b v d ≡ is_connected start.sessions b v d)
          × (after.rooms ≡ release_room room sub start.rooms)
          × All (Stamped sub) after.sent
    unfolding handle_socket
    handle_socket_lem arrivals fresh stamped =
        go (socket_loop arrivals false start).0 (socket_loop arrivals false start).1
          (socket_loop-Keeps arrivals false start (start-Keeps fresh stamped))
      where
        began :
            (b v d : ℕ)
            → (if mine room sub conn b v d then false else is_connected start.sessions b v d)
              ≡ is_connected start.sessions b v d
        began b v d = sym ((start-Keeps fresh stamped).connections b v d)

        go :
            (joined : Bool) (shared : Shared P)
            → Keeps joined shared
            → let after = clean_up (joined, shared) in
              ((b v d : ℕ) → is_connected after.sessions b v d ≡ is_connected start.sessions b v d)
              × (after.rooms ≡ release_room room sub start.rooms)
              × All (Stamped sub) after.sent
        go true shared k =
            let k1 = left-Keeps true shared k in
            (
              (λ b v d. k1.connections b v d ∙ began b v d),
              ap (release_room room sub) k.rooms,
              k1.sent,
            )
        go false shared k = (
          (λ b v d. k.connections b v d ∙ began b v d),
          ap (release_room room sub) k.rooms,
          k.sent,
        )
