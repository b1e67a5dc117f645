-- ===== src/Collaboration/Releases.antt =====
-- Connections that leave the rooms of crates/tiletopia-server/src/realtime.rs, and every order in
-- which they come and go.
use tiletopia.Prelude.{
  ℕ, zero, suc, ◌+◌, ◌≤◌, ◌≡◌, refl, sym, ap, subst, ◌∙◌, inl, inr, true, Option, none, some, List,
  [], ◌∷◌, ◌++◌, arith, ltb, ◌==◌, if◌then◌else◌, ==_iff, Bool-cases, Option-cases, length,
}
use tiletopia.Prelude.Res.{ok, err}
use tiletopia.Collaboration.Maps.{
  get, insert, remove, tally, get-insert_same, get-insert_other, get-remove_same, get-remove_other,
  insert-IsMap, remove-IsMap, tally-insert_same, tally-remove, length-tally, get-all_none,
}
use tiletopia.Collaboration.Rooms.{
  RoomRefusal, Room, with_connections, Rooms, no_rooms, less_one, decrement_count, acquire_room,
  release_hold, release_room,
}
use tiletopia.Collaboration.RoomLaws.{Joined, acquire_room-Joined}
use tiletopia.Collaboration.Counted.{
  Hold, held_in, held_by, owned_by, entry, Counts, connections_of, IsCounted, decrement-Counts,
  entry-none, some-entry,
}

-- The second list is the first without one hold of this room by this user.
record IsWithout (room user : ℕ) (holds rest : List Hold) : Type 0 where
  in_room : (r : ℕ) → held_in r holds ≡ held_in r rest + (if room == r then 1 else 0)
  by_user : (u : ℕ) → held_by u holds ≡ held_by u rest + (if user == u then 1 else 0)

module _ (rooms : Rooms) (holds rest : List Hold) (inv : IsCounted rooms holds) (room user : ℕ)
    (without : IsWithout room user holds rest) where
  same_room : (room == room) ≡ true
  same_room = ground arith

  held_before : held_in room holds ≡ held_in room rest + 1
  held_before = ground (arith, without.in_room room)

  users_after : Counts (decrement_count rooms.connections_by_user user) (λ u. held_by u rest)
  users_after =
      decrement-Counts rooms.connections_by_user (λ u. held_by u holds) (λ u. held_by u rest) user
        inv.by_user (ground (arith, without.by_user user))
        (λ i apart. ground (arith, without.by_user i))

  fewer_in_room : (r : ℕ) → held_in r rest ≤ 23
  fewer_in_room r = omega (arith, without.in_room r, inv.few_in_room r)

  fewer_by_user : (u : ℕ) → held_by u rest ≤ 16
  fewer_by_user u = omega (arith, without.by_user u, inv.few_by_user u)

  -- The room of a hold is open.
  held_room :
      (existing : Room) × (get room rooms.by_id ≡ some existing)
      × (existing.connections ≡ held_in room rest + 1)
  held_room = elim (Option-cases (get room rooms.by_id)) [
    | inl absent ↦
        let nothing =
          entry-none (held_in room holds) (sym (inv.by_room room) ∙ ap connections_of absent) in
        absurd (omega (arith, nothing, held_before))
    | inr (existing, found) ↦
        let counted =
          some-entry existing.connections (held_in room holds)
            (ap connections_of (sym found) ∙ inv.by_room room) in
        (existing, found, counted ∙ held_before)
  ]

  stays-IsCounted :
      (existing : Room)
      → get room rooms.by_id ≡ some existing
      → (n : ℕ) → held_in room rest ≡ suc n
      → IsCounted
          (record {
            by_id = insert room (with_connections existing (suc n)) rooms.by_id;
            owned = rooms.owned;
            connections_by_user = decrement_count rooms.connections_by_user user;
          })
          rest
  stays-IsCounted existing found n left =
      let fewer : Room = with_connections existing (suc n) in
      let owners : (u : ℕ) → owned_by u (insert room fewer rooms.by_id) ≡ owned_by u rooms.by_id =
        λ u. tally-insert_same (λ r. r.owner == u) rooms.by_id room fewer existing found refl in
      let sizes : length (insert room fewer rooms.by_id) ≡ length rooms.by_id =
        sym (length-tally (insert room fewer rooms.by_id))
        ∙ (tally-insert_same (λ _. true) rooms.by_id room fewer existing found refl
            ∙ length-tally rooms.by_id) in
      record {
        is_map = insert-IsMap rooms.by_id room fewer inv.is_map;
        by_room = λ r. elim (Bool-cases (room == r)) [
          | inl e ↦
              let same : room ≡ r = (==_iff room r).0 e in
              let now =
                subst (λ s. get s (insert room fewer rooms.by_id) ≡ some fewer) same
                  (get-insert_same rooms.by_id room fewer) in
              let still : held_in r rest ≡ suc n = ap (λ s. held_in s rest) (sym same) ∙ left in
              rw (now, still) refl
          | inr e ↦
              let kept = get-insert_other rooms.by_id room r fewer e in
              let still : held_in r rest ≡ held_in r holds = ground (arith, without.in_room r) in
              (ap connections_of kept ∙ inv.by_room r) ∙ ap entry (sym still)
        ];
        by_user = users_after;
        by_owner = λ u. inv.by_owner u ∙ ap entry (sym (owners u));
        few_in_room = fewer_in_room;
        few_by_user = fewer_by_user;
        few_owned = λ u. subst (λ n. n ≤ 8) (sym (owners u)) (inv.few_owned u);
        few_rooms = subst (λ n. n ≤ 512) (sym sizes) inv.few_rooms;
      }

  closes-IsCounted :
      (existing : Room)
      → get room rooms.by_id ≡ some existing
      → held_in room rest ≡ 0
      → IsCounted
          (record {
            by_id = remove room rooms.by_id;
            owned = decrement_count rooms.owned existing.owner;
            connections_by_user = decrement_count rooms.connections_by_user user;
          })
          rest
  closes-IsCounted existing found left =
      let owners : (u : ℕ)
          → owned_by u (remove room rooms.by_id) + (if existing.owner == u then 1 else 0)
            ≡ owned_by u rooms.by_id =
        λ u. tally-remove (λ r. r.owner == u) rooms.by_id room existing inv.is_map found in
      let sizes = tally-remove (λ _. true) rooms.by_id room existing inv.is_map found in
      record {
        is_map = remove-IsMap rooms.by_id room inv.is_map;
        by_room = λ r. elim (Bool-cases (room == r)) [
          | inl e ↦
              let same : room ≡ r = (==_iff room r).0 e in
              let now =
                subst (λ s. get s (remove room rooms.by_id) ≡ none) same
                  (get-remove_same rooms.by_id room) in
              let still : held_in r rest ≡ 0 = ap (λ s. held_in s rest) (sym same) ∙ left in
              rw (now, still) refl
          | inr e ↦
              let kept = get-remove_other rooms.by_id room r e in
              let still : held_in r rest ≡ held_in r holds = ground (arith, without.in_room r) in
              (ap connections_of kept ∙ inv.by_room r) ∙ ap entry (sym still)
        ];
        by_user = users_after;
        by_owner =
            decrement-Counts rooms.owned (λ u. owned_by u rooms.by_id)
              (λ u. owned_by u (remove room rooms.by_id)) existing.owner inv.by_owner
              (ground (arith, owners existing.owner)) (λ i apart. ground (arith, owners i));
        few_in_room = fewer_in_room;
        few_by_user = fewer_by_user;
        few_owned = λ u. omega (arith, owners u, inv.few_owned u);
        few_rooms = omega (
          arith,
          sizes,
          length-tally (remove room rooms.by_id),
          length-tally rooms.by_id,
          inv.few_rooms,
        );
      }

  release_room-IsCounted : IsCounted (release_room room user rooms) rest
  unfolding release_room
  release_room-IsCounted =
      let (existing, found, counted) = held_room in
      subst
        (λ o.
          IsCounted
            (release_hold room o (record {
              by_id = rooms.by_id;
              owned = rooms.owned;
              connections_by_user = decrement_count rooms.connections_by_user user;
            }))
            rest)
        (sym found) (go existing found counted (held_in room rest) refl)
    where
      go :
          (existing : Room)
          → get room rooms.by_id ≡ some existing
          → existing.connections ≡ held_in room rest + 1
          → (n : ℕ) → held_in room rest ≡ n
          → IsCounted
              (release_hold room (some existing) (record {
                by_id = rooms.by_id;
                owned = rooms.owned;
                connections_by_user = decrement_count rooms.connections_by_user user;
              }))
              rest
      go existing found counted zero left =
          let last : less_one existing.connections ≡ 0 = ground arith in
          rw last (closes-IsCounted existing found left)
      go existing found counted (suc n) left =
          let others : less_one existing.connections ≡ suc n = ground arith in
          let some_one : ltb 0 (suc n) ≡ true = ground arith in
          rw (others, some_one) (stays-IsCounted existing found n left)

-- The states of the rooms, with the connections that hold them, that joins and releases reach; every
-- release is that of a connection which was let in.
pub data Reach : Rooms → List Hold → Type 0 where
  empty : Reach no_rooms []
  let_in :
      {rooms after : Rooms} {holds : List Hold} (channel room user tx : ℕ)
      → Reach rooms holds
      → acquire_room channel room user rooms ≡ (ok tx, after)
      → Reach after (record { room = room; user = user } ∷ holds)
  refused :
      {rooms after : Rooms} {holds : List Hold} (channel room user : ℕ) (refusal : RoomRefusal)
      → Reach rooms holds
      → acquire_room channel room user rooms ≡ (err refusal, after)
      → Reach after holds
  left :
      {rooms : Rooms} (before after : List Hold) (room user : ℕ)
      → Reach rooms (before ++ (record { room = room; user = user } ∷ after))
      → Reach (release_room room user rooms) (before ++ after)

without :
    (before after : List Hold) (room user : ℕ)
    → IsWithout room user
        (before ++ (record { room = room; user = user } ∷ after))
        (before ++ after)
without [] after room user = record { in_room = λ r. omega arith; by_user = λ u. omega arith }
without (h ∷ before) after room user =
    let rest = without before after room user in
    record {
      in_room = λ r. omega (arith, rest.in_room r);
      by_user = λ u. omega (arith, rest.by_user u);
    }

no_rooms-IsCounted : IsCounted no_rooms []
unfolding get tally
no_rooms-IsCounted = record {
  is_map = tt;
  by_room = λ r. refl;
  by_user = λ u. refl;
  by_owner = λ u. refl;
  few_in_room = λ r. omega arith;
  few_by_user = λ u. omega arith;
  few_owned = λ u. omega arith;
  few_rooms = omega arith;
}

-- Whatever connections are let in, refused and released, in any order: the number of connections
-- kept for a room is that of those which hold it, and the room is open only while there are any;
-- the connections and the open rooms kept for each user are those it has; and no room has more than
-- 23 connections, no user more than 16 connections or 8 rooms, the server no more than 512 rooms.
pub Reach-IsCounted :
    {rooms : Rooms} {holds : List Hold} → Reach rooms holds → IsCounted rooms holds
Reach-IsCounted empty = no_rooms-IsCounted
Reach-IsCounted (let_in {rooms} {after} {holds} channel room user tx r e) =
    subst (Joined rooms holds (Reach-IsCounted r) room user) e
      (acquire_room-Joined rooms holds (Reach-IsCounted r) room user channel)
Reach-IsCounted (refused {rooms} {after} {holds} channel room user refusal r e) =
    subst (Joined rooms holds (Reach-IsCounted r) room user) e
      (acquire_room-Joined rooms holds (Reach-IsCounted r) room user channel)
Reach-IsCounted (left {rooms} before after room user r) =
    release_room-IsCounted rooms _ (before ++ after) (Reach-IsCounted r) room user
      (without before after room user)

-- Each of the connections releases its room.
unfoldable pub release_all : Rooms → List Hold → Rooms
release_all rooms [] = rooms
release_all rooms (h ∷ holds) = release_all (release_room h.room h.user rooms) holds

-- Once all the connections that are left have released their rooms, nothing is kept of any room or
-- any user, so everyone can open rooms as at the start.
pub release_all-Reach :
    (rooms : Rooms) (holds : List Hold) → Reach rooms holds → release_all rooms holds ≡ no_rooms
unfolding release_all
release_all-Reach rooms [] r = empty_state (Reach-IsCounted r)
  where
    none_left : (o : Option Room) → connections_of o ≡ none → o ≡ none
    none_left none h = refl
    none_left (some existing) h = cc

    empty_state : IsCounted rooms [] → rooms ≡ no_rooms
    empty_state inv =
        let no_room : rooms.by_id ≡ [] =
          get-all_none rooms.by_id (λ r. none_left (get r rooms.by_id) (inv.by_room r)) in
        let no_user : rooms.connections_by_user ≡ [] =
          get-all_none rooms.connections_by_user inv.by_user in
        let no_owner : rooms.owned ≡ [] =
          get-all_none rooms.owned
            (λ u. inv.by_owner u ∙ ap (λ m. entry (owned_by u m)) no_room ∙ unfold tally in refl) in
        λ i. record { by_id = no_room i; owned = no_owner i; connections_by_user = no_user i }
release_all-Reach rooms (h ∷ holds) r =
    release_all-Reach (release_room h.room h.user rooms) holds (left [] holds h.room h.user r)
