-- ===== src/Collaboration/RoomLaws.antt =====
-- The counts of the rooms of crates/tiletopia-server/src/realtime.rs, whatever connections come and
-- go, in any order.
use tiletopia.Prelude.{
  ℕ, suc, ◌+◌, ◌≤◌, ◌≡◌, refl, sym, ap, subst, ◌∙◌, inl, inr, true, false, none, some, List, ◌∷◌,
  arith, leb, ◌==◌, if◌then◌else◌, ==_iff, Bool-cases, Option-cases, length,
}
use tiletopia.Prelude.Res.{Res, ok, err}
use tiletopia.Collaboration.Maps.{
  get, insert, get-insert_same, get-insert_other, insert-IsMap, tally-insert_new, tally-insert_same,
  length-tally,
}
use tiletopia.Collaboration.Rooms.{
  RoomRefusal, Room, with_connections, Rooms, or_zero, count_connection, acquire_room,
}
use tiletopia.Collaboration.Counted.{
  Hold, held_in, held_by, owned_by, entry, Counts, connections_of, IsCounted, or_zero-entry,
  entry-one, insert-Counts, entry-none, some-entry,
}

module _ (rooms : Rooms) (holds : List Hold) (inv : IsCounted rooms holds) (room user : ℕ) where
  abbrev hold : Hold
  hold = record { room = room; user = user }

  user_count : or_zero (get user rooms.connections_by_user) ≡ held_by user holds
  user_count = ap or_zero (inv.by_user user) ∙ or_zero-entry (held_by user holds)

  -- The count of the users' connections after one more.
  by_user_more :
      Counts
        (insert user (or_zero (get user rooms.connections_by_user) + 1) rooms.connections_by_user)
        (λ u. held_by u (hold ∷ holds))
  by_user_more =
      let one_more : or_zero (get user rooms.connections_by_user) + 1 ≡ suc (held_by user holds) =
        omega (arith, user_count) in
      rw one_more (
        insert-Counts rooms.connections_by_user (λ u. held_by u holds)
          (λ u. held_by u (hold ∷ holds)) user (held_by user holds) inv.by_user (ground arith)
          (λ i apart. ground arith))

  few_by_user_more :
      leb 16 (or_zero (get user rooms.connections_by_user)) ≡ false
      → (u : ℕ) → held_by u (hold ∷ holds) ≤ 16
  few_by_user_more free u = elim (Bool-cases (user == u)) [
    | inl e ↦
        let same : held_by user holds ≡ held_by u holds =
          ap (λ v. held_by v holds) ((==_iff user u).0 e) in
        ground (arith, user_count)
    | inr e ↦ ground (arith, inv.few_by_user u)
  ]

  join_existing-IsCounted :
      (existing : Room)
      → get room rooms.by_id ≡ some existing
      → leb 16 (or_zero (get user rooms.connections_by_user)) ≡ false
      → leb 23 existing.connections ≡ false
      → IsCounted
          (count_connection user (record {
            by_id = insert room (with_connections existing (existing.connections + 1)) rooms.by_id;
            owned = rooms.owned;
            connections_by_user = rooms.connections_by_user;
          }))
          (hold ∷ holds)
  join_existing-IsCounted existing found_room free space = record {
    is_map =
        insert-IsMap rooms.by_id room (with_connections existing (existing.connections + 1))
          inv.is_map;
    by_room = by_room_after;
    by_user = by_user_more;
    by_owner = λ u. inv.by_owner u ∙ ap entry (sym (owners u));
    few_in_room = few_in_room_after;
    few_by_user = few_by_user_more free;
    few_owned = λ u. subst (λ n. n ≤ 8) (sym (owners u)) (inv.few_owned u);
    few_rooms = subst (λ n. n ≤ 512) (sym sizes) inv.few_rooms;
  }
    where
      owners :
          (u : ℕ)
          → owned_by u
              (insert room (with_connections existing (existing.connections + 1)) rooms.by_id)
            ≡ owned_by u rooms.by_id
      owners u =
          tally-insert_same (λ r. r.owner == u) rooms.by_id room
            (with_connections existing (existing.connections + 1)) existing found_room refl

      sizes :
          length (insert room (with_connections existing (existing.connections + 1)) rooms.by_id)
          ≡ length rooms.by_id
      sizes =
          sym (
            length-tally
              (insert room (with_connections existing (existing.connections + 1)) rooms.by_id))
          ∙ (tally-insert_same (λ _. true) rooms.by_id room
                (with_connections existing (existing.connections + 1)) existing found_room refl
              ∙ length-tally rooms.by_id)

      before : existing.connections ≡ held_in room holds
      before =
          some-entry existing.connections (held_in room holds)
            (ap connections_of (sym found_room) ∙ inv.by_room room)

      by_room_after :
          (r : ℕ)
          → connections_of (
              get r
                (insert room (with_connections existing (existing.connections + 1)) rooms.by_id))
            ≡ entry (held_in r (hold ∷ holds))
      by_room_after r = elim (Bool-cases (room == r)) [
        | inl e ↦
            let same : room ≡ r = (==_iff room r).0 e in
            let moved : held_in room holds ≡ held_in r holds = ap (λ s. held_in s holds) same in
            let found =
              subst
                (λ s.
                  get s
                    (insert room (with_connections existing (existing.connections + 1)) rooms.by_id)
                  ≡ some (with_connections existing (existing.connections + 1)))
                same
                (get-insert_same rooms.by_id room
                  (with_connections existing (existing.connections + 1))) in
            rw (found, e) (ap some (omega (arith, before)) ∙ sym (entry-one (held_in r holds)))
        | inr e ↦
            let kept =
              get-insert_other rooms.by_id room r
                (with_connections existing (existing.connections + 1)) e in
            let still : held_in r (hold ∷ holds) ≡ held_in r holds = ground arith in
            (ap connections_of kept ∙ inv.by_room r) ∙ ap entry (sym still)
      ]

      few_in_room_after : (r : ℕ) → held_in r (hold ∷ holds) ≤ 23
      few_in_room_after r = elim (Bool-cases (room == r)) [
        | inl e ↦
            let same : held_in room holds ≡ held_in r holds =
              ap (λ s. held_in s holds) ((==_iff room r).0 e) in
            ground (arith, before)
        | inr e ↦ ground (arith, inv.few_in_room r)
      ]

  open_room-IsCounted :
      (channel : ℕ)
      → get room rooms.by_id ≡ none
      → leb 16 (or_zero (get user rooms.connections_by_user)) ≡ false
      → leb 8 (or_zero (get user rooms.owned)) ≡ false
      → leb 512 (length rooms.by_id) ≡ false
      → IsCounted
          (count_connection user (record {
            by_id =
                insert room (record { tx = channel; owner = user; connections = 1 }) rooms.by_id;
            owned = insert user (or_zero (get user rooms.owned) + 1) rooms.owned;
            connections_by_user = rooms.connections_by_user;
          }))
          (hold ∷ holds)
  open_room-IsCounted channel absent free owner_free space =
      let new : Room = record { tx = channel; owner = user; connections = 1 } in
      let owned : or_zero (get user rooms.owned) ≡ owned_by user rooms.by_id =
        ap or_zero (inv.by_owner user) ∙ or_zero-entry (owned_by user rooms.by_id) in
      let owners : (u : ℕ)
          → owned_by u (insert room new rooms.by_id)
            ≡ owned_by u rooms.by_id + (if user == u then 1 else 0) =
        λ u. tally-insert_new (λ r. r.owner == u) rooms.by_id room new absent in
      let sizes : length (insert room new rooms.by_id) ≡ length rooms.by_id + 1 =
        sym (length-tally (insert room new rooms.by_id))
        ∙ (tally-insert_new (λ _. true) rooms.by_id room new absent
            ∙ ap (λ n. n + 1) (length-tally rooms.by_id)) in
      let before : held_in room holds ≡ 0 =
        entry-none (held_in room holds) (sym (inv.by_room room) ∙ ap connections_of absent) in
      let owner_after : Counts (insert user (suc (owned_by user rooms.by_id)) rooms.owned)
          (λ u. owned_by u (insert room new rooms.by_id)) =
        insert-Counts rooms.owned (λ u. owned_by u rooms.by_id)
          (λ u. owned_by u (insert room new rooms.by_id)) user (owned_by user rooms.by_id)
          inv.by_owner (ground (arith, owners user)) (λ i apart. ground (arith, owners i)) in
      let more : or_zero (get user rooms.owned) + 1 ≡ suc (owned_by user rooms.by_id) =
        omega (arith, owned) in
      record {
        is_map = insert-IsMap rooms.by_id room new inv.is_map;
        by_room = λ r. elim (Bool-cases (room == r)) [
          | inl e ↦
              let same : room ≡ r = (==_iff room r).0 e in
              let found =
                subst (λ s. get s (insert room new rooms.by_id) ≡ some new) same
                  (get-insert_same rooms.by_id room new) in
              let none_before : held_in r holds ≡ 0 =
                ap (λ s. held_in s holds) (sym same) ∙ before in
              rw (found, e, none_before) refl
          | inr e ↦
              let kept = get-insert_other rooms.by_id room r new e in
              let still : held_in r (hold ∷ holds) ≡ held_in r holds = ground arith in
              (ap connections_of kept ∙ inv.by_room r) ∙ ap entry (sym still)
        ];
        by_user = by_user_more;
        by_owner =
            subst
              (λ n.
                Counts (insert user n rooms.owned) (λ u. owned_by u (insert room new rooms.by_id)))
              (sym more) owner_after;
        few_in_room = λ r. elim (Bool-cases (room == r)) [
          | inl e ↦
              let same : held_in room holds ≡ held_in r holds =
                ap (λ s. held_in s holds) ((==_iff room r).0 e) in
              ground (arith, before)
          | inr e ↦ ground (arith, inv.few_in_room r)
        ];
        few_by_user = few_by_user_more free;
        few_owned = λ u. elim (Bool-cases (user == u)) [
          | inl e ↦
              let same : owned_by user rooms.by_id ≡ owned_by u rooms.by_id =
                ap (λ v. owned_by v rooms.by_id) ((==_iff user u).0 e) in
              ground (arith, owners u, owned)
          | inr e ↦ ground (arith, owners u, inv.few_owned u)
        ];
        few_rooms = ground (arith, sizes);
      }

  -- An attempt to join keeps the counts, with one more hold if it was let in.
  abbrev pub Joined : Res RoomRefusal ℕ × Rooms → Type 0
  Joined (ok tx, after) = IsCounted after (hold ∷ holds)
  Joined (err refusal, after) = IsCounted after holds

  pub acquire_room-Joined : (channel : ℕ) → Joined (acquire_room channel room user rooms)
  unfolding acquire_room
  acquire_room-Joined channel =
      elim (Bool-cases (leb 16 (or_zero (get user rooms.connections_by_user)))) [
        | inl full ↦ rw full inv
        | inr free ↦ rw free (elim (Option-cases (get room rooms.by_id)) [
          | inl absent ↦ elim (Bool-cases (leb 8 (or_zero (get user rooms.owned)))) [
            | inl many ↦ rw (absent, many) inv
            | inr few ↦ elim (Bool-cases (leb 512 (length rooms.by_id))) [
              | inl many ↦ rw (absent, few, many) inv
              | inr space ↦
                  rw (absent, few, space) (open_room-IsCounted channel absent free few space)
            ]
          ]
          | inr (existing, found_room) ↦ elim (Bool-cases (leb 23 existing.connections)) [
            | inl many ↦ rw (found_room, many) inv
            | inr space ↦
                rw (found_room, space) (join_existing-IsCounted existing found_room free space)
          ]
        ])
      ]
