-- ===== src/Collaboration/Roster.antt =====
-- What joins and leaves, in any order, make of the presence that
-- crates/tiletopia-server/src/realtime.rs keeps.
use tiletopia.Prelude.{
  ℕ, String, ◌≡◌, refl, sym, ap, subst, ◌∙◌, ◌↔◌, inl, inr, Bool, true, false, not, ◌&&◌, ◌||◌,
  Option, none, some, List, [], ◌∷◌, arith, ◌==◌, ==_iff, Bool-cases, is_some,
}
use tiletopia.Collaboration.Maps.{get}
use tiletopia.Collaboration.Presence.{
  PresenceUser, Sessions, contains, discard, is_empty, joined_user, join, leave, connections_of,
  seen, is_connected, is_present,
}
use tiletopia.Collaboration.Seen.{
  contains-add, contains-discard, both, left_user, seen-join, empty_list, seen-leave,
}

contains-joined :
    (u : ℕ) (name : String) (c i d : ℕ) (o : Option PresenceUser)
    → contains d (joined_user u name c i o).connections
      ≡ ((c == d) || contains d (connections_of o))
contains-joined u name c i d none = refl
contains-joined u name c i d (some user) = contains-add c d user.connections

contains-left :
    (c d : ℕ) (o : Option PresenceUser)
    → contains d (connections_of (left_user c o)) ≡ (not (c == d) && contains d (connections_of o))
contains-left c d none = elim (Bool-cases (c == d)) [ inl f ↦ rw f refl | inr f ↦ rw f refl ]
contains-left c d (some user) = elim (Bool-cases (is_empty (discard c user.connections))) [
  | inl e ↦ rw e (
      ap (contains d) (sym (empty_list (discard c user.connections) e))
      ∙ contains-discard c d user.connections)
  | inr e ↦ rw e (contains-discard c d user.connections)
]

pub is_connected-join :
    (a u : ℕ) (name : String) (c : ℕ) (s : Sessions) (b v d : ℕ)
    → is_connected (join a u name c s) b v d ≡ ((both a b u v && (c == d)) || is_connected s b v d)
unfolding is_connected
is_connected-join a u name c s b v d =
    let (i, now) = seen-join a u name c s b v in
    rw now (elim (Bool-cases (a == b)) [
      | inr e ↦ rw e refl
      | inl e ↦ elim (Bool-cases (u == v)) [
        | inr f ↦ rw (e, f) refl
        | inl f ↦
            rw (e, f)
              (contains-joined u name c i d (seen s a u)
                ∙ (ap (λ j. (c == d) || contains d (connections_of (seen s j u))) ((==_iff a b).0 e)
                    ∙ ap (λ j. (c == d) || contains d (connections_of (seen s b j)))
                        ((==_iff u v).0 f)))
      ]
    ])

pub is_connected-leave :
    (a u c : ℕ) (s : Sessions) (b v d : ℕ)
    → is_connected (leave a u c s) b v d ≡ (not (both a b u v && (c == d)) && is_connected s b v d)
unfolding is_connected
is_connected-leave a u c s b v d = rw (seen-leave a u c s b v) (elim (Bool-cases (a == b)) [
  | inr e ↦ rw e refl
  | inl e ↦ elim (Bool-cases (u == v)) [
    | inr f ↦ rw (e, f) refl
    | inl f ↦
        rw (e, f)
          (contains-left c d (seen s a u)
            ∙ (ap (λ j. not (c == d) && contains d (connections_of (seen s j u))) ((==_iff a b).0 e)
                ∙ ap (λ j. not (c == d) && contains d (connections_of (seen s b j)))
                    ((==_iff u v).0 f)))
  ]
])

-- A user is there only with a connection.
abbrev Held : Option PresenceUser → Type 0
Held o = is_some o ≡ not (is_empty (connections_of o))

joined-Held :
    (u : ℕ) (name : String) (c i : ℕ) (o : Option PresenceUser)
    → Held (some (joined_user u name c i o))
joined-Held u name c i none = refl
joined-Held u name c i (some user) = elim (Bool-cases (contains c user.connections)) [
  | inl e ↦ rw e (not_empty user.connections e)
  | inr e ↦ rw e refl
]
  where
    not_empty : (s : List ℕ) → contains c s ≡ true → true ≡ not (is_empty s)
    not_empty [] h = cc
    not_empty (d ∷ s) h = refl

left-Held : (c : ℕ) (o : Option PresenceUser) → Held (left_user c o)
left-Held c none = refl
left-Held c (some user) = elim (Bool-cases (is_empty (discard c user.connections))) [
  | inl e ↦ rw e refl
  | inr e ↦ rw (e, e) refl
]

pub data PresenceEvent : Type 0 where
  joins : ℕ → ℕ → String → ℕ → PresenceEvent
  leaves : ℕ → ℕ → ℕ → PresenceEvent

-- The sessions after these events, the last of them first.
unfoldable pub after_events : List PresenceEvent → Sessions
after_events [] = []
after_events (joins a u name c ∷ earlier) = join a u name c (after_events earlier)
after_events (leaves a u c ∷ earlier) = leave a u c (after_events earlier)

-- Whether the last event of this connection, for this room and user, is a join.
unfoldable pub last_joined : List PresenceEvent → ℕ → ℕ → ℕ → Bool
last_joined [] b v d = false
last_joined (joins a u name c ∷ earlier) b v d =
    (both a b u v && (c == d)) || last_joined earlier b v d
last_joined (leaves a u c ∷ earlier) b v d =
    not (both a b u v && (c == d)) && last_joined earlier b v d

no_connection : (b v d : ℕ) → is_connected [] b v d ≡ false
unfolding is_connected get
no_connection b v d = refl

is_connected-seen :
    (s : Sessions) (a u c : ℕ) → is_connected s a u c ≡ contains c (connections_of (seen s a u))
unfolding is_connected
is_connected-seen s a u c = refl

is_present-seen : (s : Sessions) (a u : ℕ) → is_present s a u ≡ is_some (seen s a u)
unfolding is_present
is_present-seen s a u = refl

is_connected-last :
    (events : List PresenceEvent) (b v d : ℕ)
    → is_connected (after_events events) b v d ≡ last_joined events b v d
unfolding after_events last_joined
is_connected-last [] b v d = no_connection b v d
is_connected-last (joins a u name c ∷ earlier) b v d =
    is_connected-join a u name c (after_events earlier) b v d
    ∙ ap (λ t. (both a b u v && (c == d)) || t) (is_connected-last earlier b v d)
is_connected-last (leaves a u c ∷ earlier) b v d =
    is_connected-leave a u c (after_events earlier) b v d
    ∙ ap (λ t. not (both a b u v && (c == d)) && t) (is_connected-last earlier b v d)

seen-Held : (events : List PresenceEvent) (b v : ℕ) → Held (seen (after_events events) b v)
unfolding after_events
seen-Held [] b v = unfold get in refl
seen-Held (joins a u name c ∷ earlier) b v =
    let (i, now) = seen-join a u name c (after_events earlier) b v in
    subst Held (sym now) (elim (Bool-cases (both a b u v)) [
      | inl e ↦ rw e (joined-Held u name c i (seen (after_events earlier) a u))
      | inr e ↦ rw e (seen-Held earlier b v)
    ])
seen-Held (leaves a u c ∷ earlier) b v =
    subst Held (sym (seen-leave a u c (after_events earlier) b v))
      (elim (Bool-cases (both a b u v)) [
        | inl e ↦ rw e (left-Held c (seen (after_events earlier) a u))
        | inr e ↦ rw e (seen-Held earlier b v)
      ])

-- After any joins and leaves, a user is present in a room exactly when one of the user's
-- connections has joined the room and not left it since, and each connection that holds the user's
-- presence is such a one.
pub is_present-last :
    (events : List PresenceEvent) (room user : ℕ)
    → ((conn : ℕ)
        → is_connected (after_events events) room user conn ≡ last_joined events room user conn)
      × ((is_present (after_events events) room user ≡ true)
          ↔ ((conn : ℕ) × (last_joined events room user conn ≡ true)))
is_present-last events b v =
    let s = after_events events in
    (
      is_connected-last events b v,
      (
        (λ there.
            let (c, held) =
              some_connection (seen s b v) (seen-Held events b v)
                (sym (is_present-seen s b v) ∙ there) in
            (c, sym (is_connected-last events b v c) ∙ (is_connected-seen s b v c ∙ held))),
        (λ (c, held).
            is_present-seen s b v
            ∙ present (seen s b v) c
                (sym (is_connected-seen s b v c) ∙ (is_connected-last events b v c ∙ held))),
      ),
    )
  where
    some_connection :
        (o : Option PresenceUser)
        → Held o
        → is_some o ≡ true
        → (c : ℕ) × (contains c (connections_of o) ≡ true)
    some_connection none h there = cc
    some_connection (some user) h there = first user.connections h
      where
        first : (s : List ℕ) → true ≡ not (is_empty s) → (c : ℕ) × (contains c s ≡ true)
        first [] h = cc
        first (c ∷ s) h = (c, (let e : (c == c) ≡ true = ground arith in rw e refl))

    present :
        (o : Option PresenceUser) (c : ℕ) → contains c (connections_of o) ≡ true → is_some o ≡ true
    present none c h = cc
    present (some user) c h = refl
