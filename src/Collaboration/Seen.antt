-- ===== src/Collaboration/Seen.antt =====
-- What one join or leave changes of a user in a room, for crates/tiletopia-server/src/realtime.rs.
use tiletopia.Prelude.{
  ℕ, ◌%◌, String, ◌≡◌, refl, sym, ap, subst, ◌∙◌, inl, inr, Bool, true, false, not, ◌&&◌, ◌||◌,
  Option, none, some, List, [], ◌∷◌, arith, ◌==◌, if◌then◌else◌, ==_iff, Bool-cases, Option-cases,
  length,
}
use tiletopia.Collaboration.Maps.{
  get, insert, remove, get-insert_same, get-insert_other, get-remove_same, get-remove_other,
}
use tiletopia.Collaboration.Presence.{
  PresenceUser, Users, Sessions, contains, add, discard, is_empty, or_no_users, joined_user, join,
  presence_colors, leave_users, leave, seen,
}

pub contains-add : (c d : ℕ) (s : List ℕ) → contains d (add c s) ≡ ((c == d) || contains d s)
contains-add c d s = elim (Bool-cases (contains c s)) [
  | inl e ↦ rw e (elim (Bool-cases (c == d)) [
    | inl f ↦
        let same : contains d s ≡ true = subst (λ j. contains j s ≡ true) ((==_iff c d).0 f) e in
        rw (f, same) refl
    | inr f ↦ rw f refl
  ])
  | inr e ↦ rw e refl
]

pub contains-discard :
    (c d : ℕ) (s : List ℕ) → contains d (discard c s) ≡ (not (c == d) && contains d s)
contains-discard c d [] = elim (Bool-cases (c == d)) [ inl f ↦ rw f refl | inr f ↦ rw f refl ]
contains-discard c d (x ∷ s) = elim (Bool-cases (x == c)) [
  | inl e ↦
      let x_c : x ≡ c = (==_iff x c).0 e in
      let same : (x == d) ≡ (c == d) = ap (λ j. j == d) x_c in
      rw (e, same, contains-discard c d s)
        (elim (Bool-cases (c == d)) [ inl f ↦ rw f refl | inr f ↦ rw f refl ])
  | inr e ↦
      rw (e, contains-discard c d s)
        (elim (Bool-cases (c == d)) [
          | inl f ↦ let other : (x == d) ≡ false = ground arith in rw (f, other) refl
          | inr f ↦ rw f refl
        ])
]

-- Two pairs of ids, compared.
abbrev pub both : ℕ → ℕ → ℕ → ℕ → Bool
both a b u v = (a == b) && (u == v)

-- What a connection's leaving makes of its user.
abbrev pub left_user : ℕ → Option PresenceUser → Option PresenceUser
left_user conn none = none
left_user conn (some user) =
    if is_empty (discard conn user.connections)
    then none
    else some (record { entry = user.entry; connections = discard conn user.connections })

pub seen-join :
    (a u : ℕ) (name : String) (c : ℕ) (s : Sessions) (b v : ℕ)
    → (i : ℕ) × (seen (join a u name c s) b v
        ≡ (if both a b u v then some (joined_user u name c i (seen s a u)) else seen s b v))
unfolding join
seen-join a u name c s b v =
    let users = or_no_users (get a s) in
    let user = joined_user u name c (length users % length presence_colors) (get u users) in
    (
      length users % length presence_colors,
      elim (Bool-cases (a == b)) [
        | inr e ↦ rw (get-insert_other s a b (insert u user users) e, e) refl
        | inl e ↦
            let a_b : a ≡ b = (==_iff a b).0 e in
            let opened : get b (insert a (insert u user users) s) ≡ some (insert u user users) =
              subst (λ j. get j (insert a (insert u user users) s) ≡ some (insert u user users)) a_b
                (get-insert_same s a (insert u user users)) in
            elim (Bool-cases (u == v)) [
              | inl f ↦
                  let u_v : u ≡ v = (==_iff u v).0 f in
                  let found =
                    subst (λ j. get j (insert u user users) ≡ some user) u_v
                      (get-insert_same users u user) in
                  rw (opened, e, f, found) refl
              | inr f ↦
                  rw (opened, e, f, get-insert_other users u v user f)
                    (ap (λ j. get v (or_no_users (get j s))) a_b)
            ]
      ],
    )

pub empty_list {ℓ} : {A : Type ℓ} (xs : List A) → is_empty xs ≡ true → xs ≡ []
empty_list [] h = refl
empty_list (x ∷ xs) h = cc

-- The users of a room after a connection left it.
users-leave :
    (a u c : ℕ) (s : Sessions) (b : ℕ)
    → or_no_users (get b (leave a u c s)) ≡ (
        if a == b
        then leave_users u c (get u (or_no_users (get a s))) (or_no_users (get a s))
        else or_no_users (get b s))
unfolding leave get
users-leave a u c s b = elim (Option-cases (get a s)) [
  | inl absent ↦ rw absent (elim (Bool-cases (a == b)) [
    | inl e ↦
        let there = subst (λ j. get j s ≡ none) ((==_iff a b).0 e) absent in rw (e, there) refl
    | inr e ↦ rw e refl
  ])
  | inr (users, found) ↦
      let rest = leave_users u c (get u users) users in
      rw found (elim (Bool-cases (is_empty rest)) [
        | inl none_left ↦ rw none_left (elim (Bool-cases (a == b)) [
          | inl e ↦
              let gone =
                subst (λ j. get j (remove a s) ≡ none) ((==_iff a b).0 e) (get-remove_same s a) in
              rw (e, gone) (sym (empty_list rest none_left))
          | inr e ↦ rw (e, get-remove_other s a b e) refl
        ])
        | inr some_left ↦ rw some_left (elim (Bool-cases (a == b)) [
          | inl e ↦
              let kept =
                subst (λ j. get j (insert a rest s) ≡ some rest) ((==_iff a b).0 e)
                  (get-insert_same s a rest) in
              rw (e, kept) refl
          | inr e ↦ rw (e, get-insert_other s a b rest e) refl
        ])
      ])
]

get-leave_users :
    (u c : ℕ) (users : Users) (v : ℕ)
    → get v (leave_users u c (get u users) users)
      ≡ (if u == v then left_user c (get u users) else get v users)
get-leave_users u c users v = elim (Option-cases (get u users)) [
  | inl absent ↦ rw absent (elim (Bool-cases (u == v)) [
    | inl e ↦ rw e (subst (λ j. get j users ≡ none) ((==_iff u v).0 e) absent)
    | inr e ↦ rw e refl
  ])
  | inr (user, found) ↦
      let less : PresenceUser = record {
        entry = user.entry;
        connections = discard c user.connections;
      } in
      rw found (elim (Bool-cases (is_empty (discard c user.connections))) [
        | inl last ↦ rw last (elim (Bool-cases (u == v)) [
          | inl e ↦ rw e (
              subst (λ j. get j (remove u users) ≡ none) ((==_iff u v).0 e)
                (get-remove_same users u))
          | inr e ↦ rw e (get-remove_other users u v e)
        ])
        | inr others ↦ rw others (elim (Bool-cases (u == v)) [
          | inl e ↦ rw e (
              subst (λ j. get j (insert u less users) ≡ some less) ((==_iff u v).0 e)
                (get-insert_same users u less))
          | inr e ↦ rw e (get-insert_other users u v less e)
        ])
      ])
]

pub seen-leave :
    (a u c : ℕ) (s : Sessions) (b v : ℕ)
    → seen (leave a u c s) b v ≡ (if both a b u v then left_user c (seen s a u) else seen s b v)
seen-leave a u c s b v = rw (users-leave a u c s b) (elim (Bool-cases (a == b)) [
  | inl e ↦ rw e (
      get-leave_users u c (or_no_users (get a s)) v
      ∙ ap (λ j. if u == v then left_user c (seen s a u) else get v (or_no_users (get j s)))
          ((==_iff a b).0 e))
  | inr e ↦ rw e refl
])
