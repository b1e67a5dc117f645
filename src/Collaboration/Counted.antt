-- ===== src/Collaboration/Counted.antt =====
-- The counts that crates/tiletopia-server/src/realtime.rs keeps of rooms and users.
use tiletopia.Prelude.{
  ℕ, zero, suc, ◌+◌, ◌≤◌, ◌≡◌, refl, sym, ap, subst, ◌∙◌, inl, inr, false, Option, none, some, List,
  [], ◌∷◌, arith, ◌==◌, if◌then◌else◌, ==_iff, Bool-cases, length,
}
use mathlib.Core.Option.{some-injective}
use tiletopia.Collaboration.Maps.{
  get, insert, remove, tally, IsMap, get-insert_same, get-insert_other, get-remove_same,
  get-remove_other,
}
use tiletopia.Collaboration.Rooms.{
  Room, Rooms, or_zero, less_one, write_count, decrement_count, decrement_found,
}

-- A connection that was let in and has not been released: its room and its user.
pub record Hold : Type 0 where
  pub room : ℕ
  pub user : ℕ

abbrev pub held_in : ℕ → List Hold → ℕ
held_in room [] = 0
held_in room (h ∷ holds) = (if h.room == room then 1 else 0) + held_in room holds

abbrev pub held_by : ℕ → List Hold → ℕ
held_by user [] = 0
held_by user (h ∷ holds) = (if h.user == user then 1 else 0) + held_by user holds

abbrev pub owned_by : ℕ → List (ℕ × Room) → ℕ
owned_by user = tally (λ r. r.owner == user)

-- How a map keeps a count: not at all when it is zero.
abbrev pub entry : ℕ → Option ℕ
entry zero = none
entry (suc n) = some (suc n)

abbrev pub Counts : List (ℕ × ℕ) → (ℕ → ℕ) → Type 0
Counts m f = (k : ℕ) → get k m ≡ entry (f k)

abbrev pub connections_of : Option Room → Option ℕ
connections_of none = none
connections_of (some r) = some r.connections

-- The maps agree with the holds and with each other, and no count is above its cap.
pub record IsCounted (rooms : Rooms) (holds : List Hold) : Type 0 where
  pub is_map : IsMap rooms.by_id
  pub by_room : (r : ℕ) → connections_of (get r rooms.by_id) ≡ entry (held_in r holds)
  pub by_user : Counts rooms.connections_by_user (λ u. held_by u holds)
  pub by_owner : Counts rooms.owned (λ u. owned_by u rooms.by_id)
  pub few_in_room : (r : ℕ) → held_in r holds ≤ 23
  pub few_by_user : (u : ℕ) → held_by u holds ≤ 16
  pub few_owned : (u : ℕ) → owned_by u rooms.by_id ≤ 8
  pub few_rooms : length rooms.by_id ≤ 512

pub or_zero-entry : (n : ℕ) → or_zero (entry n) ≡ n
or_zero-entry zero = refl
or_zero-entry (suc n) = refl

pub entry-one : (n : ℕ) → entry (1 + n) ≡ some (n + 1)
entry-one n = let e : 1 + n ≡ suc n = omega arith in rw e (ap some (omega arith))

pub insert-Counts :
    (m : List (ℕ × ℕ)) (f g : ℕ → ℕ) (k n : ℕ)
    → Counts m f
    → g k ≡ suc n
    → ((i : ℕ) → (k == i) ≡ false → g i ≡ f i)
    → Counts (insert k (suc n) m) g
insert-Counts m f g k n counts new old i = elim (Bool-cases (k == i)) [
  | inl e ↦
      let k_i : k ≡ i = (==_iff k i).0 e in
      subst (λ j. get j (insert k (suc n) m) ≡ entry (g j)) k_i
        (get-insert_same m k (suc n) ∙ sym (ap entry new))
  | inr e ↦ get-insert_other m k i (suc n) e ∙ (counts i ∙ sym (ap entry (old i e)))
]

remove-Counts :
    (m : List (ℕ × ℕ)) (f g : ℕ → ℕ) (k : ℕ)
    → Counts m f
    → g k ≡ 0
    → ((i : ℕ) → (k == i) ≡ false → g i ≡ f i)
    → Counts (remove k m) g
remove-Counts m f g k counts new old i = elim (Bool-cases (k == i)) [
  | inl e ↦
      let k_i : k ≡ i = (==_iff k i).0 e in
      subst (λ j. get j (remove k m) ≡ entry (g j)) k_i (get-remove_same m k ∙ sym (ap entry new))
  | inr e ↦ get-remove_other m k i e ∙ (counts i ∙ sym (ap entry (old i e)))
]

write-less :
    (m : List (ℕ × ℕ)) (k n : ℕ) → write_count m k (less_one (suc (suc n))) ≡ insert k (suc n) m
write-less m k n =
    let less : less_one (suc (suc n)) ≡ suc n = ground arith in
    let some_left : (suc n == 0) ≡ false = ground arith in rw (less, some_left) refl

-- A count of at least one is taken down by one.
pub decrement-Counts :
    (m : List (ℕ × ℕ)) (f g : ℕ → ℕ) (k : ℕ)
    → Counts m f
    → f k ≡ g k + 1
    → ((i : ℕ) → (k == i) ≡ false → g i ≡ f i)
    → Counts (decrement_count m k) g
decrement-Counts m f g k counts one old = go (g k) refl
  where
    go : (n : ℕ) → g k ≡ n → Counts (decrement_count m k) g
    go zero e =
        let last : f k ≡ 1 = omega (arith, one, e) in
        let at : get k m ≡ some 1 = counts k ∙ ap entry last in
        subst (λ o. Counts (decrement_found m k o) g) (sym at) (remove-Counts m f g k counts e old)
    go (suc n) e =
        let two : f k ≡ suc (suc n) = omega (arith, one, e) in
        let at : get k m ≡ some (suc (suc n)) = counts k ∙ ap entry two in
        subst (λ o. Counts (decrement_found m k o) g) (sym at)
          (subst (λ w. Counts w g) (sym (write-less m k n)) (insert-Counts m f g k n counts e old))

pub entry-none : (n : ℕ) → entry n ≡ none → n ≡ 0
entry-none zero h = refl
entry-none (suc n) h = cc

pub some-entry : (c n : ℕ) → ◌≡◌ {A = Option ℕ} (some c) (entry n) → c ≡ n
some-entry c zero h = cc
some-entry c (suc n) h = some-injective _ _ h
