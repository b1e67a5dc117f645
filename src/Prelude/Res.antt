-- ===== src/Prelude/Res.antt =====
-- `Result<A, E>`, with `?` as `◌>>=◌`.
use mathlib.Core.Path.{◌≡◌, refl}
use mathlib.Core.Logic.{◌⊎◌, inl, inr}
use mathlib.Core.Bool.{Bool, true, false}
use mathlib.Core.Option.{Option, none, some}

pub data Res {ℓ κ} (E : Type κ) (A : Type ℓ) : Type (ℓ ⊔ κ) where
  ok : A → Res E A
  err : E → Res E A

infixl 5 ◌>>=◌ ◌>>◌
abbrev pub ◌>>=◌ {ℓ κ μ} :
    {E : Type κ} {A : Type ℓ} {B : Type μ} → Res E A → (A → Res E B) → Res E B
ok a >>= f = f a
err e >>= f = err e

abbrev pub ◌>>◌ {ℓ κ} : {E : Type κ} {B : Type ℓ} → Res E (Unit {0}) → Res E B → Res E B
m >> k = m >>= λ _. k

abbrev pub guard {κ} : {E : Type κ} → Bool → E → Res E (Unit {0})
guard true e = ok tt
guard false e = err e

-- `result.map_err(f)`
abbrev pub map_err {ℓ κ μ} : {E : Type κ} {D : Type μ} {A : Type ℓ} → (E → D) → Res E A → Res D A
map_err f (ok a) = ok a
map_err f (err e) = err (f e)

abbrev pub is_ok {ℓ κ} : {E : Type κ} {A : Type ℓ} → Res E A → Bool
is_ok (ok a) = true
is_ok (err e) = false

pub Res-cases {ℓ κ} :
    {E : Type κ} {A : Type ℓ} (r : Res E A) → ((a : A) × (r ≡ ok a)) ⊎ ((e : E) × (r ≡ err e))
Res-cases (ok a) = inl (a, refl)
Res-cases (err e) = inr (e, refl)

-- `option.ok_or(e)`
abbrev pub ok_or {ℓ κ} : {E : Type κ} {A : Type ℓ} → E → Option A → Res E A
ok_or e none = err e
ok_or e (some a) = ok a

pub ok_or-eq-ok {ℓ κ} :
    {E : Type κ} {A : Type ℓ} (e : E) (o : Option A) {a : A} → ok_or e o ≡ ok a → o ≡ some a
ok_or-eq-ok e none h = cc
ok_or-eq-ok e (some a) h = cc

-- A chain that succeeds did so in its first step, and then in the rest.
pub >>=-eq-ok {ℓ κ μ} :
    {E : Type κ} {A : Type ℓ} {B : Type μ} (r : Res E A) (k : A → Res E B) {v : B}
    → (r >>= k) ≡ ok v
    → (x : A) × (r ≡ ok x) × (k x ≡ ok v)
>>=-eq-ok (err _) k done = cc
>>=-eq-ok (ok x) k done = (x, refl, done)

pub ok-injective {ℓ κ} :
    {E : Type κ} {A : Type ℓ} {a b : A} → ◌≡◌ {A = Res E A} (ok a) (ok b) → a ≡ b
ok-injective h = cc

pub err≢ok {ℓ κ} : {E : Type κ} {A : Type ℓ} {e : E} {a : A} → ◌≡◌ {A = Res E A} (err e) (ok a) → ⊥
err≢ok h = cc
