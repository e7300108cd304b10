-- ===== src/Common/Outcome.antt =====
-- What a call of fallible code ends in: a value, a `Result::Err`, or a panic. A function that has no
-- `Result` and can only panic has `Panics` for its type.
use mathlib.Core.Path.{subst, ◌≡◌, refl}
use mathlib.Core.Logic.{◌⊎◌, inl, inr}
use mathlib.Core.Bool.{Bool, true, false}
use mathlib.Core.Option.{Option, none, some}

pub data Outcome {ℓ κ} (E : Type ℓ) (A : Type κ) : Type (ℓ ⊔ κ) where
  ok : A → Outcome E A
  err : E → Outcome E A
  panic : Outcome E A

abbrev pub Panics {κ} : Type κ → Type κ
Panics A = Outcome ⊥ A

infixl 5 ◌>>=◌ ◌>>◌
abbrev pub ◌>>=◌ {ℓ κ υ} :
    {E : Type ℓ} {A : Type κ} {B : Type υ} → Outcome E A → (A → Outcome E B) → Outcome E B
ok a >>= f = f a
err e >>= f = err e
panic >>= f = panic

abbrev pub ◌>>◌ {ℓ υ} : {E : Type ℓ} {B : Type υ} → Outcome E (Unit {0}) → Outcome E B → Outcome E B
m >> k = m >>= λ _. k

-- `assert!`
abbrev pub assert {ℓ} : {E : Type ℓ} → Bool → Outcome E (Unit {0})
assert true = ok tt
assert false = panic

-- `unwrap`, `expect`, and an index into a slice.
abbrev pub unwrap {ℓ κ} : {E : Type ℓ} {A : Type κ} → Option A → Outcome E A
unwrap none = panic
unwrap (some a) = ok a

-- `ok_or`
abbrev pub ok_or {ℓ κ} : {E : Type ℓ} {A : Type κ} → E → Option A → Outcome E A
ok_or e none = err e
ok_or e (some a) = ok a

-- `map_err`
abbrev pub map_err {ℓ ν κ} :
    {E : Type ℓ} {F : Type ν} {A : Type κ} → (E → F) → Outcome E A → Outcome F A
map_err f (ok a) = ok a
map_err f (err e) = err (f e)
map_err f panic = panic

-- A call that can only panic, from a function that returns a `Result`.
abbrev pub lift {ℓ κ} : {E : Type ℓ} {A : Type κ} → Panics A → Outcome E A
lift (ok a) = ok a
lift (err e) = elim e [ ]
lift panic = panic

-- Inversion of a successful chain.
pub bind-ok {ℓ κ υ} :
    {E : Type ℓ} {A : Type κ} {B : Type υ} (m : Outcome E A) (f : A → Outcome E B) (b : B)
    → (m >>= f) ≡ ok b
    → (a : A) × (m ≡ ok a) × (f a ≡ ok b)
bind-ok (ok a) f b h = (a, refl, h)
bind-ok (err e) f b h = cc
bind-ok panic f b h = cc

pub ok-injective {ℓ κ} :
    {E : Type ℓ} {A : Type κ} {a b : A} → ◌≡◌ {A = Outcome E A} (ok a) (ok b) → a ≡ b
ok-injective h = cc

pub Outcome-cases {ℓ κ} :
    {E : Type ℓ} {A : Type κ} (m : Outcome E A)
    → ((a : A) × (m ≡ ok a)) ⊎ (((e : E) × (m ≡ err e)) ⊎ (m ≡ panic))
Outcome-cases (ok a) = inl (a, refl)
Outcome-cases (err e) = inr (inl (e, refl))
Outcome-cases panic = inr (inr refl)

-- `P` holds of what the call returns, if it returns.
abbrev pub After : {R : Type 0} → (R → Type 0) → Panics R → Type 0
After P (ok r) = P r
After P (err e) = Unit
After P panic = Unit

pub After-weaken :
    {R : Type 0} (P Q : R → Type 0) → ((r : R) → P r → Q r) → (m : Panics R) → After P m → After Q m
After-weaken P Q f (ok r) p = f r p
After-weaken P Q f (err e) p = tt
After-weaken P Q f panic p = tt

pub After-ok : {R : Type 0} (P : R → Type 0) (m : Panics R) (r : R) → m ≡ ok r → After P m → P r
After-ok P m r eq p = subst (After P) eq p
