-- ===== src/Prelude/Result.antt =====
-- Rust's `Result`.
use mathlib.Core.Bool.{Bool, true, false}
use devicekit.Prelude.Tests.{if◌then◌else◌}
use mathlib.Core.Path.{◌≡◌, refl}
use mathlib.Core.Logic.{◌⊎◌, inl, inr}

pub data Result {ℓ κ} (A : Type ℓ) (E : Type κ) : Type (ℓ ⊔ κ) where
  ok : A → Result A E
  err : E → Result A E

infixl 5 ◌>>=◌ ◌>>◌
abbrev pub ◌>>=◌ {ℓ κ μ} :
    {A : Type ℓ} {B : Type κ} {E : Type μ} → Result A E → (A → Result B E) → Result B E
ok a >>= f = f a
err e >>= f = err e

abbrev pub ◌>>◌ {ℓ μ} : {B : Type ℓ} {E : Type μ} → Result (Unit {0}) E → Result B E → Result B E
m >> k = m >>= λ _. k

pub Result-cases {ℓ κ} :
    {A : Type ℓ} {E : Type κ} (r : Result A E) → ((a : A) × (r ≡ ok a)) ⊎ ((e : E) × (r ≡ err e))
Result-cases (ok a) = inl (a, refl)
Result-cases (err e) = inr (e, refl)

-- What a chain that succeeds has gone through.
pub >>=-succeeds {ℓ κ μ} :
    {A : Type ℓ} {B : Type κ} {E : Type μ} (k : A → Result B E) (r : Result A E) {y : B}
    → (r >>= k) ≡ ok y
    → (x : A) × (k x ≡ ok y) × (r ≡ ok x)
>>=-succeeds k (ok x) e = (x, e, refl)
>>=-succeeds k (err x) e = cc

-- A guard that refuses is passed.
pub guard-succeeds {ℓ κ} :
    {A : Type ℓ} {E : Type κ} (b : Bool) (x : E) (r : Result A E) {a : A}
    → (if b then err x else r) ≡ ok a
    → (b ≡ false) × (r ≡ ok a)
guard-succeeds true x r e = cc
guard-succeeds false x r e = (refl, e)
