-- ===== src/Prelude/Calls.antt =====
-- What a Go call comes to: a value, an error value, or a run-time panic.
use mathlib.Core.Path.{◌≡◌, refl}

pub data Outcome {ℓ κ} (E : Type ℓ) (A : Type κ) : Type (ℓ ⊔ κ) where
  ok : A → Outcome E A
  err : E → Outcome E A
  panics : Outcome E A

-- `if err != nil { return err }` after each call; a panic goes up as well.
infixl 5 ◌>>=◌ ◌>>◌
abbrev pub ◌>>=◌ {ℓ κ μ} :
    {E : Type ℓ} {A : Type κ} {B : Type μ} → Outcome E A → (A → Outcome E B) → Outcome E B
ok a >>= f = f a
err e >>= f = err e
panics >>= f = panics

abbrev pub ◌>>◌ {ℓ κ μ} :
    {E : Type ℓ} {A : Type κ} {B : Type μ} → Outcome E A → Outcome E B → Outcome E B
m >> k = m >>= λ _. k

-- A call whose outcome goes on to another succeeds only if both do.
pub >>=-eq-ok {ℓ κ μ} :
    {E : Type ℓ} {A : Type κ} {B : Type μ} (call : Outcome E A) (next : A → Outcome E B)
    {result : B}
    → (call >>= next) ≡ ok result
    → (value : A) × (call ≡ ok value) × (next value ≡ ok result)
>>=-eq-ok panics next done = cc
>>=-eq-ok (err e) next done = cc
>>=-eq-ok (ok value) next done = (value, refl, done)

pub ok_cancel {ℓ κ} :
    {E : Type ℓ} {A : Type κ} {a b : A} → ◌≡◌ {A = Outcome E A} (ok a) (ok b) → a ≡ b
ok_cancel e = cc
