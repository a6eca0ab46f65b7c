-- ===== src/Prelude/Equality.antt =====
-- Go's comparable types: a Boolean comparison that decides equality.
use Prim.Native.Nat.{ℕ}
use mathlib.Core.Path.{◌≡◌, refl}
use mathlib.Core.Logic.{◌↔◌}
use mathlib.Core.Bool.{Bool, true}
use go_mutuals.Prelude.Tests.{◌==◌, ==_iff}

pub record Eq {ℓ} (A : Type ℓ) : Type ℓ where
  pub beq : A → A → Bool
  pub beq_iff : (a b : A) → (beq a b ≡ true) ↔ (a ≡ b)

instance abbrev pub nat_eq : Eq ℕ
nat_eq = record { beq = ◌==◌; beq_iff = ==_iff }

abbrev pub beq {ℓ} : {A : Type ℓ} ⦃e : Eq A⦄ → A → A → Bool
beq ⦃e⦄ = e.beq

pub beq_self {ℓ} : {A : Type ℓ} ⦃e : Eq A⦄ (a : A) → beq a a ≡ true
beq_self ⦃e⦄ a = (e.beq_iff a a).1 refl

pub beq→eq {ℓ} : {A : Type ℓ} ⦃e : Eq A⦄ (a b : A) → beq a b ≡ true → a ≡ b
beq→eq ⦃e⦄ a b = (e.beq_iff a b).0
