-- ===== src/Base/Families.antt =====
-- The places of threads that are numbered.
use Prim.Native.Nat.{ℕ}
use mathlib.Core.Path.{◌≡◌}
use mathlib.Core.Logic.{◌≢◌}
use native.Mathlib.Omega.{arith}
use blockchain_messaging.Base.Tests.{◌==◌, ==_iff, if◌then◌else◌}

module _ {ℓ} {A : Type ℓ} where
  -- The family with another member at one place.
  unfoldable pub set_at : ℕ → A → (ℕ → A) → ℕ → A
  set_at i a f j = if i == j then a else f j

  pub set_at_self : (i : ℕ) (a : A) (f : ℕ → A) → set_at i a f i ≡ a
  unfolding set_at
  set_at_self i a f = ground (arith, ==_iff i i)

  pub set_at_ne : (i j : ℕ) (a : A) (f : ℕ → A) → i ≢ j → set_at i a f j ≡ f j
  unfolding set_at
  set_at_ne i j a f h = ground (arith, ==_iff i j)
