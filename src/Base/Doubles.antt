-- ===== src/Base/Doubles.antt =====
-- `double`, as an interface: the operations that the program calls, with no law. What a theorem
-- needs of the arithmetic is a hypothesis of that theorem.
use Prim.Native.Nat.{ℕ, zero, suc, ◌*◌, ◌≤◌, ◌<◌}
use mathlib.Core.Path.{◌≡◌}
use mathlib.Core.Logic.{◌↔◌}
use mathlib.Core.Bool.{Bool, true, false}
use native.Mathlib.Omega.{arith}

pub record Floats : Type 1 where
  pub Double : Type 0
  pub of_nat : ℕ → Double
  pub add : Double → Double → Double
  pub sub : Double → Double → Double
  pub mul : Double → Double → Double
  pub div : Double → Double → Double
  pub lt : Double → Double → Bool
  pub le : Double → Double → Bool

-- The IEEE 754 facts behind a percentage of two counts. Below 2^53 a count and a product of two
-- counts are exact. A quotient is correctly rounded, and a whole number up to 100 is at least
-- 2^-46 away from any smaller quotient by a divisor below 2^40, which is more than half of the
-- last place: comparing the rounded quotient with it is comparing the true one. And 0/0 is a NaN,
-- which is not above anything.
pub record IsIeee (f : Floats) : Type 0 where
  pub mul-of_nat :
      (a b : ℕ) → a * b < 2_000_000_000_000_000 → f.mul (f.of_nat a) (f.of_nat b) ≡ f.of_nat (a * b)
  pub le-div :
      (c a n : ℕ)
      → c ≤ 100
      → a < 2_000_000_000_000_000
      → 0 < n
      → n < 1_000_000_000_000
      → (f.le (f.of_nat c) (f.div (f.of_nat a) (f.of_nat n)) ≡ true) ↔ (c * n ≤ a)
  pub le-nan : (c : ℕ) → f.le (f.of_nat c) (f.div (f.of_nat 0) (f.of_nat 0)) ≡ false

-- `count * 100.0 / total >= threshold` is the comparison of the whole numbers, and false where the
-- total is 0.
pub percentage :
    (f : Floats) (t a n : ℕ)
    → IsIeee f
    → t ≤ 100
    → a ≤ n
    → n < 1_000_000_000_000
    → (f.le (f.of_nat t) (f.div (f.mul (f.of_nat a) (f.of_nat 100)) (f.of_nat n)) ≡ true)
      ↔ ((0 < n) × (t * n ≤ a * 100))
percentage f t a zero i h k l =
    let e : a ≡ 0 = omega arith in rw e (ground (arith, i.mul-of_nat 0 100, i.le-nan t))
percentage f t a (suc n) i h k l = ground (arith, i.mul-of_nat a 100, i.le-div t (a * 100) (suc n))
