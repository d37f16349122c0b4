-- ===== src/Base/Bytes/Decimals.antt =====
-- What `<<` writes for numbers: the last digit, two numbers one after the other, negative numbers.
use Prim.Native.Nat.{ℕ, zero, suc, ◌+◌, ◌*◌, ◌/◌, ◌%◌, ◌≤◌, ◌<◌}
use mathlib.Core.Path.{◌≡◌, refl, sym, ap, ◌∙◌}
use mathlib.Core.Logic.{inl, inr}
use mathlib.Core.Bool.{false}
use mathlib.Core.List.{[], ◌∷◌, ◌++◌, append_assoc}
use native.Mathlib.Omega.{arith}
use blockchain_messaging.Base.Tests.{ltb, Bool-cases}
use blockchain_messaging.Base.Lists.{length, length-append}
use blockchain_messaging.Base.Bytes.{Str, digits, decimal}

-- More fuel than the number changes nothing.
digits-fuel : (f g n : ℕ) → n < f → n < g → digits f n ≡ digits g n
unfolding digits
digits-fuel zero g n h k = absurd (omega arith)
digits-fuel (suc f) zero n h k = absurd (omega arith)
digits-fuel (suc f) (suc g) n h k = elim (Bool-cases (ltb n 10)) [
  | inl small ↦ rw small refl
  | inr large ↦
      rw large
        (ap (λ s. s ++ (48 + n % 10) ∷ []) (digits-fuel f g (n / 10) (ground arith) (ground arith)))
]

decimal_digit : (n : ℕ) → n < 10 → decimal n ≡ (48 + n) ∷ []
unfolding decimal digits
decimal_digit n h = ground arith

pub decimal_last : (n : ℕ) → 10 ≤ n → decimal n ≡ decimal (n / 10) ++ (48 + n % 10) ∷ []
unfolding decimal digits
decimal_last n h =
    let large : ltb n 10 ≡ false = ground arith in
    rw large (
      ap (λ s. s ++ (48 + n % 10) ∷ [])
        (digits-fuel n (suc (n / 10)) (n / 10) (omega arith) (omega arith)))

-- Ten to the power.
abbrev pub pow10 : ℕ → ℕ
pow10 zero = 1
pow10 (suc k) = 10 * pow10 k

pow10-snoc : (s : Str) (c : ℕ) → pow10 (length (s ++ c ∷ [])) ≡ 10 * pow10 (length s)
pow10-snoc s c =
    let e : length (s ++ c ∷ []) ≡ suc (length s) = omega (arith, length-append s (c ∷ [])) in
    rw e refl

shifted : (d t p : ℕ) → 10 ≤ t → d * (10 * p) + t ≡ 10 * (d * p + t / 10) + t % 10
shifted d t p h = let e : d * (10 * p) ≡ 10 * (d * p) = grind arith in omega (arith, e)

decimal-append_by :
    (f d t : ℕ)
    → t < f
    → 0 < d
    → decimal d ++ decimal t ≡ decimal (d * pow10 (length (decimal t)) + t)
decimal-append_by zero d t h pos = absurd (omega arith)
decimal-append_by (suc f) d t h pos = elim (Bool-cases (ltb t 10)) [
  | inl small ↦
      let lt : t < 10 = ground arith in
      let e : decimal t ≡ (48 + t) ∷ [] = decimal_digit t lt in
      let quot : (d * 10 + t) / 10 ≡ d = omega arith in
      let mod10 : (d * 10 + t) % 10 ≡ t = omega arith in
      rw e (sym (decimal_last (d * 10 + t) (omega arith) ∙ rw (quot, mod10) refl))
  | inr large ↦
      let ge : 10 ≤ t = ground arith in
      let p : ℕ = pow10 (length (decimal (t / 10))) in
      let n : ℕ = d * p + t / 10 in
      let e : decimal t ≡ decimal (t / 10) ++ (48 + t % 10) ∷ [] = decimal_last t ge in
      let big : pow10 (length (decimal t)) ≡ 10 * p =
        ap (λ s. pow10 (length s)) e ∙ pow10-snoc (decimal (t / 10)) (48 + t % 10) in
      let whole : d * (10 * p) + t ≡ 10 * n + t % 10 = shifted d t p ge in
      let ih : decimal d ++ decimal (t / 10) ≡ decimal n =
        decimal-append_by f d (t / 10) (omega arith) pos in
      let quot : (10 * n + t % 10) / 10 ≡ n = omega arith in
      let mod10 : (10 * n + t % 10) % 10 ≡ t % 10 = omega arith in
      let right : decimal (d * pow10 (length (decimal t)) + t) ≡ decimal (10 * n + t % 10) =
        ap (λ z. decimal (d * z + t)) big ∙ ap decimal whole in
      ap (λ s. decimal d ++ s) e
      ∙ sym (append_assoc (decimal d) (decimal (t / 10)) ((48 + t % 10) ∷ []))
      ∙ ap (λ s. s ++ (48 + t % 10) ∷ []) ih
      ∙ sym (
          right
          ∙ decimal_last (10 * n + t % 10) (omega (arith, shifted d t p ge))
          ∙ rw (quot, mod10) refl)
]

-- Two numbers written one after the other read as one number, if the first is not 0.
pub decimal-append :
    (d t : ℕ) → 0 < d → decimal d ++ decimal t ≡ decimal (d * pow10 (length (decimal t)) + t)
decimal-append d t pos = decimal-append_by (suc t) d t (omega arith) pos

pub pow10_pos : (k : ℕ) → 0 < pow10 k
pow10_pos zero = omega arith
pow10_pos (suc k) = omega (arith, pow10_pos k)

pub length-decimal_pos : (n : ℕ) → 0 < length (decimal n)
length-decimal_pos n = elim (Bool-cases (ltb n 10)) [
  | inl small ↦ omega (arith, ap length (decimal_digit n (ground arith)))
  | inr large ↦ omega (
    arith,
    ap length (decimal_last n (ground arith)),
    length-append (decimal (n / 10)) ((48 + n % 10) ∷ []),
  )
]
