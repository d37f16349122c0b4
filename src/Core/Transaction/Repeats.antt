-- ===== src/Core/Transaction/Repeats.antt =====
-- Transaction::verify on a transaction that lists one input several times.
use blockchain_messaging.Base.{
  ℕ, zero, suc, ◌+◌, ◌*◌, ◌≤◌, ◌<◌, ◌^◌, ◌≡◌, refl, sym, ap, ap₂, ◌∙◌, ◌↔◌, inl, inr, Bool, true,
  false, not, ◌||◌, ◌&&◌, Str, is_empty, all, ltb, replicate, Floats, ok, arith,
}
use blockchain_messaging.Core.Transaction.{
  TransactionInput, Externals, Tx, total_from, sign, get_total_input, get_total_output, verify,
}
use blockchain_messaging.Core.Transaction.Signing.{
  IsSignatureScheme, IgnoresSignature, signed_all, sign-inv, structure_ok, verify-sign,
}

-- Sums and comparisons of whole amounts below 2^53, which doubles hold exactly.
pub record AddsExactly (f : Floats) : Type 0 where
  pub add-of_nat : (a b : ℕ) → a + b < 2 ^ 53 → f.add (f.of_nat a) (f.of_nat b) ≡ f.of_nat (a + b)
  pub lt-of_nat : (a b : ℕ) → a < 2 ^ 53 → b < 2 ^ 53 → f.lt (f.of_nat a) (f.of_nat b) ≡ ltb a b

all_but_less : (a b c : Bool) → a ≡ false → c ≡ true → (not (false || a) && (not b && c)) ≡ not b
all_but_less false false true h k = refl
all_but_less false true true h k = refl
all_but_less true b c h k = cc
all_but_less false b false h k = cc

module _ (x : Externals) where
  -- The input with any signature passes its own check and is worth a whole amount.
  pub record IsWorth (i : TransactionInput) (amount : ℕ) : Type 0 where
    pub verifies : (s k : Str) → x.input_verify (record i { signature = s; public_key = k }) ≡ true
    pub worth :
        (s k : Str)
        → x.input_amount (record i { signature = s; public_key = k }) ≡ x.floats.of_nat amount

  once_more : (n amount : ℕ) → suc n * amount ≡ amount + n * amount
  once_more n amount = grind arith

  total_replicate :
      (f : AddsExactly x.floats) (i : TransactionInput) (amount : ℕ) (s k : Str) (n sum : ℕ)
      → IsWorth i amount
      → sum + n * amount < 2 ^ 53
      → total_from x x.input_amount (x.floats.of_nat sum) (signed_all x s k (replicate n i))
        ≡ x.floats.of_nat (sum + n * amount)
  unfolding total_from
  total_replicate f i amount s k zero sum w h = ap x.floats.of_nat (omega arith)
  total_replicate f i amount s k (suc n) sum w h =
      ap₂ (λ a b. total_from x x.input_amount (x.floats.add a b) (signed_all x s k (replicate n i)))
        refl (w.worth s k)
      ∙ ap (λ a. total_from x x.input_amount a (signed_all x s k (replicate n i)))
          (f.add-of_nat sum amount (omega (arith, once_more n amount, h)))
      ∙ total_replicate f i amount s k n (sum + amount) w (omega (arith, once_more n amount, h))
      ∙ ap x.floats.of_nat (omega (arith, once_more n amount))

  all-replicate :
      (i : TransactionInput) (amount : ℕ) (s k : Str) (n : ℕ)
      → IsWorth i amount
      → all x.input_verify (signed_all x s k (replicate n i)) ≡ true
  all-replicate i amount s k zero w = refl
  all-replicate i amount s k (suc n) w = rw (w.verifies s k) (all-replicate i amount s k n w)

  -- The transaction with signed copies of the input.
  repeated : Tx x → Str → Str → ℕ → TransactionInput → Tx x
  repeated t s k n i = record t { inputs = signed_all x s k (replicate n i) }

  structure_repeated :
      (t : Tx x) (i : TransactionInput) (s k : Str) (n amount out : ℕ)
      → AddsExactly x.floats
      → IsWorth i amount
      → is_empty t.outputs ≡ false
      → get_total_output x t ≡ x.floats.of_nat out
      → suc n * amount < 2 ^ 53
      → out < 2 ^ 53
      → structure_ok x (repeated t s k (suc n) i) ≡ not (ltb (suc n * amount) out)
  unfolding repeated get_total_input get_total_output total_from
  structure_repeated t i s k n amount out f w some_out outs small small' =
      let total : get_total_input x (repeated t s k (suc n) i) ≡ x.floats.of_nat (suc n * amount) =
        total_replicate f i amount s k (suc n) 0 w (omega arith)
        ∙ ap x.floats.of_nat (omega arith) in
      let less : x.floats.lt (get_total_input x (repeated t s k (suc n) i)) (get_total_output x t)
          ≡ ltb (suc n * amount) out =
        ap₂ x.floats.lt total outs ∙ f.lt-of_nat (suc n * amount) out small small' in
      all_but_less (is_empty t.outputs)
        (x.floats.lt (get_total_input x (repeated t s k (suc n) i)) (get_total_output x t))
        (all x.input_verify (signed_all x s k (replicate (suc n) i))) some_out
        (all-replicate i amount s k (suc n) w)
      ∙ ap not less

  -- Nothing compares the inputs of a transaction with each other. Take a transaction that lists one
  -- input `n` times (at least once), has an output, and is signed with success. If the input
  -- passes its own check and is worth a whole amount, and the outputs are whole too, all below 2^53,
  -- then `verify` accepts the transaction exactly when the outputs are at most `n` times that amount: an
  -- input counts as often as it is listed. (Signatures verify under the derived key, the hash of
  -- an input leaves its signature out, and whole doubles add and compare exactly.)
  pub verify-repeated :
      (t t' : Tx x) (key : Str) (i : TransactionInput) (n amount out : ℕ)
      → IsSignatureScheme x.encryption
      → IgnoresSignature x
      → AddsExactly x.floats
      → IsWorth i amount
      → 0 < n
      → t.inputs ≡ replicate n i
      → is_empty t.outputs ≡ false
      → get_total_output x t ≡ x.floats.of_nat out
      → n * amount < 2 ^ 53
      → out < 2 ^ 53
      → sign x t key ≡ (t', ok true)
      → (verify x t' ≡ true) ↔ (out ≤ n * amount)
  unfolding repeated
  verify-repeated t t' key i zero amount out c g f w pos listed some_out outs small small' h =
      absurd (omega arith)
  verify-repeated t t' key i (suc n) amount out c g f w pos listed some_out outs small small' h =
      elim (sign-inv x t t' key h) [
        | inl (none_in, same) ↦ cc (sym none_in ∙ listed)
        | inr (s, k, p, q, e) ↦
            let same : t' ≡ repeated t s k (suc n) i =
              e ∙ ap (λ l. record t { inputs = signed_all x s k l }) listed in
            let answer : verify x t' ≡ not (ltb (suc n * amount) out) =
              (verify-sign x t t' key c g h).1
              ∙ ap (structure_ok x) same
              ∙ structure_repeated t i s k n amount out f w some_out outs small small' in
            (λ v. ground (arith, answer), λ v. ground (arith, answer))
      ]
