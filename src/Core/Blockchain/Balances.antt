-- ===== src/Core/Blockchain/Balances.antt =====
-- Blockchain::processTransaction on the map of balances: the sum of what it holds.
use blockchain_messaging.Base.{
  ◌≡◌, refl, ap, ◌∙◌, sym, ◌⊎◌, inl, inr, List, [], ◌∷◌, true, false, Str, str_eq, Bool-cases,
}
use blockchain_messaging.Base.Integers.{ℤ, pos, pos_part, neg_part, ◌+ℤ◌, ◌-ℤ◌, int_laws, +ℤ_assoc}
use blockchain_messaging.Base.Maps.{
  Map, lookup, insert, get_or, insert-head, insert-tail, get_or-head, get_or-tail,
}
use blockchain_messaging.Core.Transaction.{Externals, Double, Tx}
use blockchain_messaging.Core.Blockchain.{
  Chain, is_financial, move_balance, process_transaction, process_all,
}

transfer_sums :
    (t b t' b' c c' a : ℤ)
    → t' +ℤ b ≡ t +ℤ b'
    → b' ≡ b -ℤ a
    → (t'' : ℤ) → t'' +ℤ c ≡ t' +ℤ c'
    → c' ≡ c +ℤ a
    → t'' ≡ t
transfer_sums t b t' b' c c' a p q t'' r s = omega (
  int_laws,
  ap pos_part p,
  ap neg_part p,
  ap pos_part q,
  ap neg_part q,
  ap pos_part r,
  ap neg_part r,
  ap pos_part s,
  ap neg_part s,
)

module _ (x : Externals) where
  -- The balance of an address, 0 where the map has none.
  abbrev pub balance : Map (Double x) → Str → Double x
  balance m a = get_or (x.floats.of_nat 0) a m

  -- The map after the subtraction from the sender.
  abbrev pub charged : Map (Double x) → Str → Double x → Map (Double x)
  charged m sender amount = insert sender (x.floats.sub (balance m sender) amount) m

  pub process_financial :
      (c : Chain x) (t : Tx x)
      → is_financial (x.get_type t) ≡ true
      → (process_transaction x c t).account_balances
        ≡ move_balance x c.account_balances (x.get_sender t) (x.get_recipient t) (x.get_amount t)
  unfolding process_transaction
  process_financial c t h = rw h

  process_plain :
      (c : Chain x) (t : Tx x) → is_financial (x.get_type t) ≡ false → process_transaction x c t ≡ c
  unfolding process_transaction
  process_plain c t h = rw h

  module _ (value : Double x → ℤ) where
    -- The sum of all balances, in whole units.
    abbrev pub total : Map (Double x) → ℤ
    total [] = pos 0
    total ((k, d) ∷ m) = value d +ℤ total m

    total-insert :
        (k : Str) (d : Double x) (m : Map (Double x))
        → value (x.floats.of_nat 0) ≡ pos 0
        → total (insert k d m) +ℤ value (balance m k) ≡ total m +ℤ value d
    total-insert k d [] z = unfold insert get_or lookup in rw z (omega int_laws)
    total-insert k d ((j, w) ∷ m) z = elim (Bool-cases (str_eq j k)) [
      | inl same ↦
          rw (insert-head k j d w m same, get_or-head (x.floats.of_nat 0) k j w m same)
            (omega int_laws)
      | inr other ↦
          rw (insert-tail k j d w m other, get_or-tail (x.floats.of_nat 0) k j w m other)
            (+ℤ_assoc (value w) (total (insert k d m)) (value (balance m k))
              ∙ ap (◌+ℤ◌ (value w)) (total-insert k d m z)
              ∙ sym (+ℤ_assoc (value w) (total m) (value d)))
    ]

    -- The two operations of a transfer on these operands are exact.
    pub record IsExact (m : Map (Double x)) (sender recipient : Str) (amount : Double x)
        : Type 0 where
      pub charge :
          value (x.floats.sub (balance m sender) amount) ≡ value (balance m sender) -ℤ value amount
      pub credit :
          value (x.floats.add (balance (charged m sender amount) recipient) amount)
          ≡ value (balance (charged m sender amount) recipient) +ℤ value amount

    total-move :
        (m : Map (Double x)) (sender recipient : Str) (amount : Double x)
        → value (x.floats.of_nat 0) ≡ pos 0
        → IsExact m sender recipient amount
        → total (move_balance x m sender recipient amount) ≡ total m
    unfolding move_balance
    total-move m sender recipient amount z e =
        let m' = charged m sender amount in
        transfer_sums (total m) (value (balance m sender)) (total m') _
          (value (balance m' recipient)) _ (value amount)
          (total-insert sender (x.floats.sub (balance m sender) amount) m z) e.charge
          (total (move_balance x m sender recipient amount))
          (total-insert recipient (x.floats.add (balance m' recipient) amount) m' z) e.credit

    -- Every financial transaction of a list is exact where it is processed.
    abbrev pub AllExact : Chain x → List (Tx x) → Type 0
    AllExact c [] = Unit {0}
    AllExact c (t ∷ ts) =
        ((is_financial (x.get_type t) ≡ false)
          ⊎ IsExact c.account_balances (x.get_sender t) (x.get_recipient t) (x.get_amount t))
        × AllExact (process_transaction x c t) ts

    -- Processing the transactions of a block moves money and makes none: where the additions and
    -- subtractions that it performs are exact (as those of doubles are on whole amounts below
    -- 2^53) and zero reads as 0, the sum of all balances stays the same. That covers transfers from an address to
    -- itself, and addresses that had no balance before.
    pub process_all-total :
        (c : Chain x) (ts : List (Tx x))
        → value (x.floats.of_nat 0) ≡ pos 0
        → AllExact c ts
        → total (process_all x c ts).account_balances ≡ total c.account_balances
    process_all-total c [] z h = refl
    process_all-total c (t ∷ ts) z h =
        process_all-total (process_transaction x c t) ts z h.1 ∙ step h.0
      where
        step :
            (is_financial (x.get_type t) ≡ false)
              ⊎ IsExact c.account_balances (x.get_sender t) (x.get_recipient t) (x.get_amount t)
            → total (process_transaction x c t).account_balances ≡ total c.account_balances
        step (inl plain) = ap (λ (k : Chain x). total k.account_balances) (process_plain c t plain)
        step (inr e) = elim (Bool-cases (is_financial (x.get_type t))) [
          | inl money ↦
              ap total (process_financial c t money)
              ∙ total-move c.account_balances (x.get_sender t) (x.get_recipient t) (x.get_amount t)
                  z e
          | inr plain ↦ ap (λ (k : Chain x). total k.account_balances) (process_plain c t plain)
        ]
