-- ===== src/Wallet/Payments.antt =====
-- Outgoing payments against the balance of the wallet.
use blockchain_messaging.Base.{
  ℕ, ◌+◌, ◌≡◌, refl, List, [], ◌∷◌, ◌++◌, length, length-append, All, Str, false, Result, ok, ◌>>=◌,
  arith,
}
use blockchain_messaging.Core.Transaction.{Externals, TransactionType, Double, Tx, new_transfer}
use blockchain_messaging.Wallet.{WalletExternals, Wal, create_transaction}

module _ (x : Externals) (w : WalletExternals x) where
  -- A call of `createTransaction`: the clock, the unset memory, the recipient, the amount.
  record Payment : Type 0 where
    now : ℕ
    indeterminate : Double x
    recipient : Str
    amount : Double x

  -- One call after the other, as long as they return.
  abbrev pay_all : Wal x w → List Payment → Result (Wal x w)
  pay_all v [] = ok v
  pay_all v (p ∷ ps) =
      create_transaction x w p.now p.indeterminate v p.recipient p.amount >>= λ r. pay_all r.0 ps

  -- `amount > balance` is false.
  abbrev IsCovered : Double x → Payment → Type 0
  IsCovered balance p = x.floats.lt balance p.amount ≡ false

  -- The transaction that a payment makes.
  abbrev payment_of : Wal x w → Payment → Tx x
  payment_of v p =
      w.sign_transaction
        (w.set_amount
          (new_transfer x p.now p.indeterminate v.address p.recipient TransactionType.financial)
          p.amount)
        v.private_key

  create_covered :
      (v : Wal x w) (p : Payment)
      → IsCovered v.balance p
      → create_transaction x w p.now p.indeterminate v p.recipient p.amount
        ≡ ok (record v { pending = v.pending ++ payment_of v p ∷ [] }, payment_of v p)
  unfolding create_transaction
  create_covered v p h = rw h

  -- Payments that wait do not count against the balance: any number of payments, each of them
  -- covered by the balance alone, are all made and wait in the history, whatever their sum is, and
  -- the balance stays as it was.
  pay_all-pending :
      (v : Wal x w) (ps : List Payment)
      → All (IsCovered v.balance) ps
      → (v' : Wal x w) × (pay_all v ps ≡ ok v')
        × (v'.balance ≡ v.balance)
        × (length v'.pending ≡ length v.pending + length ps)
  pay_all-pending v [] h = (v, refl, refl, omega arith)
  pay_all-pending v (p ∷ ps) (covered, rest) =
      let v₁ : Wal x w = record v { pending = v.pending ++ payment_of v p ∷ [] } in
      let (v', run, same, long) = pay_all-pending v₁ ps rest in
      (
        v',
        rw (create_covered v p covered) run,
        same,
        omega (arith, long, length-append v.pending (payment_of v p ∷ [])),
      )
