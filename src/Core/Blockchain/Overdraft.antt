-- ===== src/Core/Blockchain/Overdraft.antt =====
-- Blockchain::validateBlock checks every transaction against the balances before the block.
use blockchain_messaging.Base.{
  ◌≡◌, ◌≢◌, ap, ap₂, ◌∙◌, List, [], ◌∷◌, ◌++◌, true, false, ◌&&◌, some, last?, all, Str, str_eq_iff,
  ok,
}
use blockchain_messaging.Base.Integers.{ℤ, pos, pos_part, neg_part, ◌+ℤ◌, ◌-ℤ◌, ◌≤ℤ◌, int_laws}
use blockchain_messaging.Base.Maps.{Map, get_or-insert_self, get_or-insert_ne}
use blockchain_messaging.Core.Transaction.{Externals, Double, Tx}
use blockchain_messaging.Core.Block.{Blk, is_valid}
use blockchain_messaging.Core.Blockchain.{
  Chain, is_financial, move_balance, process_transaction, process_all, reach_consensus,
  transaction_ok, validate_block, add_block,
}
use blockchain_messaging.Core.Blockchain.Balances.{balance, charged, process_financial}
use blockchain_messaging.Core.Blockchain.Links.{validate_block_of}

overdrawn : (b a a' c d : ℤ) → c ≡ b -ℤ a → d ≡ c -ℤ a' → ¬ (a +ℤ a' ≤ℤ b) → ¬ (pos 0 ≤ℤ d)
overdrawn b a a' c d p q h k =
    h (omega (int_laws, ap pos_part p, ap neg_part p, ap pos_part q, ap neg_part q))

module _ (x : Externals) where
  -- A financial transaction of the sender to somebody else, which `Transaction::isValid` accepts.
  pub record IsSpend (s : Str) (t : Tx x) : Type 0 where
    pub valid : x.is_valid t ≡ true
    pub money : is_financial (x.get_type t) ≡ true
    pub from : x.get_sender t ≡ s
    pub to_other : x.get_recipient t ≢ s

  -- The balance of an address on a chain.
  abbrev pub funds : Chain x → Str → Double x
  funds c s = balance x c.account_balances s

  charge_move :
      (m : Map (Double x)) (s r : Str) (a : Double x)
      → r ≢ s
      → balance x (move_balance x m s r a) s ≡ x.floats.sub (balance x m s) a
  unfolding move_balance
  charge_move m s r a h =
      get_or-insert_ne (x.floats.of_nat 0) r s _ (charged x m s a) h
      ∙ get_or-insert_self (x.floats.of_nat 0) s _ m

  charge_spend :
      (c : Chain x) (s : Str) (t : Tx x)
      → IsSpend s t
      → balance x (process_transaction x c t).account_balances s
        ≡ x.floats.sub (balance x c.account_balances s) (x.get_amount t)
  charge_spend c s t h =
      ap (λ (m : Map (Double x)). balance x m s) (process_financial x c t h.money)
      ∙ rw h.from (charge_move c.account_balances s (x.get_recipient t) (x.get_amount t) h.to_other)

  module _ (get_balance : Chain x → Str → Double x) where
    -- `getBalance` gives the entry of the map, and 0 for an address that is not in it.
    abbrev pub ReadsBalances : Type 0
    ReadsBalances = (c : Chain x) (a : Str) → get_balance c a ≡ balance x c.account_balances a

    spend_ok :
        (c : Chain x) (s : Str) (t : Tx x)
        → ReadsBalances
        → IsSpend s t
        → x.floats.lt (balance x c.account_balances s) (x.get_amount t) ≡ false
        → transaction_ok x get_balance c t ≡ true
    unfolding transaction_ok
    spend_ok c s t g h k =
        let reads : get_balance c (x.get_sender t) ≡ balance x c.account_balances s =
          ap (get_balance c) h.from ∙ g c s in
        rw (h.valid, h.money, reads, k)

    add_block_of :
        (c : Chain x) (b last : Blk x)
        → last? c.chain ≡ some last
        → is_valid x b ≡ true
        → b.previous_hash ≡ last.hash
        → all (transaction_ok x get_balance c) b.transactions ≡ true
        → reach_consensus x c b ≡ ok true
        → add_block x get_balance c b
          ≡ ok (process_all x (record c { chain = c.chain ++ b ∷ [] }) b.transactions)
    unfolding add_block
    add_block_of c b last e v p t r =
        let checked : validate_block x get_balance c b ≡ ok true =
          validate_block_of x get_balance c b last e
          ∙ ap ok (ap₂ ◌&&◌ v (ap₂ ◌&&◌ ((str_eq_iff b.previous_hash last.hash).1 p) t)) in
        rw (checked, r, add_block)

    -- Each transaction of a block is checked against the balances from before the block. Take a
    -- valid, linked block that reaches consensus and holds two transactions by which one sender
    -- pays others; let each amount alone be no more than the sender's balance, and the two
    -- together more. Then `addBlock` accepts the block, and the sender's balance is below zero after it
    -- (where the chain has a last block, `getBalance` reads the map of balances, and the two
    -- subtractions are exact).
    pub add_block-overdraft :
        (value : Double x → ℤ) (c : Chain x) (b last : Blk x) (s : Str) (t t' : Tx x)
        → ReadsBalances
        → last? c.chain ≡ some last
        → is_valid x b ≡ true
        → b.previous_hash ≡ last.hash
        → reach_consensus x c b ≡ ok true
        → b.transactions ≡ t ∷ t' ∷ []
        → IsSpend s t
        → IsSpend s t'
        → x.floats.lt (funds c s) (x.get_amount t) ≡ false
        → x.floats.lt (funds c s) (x.get_amount t') ≡ false
        → value (x.floats.sub (funds c s) (x.get_amount t))
          ≡ value (funds c s) -ℤ value (x.get_amount t)
        → value (x.floats.sub (x.floats.sub (funds c s) (x.get_amount t)) (x.get_amount t'))
          ≡ value (x.floats.sub (funds c s) (x.get_amount t)) -ℤ value (x.get_amount t')
        → ¬ (value (x.get_amount t) +ℤ value (x.get_amount t') ≤ℤ value (funds c s))
        → (c' : Chain x) × (add_block x get_balance c b ≡ ok c') × ¬ (pos 0 ≤ℤ value (funds c' s))
    add_block-overdraft value c b last s t t' g e v p r two h h' k k' exact exact' over = (
      process_all x c₁ b.transactions,
      add_block_of c b last e v p (ap (all (transaction_ok x get_balance c)) two ∙ checks) r,
      rw after (overdrawn _ _ _ _ _ exact exact' over),
    )
      where
        c₁ : Chain x
        c₁ = record c { chain = c.chain ++ b ∷ [] }

        checks : all (transaction_ok x get_balance c) (t ∷ t' ∷ []) ≡ true
        checks = rw (spend_ok c s t g h k, spend_ok c s t' g h' k')

        after :
            balance x (process_all x c₁ b.transactions).account_balances s
            ≡ x.floats.sub
                (x.floats.sub (balance x c.account_balances s) (x.get_amount t))
                (x.get_amount t')
        after =
            ap (λ (ts : List (Tx x)). balance x (process_all x c₁ ts).account_balances s) two
            ∙ charge_spend (process_transaction x c₁ t) s t' h'
            ∙ ap (λ (d : Double x). x.floats.sub d (x.get_amount t')) (charge_spend c₁ s t h)
