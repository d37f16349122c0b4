-- ===== src/Core/Block/Contents.antt =====
-- What Block::isValid accepts, and what the hash of a block covers.
use blockchain_messaging.Base.{
  ◌≡◌, ap, ◌∙◌, sym, ◌↔◌, List, [], ◌∷◌, ◌++◌, true, Option, Str, str_eq_iff, all, All, all_iff, ok,
  arith,
}
use blockchain_messaging.Core.Transaction.{Externals, Tx, set_message, write_all}
use blockchain_messaging.Core.Block.{Blk, block_text, calculate_hash, is_valid}

module _ (x : Externals) where
  -- A block is valid exactly when its stored hash is the calculated one and every transaction
  -- is valid.
  pub is_valid_iff :
      (b : Blk x)
      → (is_valid x b ≡ true)
        ↔ ((b.hash ≡ calculate_hash x b) × All (λ t. x.is_valid t ≡ true) b.transactions)
  unfolding is_valid
  is_valid_iff b =
      ground (arith, str_eq_iff (calculate_hash x b) b.hash, all_iff x.is_valid b.transactions)

  write_hashes :
      (before : List (Tx x)) (t t' : Tx x) (after : List (Tx x))
      → t'.hash ≡ t.hash
      → write_all (λ (t : Tx x). t.hash) (before ++ t' ∷ after)
        ≡ write_all (λ (t : Tx x). t.hash) (before ++ t ∷ after)
  write_hashes [] t t' after h = rw h
  write_hashes (s ∷ before) t t' after h = ap (◌++◌ s.hash) (write_hashes before t t' after h)

  all_valid :
      (before : List (Tx x)) (t t' : Tx x) (after : List (Tx x))
      → x.is_valid t' ≡ x.is_valid t
      → all x.is_valid (before ++ t' ∷ after) ≡ all x.is_valid (before ++ t ∷ after)
  all_valid [] t t' after h = rw h
  all_valid (s ∷ before) t t' after h = rw (all_valid before t t' after h)

  calculate_hash_by :
      (b : Blk x) (transactions : List (Tx x))
      → write_all (λ (t : Tx x). t.hash) transactions
        ≡ write_all (λ (t : Tx x). t.hash) b.transactions
      → calculate_hash x (record b { transactions = transactions }) ≡ calculate_hash x b
  unfolding calculate_hash block_text
  calculate_hash_by b transactions h = rw h

  -- The hash of a block does not cover the messages of its transactions. Let a message be written
  -- into a transaction of the block, over another or where there was none, and let
  -- `Transaction::isValid` answer for that transaction as before. Then the calculated hash of the
  -- block stays the same, and so does the answer of `Block::isValid`.
  pub calculate_hash-set_message :
      (b : Blk x) (before : List (Tx x)) (t t' : Tx x) (after : List (Tx x)) (random : Option Str)
      (text key : Str)
      → b.transactions ≡ before ++ t ∷ after
      → set_message x random t text key ≡ ok t'
      → x.is_valid t' ≡ x.is_valid t
      → let b' = record b { transactions = before ++ t' ∷ after } in
        (calculate_hash x b' ≡ calculate_hash x b) × (is_valid x b' ≡ is_valid x b)
  unfolding is_valid
  calculate_hash-set_message b before t t' after random text key e h v =
      let kept : t'.hash ≡ t.hash = unfold set_message in ground arith in
      let hashes =
        calculate_hash_by b (before ++ t' ∷ after)
          (write_hashes before t t' after kept ∙ sym (ap (write_all (λ (s : Tx x). s.hash)) e)) in
      (hashes, rw hashes (rw (all_valid before t t' after v ∙ ap (all x.is_valid) (sym e))))
