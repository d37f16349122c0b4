-- ===== src/Validation/Validator/Votes.antt =====
-- Which blocks a validator approves.
use blockchain_messaging.Base.{
  ◌≡◌, ◌≢◌, refl, ap₂, ◌∙◌, sym, ◌↔◌, ◌⊎◌, inl, inr, List, [], ◌∷◌, true, false, ◌&&◌, all, All,
  &&-parts, arith,
}
use blockchain_messaging.Core.Transaction.{Externals, TransactionType, Double, Tx}
use blockchain_messaging.Core.Block.{Blk, is_valid, calculate_hash}
use blockchain_messaging.Core.Block.Contents.{is_valid_iff}
use blockchain_messaging.Validation.Validator.{
  Validator, ValidatorType, is_message, validate_transaction, validate_block,
}

module _ (x : Externals) where
  abbrev pub IsPlain : Tx x → Type 0
  IsPlain t = x.get_type t ≢ TransactionType.financial

  is_message-false : (v : ValidatorType) → v ≢ ValidatorType.message → is_message v ≡ false
  is_message-false ValidatorType.message h = absurd (h refl)
  is_message-false ValidatorType.financial h = refl
  is_message-false ValidatorType.hybrid h = refl

  validate_transaction_other :
      (v : Validator (Double x)) (t : Tx x)
      → v.type ≢ ValidatorType.message
      → validate_transaction x v t ≡ x.is_valid t
  unfolding validate_transaction
  validate_transaction_other v t h = ground (arith, is_message-false v.type h)

  validate_transaction_plain :
      (v : Validator (Double x)) (t : Tx x) → IsPlain t → validate_transaction x v t ≡ x.is_valid t
  unfolding validate_transaction
  validate_transaction_plain v t h = ground arith

  transactions_other :
      (v : Validator (Double x)) (ts : List (Tx x))
      → v.type ≢ ValidatorType.message
      → all (validate_transaction x v) ts ≡ all x.is_valid ts
  transactions_other v [] h = refl
  transactions_other v (t ∷ ts) h =
      ap₂ ◌&&◌ (validate_transaction_other v t h) (transactions_other v ts h)

  transactions_plain :
      (v : Validator (Double x)) (ts : List (Tx x))
      → All IsPlain ts
      → all (validate_transaction x v) ts ≡ all x.is_valid ts
  transactions_plain v [] h = refl
  transactions_plain v (t ∷ ts) h =
      ap₂ ◌&&◌ (validate_transaction_plain v t h.0) (transactions_plain v ts h.1)

  -- A validator of another type than MESSAGE approves exactly the blocks that `Block::isValid`
  -- accepts. So does every validator on a block without financial transactions.
  pub validate_block-other :
      (v : Validator (Double x)) (b : Blk x)
      → (v.type ≢ ValidatorType.message) ⊎ All IsPlain b.transactions
      → validate_block x v b ≡ is_valid x b
  unfolding validate_block is_valid
  validate_block-other v b (inl h) = ground (arith, transactions_other v b.transactions h)
  validate_block-other v b (inr h) = ground (arith, transactions_plain v b.transactions h)

  not_message :
      (t : Tx x) (v : Validator (Double x))
      → v.type ≡ ValidatorType.message
      → validate_transaction x v t ≡ true
      → IsPlain t
  unfolding validate_transaction
  not_message t v h k e = ground arith

  all-IsPlain :
      (v : Validator (Double x)) (ts : List (Tx x))
      → v.type ≡ ValidatorType.message
      → all (validate_transaction x v) ts ≡ true
      → All IsPlain ts
  all-IsPlain v [] h k = tt
  all-IsPlain v (t ∷ ts) h k =
      let (first, rest) =
        &&-parts (validate_transaction x v t) (all (validate_transaction x v) ts) k in
      (not_message t v h first, all-IsPlain v ts h rest)

  type_cases : (v : ValidatorType) → (v ≢ ValidatorType.message) ⊎ (v ≡ ValidatorType.message)
  type_cases ValidatorType.message = inr refl
  type_cases ValidatorType.financial = inl (λ e. cc)
  type_cases ValidatorType.hybrid = inl (λ e. cc)

  pub message_approves :
      (v : Validator (Double x)) (b : Blk x)
      → v.type ≡ ValidatorType.message
      → validate_block x v b ≡ true
      → All IsPlain b.transactions
  unfolding validate_block
  message_approves v b h k = all-IsPlain v b.transactions h (ground arith)

  -- A validator approves a block exactly when the block is valid (its hash is current and all its
  -- transactions are valid) and, if the validator is of type MESSAGE, no transaction is financial.
  pub validate_block_iff :
      (v : Validator (Double x)) (b : Blk x)
      → (validate_block x v b ≡ true) ↔ (
          (b.hash ≡ calculate_hash x b)
          × All (λ t. x.is_valid t ≡ true) b.transactions
          × ((v.type ≢ ValidatorType.message) ⊎ All IsPlain b.transactions))
  validate_block_iff v b = (forth (type_cases v.type), back)
    where
      forth :
          (v.type ≢ ValidatorType.message) ⊎ (v.type ≡ ValidatorType.message)
          → validate_block x v b ≡ true
          → (b.hash ≡ calculate_hash x b)
            × All (λ t. x.is_valid t ≡ true) b.transactions
            × ((v.type ≢ ValidatorType.message) ⊎ All IsPlain b.transactions)
      forth (inl other) k =
          let (h, ts) = (is_valid_iff x b).0 (sym (validate_block-other v b (inl other)) ∙ k) in
          (h, ts, inl other)
      forth (inr same) k =
          let plain = message_approves v b same k in
          let (h, ts) = (is_valid_iff x b).0 (sym (validate_block-other v b (inr plain)) ∙ k) in
          (h, ts, inr plain)

      back :
          (b.hash ≡ calculate_hash x b)
            × All (λ t. x.is_valid t ≡ true) b.transactions
            × ((v.type ≢ ValidatorType.message) ⊎ All IsPlain b.transactions)
          → validate_block x v b ≡ true
      back (h, ts, k) = validate_block-other v b k ∙ (is_valid_iff x b).1 (h, ts)
