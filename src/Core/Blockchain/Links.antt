-- ===== src/Core/Blockchain/Links.antt =====
-- Blockchain::addBlock: its outcomes, and the links between the blocks of a chain.
use blockchain_messaging.Base.{
  ℕ, ◌≡◌, refl, ap, ◌∙◌, sym, inl, inr, List, [], ◌∷◌, ◌++◌, true, false, ◌&&◌, some, last?,
  last?-append, All, all, all_iff, Str, str_eq, str_eq_iff, Bool-cases, &&-parts, bytes, ok, throws,
  undefined, runtime_error, arith,
}
use blockchain_messaging.Core.Transaction.{Externals, Double, Tx}
use blockchain_messaging.Core.Block.{Blk, calculate_hash, new_block, is_valid, block_text}
use blockchain_messaging.Core.Block.Contents.{is_valid_iff}
use blockchain_messaging.Core.Blockchain.Consensus.{
  has_money, reach_consensus-has_money, reach_consensus_plain,
}
use blockchain_messaging.Core.Blockchain.{
  Chain, new_blockchain, process_transaction, process_all, get_latest_block, is_enough,
  reach_consensus, transaction_ok, validate_block, add_block,
}

module _ (x : Externals) where
  -- Every block carries its calculated hash, and the hash of the block before it.
  abbrev pub Linked : List (Blk x) → Type 0
  Linked [] = Unit {0}
  Linked (b ∷ []) = b.hash ≡ calculate_hash x b
  Linked (b ∷ b' ∷ bs) =
      (b.hash ≡ calculate_hash x b) × (b'.previous_hash ≡ b.hash) × Linked (b' ∷ bs)

  Linked-append :
      (bs : List (Blk x)) (last new : Blk x)
      → Linked bs
      → last? bs ≡ some last
      → new.previous_hash ≡ last.hash
      → new.hash ≡ calculate_hash x new
      → Linked (bs ++ new ∷ [])
  Linked-append [] last new l e p h = h
  Linked-append (b ∷ []) last new l e p h = (l, ground arith, h)
  Linked-append (b ∷ b' ∷ bs) last new l e p h =
      (l.0, l.1, Linked-append (b' ∷ bs) last new l.2 e p h)

  pub process-chain : (c : Chain x) (ts : List (Tx x)) → (process_all x c ts).chain ≡ c.chain
  unfolding process_transaction
  process-chain c [] = refl
  process-chain c (t ∷ ts) = process-chain (process_transaction x c t) ts ∙ ground arith

  module _ (get_balance : Chain x → Str → Double x) where
    -- What `validateBlock` requires of a block, against a chain whose last block is `last`.
    pub record Accepts (c : Chain x) (b last : Blk x) : Type 0 where
      pub hashed : b.hash ≡ calculate_hash x b
      pub linked : b.previous_hash ≡ last.hash
      pub transactions : All (λ t. transaction_ok x get_balance c t ≡ true) b.transactions

    pub validate_block_of :
        (c : Chain x) (b last : Blk x)
        → last? c.chain ≡ some last
        → validate_block x get_balance c b
          ≡ ok (
              is_valid x b
              && (str_eq b.previous_hash last.hash
                  && all (transaction_ok x get_balance c) b.transactions))
    unfolding validate_block get_latest_block
    validate_block_of c b last e = ground arith

    pub validate_block-Accepts :
        (c : Chain x) (b last : Blk x)
        → last? c.chain ≡ some last
        → validate_block x get_balance c b ≡ ok true
        → Accepts c b last
    validate_block-Accepts c b last e h =
        let t : (is_valid x b
              && (str_eq b.previous_hash last.hash
                  && all (transaction_ok x get_balance c) b.transactions))
            ≡ true =
          cc (sym (validate_block_of c b last e) ∙ h) in
        let (valid, rest) = &&-parts (is_valid x b) _ t in
        let (prev, ts) = &&-parts (str_eq b.previous_hash last.hash) _ rest in
        record {
          hashed = ((is_valid_iff x b).0 valid).0;
          linked = (str_eq_iff b.previous_hash last.hash).0 prev;
          transactions = (all_iff (transaction_ok x get_balance c) b.transactions).0 ts;
        }

    -- The ways in which `addBlock` can end.
    pub data Outcome (c : Chain x) (b last : Blk x) : Type 0 where
      invalid :
          validate_block x get_balance c b ≡ ok false
          → add_block x get_balance c b ≡ throws (runtime_error "Invalid block")
          → Outcome c b last
      refused :
          validate_block x get_balance c b ≡ ok true
          → reach_consensus x c b ≡ ok false
          → add_block x get_balance c b ≡ throws (runtime_error "Consensus not reached")
          → Outcome c b last
      unsearched :
          validate_block x get_balance c b ≡ ok true
          → has_money x b ≡ false
          → add_block x get_balance c b ≡ undefined
          → Outcome c b last
      added :
          (c' : Chain x)
          → Accepts c b last
          → reach_consensus x c b ≡ ok true
          → add_block x get_balance c b ≡ ok c'
          → c'.chain ≡ c.chain ++ b ∷ []
          → Outcome c b last

    voted :
        (c : Chain x) (b last : Blk x)
        → last? c.chain ≡ some last
        → validate_block x get_balance c b ≡ ok true
        → reach_consensus x c b ≡ ok (is_enough x c b c.financial_validators)
        → Outcome c b last
    unfolding add_block
    voted c b last e v r = elim (Bool-cases (is_enough x c b c.financial_validators)) [
      | inr against ↦ let lost = r ∙ ap ok against in refused v lost (rw (v, lost, add_block))
      | inl enough ↦
          let won = r ∙ ap ok enough in
          added (process_all x (record c { chain = c.chain ++ b ∷ [] }) b.transactions)
            (validate_block-Accepts c b last e v) won (rw (v, won, add_block))
            (process-chain (record c { chain = c.chain ++ b ∷ [] }) b.transactions)
    ]

    pub add_block-Outcome :
        (c : Chain x) (b last : Blk x) → last? c.chain ≡ some last → Outcome c b last
    unfolding add_block
    add_block-Outcome c b last e =
        elim (Bool-cases (
          is_valid x b
          && (str_eq b.previous_hash last.hash
              && all (transaction_ok x get_balance c) b.transactions))) [
                | inr bad ↦
                    let v = validate_block_of c b last e ∙ ap ok bad in
                    invalid v (rw (v, add_block))
                | inl good ↦
                    let v = validate_block_of c b last e ∙ ap ok good in
                    elim (Bool-cases (has_money x b)) [
                      | inr plain ↦
                          unsearched v plain (rw (v, reach_consensus_plain x c b plain, add_block))
                      | inl money ↦ voted c b last e v (reach_consensus-has_money x c b money)
                    ]
              ]

    -- The chain after the block is offered; a call that throws leaves it.
    abbrev pub offer : Chain x → Blk x → Chain x
    offer c b = elim (add_block x get_balance c b) [ ok c' ↦ c' | _ ↦ c ]

    abbrev pub offer_all : Chain x → List (Blk x) → Chain x
    offer_all c [] = c
    offer_all c (b ∷ bs) = offer_all (offer c b) bs

    pub record IsChain (c : Chain x) : Type 0 where
      pub last : Blk x
      pub has_last : last? c.chain ≡ some last
      pub links : Linked c.chain

    -- A chain that is longer by an accepted block.
    pub append-IsChain :
        (c c' : Chain x) (b : Blk x) (i : IsChain c)
        → Accepts c b i.last
        → c'.chain ≡ c.chain ++ b ∷ []
        → IsChain c'
    append-IsChain c c' b i a k = record {
      last = b;
      has_last = ap last? k ∙ last?-append c.chain b;
      links = rw k (Linked-append c.chain i.last b i.links i.has_last a.linked a.hashed);
    }

    offer-IsChain : (c : Chain x) (b : Blk x) → IsChain c → IsChain (offer c b)
    offer-IsChain c b i = elim (add_block-Outcome c b i.last i.has_last) [
      | invalid v e ↦ rw (e, offer) i
      | refused v r e ↦ rw (e, offer) i
      | unsearched v p e ↦ rw (e, offer) i
      | added c' a r e k ↦ rw (e, offer) (append-IsChain c c' b i a k)
    ]

    -- Whatever blocks are offered to a chain, in whatever order, and whatever their calls throw: if
    -- the chain has a last block, carries calculated hashes and is linked by them, then so is the
    -- chain in the end. (This holds of the code as long as no call has undefined behaviour; in the
    -- model such a call leaves the chain.)
    pub offer_all-IsChain : (c : Chain x) (bs : List (Blk x)) → IsChain c → IsChain (offer_all c bs)
    offer_all-IsChain c [] i = i
    offer_all-IsChain c (b ∷ bs) i = offer_all-IsChain (offer c b) bs (offer-IsChain c b i)

    -- The constructor makes such a chain.
    pub new_blockchain-IsChain : (now : ℕ) → IsChain (new_blockchain x now)
    unfolding new_blockchain new_block calculate_hash block_text
    new_blockchain-IsChain now = record {
      last = new_block x now 0 [] (bytes "0");
      has_last = refl;
      links = refl;
    }
