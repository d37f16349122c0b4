-- ===== src/Core/Blockchain/Tampering.antt =====
-- What the last hash of a linked chain commits to.
use blockchain_messaging.Base.{
  ◌≡◌, refl, sym, ap, ap₂, ◌∙◌, ◌⊎◌, inl, inr, List, [], ◌∷◌, ◌++◌, map, some, last?, length,
  append_split, append_assoc, Str, decimal, str_eq, str_eq_iff, Bool-cases, arith,
}
use blockchain_messaging.Crypto.Hash.{hash, double_hash}
use blockchain_messaging.Crypto.Merkle.Binding.{Collides}
use blockchain_messaging.Core.Transaction.{Externals, Tx, write_all}
use blockchain_messaging.Core.Block.{Blk, block_text, calculate_hash}
use blockchain_messaging.Core.Blockchain.Links.{Linked}

module _ (x : Externals) where
  abbrev pub hashes : Blk x → List Str
  hashes b = map (λ (t : Tx x). t.hash) b.transactions

  -- Two blocks whose texts are divided alike: they have the same index and time, and their previous
  -- hashes and the hashes of their transactions are equally long.
  pub record IsComparable (b c : Blk x) : Type 0 where
    pub index : b.index ≡ c.index
    pub timestamp : b.timestamp ≡ c.timestamp
    pub previous : length b.previous_hash ≡ length c.previous_hash
    pub hash_lengths : map length (hashes b) ≡ map length (hashes c)

  abbrev pub AllComparable : List (Blk x) → List (Blk x) → Type 0
  AllComparable [] [] = Unit {0}
  AllComparable (b ∷ bs) (c ∷ cs) = IsComparable b c × AllComparable bs cs
  AllComparable _ _ = ⊥

  -- The same hashes, of the block, of the block before it and of its transactions.
  pub record IsSame (b c : Blk x) : Type 0 where
    pub own_hash : b.hash ≡ c.hash
    pub previous_hash : b.previous_hash ≡ c.previous_hash
    pub transactions : hashes b ≡ hashes c

  abbrev pub AllSame : List (Blk x) → List (Blk x) → Type 0
  AllSame [] [] = Unit {0}
  AllSame (b ∷ bs) (c ∷ cs) = IsSame b c × AllSame bs cs
  AllSame _ _ = ⊥

  -- At some place the two blocks have different texts with the same double hash.
  abbrev pub AnyCollides : List (Blk x) → List (Blk x) → Type 0
  AnyCollides (b ∷ bs) (c ∷ cs) =
      Collides x.ssl (block_text x b) (block_text x c) ⊎ AnyCollides bs cs
  AnyCollides _ _ = ⊥

  hashes_eq :
      (ts us : List (Tx x)) (r s : Str)
      → map length (map (λ (t : Tx x). t.hash) ts) ≡ map length (map (λ (t : Tx x). t.hash) us)
      → write_all (λ (t : Tx x). t.hash) ts ++ r ≡ write_all (λ (t : Tx x). t.hash) us ++ s
      → map (λ (t : Tx x). t.hash) ts ≡ map (λ (t : Tx x). t.hash) us
  hashes_eq [] [] r s h e = refl
  hashes_eq [] (u ∷ us) r s h e = absurd (cc)
  hashes_eq (t ∷ ts) [] r s h e = absurd (cc)
  hashes_eq (t ∷ ts) (u ∷ us) r s h e =
      let split =
        append_split t.hash u.hash _ _ (cc h)
          (sym (append_assoc t.hash _ r) ∙ e ∙ append_assoc u.hash _ s) in
      ap₂ ◌∷◌ (split.0) (hashes_eq ts us r s (cc h) (split.1))

  block_text-IsComparable :
      (b c : Blk x)
      → IsComparable b c
      → block_text x b ≡ block_text x c
      → (b.previous_hash ≡ c.previous_hash) × (hashes b ≡ hashes c)
  unfolding block_text
  block_text-IsComparable b c k e =
      let after_index =
        (append_split (decimal b.index) (decimal c.index) _ _ (ap (λ n. length (decimal n)) k.index)
          e).1 in
      let after_time =
        (append_split (decimal b.timestamp) (decimal c.timestamp) _ _
          (ap (λ n. length (decimal n)) k.timestamp) after_index).1 in
      let (previous, rest) =
        append_split b.previous_hash c.previous_hash _ _ k.previous after_time in
      (
        previous,
        hashes_eq b.transactions c.transactions (decimal b.nonce) (decimal c.nonce) k.hash_lengths
            rest,
      )

  -- Equal hashes are those of equal texts, or a collision.
  text_eq :
      (b c : Blk x)
      → b.hash ≡ calculate_hash x b
      → c.hash ≡ calculate_hash x c
      → b.hash ≡ c.hash
      → (block_text x b ≡ block_text x c) ⊎ Collides x.ssl (block_text x b) (block_text x c)
  unfolding calculate_hash
  text_eq b c hb hc e = elim (Bool-cases (str_eq (block_text x b) (block_text x c))) [
    | inl same ↦ inl ((str_eq_iff _ _).0 same)
    | inr other ↦ inr (
      (λ q. ground (arith, str_eq_iff (block_text x b) (block_text x c))),
      unfold double_hash in ap (hash x.ssl) (sym hb ∙ e ∙ hc),
    )
  ]

  block-IsSame :
      (b c : Blk x)
      → IsComparable b c
      → b.hash ≡ calculate_hash x b
      → c.hash ≡ calculate_hash x c
      → b.hash ≡ c.hash
      → IsSame b c ⊎ Collides x.ssl (block_text x b) (block_text x c)
  block-IsSame b c k hb hc e = elim (text_eq b c hb hc e) [
    | inr collision ↦ inr collision
    | inl same ↦
        let (previous, transactions) = block_text-IsComparable b c k same in
        inl (record { own_hash = e; previous_hash = previous; transactions = transactions })
  ]

  -- The last hash of a chain commits to the chain. Take two chains of blocks that are linked by their
  -- hashes and carry calculated hashes, with blocks of the same index and time at each place, and
  -- hashes of the same lengths in them. If their last blocks have the same hash, then at every place
  -- the two blocks have the same hash, the same previous hash and the same hashes of transactions;
  -- or else at some place the texts of the two blocks are a collision of the double hash.
  pub Linked-AllSame :
      (bs cs : List (Blk x)) (b c : Blk x)
      → Linked x bs
      → Linked x cs
      → AllComparable bs cs
      → last? bs ≡ some b
      → last? cs ≡ some c
      → b.hash ≡ c.hash
      → AllSame bs cs ⊎ AnyCollides bs cs
  Linked-AllSame [] cs b c l m k lb lc e = absurd (cc)
  Linked-AllSame (b' ∷ bs) [] b c l m k lb lc e = absurd (k)
  Linked-AllSame (b' ∷ []) (c' ∷ []) b c l m k lb lc e =
      let first : b'.hash ≡ c'.hash = ground arith in
      elim (block-IsSame b' c' k.0 l m first) [
        | inr collision ↦ inr (inl collision)
        | inl same ↦ inl (same, tt)
      ]
  Linked-AllSame (b' ∷ []) (c' ∷ c'' ∷ cs) b c l m k lb lc e = absurd (k.1)
  Linked-AllSame (b' ∷ b'' ∷ bs) (c' ∷ []) b c l m k lb lc e = absurd (k.1)
  Linked-AllSame (b' ∷ b'' ∷ bs) (c' ∷ c'' ∷ cs) b c l m k lb lc e =
      elim (Linked-AllSame (b'' ∷ bs) (c'' ∷ cs) b c l.2 m.2 k.1 lb lc e) [
        | inr collision ↦ inr (inr collision)
        | inl same ↦
            elim (block-IsSame b' c' k.0 l.0 m.0 (sym l.1 ∙ (same.0).previous_hash ∙ m.1)) [
              | inr collision ↦ inr (inl collision)
              | inl first ↦ inl (first, same)
            ]
      ]
