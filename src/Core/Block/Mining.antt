-- ===== src/Core/Block/Mining.antt =====
-- Block::mineBlock: which nonce it stops at, and when it never stops.
use blockchain_messaging.Base.{
  ℕ, zero, suc, ◌+◌, ◌%◌, ◌≤◌, ◌<◌, ◌≡◌, ◌≢◌, refl, ap, ◌∙◌, sym, inl, inr, true, false, none, some,
  Str, str_eq_iff, take, replicate, length, length-take, length-replicate, Bool-cases, arith,
}
use blockchain_messaging.Core.Transaction.{Externals}
use blockchain_messaging.Core.Block.{
  Blk, uint32_mod, block_text, calculate_hash, next_nonce, meets, mine_block,
}

module _ (x : Externals) where
  -- The block with another nonce and the hash that goes with it.
  abbrev pub at_nonce : Blk x → ℕ → Blk x
  at_nonce b n = record b { nonce = n; hash = calculate_hash x (record b { nonce = n }) }

  -- The hash that the loop tests after `k` rounds.
  abbrev pub nonce_after : Blk x → ℕ → ℕ
  nonce_after b k = (b.nonce + k) % uint32_mod

  abbrev pub Hits : ℕ → Blk x → ℕ → Type 0
  Hits difficulty b k = meets x difficulty (at_nonce b (nonce_after b k)).hash ≡ true

  -- The stored hash is the calculated one, and the nonce is a uint32_t.
  pub record IsHashed (b : Blk x) : Type 0 where
    pub current : b.hash ≡ calculate_hash x b
    pub small : b.nonce < uint32_mod

  next_nonce-at : (b : Blk x) → next_nonce x b ≡ at_nonce b (nonce_after b 1)
  unfolding next_nonce
  next_nonce-at b = refl

  at_nonce-at : (b : Blk x) (m n : ℕ) → at_nonce (at_nonce b m) n ≡ at_nonce b n
  unfolding calculate_hash block_text
  at_nonce-at b m n = refl

  at_nonce-IsHashed : (b : Blk x) (k : ℕ) → IsHashed (at_nonce b (nonce_after b k))
  unfolding calculate_hash block_text
  at_nonce-IsHashed b k = record { current = refl; small = omega arith }

  at_nonce_self : (b : Blk x) → IsHashed b → at_nonce b (nonce_after b 0) ≡ b
  at_nonce_self b h =
      let e : nonce_after b 0 ≡ b.nonce = omega (arith, h.small) in
      rw e (λ i. record b { hash = sym h.current i })

  shift :
      (b : Blk x) (k : ℕ)
      → at_nonce (next_nonce x b) (nonce_after (next_nonce x b) k)
        ≡ at_nonce b (nonce_after b (suc k))
  unfolding next_nonce
  shift b k =
      let e : nonce_after (at_nonce b (nonce_after b 1)) k ≡ nonce_after b (suc k) = omega arith in
      at_nonce-at b (nonce_after b 1) _ ∙ ap (at_nonce b) e

  Hits-shift :
      (d : ℕ) (b : Blk x) (k : ℕ)
      → meets x d (at_nonce (next_nonce x b) (nonce_after (next_nonce x b) k)).hash
        ≡ meets x d (at_nonce b (nonce_after b (suc k))).hash
  Hits-shift d b k = ap (λ (c : Blk x). meets x d c.hash) (shift b k)

  next_nonce-IsHashed : (b : Blk x) → IsHashed (next_nonce x b)
  next_nonce-IsHashed b = rw (next_nonce-at b) (at_nonce-IsHashed b 1)

  -- The first round that hits, and the block that it gives.
  pub record Finds (fuel d : ℕ) (b : Blk x) (k : ℕ) : Type 0 where
    pub round : ℕ
    pub within : round ≤ k
    pub hit : Hits d b round
    pub first : (i : ℕ) → i < round → ¬ Hits d b i
    pub result : mine_block x fuel d b ≡ some (at_nonce b (nonce_after b round))

  Hits-zero :
      (d : ℕ) (b : Blk x)
      → IsHashed b
      → meets x d (at_nonce b (nonce_after b 0)).hash ≡ meets x d b.hash
  Hits-zero d b h = ap (λ (c : Blk x). meets x d c.hash) (at_nonce_self b h)

  Finds-next :
      (fuel d k : ℕ) (b : Blk x)
      → meets x d b.hash ≡ false
      → IsHashed b
      → Finds fuel d (next_nonce x b) k
      → Finds (suc fuel) d b (suc k)
  Finds-next fuel d k b miss h r = record {
    round = suc r.round;
    within = omega (arith, r.within);
    hit = sym (Hits-shift d b r.round) ∙ r.hit;
    first = first;
    result = unfold mine_block in rw (miss, mine_block) (r.result ∙ ap some (shift b r.round));
  }
    where
      first : (i : ℕ) → i < suc r.round → ¬ Hits d b i
      first zero l q = cc (sym miss ∙ sym (Hits-zero d b h) ∙ q)
      first (suc i) l q = r.first i (omega arith) (Hits-shift d b i ∙ q)

  -- Take a block with a current hash. If the hash for the nonce `k` rounds ahead meets the
  -- difficulty, counting past the end of uint32_t, then `mineBlock` ends within `k` rounds of its
  -- loop. The block that it leaves has the first nonce that meets the difficulty, the hash that goes
  -- with it, and all else as it was.
  pub mine_block-Finds :
      (fuel d k : ℕ) (b : Blk x) → IsHashed b → Hits d b k → k < fuel → Finds fuel d b k
  unfolding mine_block
  mine_block-Finds zero d k b h hit l = elim l [ ]
  mine_block-Finds (suc fuel) d zero b h hit l = record {
    round = 0;
    within = omega arith;
    hit = hit;
    first = λ i q. elim q [ ];
    result =
        let m : meets x d b.hash ≡ true = sym (Hits-zero d b h) ∙ hit in
        rw (m, mine_block) (ap some (sym (at_nonce_self b h)));
  }
  mine_block-Finds (suc fuel) d (suc k) b h hit l = elim (Bool-cases (meets x d b.hash)) [
    | inl now ↦ record {
      round = 0;
      within = omega arith;
      hit = Hits-zero d b h ∙ now;
      first = λ i q. elim q [ ];
      result = rw (now, mine_block) (ap some (sym (at_nonce_self b h)));
    }
    | inr miss ↦ Finds-next fuel d k b miss h (
        mine_block-Finds fuel d k (next_nonce x b) (next_nonce-IsHashed b) (Hits-shift d b k ∙ hit)
          (omega arith))
  ]

  never_by :
      (fuel d : ℕ) (b : Blk x)
      → IsHashed b
      → ((k : ℕ) → ¬ Hits d b k)
      → mine_block x fuel d b ≡ none
  unfolding mine_block
  never_by zero d b h no_hit = refl
  never_by (suc fuel) d b h no_hit = elim (Bool-cases (meets x d b.hash)) [
    | inl now ↦ absurd (no_hit 0 (Hits-zero d b h ∙ now))
    | inr miss ↦
        rw (miss, mine_block)
          (never_by fuel d (next_nonce x b) (next_nonce-IsHashed b)
            (λ k q. no_hit (suc k) (sym (Hits-shift d b k) ∙ q)))
  ]

  -- If no uint32_t nonce meets the difficulty, the loop of `mineBlock` never ends on a block with a
  -- current hash.
  mine_block-never :
      (d : ℕ) (b : Blk x)
      → IsHashed b
      → ((n : ℕ) → n < uint32_mod → meets x d (at_nonce b n).hash ≢ true)
      → (fuel : ℕ) → mine_block x fuel d b ≡ none
  mine_block-never d b h no_nonce fuel =
      never_by fuel d b h (λ k. no_nonce (nonce_after b k) (omega arith))

  pub take_short : (d : ℕ) (h : Str) → length h < d → meets x d h ≢ true
  unfolding meets
  take_short d h l q = absurd (
      omega (
        arith,
        ap length ((str_eq_iff (take d h) (replicate d 48)).0 q),
        length-take d h,
        length-replicate {A = ℕ} d 48,
      ))
