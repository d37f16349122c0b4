-- ===== src/Core/Blockchain/Races/Interleaved.antt =====
-- Calls of addBlock that overlap: each may pass its checks before another appends its block.
use blockchain_messaging.Base.{
  ℕ, ◌≡◌, ◌≢◌, refl, sym, ap, ◌∙◌, ◌⊎◌, inl, inr, List, [], ◌∷◌, ◌++◌, All, append-nil,
  append_assoc, length, length-append, true, false, some, last?, Str, Bool-cases, Result-cases,
  subst, ◌==◌, ==_iff, arith,
}
use blockchain_messaging.Base.Families.{set_at, set_at_ne}
use blockchain_messaging.Core.Transaction.{Externals, Double, Tx}
use blockchain_messaging.Core.Block.{Blk}
use blockchain_messaging.Core.Blockchain.{Chain, reach_consensus, validate_block}
use blockchain_messaging.Core.Blockchain.Links.{Linked, validate_block-Accepts, process-chain}
use blockchain_messaging.Core.Blockchain.Races.{
  Call, validating, voting, pushing, processing, returned, failed, crashed, advance, Callers,
  all_calling, advance_at, advance_all,
}

no_tail {ℓ} : {A : Type ℓ} (l m k : List A) → l ≡ (l ++ m) ++ k → m ≡ []
no_tail l [] k e = refl
no_tail l (a ∷ m) k e =
    absurd (omega (arith, ap length e, length-append (l ++ a ∷ m) k, length-append l (a ∷ m)))

All-append_one {ℓ κ} :
    {A : Type ℓ} (P : A → Type κ) (l m : List A) → All P l → All P m → All P (l ++ m)
All-append_one P [] m h k = k
All-append_one P (a ∷ l) m h k = (h.0, All-append_one P l m h.1 k)

module _ (x : Externals) (get_balance : Chain x → Str → Double x) where
  -- What a step of a call appends to the chain.
  abbrev appended : Blk x → Call (Tx x) → List (Blk x)
  appended b pushing = b ∷ []
  appended b _ = []

  advance-chain :
      (b : Blk x) (c : Chain x) (a : Call (Tx x))
      → (advance x get_balance b c a).0.chain ≡ c.chain ++ appended b a
  unfolding advance
  advance-chain b c validating = elim (Result-cases (validate_block x get_balance c b)) [
    | inl (valid, v) ↦ rw (v, advance) (sym (append-nil c.chain))
    | inr (inl (e, v)) ↦ rw (v, advance) (sym (append-nil c.chain))
    | inr (inr v) ↦ rw (v, advance) (sym (append-nil c.chain))
  ]
  advance-chain b c voting = elim (Result-cases (reach_consensus x c b)) [
    | inl (won, r) ↦ rw (r, advance) (sym (append-nil c.chain))
    | inr (inl (e, r)) ↦ rw (r, advance) (sym (append-nil c.chain))
    | inr (inr r) ↦ rw (r, advance) (sym (append-nil c.chain))
  ]
  advance-chain b c pushing = refl
  advance-chain b c (processing []) = sym (append-nil c.chain)
  advance-chain b c (processing (t ∷ ts)) = process-chain x c (t ∷ []) ∙ sym (append-nil c.chain)
  advance-chain b c returned = sym (append-nil c.chain)
  advance-chain b c (failed e) = sym (append-nil c.chain)
  advance-chain b c crashed = sym (append-nil c.chain)

  -- A call that has passed the validation has the hash of the last block in its own.
  abbrev Checked : Str → Blk x → Call (Tx x) → Type 0
  Checked h b voting = b.previous_hash ≡ h
  Checked h b pushing = b.previous_hash ≡ h
  Checked h b _ = Unit {0}

  advance-Checked :
      (b last : Blk x) (c : Chain x) (a : Call (Tx x))
      → last? c.chain ≡ some last
      → Checked last.hash b a
      → Checked last.hash b ((advance x get_balance b c a).1)
  unfolding advance
  advance-Checked b last c validating e h = elim (Result-cases (validate_block x get_balance c b)) [
    | inl (true, v) ↦ rw (v, advance) ((validate_block-Accepts x get_balance c b last e v).linked)
    | inl (false, v) ↦ rw (v, advance) tt
    | inr (inl (f, v)) ↦ rw (v, advance) tt
    | inr (inr v) ↦ rw (v, advance) tt
  ]
  advance-Checked b last c voting e h = elim (Result-cases (reach_consensus x c b)) [
    | inl (true, r) ↦ rw (r, advance) h
    | inl (false, r) ↦ rw (r, advance) tt
    | inr (inl (f, r)) ↦ rw (r, advance) tt
    | inr (inr r) ↦ rw (r, advance) tt
  ]
  advance-Checked b last c pushing e h = tt
  advance-Checked b last c (processing []) e h = tt
  advance-Checked b last c (processing (t ∷ ts)) e h = tt
  advance-Checked b last c returned e h = tt
  advance-Checked b last c (failed f) e h = tt
  advance-Checked b last c crashed e h = tt

  -- Some block of the list has the hash as its previous one.
  abbrev Follows : Str → List (Blk x) → Type 0
  Follows h [] = ⊥
  Follows h (b ∷ bs) = (b.previous_hash ≡ h) ⊎ Follows h bs

  Follows-append : (h : Str) (bs cs : List (Blk x)) → Follows h bs → Follows h (bs ++ cs)
  Follows-append h [] cs f = absurd f
  Follows-append h (b ∷ bs) cs (inl e) = inl e
  Follows-append h (b ∷ bs) cs (inr f) = inr (Follows-append h bs cs f)

  Follows-new :
      (h : Str) (bs : List (Blk x)) (b : Blk x) → b.previous_hash ≡ h → Follows h (bs ++ b ∷ [])
  Follows-new h [] b e = inl e
  Follows-new h (a ∷ bs) b e = inr (Follows-new h bs b e)

  Linked-back : (bs rest : List (Blk x)) → Linked x (bs ++ rest) → Linked x rest
  Linked-back [] rest l = l
  Linked-back (b ∷ []) [] l = tt
  Linked-back (b ∷ []) (b' ∷ rest) l = l.2
  Linked-back (b ∷ b' ∷ bs) rest l = Linked-back (b' ∷ bs) rest l.2

  -- Behind its first block a linked chain does not go back to a hash that none of its blocks has.
  not_back :
      (h : Str) (b : Blk x) (bs : List (Blk x))
      → All (λ (b : Blk x). b.hash ≢ h) (b ∷ bs)
      → Linked x (b ∷ bs)
      → ¬ Follows h bs
  not_back h b [] n l f = f
  not_back h b (b' ∷ bs) n l (inl e) = n.0 (sym l.1 ∙ e)
  not_back h b (b' ∷ bs) n l (inr f) = not_back h b' bs n.1 l.2 f

  module _ (blocks : ℕ → Blk x) (c : Chain x) (last : Blk x)
      (has_last : last? c.chain ≡ some last) where
    -- Every call that has passed the validation has done so against the last block.
    abbrev AllChecked : Callers x → Type 0
    AllChecked s = (k : ℕ) → Checked last.hash (blocks k) (s.calls k)

    advance_at-chain :
        (k : ℕ) (s : Callers x)
        → (advance_at x get_balance blocks k s).chain.chain
          ≡ s.chain.chain ++ appended (blocks k) (s.calls k)
    unfolding advance_at
    advance_at-chain k s = advance-chain (blocks k) s.chain (s.calls k)

    advance_at-AllChecked :
        (k : ℕ) (s : Callers x)
        → s.chain.chain ≡ c.chain
        → AllChecked s
        → AllChecked (advance_at x get_balance blocks k s)
    unfolding advance_at set_at
    advance_at-AllChecked k s e h j = elim (Bool-cases (k == j)) [
      | inl same ↦ rw same (
          subst
            (λ (i : ℕ).
              Checked last.hash (blocks i)
                ((advance x get_balance (blocks k) s.chain (s.calls k)).1))
            ((==_iff k j).0 same)
            (advance-Checked (blocks k) last s.chain (s.calls k) (ap last? e ∙ has_last) (h k)))
      | inr other ↦ rw other (h j)
    ]

    advance_all-grows :
        (is : List ℕ) (s : Callers x)
        → (rest : List (Blk x)) × ((advance_all x get_balance blocks is s).chain.chain
            ≡ s.chain.chain ++ rest)
    unfolding advance_all
    advance_all-grows [] s = ([], sym (append-nil s.chain.chain))
    advance_all-grows (i ∷ is) s =
        let (rest, e) = advance_all-grows is (advance_at x get_balance blocks i s) in
        (
          appended (blocks i) (s.calls i) ++ rest,
          e
              ∙ ap (λ (bs : List (Blk x)). bs ++ rest) (advance_at-chain i s)
              ∙ append_assoc s.chain.chain (appended (blocks i) (s.calls i)) rest,
        )

    -- As long as no call has appended its block.
    advance_all-AllChecked :
        (is : List ℕ) (s : Callers x)
        → s.chain.chain ≡ c.chain
        → (advance_all x get_balance blocks is s).chain.chain ≡ c.chain
        → AllChecked s
        → AllChecked (advance_all x get_balance blocks is s)
    unfolding advance_all
    advance_all-AllChecked [] s e after h = h
    advance_all-AllChecked (i ∷ is) s e after h =
        let s' = advance_at x get_balance blocks i s in
        let new = appended (blocks i) (s.calls i) in
        let (rest, grown) = advance_all-grows is s' in
        let none_new : new ≡ [] =
          no_tail s.chain.chain new rest (
            e
            ∙ sym after
            ∙ grown
            ∙ ap (λ (bs : List (Blk x)). bs ++ rest) (advance_at-chain i s)) in
        let kept : s'.chain.chain ≡ c.chain =
          advance_at-chain i s
          ∙ ap (λ bs. s.chain.chain ++ bs) none_new
          ∙ append-nil s.chain.chain
          ∙ e in
        advance_all-AllChecked is s' kept after (advance_at-AllChecked i s e h)

    module _ (i j : ℕ) (apart : i ≢ j) (fresh : (k : ℕ) → (blocks k).hash ≢ last.hash)
        (from_i : (blocks i).previous_hash ≡ last.hash)
        (from_j : (blocks j).previous_hash ≡ last.hash) where
      -- How far two calls are that were both about to append: neither has appended, at least one
      -- block is there and one of the two calls still waits, or a second block with the same
      -- previous hash is there.
      data Progress (s : Callers x) : Type 0 where
        both_wait :
            (rest : List (Blk x))
            → s.chain.chain ≡ c.chain ++ rest
            → All (λ (b : Blk x). b.hash ≢ last.hash) rest
            → s.calls i ≡ pushing
            → s.calls j ≡ pushing
            → Progress s
        one_waits :
            (k : ℕ) (b : Blk x) (rest : List (Blk x))
            → s.chain.chain ≡ c.chain ++ b ∷ rest
            → All (λ (b : Blk x). b.hash ≢ last.hash) (b ∷ rest)
            → (k ≡ i) ⊎ (k ≡ j)
            → s.calls k ≡ pushing
            → Progress s
        overtaken :
            (b : Blk x) (rest : List (Blk x))
            → s.chain.chain ≡ c.chain ++ b ∷ rest
            → All (λ (b : Blk x). b.hash ≢ last.hash) (b ∷ rest)
            → Follows last.hash rest
            → Progress s

      appended-fresh :
          (k : ℕ) (a : Call (Tx x))
          → All (λ (b : Blk x). b.hash ≢ last.hash) (appended (blocks k) a)
      appended-fresh k validating = tt
      appended-fresh k voting = tt
      appended-fresh k pushing = (fresh k, tt)
      appended-fresh k (processing ts) = tt
      appended-fresh k returned = tt
      appended-fresh k (failed e) = tt
      appended-fresh k crashed = tt

      still_waits :
          (k m : ℕ) (s : Callers x)
          → k ≢ m
          → s.calls m ≡ pushing
          → (advance_at x get_balance blocks k s).calls m ≡ pushing
      unfolding advance_at
      still_waits k m s d h = set_at_ne k m _ s.calls d ∙ h

      -- The chain after a step, and its blocks.
      longer :
          (k : ℕ) (s : Callers x) (rest : List (Blk x))
          → s.chain.chain ≡ c.chain ++ rest
          → (advance_at x get_balance blocks k s).chain.chain
            ≡ c.chain ++ (rest ++ appended (blocks k) (s.calls k))
      longer k s rest e =
          advance_at-chain k s
          ∙ ap (λ bs. bs ++ appended (blocks k) (s.calls k)) e
          ∙ append_assoc c.chain rest (appended (blocks k) (s.calls k))

      all_fresh :
          (k : ℕ) (s : Callers x) (rest : List (Blk x))
          → All (λ (b : Blk x). b.hash ≢ last.hash) rest
          → All (λ (b : Blk x). b.hash ≢ last.hash) (rest ++ appended (blocks k) (s.calls k))
      all_fresh k s rest h =
          All-append_one (λ (b : Blk x). b.hash ≢ last.hash) rest _ h (appended-fresh k (s.calls k))

      -- The first of the two blocks.
      first_appends :
          (k m : ℕ) (s : Callers x) (rest : List (Blk x))
          → k ≢ m
          → (m ≡ i) ⊎ (m ≡ j)
          → s.chain.chain ≡ c.chain ++ rest
          → All (λ (b : Blk x). b.hash ≢ last.hash) rest
          → s.calls k ≡ pushing
          → s.calls m ≡ pushing
          → Progress (advance_at x get_balance blocks k s)
      first_appends k m s [] d which e h p q =
          one_waits m (blocks k) [] (longer k s [] e ∙ ap (λ a. c.chain ++ appended (blocks k) a) p)
            (fresh k, tt) which (still_waits k m s d q)
      first_appends k m s (b ∷ rest) d which e h p q =
          one_waits m b (rest ++ appended (blocks k) (s.calls k)) (longer k s (b ∷ rest) e)
            (all_fresh k s (b ∷ rest) h) which (still_waits k m s d q)

      from_either : (k : ℕ) → (k ≡ i) ⊎ (k ≡ j) → (blocks k).previous_hash ≡ last.hash
      from_either k (inl e) = ap (λ (k : ℕ). (blocks k).previous_hash) e ∙ from_i
      from_either k (inr e) = ap (λ (k : ℕ). (blocks k).previous_hash) e ∙ from_j

      step-Progress :
          (k : ℕ) (s : Callers x) → Progress s → Progress (advance_at x get_balance blocks k s)
      step-Progress k s (both_wait rest e h p q) = elim (Bool-cases (k == i)) [
        | inl at_i ↦
            let same = (==_iff k i).0 at_i in
            first_appends k j s rest (λ r. apart (sym same ∙ r)) (inr refl) e h
              (ap s.calls same ∙ p) q
        | inr not_i ↦ elim (Bool-cases (k == j)) [
          | inl at_j ↦
              let same = (==_iff k j).0 at_j in
              first_appends k i s rest (λ r. apart (sym r ∙ same)) (inl refl) e h
                (ap s.calls same ∙ q) p
          | inr not_j ↦
              both_wait (rest ++ appended (blocks k) (s.calls k)) (longer k s rest e)
                (all_fresh k s rest h) (still_waits k i s (λ r. ground (arith, ==_iff k i)) p)
                (still_waits k j s (λ r. ground (arith, ==_iff k j)) q)
        ]
      ]
      step-Progress k s (one_waits m b rest e h which p) = elim (Bool-cases (k == m)) [
        | inl at_m ↦
            let same = (==_iff k m).0 at_m in
            overtaken b (rest ++ blocks k ∷ [])
              (longer k s (b ∷ rest) e
                ∙ ap (λ a. c.chain ++ ((b ∷ rest) ++ appended (blocks k) a)) (ap s.calls same ∙ p))
              (All-append_one (λ (b : Blk x). b.hash ≢ last.hash) (b ∷ rest) (blocks k ∷ []) h
                (fresh k, tt))
              (Follows-new last.hash rest (blocks k)
                (ap (λ (k : ℕ). (blocks k).previous_hash) same ∙ from_either m which))
        | inr not_m ↦
            one_waits m b (rest ++ appended (blocks k) (s.calls k)) (longer k s (b ∷ rest) e)
              (all_fresh k s (b ∷ rest) h) which
              (still_waits k m s (λ r. ground (arith, ==_iff k m)) p)
      ]
      step-Progress k s (overtaken b rest e h f) =
          overtaken b (rest ++ appended (blocks k) (s.calls k)) (longer k s (b ∷ rest) e)
            (all_fresh k s (b ∷ rest) h) (Follows-append last.hash rest _ f)

      schedule-Progress :
          (js : List ℕ) (s : Callers x)
          → Progress s
          → Progress (advance_all x get_balance blocks js s)
      unfolding advance_all
      schedule-Progress [] s p = p
      schedule-Progress (k ∷ js) s p =
          schedule-Progress js (advance_at x get_balance blocks k s) (step-Progress k s p)

      Progress-Linked :
          (s : Callers x)
          → Progress s
          → s.calls i ≢ pushing
          → s.calls j ≢ pushing
          → ¬ Linked x s.chain.chain
      Progress-Linked s (both_wait rest e h p q) di dj l = di p
      Progress-Linked s (one_waits k b rest e h (inl same) p) di dj l =
          di (ap s.calls (sym same) ∙ p)
      Progress-Linked s (one_waits k b rest e h (inr same) p) di dj l =
          dj (ap s.calls (sym same) ∙ p)
      Progress-Linked s (overtaken b rest e h f) di dj l =
          not_back last.hash b rest h (Linked-back c.chain (b ∷ rest) (subst (Linked x) e l)) f

  -- Calls of `addBlock` on one chain that overlap break it. Take a chain with a last block whose hash
  -- none of the blocks has, and any interleaving of any number of calls, by which no block has been
  -- appended yet and two calls have passed their checks and are about to append. Then after any further
  -- interleaving by which these two have appended, the chain is not linked by its hashes.
  pub advance_all-overlaps :
      (blocks : ℕ → Blk x) (c : Chain x) (last : Blk x) (i j : ℕ) (is js : List ℕ)
      → last? c.chain ≡ some last
      → ((k : ℕ) → (blocks k).hash ≢ last.hash)
      → i ≢ j
      → let s = advance_all x get_balance blocks is (all_calling x c) in
        let s' = advance_all x get_balance blocks js s in
        s.chain.chain ≡ c.chain
        → s.calls i ≡ pushing
        → s.calls j ≡ pushing
        → s'.calls i ≢ pushing
        → s'.calls j ≢ pushing
        → ¬ Linked x s'.chain.chain
  unfolding all_calling
  advance_all-overlaps blocks c last i j is js h fresh d none_yet p q p' q' =
      let s = advance_all x get_balance blocks is (all_calling x c) in
      let checked =
        advance_all-AllChecked blocks c last h is (all_calling x c) refl none_yet (λ k. tt) in
      let at : (k : ℕ) → s.calls k ≡ pushing → (blocks k).previous_hash ≡ last.hash =
        λ k e. subst (Checked last.hash (blocks k)) e (checked k) in
      Progress-Linked blocks c last h i j d fresh (at i p) (at j q)
        (advance_all x get_balance blocks js s)
        (schedule-Progress blocks c last h i j d fresh (at i p) (at j q) js s
          (both_wait [] (none_yet ∙ sym (append-nil c.chain)) tt p q))
        p' q'
