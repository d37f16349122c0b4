-- ===== src/Core/Blockchain/Consensus.antt =====
-- Blockchain::reachConsensus: the vote as a count, and who can win it.
use blockchain_messaging.Base.{
  ℕ, ◌+◌, ◌*◌, ◌≤◌, ◌<◌, ◌≡◌, ◌≢◌, refl, ◌∙◌, sym, ◌↔◌, ◌⊎◌, inl, inr, List, [], ◌∷◌, Bool, true,
  false, not, ◌&&◌, any, All, length, is_empty, if◌then◌else◌, Bool-cases, Bool-eq_of_iff, IsIeee,
  ap, percentage, ok, undefined, arith,
}
use blockchain_messaging.Core.Transaction.{Externals, Double, Tx}
use blockchain_messaging.Core.Block.{Blk, is_valid}
use blockchain_messaging.Core.Blockchain.{
  Chain, is_financial, has_financial_tx, pool, collect_votes, is_enough, reach_consensus,
}
use blockchain_messaging.Validation.Validator.{Validator, ValidatorType, validate_block as approves}
use blockchain_messaging.Validation.Validator.Votes.{
  IsPlain, validate_block-other, message_approves,
}

module _ (x : Externals) where
  -- The validators that approve.
  abbrev pub approvals : Blk x → List (Validator (Double x)) → ℕ
  approvals b [] = 0
  approvals b (v ∷ vs) = (if approves x v b then 1 else 0) + approvals b vs

  collect_votes-approvals :
      (b : Blk x) (a n : ℕ) (vs : List (Validator (Double x)))
      → collect_votes x b a n vs ≡ (a + approvals b vs, n + length vs)
  unfolding collect_votes
  collect_votes-approvals b a n [] = ground arith
  collect_votes-approvals b a n (v ∷ vs) =
      ground (arith, collect_votes-approvals b (if approves x v b then a + 1 else a) (n + 1) vs)

  votes :
      (b : Blk x) (vs : List (Validator (Double x)))
      → collect_votes x b 0 0 vs ≡ (approvals b vs, length vs)
  votes b vs = collect_votes-approvals b 0 0 vs ∙ ground arith

  approvals-le : (b : Blk x) (vs : List (Validator (Double x))) → approvals b vs ≤ length vs
  approvals-le b [] = omega arith
  approvals-le b (v ∷ vs) = ground (arith, approvals-le b vs)

  is_enough_iff :
      (c : Chain x) (b : Blk x) (vs : List (Validator (Double x)))
      → IsIeee x.floats
      → c.consensus_threshold ≤ 100
      → length vs < 1_000_000_000_000
      → (is_enough x c b vs ≡ true)
        ↔ ((0 < length vs) × (c.consensus_threshold * length vs ≤ approvals b vs * 100))
  unfolding is_enough
  is_enough_iff c b vs f h l =
      rw (votes b vs, is_enough)
        (percentage x.floats c.consensus_threshold (approvals b vs) (length vs) f h
          (approvals-le b vs) l)

  -- Whether a block has a financial transaction.
  abbrev pub has_money : Blk x → Bool
  has_money b = any (λ t. is_financial (x.get_type t)) b.transactions

  search_hit :
      (ts : List (Tx x))
      → any (λ t. is_financial (x.get_type t)) ts ≡ true
      → has_financial_tx x ts ≡ ok true
  unfolding has_financial_tx
  search_hit [] h = cc
  search_hit (t ∷ ts) h = ground (arith, search_hit ts)

  search_missed :
      (ts : List (Tx x))
      → any (λ t. is_financial (x.get_type t)) ts ≡ false
      → has_financial_tx x ts ≡ undefined
  unfolding has_financial_tx
  search_missed [] h = refl
  search_missed (t ∷ ts) h = ground (arith, search_missed ts)

  pub reach_consensus-has_money :
      (c : Chain x) (b : Blk x)
      → has_money b ≡ true
      → reach_consensus x c b ≡ ok (is_enough x c b c.financial_validators)
  unfolding reach_consensus pool
  reach_consensus-has_money c b h = rw (search_hit b.transactions h)

  pub reach_consensus_plain :
      (c : Chain x) (b : Blk x) → has_money b ≡ false → reach_consensus x c b ≡ undefined
  unfolding reach_consensus pool
  reach_consensus_plain c b h = rw (search_missed b.transactions h)

  ok_iff : (a : Bool) → (ok a ≡ ok true) ↔ (a ≡ true)
  ok_iff true = (λ e. refl, λ e. refl)
  ok_iff false = (λ e. cc, λ e. cc)

  pub reach_consensus_iff :
      (c : Chain x) (b : Blk x)
      → IsIeee x.floats
      → c.consensus_threshold ≤ 100
      → length c.financial_validators < 1_000_000_000_000
      → ((reach_consensus x c b ≡ ok true) ↔ (
          (has_money b ≡ true)
          × (0 < length c.financial_validators)
          × (c.consensus_threshold * length c.financial_validators
              ≤ approvals b c.financial_validators * 100)))
        × ((reach_consensus x c b ≡ undefined) ↔ (has_money b ≡ false))
  reach_consensus_iff c b f h l = elim (Bool-cases (has_money b)) [
    | inl money ↦
        let r = reach_consensus-has_money c b money in
        let counted = is_enough_iff c b c.financial_validators f h l in
        (
          (
            λ e.
                let (some_voter, share) = counted.0 ((ok_iff _).0 (sym r ∙ e)) in
                (money, some_voter, share),
            λ e. r ∙ ap ok (counted.1 (e.1, e.2)),
          ),
          (λ e. cc (sym r ∙ e), λ e. cc (sym money ∙ e)),
        )
    | inr plain ↦
        let r = reach_consensus_plain c b plain in
        ((λ e. cc (sym r ∙ e), λ e. cc (sym plain ∙ e.0)), (λ e. plain, λ e. r))
  ]

  approvals_none :
      (b : Blk x) (vs : List (Validator (Double x)))
      → All (λ v. approves x v b ≡ false) vs
      → approvals b vs ≡ 0
  approvals_none b [] h = refl
  approvals_none b (v ∷ vs) h = ground (arith, approvals_none b vs)

  approvals-All :
      (b : Blk x) (vs : List (Validator (Double x)))
      → All (λ v. approves x v b ≡ true) vs
      → approvals b vs ≡ length vs
  approvals-All b [] h = refl
  approvals-All b (v ∷ vs) h = ground (arith, approvals-All b vs)

  pub nonempty_iff :
      (vs : List (Validator (Double x))) → (not (is_empty vs) ≡ true) ↔ (0 < length vs)
  nonempty_iff [] = (λ e. cc, λ h. absurd (omega arith))
  nonempty_iff (v ∷ vs) = (λ e. omega arith, λ h. refl)

  share_le : (t n : ℕ) → t ≤ 100 → t * n ≤ n * 100
  share_le t n h = grind arith

  some_share : (t n : ℕ) → 0 < t → 0 < n → 0 < t * n
  some_share t n h k = grind arith

  All-yes :
      (c : Chain x) (b : Blk x) (vs : List (Validator (Double x)))
      → IsIeee x.floats
      → c.consensus_threshold ≤ 100
      → length vs < 1_000_000_000_000
      → All (λ v. approves x v b ≡ true) vs
      → is_enough x c b vs ≡ not (is_empty vs)
  All-yes c b vs f h l a = Bool-eq_of_iff (is_enough x c b vs) (not (is_empty vs)) (
    λ r. (nonempty_iff vs).1 ((is_enough_iff c b vs f h l).0 r).0,
    λ e. (is_enough_iff c b vs f h l).1 (
      (nonempty_iff vs).0 e,
      rw (approvals-All b vs a) (share_le c.consensus_threshold (length vs) h),
    ),
  )

  All-no :
      (c : Chain x) (b : Blk x) (vs : List (Validator (Double x)))
      → IsIeee x.floats
      → 0 < c.consensus_threshold
      → c.consensus_threshold ≤ 100
      → length vs < 1_000_000_000_000
      → All (λ v. approves x v b ≡ false) vs
      → is_enough x c b vs ≡ false
  All-no c b vs f g h l a = elim (Bool-cases (is_enough x c b vs)) [
    | inl r ↦
        let (some_voter, enough) = (is_enough_iff c b vs f h l).0 r in
        absurd (
          omega (
            arith,
            approvals_none b vs a,
            some_share c.consensus_threshold (length vs) g some_voter,
          ))
    | inr r ↦ r
  ]

  agree :
      (b : Blk x) (vs : List (Validator (Double x))) (r : Bool)
      → is_valid x b ≡ r
      → All (λ v. (v.type ≢ ValidatorType.message) ⊎ All (IsPlain x) b.transactions) vs
      → All (λ v. approves x v b ≡ r) vs
  agree b [] r e h = tt
  agree b (v ∷ vs) r e h = (validate_block-other x v b h.0 ∙ e, agree b vs r e h.1)

  -- The vote adds nothing to the chain's own check of a block. If no validator of the pool is of
  -- type MESSAGE, or the block has no financial transaction, then the approvals are enough
  -- exactly when the pool is not empty and `Block::isValid` accepts the block (with IEEE arithmetic,
  -- a threshold from 1 to 100, and fewer than 10^12 validators).
  pub is_enough-is_valid :
      (c : Chain x) (b : Blk x) (vs : List (Validator (Double x)))
      → IsIeee x.floats
      → 0 < c.consensus_threshold
      → c.consensus_threshold ≤ 100
      → length vs < 1_000_000_000_000
      → All (λ v. (v.type ≢ ValidatorType.message) ⊎ All (IsPlain x) b.transactions) vs
      → is_enough x c b vs ≡ (not (is_empty vs) && is_valid x b)
  is_enough-is_valid c b vs f g h l a = elim (Bool-cases (is_valid x b)) [
    | inl good ↦ All-yes c b vs f h l (agree b vs true good a) ∙ ground arith
    | inr bad ↦ All-no c b vs f g h l (agree b vs false bad a) ∙ ground arith
  ]

  All-financial :
      (ts : List (Tx x)) → All (IsPlain x) ts → any (λ t. is_financial (x.get_type t)) ts ≡ false
  All-financial [] h = refl
  All-financial (t ∷ ts) h = ground (arith, All-financial ts h.1)

  rejected :
      (b : Blk x) (vs : List (Validator (Double x)))
      → has_money b ≡ true
      → All (λ v. v.type ≡ ValidatorType.message) vs
      → All (λ v. approves x v b ≡ false) vs
  rejected b [] e h = tt
  rejected b (v ∷ vs) e h = (
    elim (Bool-cases (approves x v b)) [
      | inl yes_vote ↦
          cc (sym e ∙ All-financial b.transactions (message_approves x v b h.0 yes_vote))
      | inr no_vote ↦ no_vote
    ],
    rejected b vs e h.1,
  )

  -- Nothing checks the type of a validator that is put into the financial pool: where all of
  -- that pool are of type MESSAGE, no block with a financial transaction reaches consensus (with
  -- IEEE arithmetic, a threshold from 1 to 100, and fewer than 10^12 validators).
  reach_consensus-message_pool :
      (c : Chain x) (b : Blk x)
      → IsIeee x.floats
      → 0 < c.consensus_threshold
      → c.consensus_threshold ≤ 100
      → length c.financial_validators < 1_000_000_000_000
      → has_money b ≡ true
      → All (λ v. v.type ≡ ValidatorType.message) c.financial_validators
      → reach_consensus x c b ≡ ok false
  reach_consensus-message_pool c b f g h l e a =
      reach_consensus-has_money c b e
      ∙ ap ok (All-no c b c.financial_validators f g h l (rejected b c.financial_validators e a))

  -- Without validators no block gets a consensus: the percentage of no votes is not a number.
  pub reach_consensus_no_validators :
      (c : Chain x) (b : Blk x)
      → IsIeee x.floats
      → c.consensus_threshold ≤ 100
      → c.financial_validators ≡ []
      → reach_consensus x c b ≢ ok true
  reach_consensus_no_validators c b f t e r =
      let small : length c.financial_validators < 1_000_000_000_000 = rw e (omega arith) in
      let (money, some_voter, enough) = (reach_consensus_iff c b f t small).0.0 r in
      absurd (omega (arith, ap length e))
