-- ===== src/Validation/Consensus/Rounds.antt =====
-- ConsensusManager::achieveConsensus: where the votes go, and what it answers.
use blockchain_messaging.Base.{
  ℕ, ◌%◌, ◌≤◌, ◌<◌, ◌≡◌, ◌≢◌, refl, ap, ◌∙◌, inl, inr, List, [], ◌∷◌, ◌++◌, Bool, true, false, Str,
  length, ltb, Bool-cases, IsIeee, percentage, ok, undefined, arith,
}
use blockchain_messaging.Base.Maps.{Map, insert}
use blockchain_messaging.Core.Transaction.{Externals, Double}
use blockchain_messaging.Core.Block.{Blk, uint32_mod}
use blockchain_messaging.Validation.Validator.{Validator, validate_block}
use blockchain_messaging.Validation.Consensus.{
  ConsensusRound, Manager, set_back_vote, count_positive, collect_from, collect_validator_votes,
  achieve_consensus,
}

module _ (x : Externals) where
  -- The votes of the validators on a block, put into a map in their order.
  abbrev pub votes_into : Blk x → List (Validator (Double x)) → Map Bool → Map Bool
  votes_into b [] votes = votes
  votes_into b (v ∷ vs) votes = votes_into b vs (insert v.address (validate_block x v b) votes)

  abbrev pub HasEnough : Manager x → Type 0
  HasEnough m = m.required_validators ≤ length m.active_validators

  set_back_vote-last :
      (address : Str) (vote : Bool) (rs : List ConsensusRound) (r : ConsensusRound)
      → set_back_vote address vote (rs ++ r ∷ [])
        ≡ ok (rs ++ record r { validator_votes = insert address vote r.validator_votes } ∷ [])
  unfolding set_back_vote
  set_back_vote-last address vote [] r = refl
  set_back_vote-last address vote (r' ∷ []) r = refl
  set_back_vote-last address vote (r' ∷ r'' ∷ rs) r =
      rw (set_back_vote-last address vote (r'' ∷ rs) r)

  collect_from-last :
      (b : Blk x) (vs : List (Validator (Double x))) (rs : List ConsensusRound) (r : ConsensusRound)
      → collect_from x b vs (rs ++ r ∷ [])
        ≡ ok (rs ++ record r { validator_votes = votes_into b vs r.validator_votes } ∷ [])
  unfolding collect_from
  collect_from-last b [] rs r = refl
  collect_from-last b (v ∷ vs) rs r =
      rw (set_back_vote-last v.address (validate_block x v b) rs r) (collect_from-last b vs rs _)

  new_round : Manager x → Blk x → ConsensusRound
  new_round m b = record {
    round_number = length m.consensus_history % uint32_mod;
    block_hash = b.hash;
    validator_votes = [];
    is_complete = true;
  }

  -- A round needs a round before it: on an empty history the votes go to `consensusHistory.back()`
  -- of an empty vector, which is undefined, as soon as there is a validator and there are enough.
  achieve_consensus-first :
      (m : Manager x) (b : Blk x) (v : Validator (Double x)) (vs : List (Validator (Double x)))
      → HasEnough m
      → m.active_validators ≡ v ∷ vs
      → m.consensus_history ≡ []
      → achieve_consensus x m b ≡ undefined
  unfolding achieve_consensus collect_validator_votes
  achieve_consensus-first m b v vs h e k =
      let undef : collect_from x b m.active_validators m.consensus_history ≡ undefined =
        rw (e, k) (unfold collect_from set_back_vote in refl) in
      rw undef (ground arith)

  -- A percentage of no positive votes.
  no_votes :
      (t n : ℕ)
      → IsIeee x.floats
      → 0 < t
      → t ≤ 100
      → n < 1_000_000_000_000
      → x.floats.le (x.floats.of_nat t) (
          x.floats.div (x.floats.mul (x.floats.of_nat 0) (x.floats.of_nat 100)) (x.floats.of_nat n))
        ≡ false
  no_votes t n f g h l = elim (Bool-cases reached) [
    | inl r ↦
        let (some_voter, enough) = (percentage x.floats t 0 n f h (omega arith) l).0 r in
        absurd (grind arith)
    | inr r ↦ r
  ]
    where
      reached : Bool
      reached = x.floats.le (x.floats.of_nat t) (
          x.floats.div (x.floats.mul (x.floats.of_nat 0) (x.floats.of_nat 100)) (x.floats.of_nat n))

  achieve_of :
      (m : Manager x) (b : Blk x) (rs : List ConsensusRound) (r : ConsensusRound)
      → HasEnough m
      → m.consensus_history ≡ rs ++ r ∷ []
      → IsIeee x.floats
      → 0 < m.consensus_threshold
      → m.consensus_threshold ≤ 100
      → length m.active_validators < 1_000_000_000_000
      → achieve_consensus x m b
        ≡ ok (
          record m {
            consensus_history =
                (rs
                  ++ record r {
                    validator_votes = votes_into b m.active_validators r.validator_votes;
                  }
                    ∷ [])
                ++ new_round m b ∷ [];
          },
          false,
        )
  unfolding achieve_consensus collect_validator_votes new_round count_positive
  achieve_of m b rs r h e f g k l =
      let enough : ltb (length m.active_validators) m.required_validators ≡ false = ground arith in
      let collected =
        ap (collect_from x b m.active_validators) e
        ∙ collect_from-last b m.active_validators rs r in
      rw (enough, collected, achieve_consensus, collect_validator_votes)
        (rw (no_votes m.consensus_threshold (length m.active_validators) f g k l))

  -- The round of a call never gets the votes of that call. With a round in the history and enough
  -- validators (and IEEE arithmetic, a threshold from 1 to 100, fewer than 10^12 validators) the
  -- votes are put into the last earlier round, over the votes that it holds; the new round is appended with
  -- no vote; and the answer is `false`, whatever the validators say of the block.
  achieve_consensus-later :
      (m : Manager x) (b : Blk x) (rs : List ConsensusRound) (r : ConsensusRound)
      → HasEnough m
      → m.consensus_history ≡ rs ++ r ∷ []
      → IsIeee x.floats
      → 0 < m.consensus_threshold
      → m.consensus_threshold ≤ 100
      → length m.active_validators < 1_000_000_000_000
      → (m' : Manager x) × (new : ConsensusRound) × (achieve_consensus x m b ≡ ok (m', false))
        × (m'.consensus_history
            ≡ (rs
                ++ record r { validator_votes = votes_into b m.active_validators r.validator_votes }
                  ∷ [])
              ++ new ∷ [])
        × (new.block_hash ≡ b.hash)
        × (new.validator_votes ≡ [])
  unfolding new_round
  achieve_consensus-later m b rs r h e f g k l =
      (_, new_round m b, achieve_of m b rs r h e f g k l, refl, refl, refl)

  -- `achieveConsensus` never answers `true`: no validators, history and block make a call
  -- return with that answer (with IEEE arithmetic, a threshold from 1 to 100, fewer than 10^12
  -- validators).
  pub achieve_consensus-false :
      (m m' : Manager x) (b : Blk x)
      → IsIeee x.floats
      → 0 < m.consensus_threshold
      → m.consensus_threshold ≤ 100
      → length m.active_validators < 1_000_000_000_000
      → achieve_consensus x m b ≢ ok (m', true)
  unfolding achieve_consensus count_positive
  achieve_consensus-false m m' b f g k l e =
      ground (arith, no_votes m.consensus_threshold (length m.active_validators) f g k l)
