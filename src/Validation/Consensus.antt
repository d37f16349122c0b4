-- ===== src/Validation/Consensus.antt =====
-- src/validation/consensus.hpp and consensus.cpp: class ConsensusManager. The futures of
-- collectValidatorVotes each run a const method and are all waited for, so their order shows nowhere.
pub mod Rounds
use blockchain_messaging.Base.{
  ℕ, suc, ◌+◌, ◌%◌, List, [], ◌∷◌, ◌++◌, Bool, true, false, Str, length, last?, some, none, ltb,
  if◌then◌else◌, Result, ok, undefined, ◌>>=◌,
}
use blockchain_messaging.Base.Maps.{Map, insert}
use blockchain_messaging.Core.Transaction.{Externals, Double}
use blockchain_messaging.Core.Block.{Block, Blk, uint32_mod}
use blockchain_messaging.Validation.Validator.{Validator, validate_block}

pub data ConsensusType : Type 0 where
  proof_of_participation proof_of_stake hybrid : ConsensusType

pub record ConsensusRound : Type 0 where
  pub round_number : ℕ
  pub block_hash : Str
  pub validator_votes : Map Bool
  pub is_complete : Bool

pub record ConsensusManager (D : Type 0) : Type 0 where
  pub type : ConsensusType
  pub required_validators : ℕ
  pub consensus_threshold : ℕ
  pub active_validators : List (Validator D)
  pub consensus_history : List ConsensusRound

-- `consensusHistory.back().validatorVotes[address] = vote`.
unfoldable pub set_back_vote : Str → Bool → List ConsensusRound → Result (List ConsensusRound)
set_back_vote address vote [] = undefined
set_back_vote address vote (r ∷ []) =
    ok (record r { validator_votes = insert address vote r.validator_votes } ∷ [])
set_back_vote address vote (r ∷ r' ∷ rs) = do
  rest ← set_back_vote address vote (r' ∷ rs)
  ok (r ∷ rest)

-- `for (const auto& [_, vote] : votes) if (vote) positiveVotes++;`
unfoldable pub count_positive : Map Bool → ℕ
count_positive [] = 0
count_positive ((_, vote) ∷ votes) =
    if vote then (count_positive votes + 1) % uint32_mod else count_positive votes

module _ (x : Externals) where
  abbrev pub Manager : Type 0
  Manager = ConsensusManager (Double x)

  unfoldable pub new_manager : ConsensusType → ℕ → Manager
  new_manager type required = record {
    type = type;
    required_validators = required;
    consensus_threshold = 75;
    active_validators = [];
    consensus_history = [];
  }

  -- The loop that collects the results.
  unfoldable pub collect_from :
      Blk x → List (Validator (Double x)) → List ConsensusRound → Result (List ConsensusRound)
  collect_from b [] history = ok history
  collect_from b (v ∷ vs) history =
      set_back_vote v.address (validate_block x v b) history >>= λ history'.
      collect_from b vs history'

  unfoldable pub collect_validator_votes : Manager → Blk x → Result Manager
  collect_validator_votes m b = do
    history ← collect_from b m.active_validators m.consensus_history
    ok (record m { consensus_history = history })

  -- `round` is a local variable: its votes are those that its own map holds.
  unfoldable pub achieve_consensus : Manager → Blk x → Result (Manager × Bool)
  achieve_consensus m b =
      if ltb (length m.active_validators) m.required_validators then ok (m, false) else do
        let round : ConsensusRound = record {
          round_number = length m.consensus_history % uint32_mod;
          block_hash = b.hash;
          validator_votes = [];
          is_complete = true;
        }
        m' ← collect_validator_votes m b
        ok (
          record m' { consensus_history = m'.consensus_history ++ round ∷ [] },
          x.floats.le (x.floats.of_nat m.consensus_threshold) (
              x.floats.div
                (x.floats.mul (x.floats.of_nat (count_positive round.validator_votes))
                  (x.floats.of_nat 100))
                (x.floats.of_nat (length m.active_validators))),
        )
