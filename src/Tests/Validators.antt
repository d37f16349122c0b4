-- ===== src/Tests/Validators.antt =====
-- src/validation at small inputs.
use blockchain_messaging.Base.{
  ◌+◌, ◌*◌, ◌≤◌, ◌≡◌, ◌≢◌, refl, ◌↔◌, ◌⊎◌, [], ◌∷◌, true, false, bytes, All, ok, arith,
}
use blockchain_messaging.Base.Integers.{pos}
use blockchain_messaging.Base.Maps.{insert}
use blockchain_messaging.Core.Block.{Block, calculate_hash, is_valid, new_block}
use blockchain_messaging.Validation.Validator.{
  Validator, ValidatorType, HardwareSpecs, new_validator, validate_transaction, validate_type,
  validate_block, update_reputation,
}
use blockchain_messaging.Validation.Validator.Votes.{IsPlain, validate_block_iff}
use blockchain_messaging.Validation.Validator.Reputation.{run_reports, run_reports-bounds}
use blockchain_messaging.Validation.Consensus.{
  ConsensusManager, ConsensusRound, ConsensusType, new_manager, achieve_consensus,
  collect_validator_votes, collect_from, set_back_vote, count_positive,
}
use blockchain_messaging.Validation.Consensus.Rounds.{achieve_consensus-false}
use blockchain_messaging.Tests.World.{Number, whole, world, numbers-IsIeee, sample}

program : Unit {0}
unfolding new_validator validate_transaction validate_type validate_block update_reputation is_valid
    achieve_consensus collect_validator_votes collect_from set_back_vote count_positive insert
program = tt

abbrev big : HardwareSpecs
big = record { cpu_power = 8000; memory = 16384; bandwidth = 100 }

abbrev alice : Validator Number
alice = record {
  address = bytes "alice";
  type = ValidatorType.message;
  staking_amount = whole (pos 0);
  reputation = 98;
  validated_blocks = [];
  specs = big;
}

abbrev block : Block Number
block = new_block world 12 1 (sample (bytes "f") (bytes "a") (bytes "b") 5 ∷ []) (bytes "0")

validate_block_iff_example : (validate_block world alice block ≡ true) ↔ (
    (block.hash ≡ calculate_hash world block)
    × All (λ t. world.is_valid t ≡ true) block.transactions
    × ((alice.type ≢ ValidatorType.message) ⊎ All (IsPlain world) block.transactions))
validate_block_iff_example = validate_block_iff world alice block

reports_run : (run_reports alice (true ∷ true ∷ true ∷ false ∷ [])).reputation ≡ 95
unfolding program
reports_run = refl

run_reports-bounds_example :
    ((run_reports alice (true ∷ false ∷ [])).reputation ≤ 100)
    × (98 ≤ (run_reports alice (true ∷ false ∷ [])).reputation + 5 * 1)
    × ((run_reports alice (true ∷ false ∷ [])).reputation ≤ 98 + 1)
run_reports-bounds_example = run_reports-bounds alice (true ∷ false ∷ []) (omega arith)

abbrev manager : ConsensusManager Number
manager = record (new_manager world ConsensusType.hybrid 1) { active_validators = alice ∷ [] }

abbrev old_round : ConsensusRound
old_round = record { round_number = 0; block_hash = []; validator_votes = []; is_complete = true }

abbrev second : ConsensusManager Number
second = record manager { consensus_history = old_round ∷ [] }

-- A manager that asks for no validator and has none.
abbrev lonely : ConsensusManager Number
lonely = new_manager world ConsensusType.hybrid 0

abbrev lonely_after : ConsensusManager Number
lonely_after = record lonely {
  consensus_history =
      record { round_number = 0; block_hash = block.hash; validator_votes = []; is_complete = true }
      ∷ [];
}

lonely_answer : achieve_consensus world lonely block ≡ ok (lonely_after, false)
unfolding program new_manager
lonely_answer = refl

achieve_consensus-false_example : achieve_consensus world lonely block ≢ ok (lonely_after, true)
unfolding new_manager
achieve_consensus-false_example =
    achieve_consensus-false world lonely lonely_after block numbers-IsIeee (omega arith)
      (omega arith) (omega arith)
