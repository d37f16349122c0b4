-- ===== src/Validation/Validator.antt =====
-- src/validation/validator.hpp and validator.cpp: class Validator.
pub mod Votes
pub mod Reputation
use blockchain_messaging.Base.{
  ℕ, ◌+◌, ◌-◌, ◌%◌, min, List, [], Bool, true, false, not, ◌&&◌, Str, ltb, leb, all, if◌then◌else◌,
  Result, ok, throws, invalid_argument,
}
use blockchain_messaging.Core.Transaction.{Externals, TransactionType, Double, Tx}
use blockchain_messaging.Core.Block.{Block, Blk, is_valid, uint32_mod}

pub data ValidatorType : Type 0 where
  message financial hybrid : ValidatorType

pub record HardwareSpecs : Type 0 where
  pub cpu_power : ℕ
  pub memory : ℕ
  pub bandwidth : ℕ

pub record Validator (D : Type 0) : Type 0 where
  pub address : Str
  pub type : ValidatorType
  pub staking_amount : D
  pub reputation : ℕ
  pub validated_blocks : List (Block D)
  pub specs : HardwareSpecs

meets_specs : ℕ → ℕ → ℕ → HardwareSpecs → Bool
meets_specs cpu memory bandwidth s =
    leb cpu s.cpu_power && (leb memory s.memory && leb bandwidth s.bandwidth)

-- The `switch` of verifyHardwareCapabilities. Its last `return false` is for no type.
unfoldable pub verify_hardware_capabilities : ValidatorType → HardwareSpecs → Bool
unfolding meets_specs
verify_hardware_capabilities financial s = meets_specs 8000 16384 100 s
verify_hardware_capabilities hybrid s = meets_specs 8000 16384 100 s
verify_hardware_capabilities message s = meets_specs 2000 4096 20 s

-- `type == ValidatorType::MESSAGE`.
abbrev pub is_message : ValidatorType → Bool
is_message message = true
is_message _ = false

module _ (x : Externals) where
  -- The constructor: the hardware is not set, and the result of the check is not used.
  unfoldable pub new_validator : HardwareSpecs → Str → ValidatorType → Validator (Double x)
  new_validator indeterminate address type = record {
    address = address;
    type = type;
    staking_amount = x.floats.of_nat 0;
    reputation = 100;
    validated_blocks = [];
    specs = indeterminate;
  }

  -- The `switch` of validateTransaction.
  unfoldable pub validate_type : ValidatorType → TransactionType → Bool
  validate_type v TransactionType.financial = if is_message v then false else true
  validate_type v TransactionType.message = true
  validate_type v TransactionType.reward = true

  unfoldable pub validate_transaction : Validator (Double x) → Tx x → Bool
  unfolding validate_type
  validate_transaction v t =
      if not (x.is_valid t) then false else validate_type v.type (x.get_type t)

  unfoldable pub validate_block : Validator (Double x) → Blk x → Bool
  validate_block v b =
      if not (is_valid x b) then false else all (validate_transaction v) b.transactions

  unfoldable pub stake : Validator (Double x) → Double x → Result (Validator (Double x))
  stake v amount =
      if x.floats.le amount (x.floats.of_nat 0)
      then throws (invalid_argument "Staking amount must be positive")
      else ok (record v { staking_amount = x.floats.add v.staking_amount amount })

-- `reputation + 1` is taken in uint32_t.
unfoldable pub update_reputation : {D : Type 0} → Validator D → Bool → Validator D
update_reputation v true = record v { reputation = min ((v.reputation + 1) % uint32_mod) 100 }
update_reputation v false = record v {
  reputation = if ltb 5 v.reputation then v.reputation - 5 else 0;
}
