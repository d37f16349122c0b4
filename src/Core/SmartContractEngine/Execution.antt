-- ===== src/Core/SmartContractEngine/Execution.antt =====
-- executeContract and the virtual machine.
use blockchain_messaging.Base.{
  ◌≡◌, refl, inl, inr, List, Bool, true, false, not, none, some, Str, length, ◌==◌, if◌then◌else◌,
  Bool-cases, Result, ok, throws, ◌>>◌, runtime_error, arith,
}
use blockchain_messaging.Base.Maps.{Map, lookup, insert_same}
use blockchain_messaging.Core.SmartContractEngine.{
  ContractState, Engine, transfer, balance_of, approve, call_standard, execute_ops, parse_bytecode,
  execute_custom_method, EngineExternals, try_execute, execute_contract,
}

-- The entry of a contract that is active.
abbrev pub active_in : Str → Map ContractState → Bool
active_in a m = elim (lookup a m) [ none ↦ false | some c ↦ c.is_active ]

module _ (x : EngineExternals) where
  -- `isContractActive` finds the contract and reads its flag.
  abbrev pub ReadsActive : Type 0
  ReadsActive = (e : Engine) (a : Str) → x.is_contract_active e a ≡ active_in a e.contracts

  -- What a call returns: the guards first, then the outcome of a standard function by the number of
  -- its parameters, and `true` for any other method.
  abbrev pub outcome : Engine → Str → Str → List Str → Result Bool
  outcome e address method params =
      if not (active_in address e.contracts)
      then throws (runtime_error "Contract not found or inactive")
      else if not (x.validate_method_call method params)
      then throws (runtime_error "Invalid method call")
      else elim (lookup method e.standard_functions) [
        | none ↦ ok true
        | some transfer ↦ ok (length params == 3)
        | some balance_of ↦ ok (length params == 1)
        | some approve ↦ ok (length params == 3)
      ]

  execute_custom_method_lem : (c : ContractState) → execute_custom_method c ≡ c
  unfolding execute_custom_method parse_bytecode execute_ops
  execute_custom_method_lem c = refl

  -- The `try` block on a contract that is there.
  try_execute_known :
      (e : Engine) (address method : Str) (params : List Str) (c : ContractState)
      → lookup address e.contracts ≡ some c
      → try_execute x e address method params ≡ (
        e,
        (elim (lookup method e.standard_functions) [
          | none ↦ ok true
          | some f ↦ call_standard f params >> ok true
        ]),
      )
  unfolding try_execute
  try_execute_known e address method params c h =
      ground (arith, execute_custom_method_lem c, insert_same address c e.contracts h)

  active_known :
      (a : Str) (m : Map ContractState)
      → active_in a m ≡ true
      → (c : ContractState) × (lookup a m ≡ some c)
  active_known a m h = ground arith

  -- No call changes the engine: not the storage of the contract, not any other contract. A call
  -- of an inactive or unknown contract and an invalid call throw; a standard function returns
  -- whether the number of parameters is right; any other method of an active contract returns `true`,
  -- whatever its bytecode. (`isContractActive` is taken to read the contract's flag.)
  pub execute_contract-outcome :
      (e : Engine) (address method : Str) (params : List Str) (caller : Str)
      → ReadsActive
      → execute_contract x e address method params caller ≡ (e, outcome e address method params)
  unfolding execute_contract call_standard
  execute_contract-outcome e address method params caller h =
      elim (Bool-cases (active_in address e.contracts)) [
        | inl active ↦
            let (c, known) = active_known address e.contracts active in
            ground (arith, h e address, try_execute_known e address method params c known)
        | inr inactive ↦ ground (arith, h e address)
      ]
