-- ===== src/Tests/Contracts.antt =====
-- src/core/smart_contract_engine.cpp at small inputs.
use blockchain_messaging.Base.{
  List, ◌≡◌, refl, [], ◌∷◌, ◌++◌, true, false, some, Str, bytes, ok, throws, runtime_error,
}
use blockchain_messaging.Base.Maps.{lookup, insert}
use blockchain_messaging.Crypto.Hash.{hash, to_hex, hex_byte, hex_digit}
use blockchain_messaging.Core.SmartContractEngine.{
  ContractState, Engine, EngineExternals, new_engine, call_standard, execute_op, execute_ops,
  parse_bytecode, execute_custom_method, valid_opcodes, validate_opcodes, validate_contract,
  contract_address, deploy_contract, try_execute, execute_contract, update_contract_state,
  get_contract_state,
}
use blockchain_messaging.Core.SmartContractEngine.Execution.{active_in}
use blockchain_messaging.Core.SmartContractEngine.Specification.{
  Call, deploy, update, get, execute, Reply, flag, text, no_contracts, replies, promises,
}
use blockchain_messaging.Core.SmartContractEngine.Refinement.{new_engine-replies}
use blockchain_messaging.Core.SmartContractEngine.Deployment.{fresh, deploy_contract-takeover}
use blockchain_messaging.Tests.World.{checksums}

program : Unit {0}
unfolding lookup insert new_engine call_standard execute_op execute_ops parse_bytecode
    execute_custom_method valid_opcodes validate_opcodes validate_contract contract_address
    deploy_contract try_execute execute_contract update_contract_state get_contract_state hash
    to_hex hex_byte hex_digit
program = tt

abbrev externals : EngineExternals
externals = record {
  ssl = checksums;
  is_contract_active = λ e a. active_in a e.contracts;
  validate_method_call = λ method params. true;
  parse_opcodes = λ bytecode. [];
}

abbrev code : Str
code = bytes "CONSTRUCTOR;ADD"

abbrev counter : ContractState
counter = record {
  bytecode = code;
  storage = (bytes "n", bytes "1") ∷ [];
  owner = bytes "alice";
  is_active = true;
}

abbrev engine : Engine
engine = record new_engine { contracts = (bytes "M1", counter) ∷ [] }

vm_run :
    execute_ops
      (record { stack = []; storage = [] })
      (bytes "PUSH1" ∷ bytes "ADD" ∷ bytes "PUSH2" ∷ [])
    ≡ record { stack = bytes "1" ∷ bytes "2" ∷ []; storage = [] }
unfolding program
vm_run = refl

transfer_run :
    execute_contract externals engine
      (bytes "M1")
      (bytes "transfer")
      (bytes "a" ∷ bytes "b" ∷ [])
      []
    ≡ (engine, ok false)
unfolding program
transfer_run = refl

-- Two contracts, one of them deployed twice.
abbrev calls : List Call
calls =
    deploy code (bytes "bob")
    ∷ update (contract_address externals code (bytes "bob")) (bytes "n") (bytes "2")
    ∷ deploy code (bytes "eve")
    ∷ get (contract_address externals code (bytes "eve")) (bytes "n")
    ∷ get (contract_address externals code (bytes "bob")) (bytes "n")
    ∷ execute (contract_address externals code (bytes "bob")) (bytes "approve") [] (bytes "eve")
    ∷ deploy code (bytes "bob")
    ∷ get (contract_address externals code (bytes "bob")) (bytes "n")
    ∷ get (bytes "M") (bytes "n")
    ∷ []

replies_run :
    replies externals new_engine calls
    ≡ ok (Reply.address (contract_address externals code (bytes "bob")))
      ∷ ok (flag true)
      ∷ ok (Reply.address (contract_address externals code (bytes "eve")))
      ∷ throws (runtime_error "State key not found")
      ∷ ok (text (bytes "2"))
      ∷ ok (flag false)
      ∷ ok (Reply.address (contract_address externals code (bytes "bob")))
      ∷ throws (runtime_error "State key not found")
      ∷ throws (runtime_error "Contract not found or inactive")
      ∷ []
unfolding program
replies_run = refl

new_engine-replies_example :
    replies externals new_engine calls ≡ promises externals no_contracts calls
new_engine-replies_example = new_engine-replies externals (λ e a. refl) calls

abbrev address : Str
address = contract_address externals code (bytes "bob")

abbrev deployed : Engine
deployed = record engine {
  contracts = insert address (fresh externals code (bytes "bob")) engine.contracts;
}

deploy_run : deploy_contract externals engine code (bytes "bob") ≡ ok (deployed, address)
unfolding validate_contract validate_opcodes valid_opcodes deploy_contract
deploy_run = refl

abbrev taken : Engine
taken = record deployed {
  contracts =
      insert (contract_address externals (bytes "CONSTRUCTOR") (bytes ";ADDbob"))
        (fresh externals (bytes "CONSTRUCTOR") (bytes ";ADDbob")) deployed.contracts;
}

take_run :
    deploy_contract externals deployed (bytes "CONSTRUCTOR") (bytes ";ADDbob")
    ≡ ok (taken, contract_address externals (bytes "CONSTRUCTOR") (bytes ";ADDbob"))
unfolding validate_contract validate_opcodes valid_opcodes deploy_contract
take_run = refl

deploy_contract-takeover_example :
    (contract_address externals (bytes "CONSTRUCTOR") (bytes ";ADDbob") ≡ address)
    × (lookup address taken.contracts
        ≡ some (fresh externals (bytes "CONSTRUCTOR") (bytes ";ADD" ++ bytes "bob")))
deploy_contract-takeover_example =
    deploy_contract-takeover externals engine deployed deployed taken (bytes "CONSTRUCTOR")
      (bytes ";ADD") (bytes "bob") address
      (contract_address externals (bytes "CONSTRUCTOR") (bytes ";ADDbob")) deploy_run take_run
