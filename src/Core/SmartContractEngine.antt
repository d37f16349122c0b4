-- ===== src/Core/SmartContractEngine.antt =====
-- src/core/smart_contract_engine.hpp and smart_contract_engine.cpp: class SmartContractEngine.
pub mod Execution
pub mod Storage
pub mod Deployment
pub mod Specification
pub mod Views
pub mod Refinement
use blockchain_messaging.Base.{
  ℕ, ◌+◌, List, [], ◌∷◌, ◌++◌, Bool, true, false, not, ◌&&◌, Option, none, some, Str, bytes, str_eq,
  contains, is_empty, length, take, drop, any, all, ◌==◌, if◌then◌else◌, Result, ok, throws,
  undefined, ◌>>=◌, ◌>>◌, guard, try_catch, Error, runtime_error, invalid_argument, out_of_range,
}
use blockchain_messaging.Base.Maps.{Map, lookup, insert}
use blockchain_messaging.Crypto.Hash.{OpenSsl, hash}

pub record ContractState : Type 0 where
  pub bytecode : Str
  pub storage : Map Str
  pub owner : Str
  pub is_active : Bool

-- The lambdas of initializeStandardFunctions: each only counts its parameters.
pub data StandardFunction : Type 0 where
  transfer balance_of approve : StandardFunction

pub record Engine : Type 0 where
  pub contracts : Map ContractState
  pub standard_functions : Map StandardFunction

unfoldable pub call_standard : StandardFunction → List Str → Result (Unit {0})
call_standard transfer params =
    guard (length params == 3) (invalid_argument "Invalid parameters for transfer")
call_standard balance_of params =
    guard (length params == 1) (invalid_argument "Invalid parameters for balanceOf")
call_standard approve params =
    guard (length params == 3) (invalid_argument "Invalid parameters for approve")

-- The constructor, through initializeStandardFunctions.
unfoldable pub new_engine : Engine
new_engine = record {
  contracts = [];
  standard_functions =
      (bytes "transfer", transfer)
      ∷ (bytes "balanceOf", balance_of)
      ∷ (bytes "approve", approve)
      ∷ [];
}

-- The virtual machine of executeCustomMethod, with the storage of the contract.
pub record Vm : Type 0 where
  pub stack : List Str
  pub storage : Map Str

-- One round of its loop. ADD, STORE and LOAD have empty bodies. The top of the stack is its end.
unfoldable pub execute_op : Vm → Str → Vm
execute_op vm op =
    if str_eq (take 4 op) (bytes "PUSH")
    then record vm { stack = vm.stack ++ drop 4 op ∷ [] }
    else vm

unfoldable pub execute_ops : Vm → List Str → Vm
execute_ops vm [] = vm
execute_ops vm (op ∷ ops) = execute_ops (execute_op vm op) ops

-- `parseBytecode` returns its empty vector.
unfoldable pub parse_bytecode : Str → List Str
parse_bytecode bytecode = []

unfoldable pub execute_custom_method : ContractState → ContractState
execute_custom_method state = record state {
  storage =
      (execute_ops (record { stack = []; storage = state.storage })
        (parse_bytecode state.bytecode)).storage;
}

unfoldable pub valid_opcodes : List Str
valid_opcodes =
    bytes "PUSH"
    ∷ bytes "POP"
    ∷ bytes "ADD"
    ∷ bytes "SUB"
    ∷ bytes "MUL"
    ∷ bytes "DIV"
    ∷ bytes "STORE"
    ∷ bytes "LOAD"
    ∷ bytes "CALL"
    ∷ bytes "RETURN"
    ∷ []

-- A contract as `contracts[address]` makes it where there is none.
abbrev pub blank_contract : ContractState
blank_contract = record { bytecode = []; storage = []; owner = []; is_active = false }

-- What the engine calls and the repository does not define.
pub record EngineExternals : Type 0 where
  pub ssl : OpenSsl
  pub is_contract_active : Engine → Str → Bool
  pub validate_method_call : Str → List Str → Bool
  pub parse_opcodes : Str → List Str

module _ (x : EngineExternals) where
  unfoldable pub validate_opcodes : Str → Bool
  validate_opcodes bytecode =
      all (λ op. any (λ valid. str_eq valid op) valid_opcodes) (x.parse_opcodes bytecode)

  unfoldable pub validate_contract : Str → Bool
  validate_contract bytecode =
      if is_empty bytecode
      then false
      else contains (bytes "CONSTRUCTOR") bytecode && validate_opcodes bytecode

  -- `"M" + SHA256::hash(bytecode + owner).substr(0, 30)`.
  unfoldable pub contract_address : Str → Str → Str
  contract_address bytecode owner = b'M' ∷ take 30 (hash x.ssl (bytecode ++ owner))

  unfoldable pub deploy_contract : Engine → Str → Str → Result (Engine × Str)
  deploy_contract e bytecode owner =
      if not (validate_contract bytecode)
      then throws (runtime_error "Invalid contract bytecode")
      else ok (
        record e {
          contracts =
              insert (contract_address bytecode owner)
                (record { bytecode = bytecode; storage = []; owner = owner; is_active = true })
                e.contracts;
        },
        contract_address bytecode owner,
      )

  -- The `try` block of executeContract, on an active contract and a valid call.
  unfoldable pub try_execute : Engine → Str → Str → List Str → Engine × Result Bool
  try_execute e address method params = elim (lookup method e.standard_functions) [
    | some f ↦ (e, call_standard f params >> ok true)
    | none ↦
        let state : ContractState = elim (lookup address e.contracts) [
          | none ↦ blank_contract
          | some c ↦ c
        ] in
        (record e { contracts = insert address (execute_custom_method state) e.contracts }, ok true)
  ]

  -- The engine afterwards, and what the call returns or throws. The caller is passed on to a
  -- method that does not use it.
  unfoldable pub execute_contract : Engine → Str → Str → List Str → Str → Engine × Result Bool
  execute_contract e address method params caller =
      if not (x.is_contract_active e address)
      then (e, throws (runtime_error "Contract not found or inactive"))
      else if not (x.validate_method_call method params)
      then (e, throws (runtime_error "Invalid method call"))
      else (let (e', r) = try_execute e address method params in (e', try_catch r (λ _. ok false)))

  unfoldable pub update_contract_state : Engine → Str → Str → Str → Engine × Bool
  update_contract_state e address key value =
      if not (x.is_contract_active e address)
      then (e, false)
      else (let state : ContractState = elim (lookup address e.contracts) [
        | none ↦ blank_contract
        | some c ↦ c
      ] in
          (
            record e {
              contracts =
                  insert address (record state { storage = insert key value state.storage })
                    e.contracts;
            },
            true,
          ))

  unfoldable pub get_contract_state : Engine → Str → Str → Result Str
  get_contract_state e address key =
      if not (x.is_contract_active e address)
      then throws (runtime_error "Contract not found or inactive")
      else elim (lookup address e.contracts) [
        | none ↦ throws (out_of_range "unordered_map::at")
        | some c ↦ elim (lookup key c.storage) [
          | none ↦ throws (runtime_error "State key not found")
          | some value ↦ ok value
        ]
      ]
