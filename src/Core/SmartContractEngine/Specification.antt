-- ===== src/Core/SmartContractEngine/Specification.antt =====
-- What SmartContractEngine promises to its callers: contracts are addresses with a store each. No
-- call shows a contract's bytecode, its owner or its flag.
use blockchain_messaging.Base.{
  List, [], ◌∷◌, Bool, true, false, Option, none, some, Str, bytes, str_eq, length, ◌==◌,
  if◌then◌else◌, Result, ok, throws, undefined, runtime_error,
}
use blockchain_messaging.Core.SmartContractEngine.{
  Engine, EngineExternals, validate_contract, contract_address, deploy_contract, execute_contract,
  update_contract_state, get_contract_state,
}

pub data Call : Type 0 where
  deploy : Str → Str → Call
  update : Str → Str → Str → Call
  get : Str → Str → Call
  execute : Str → Str → List Str → Str → Call

-- What a call returns.
pub data Reply : Type 0 where
  address : Str → Reply
  flag : Bool → Reply
  text : Str → Reply

abbrev pub reply {ℓ} : {A : Type ℓ} → (A → Reply) → Result A → Result Reply
reply f (ok a) = ok (f a)
reply f (throws e) = throws e
reply f undefined = undefined

-- The value of each key of a contract, and the contract at each address.
abbrev pub Store : Type 0
Store = Str → Option Str

abbrev pub Ledger : Type 0
Ledger = Str → Option Store

abbrev pub no_contracts : Ledger
no_contracts a = none

-- The function with another value at one text.
abbrev pub at {ℓ} : {A : Type ℓ} → Str → A → (Str → A) → Str → A
at k v f j = if str_eq k j then v else f j

-- What a method of a contract answers.
abbrev pub method_answer : Str → List Str → Bool
method_answer method params =
    if str_eq (bytes "transfer") method
    then length params == 3
    else if str_eq (bytes "balanceOf") method
    then length params == 1
    else if str_eq (bytes "approve") method
    then length params == 3
    else true

module _ (x : EngineExternals) where
  -- The engine after a call, and what the call returns or throws.
  abbrev pub call : Engine → Call → Engine × Result Reply
  call e (deploy bytecode owner) = elim (deploy_contract x e bytecode owner) [
    | ok (e', a) ↦ (e', ok (address a))
    | throws r ↦ (e, throws r)
    | undefined ↦ (e, undefined)
  ]
  call e (update a key value) =
      let (e', done) = update_contract_state x e a key value in (e', ok (flag done))
  call e (get a key) = (e, reply text (get_contract_state x e a key))
  call e (execute a method params caller) =
      let (e', r) = execute_contract x e a method params caller in (e', reply flag r)

  -- The same for the ledger.
  abbrev pub promise : Ledger → Call → Ledger × Result Reply
  promise s (deploy bytecode owner) =
      if validate_contract x bytecode
      then (
        at (contract_address x bytecode owner) (some (λ k. none)) s,
        ok (address (contract_address x bytecode owner)),
      )
      else (s, throws (runtime_error "Invalid contract bytecode"))
  promise s (update a key value) = elim (s a) [
    | none ↦ (s, ok (flag false))
    | some f ↦ (at a (some (at key (some value) f)) s, ok (flag true))
  ]
  promise s (get a key) = elim (s a) [
    | none ↦ (s, throws (runtime_error "Contract not found or inactive"))
    | some f ↦ elim (f key) [
      | none ↦ (s, throws (runtime_error "State key not found"))
      | some value ↦ (s, ok (text value))
    ]
  ]
  promise s (execute a method params caller) = elim (s a) [
    | none ↦ (s, throws (runtime_error "Contract not found or inactive"))
    | some f ↦ (
      s,
      (if x.validate_method_call method params
          then ok (flag (method_answer method params))
          else throws (runtime_error "Invalid method call")),
    )
  ]

  -- What the calls of a list return, one after the other.
  abbrev pub replies : Engine → List Call → List (Result Reply)
  replies e [] = []
  replies e (c ∷ cs) = let (e', r) = call e c in r ∷ replies e' cs

  abbrev pub promises : Ledger → List Call → List (Result Reply)
  promises s [] = []
  promises s (c ∷ cs) = let (s', r) = promise s c in r ∷ promises s' cs
