-- ===== src/Core/SmartContractEngine/Storage.antt =====
-- updateContractState and getContractState on a contract that is there and active.
use blockchain_messaging.Base.{◌≡◌, true, none, some, Str, ok, throws, runtime_error, arith}
use blockchain_messaging.Base.Maps.{lookup, insert}
use blockchain_messaging.Core.SmartContractEngine.{
  ContractState, Engine, EngineExternals, update_contract_state, get_contract_state,
}
use blockchain_messaging.Core.SmartContractEngine.Execution.{ReadsActive}

module _ (x : EngineExternals) where
  -- The engine after a successful update.
  unfoldable pub written : Engine → Str → Str → Str → ContractState → Engine
  written e address key value c = record e {
    contracts = insert address (record c { storage = insert key value c.storage }) e.contracts;
  }

  pub update_known :
      (e : Engine) (address key value : Str) (c : ContractState)
      → ReadsActive x
      → lookup address e.contracts ≡ some c
      → c.is_active ≡ true
      → update_contract_state x e address key value ≡ (written e address key value c, true)
  unfolding update_contract_state written
  update_known e address key value c h known active = ground (arith, h e address)

  pub get_known :
      (e : Engine) (address key : Str) (c : ContractState)
      → ReadsActive x
      → lookup address e.contracts ≡ some c
      → c.is_active ≡ true
      → get_contract_state x e address key ≡ (elim (lookup key c.storage) [
        | none ↦ throws (runtime_error "State key not found")
        | some value ↦ ok value
      ])
  unfolding get_contract_state
  get_known e address key c h known active = ground (arith, h e address)
