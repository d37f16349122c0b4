-- ===== src/Core/SmartContractEngine/Deployment.antt =====
-- deployContract: what it accepts, what it creates, and whose address it writes to.
use blockchain_messaging.Base.{
  ◌≡◌, ◌≢◌, ap, ◌∙◌, sym, [], ◌++◌, append_assoc, true, some, Str, bytes, contains, length,
  length-take, ok, throws, runtime_error, arith,
}
use blockchain_messaging.Base.Maps.{lookup, insert, lookup-insert_self, lookup-insert_ne}
use blockchain_messaging.Crypto.Hash.{IsOpenSsl, hash}
use blockchain_messaging.Crypto.Hash.Hex.{length-hash}
use blockchain_messaging.Core.SmartContractEngine.{
  ContractState, Engine, EngineExternals, validate_opcodes, validate_contract, contract_address,
  deploy_contract, get_contract_state,
}
use blockchain_messaging.Core.SmartContractEngine.Execution.{active_in, ReadsActive}

module _ (x : EngineExternals) where
  -- The contract as it is after its deployment.
  abbrev pub fresh : Str → Str → ContractState
  fresh bytecode owner = record {
    bytecode = bytecode;
    storage = [];
    owner = owner;
    is_active = true;
  }

  pub deploy_of :
      (e : Engine) (bytecode owner : Str)
      → validate_contract x bytecode ≡ true
      → deploy_contract x e bytecode owner
        ≡ ok (
          record e {
            contracts =
                insert (contract_address x bytecode owner) (fresh bytecode owner) e.contracts;
          },
          contract_address x bytecode owner,
        )
  unfolding deploy_contract
  deploy_of e bytecode owner h = rw h

  deploy-inv :
      (e e' : Engine) (bytecode owner a : Str)
      → deploy_contract x e bytecode owner ≡ ok (e', a)
      → (validate_contract x bytecode ≡ true)
        × (a ≡ contract_address x bytecode owner)
        × (e' ≡ record e {
          contracts = insert (contract_address x bytecode owner) (fresh bytecode owner) e.contracts;
        })
  unfolding deploy_contract
  deploy-inv e e' bytecode owner a h = (ground arith, ground arith, ground arith)

  validate_contract-parts :
      (bytecode : Str)
      → validate_contract x bytecode ≡ true
      → (contains (bytes "CONSTRUCTOR") bytecode ≡ true) × (validate_opcodes x bytecode ≡ true)
  unfolding validate_contract
  validate_contract-parts bytecode h = (ground arith, ground arith)

  length-contract_address :
      (bytecode owner : Str) → IsOpenSsl x.ssl → length (contract_address x bytecode owner) ≡ 31
  unfolding contract_address
  length-contract_address bytecode owner o = omega (
    arith,
    length-take 30 (hash x.ssl (bytecode ++ owner)),
    length-hash x.ssl o (bytecode ++ owner),
  )

  empty_read :
      (e : Engine) (a key : Str) {bytecode owner : Str}
      → ReadsActive x
      → lookup a e.contracts ≡ some (fresh bytecode owner)
      → get_contract_state x e a key ≡ throws (runtime_error "State key not found")
  unfolding get_contract_state lookup
  empty_read e a key h there = ground (arith, h e a)

  -- A deployment that succeeds had bytecode with the text CONSTRUCTOR and no operation outside the
  -- list. Its address has 31 characters. The address then holds the bytecode and the owner
  -- with an empty storage, and is active, so reading any key throws "State key not found"; every other address
  -- holds what it held. (`isContractActive` is taken to read the contract's flag, and the digests
  -- to have their documented length.)
  deploy_contract-creates :
      (e e' : Engine) (bytecode owner a other key : Str)
      → ReadsActive x
      → IsOpenSsl x.ssl
      → deploy_contract x e bytecode owner ≡ ok (e', a)
      → other ≢ a
      → (contains (bytes "CONSTRUCTOR") bytecode ≡ true)
        × (validate_opcodes x bytecode ≡ true)
        × (length a ≡ 31)
        × (lookup a e'.contracts ≡ some (fresh bytecode owner))
        × (active_in a e'.contracts ≡ true)
        × (get_contract_state x e' a key ≡ throws (runtime_error "State key not found"))
        × (lookup other e'.contracts ≡ lookup other e.contracts)
  deploy_contract-creates e e' bytecode owner a other key h o d ne =
      let (valid, at, made) = deploy-inv e e' bytecode owner a d in
      let (constructor, opcodes) = validate_contract-parts bytecode valid in
      let there : lookup a e'.contracts ≡ some (fresh bytecode owner) =
        rw (made, at)
          (lookup-insert_self (contract_address x bytecode owner) (fresh bytecode owner)
            e.contracts) in
      let kept : lookup other e'.contracts ≡ lookup other e.contracts = rw made (
        lookup-insert_ne (contract_address x bytecode owner) other (fresh bytecode owner)
          e.contracts (λ p. ne (sym p ∙ sym at))) in
      (
        constructor,
        opcodes,
        ap length at ∙ length-contract_address bytecode owner o,
        there,
        ground (arith, there),
        empty_read e' a key h there,
        kept,
      )

  contract_address-shift :
      (b s o : Str) → contract_address x (b ++ s) o ≡ contract_address x b (s ++ o)
  unfolding contract_address
  contract_address-shift b s o = rw (append_assoc b s o)

  -- The address hashes the bytecode and the owner joined, so it does not say where one ends. Who
  -- deploys the first part of another contract's bytecode, under an owner name that begins with the
  -- part cut off, gets that contract's address and replaces it: bytecode, owner, and all that it
  -- had stored, whatever happened in between. With nothing cut off this is the redeployment of a
  -- contract, which wipes its storage.
  pub deploy_contract-takeover :
      (e₁ e₁' e₂ e₂' : Engine) (b s o a a' : Str)
      → deploy_contract x e₁ (b ++ s) o ≡ ok (e₁', a)
      → deploy_contract x e₂ b (s ++ o) ≡ ok (e₂', a')
      → (a' ≡ a) × (lookup a e₂'.contracts ≡ some (fresh b (s ++ o)))
  deploy_contract-takeover e₁ e₁' e₂ e₂' b s o a a' d d' =
      let (v, at, made) = deploy-inv e₁ e₁' (b ++ s) o a d in
      let (v', at', made') = deploy-inv e₂ e₂' b (s ++ o) a' d' in
      let same : contract_address x (b ++ s) o ≡ contract_address x b (s ++ o) =
        contract_address-shift b s o in
      (
        at' ∙ sym same ∙ sym at,
        rw (made', at, same)
            (lookup-insert_self (contract_address x b (s ++ o)) (fresh b (s ++ o)) e₂.contracts),
      )
