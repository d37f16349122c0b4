-- ===== src/Core/SmartContractEngine/Refinement.antt =====
-- SmartContractEngine against its specification.
use blockchain_messaging.Base.{
  ◌≡◌, refl, ap, ap₂, ◌∙◌, inl, inr, List, [], ◌∷◌, Bool, not, true, false, none, some,
  Option-cases, Str, bytes, str_eq, length, ◌==◌, if◌then◌else◌, Bool-cases, Result, ok, throws,
  runtime_error, arith,
}
use blockchain_messaging.Base.Maps.{lookup, insert}
use blockchain_messaging.Core.SmartContractEngine.{
  ContractState, Engine, new_engine, transfer, balance_of, approve, EngineExternals,
  validate_contract, contract_address, deploy_contract, update_contract_state, get_contract_state,
}
use blockchain_messaging.Core.SmartContractEngine.Execution.{
  active_in, ReadsActive, outcome, execute_contract-outcome,
}
use blockchain_messaging.Core.SmartContractEngine.Storage.{written, update_known, get_known}
use blockchain_messaging.Core.SmartContractEngine.Deployment.{fresh, deploy_of}
use blockchain_messaging.Core.SmartContractEngine.Specification.{
  Call, deploy, update, get, execute, Reply, flag, reply, Ledger, Store, no_contracts, at,
  method_answer, call, promise, replies, promises,
}
use blockchain_messaging.Core.SmartContractEngine.Views.{
  view, insert-at, view-insert, IsLive, new_engine-IsLive, insert-IsLive,
}

module _ (x : EngineExternals) (h : ReadsActive x) where
  -- One call on both sides.
  record Agree (p : Engine × Result Reply) (q : Ledger × Result Reply) : Type 0 where
    same_view : view p.0.contracts ≡ q.0
    same_reply : p.1 ≡ q.1
    live : IsLive (p.0)

  standard_answer :
      (method : Str) (params : List Str)
      → (elim (lookup method new_engine.standard_functions) [
        | none ↦ ok true
        | some transfer ↦ ok (length params == 3)
        | some balance_of ↦ ok (length params == 1)
        | some approve ↦ ok (length params == 3)
      ])
        ≡ ok (method_answer method params)
  unfolding new_engine lookup
  standard_answer method params = elim (Bool-cases (str_eq (bytes "transfer") method)) [
    | inl t ↦ rw t refl
    | inr not_t ↦ elim (Bool-cases (str_eq (bytes "balanceOf") method)) [
      | inl b ↦ rw (not_t, b) refl
      | inr not_b ↦ elim (Bool-cases (str_eq (bytes "approve") method)) [
        | inl p ↦ rw (not_t, not_b, p) refl
        | inr not_p ↦ rw (not_t, not_b, not_p) refl
      ]
    ]
  ]

  reply_guarded :
      (b c : Bool)
      → reply flag (if not b then throws (runtime_error "Invalid method call") else ok c)
        ≡ (if b then ok (flag c) else throws (runtime_error "Invalid method call"))
  reply_guarded true c = refl
  reply_guarded false c = refl

  active_of :
      (e : Engine) (a : Str) (c : ContractState)
      → IsLive e
      → lookup a e.contracts ≡ some c
      → active_in a e.contracts ≡ true
  active_of e a c l k = rw (k, active_in) (l.active a c k)

  method_of :
      (e : Engine) (a method : Str) (params : List Str) (c : ContractState)
      → IsLive e
      → lookup a e.contracts ≡ some c
      → reply flag (outcome x e a method params) ≡ (
          if x.validate_method_call method params
          then ok (flag (method_answer method params))
          else throws (runtime_error "Invalid method call"))
  method_of e a method params c l k =
      rw (active_of e a c l k, l.standard, standard_answer method params)
        (reply_guarded (x.validate_method_call method params) _)

  deploy-Agree :
      (e : Engine) (bytecode owner : Str)
      → IsLive e
      → Agree
          (call x e (deploy bytecode owner))
          (promise x (view e.contracts) (deploy bytecode owner))
  unfolding deploy_contract lookup
  deploy-Agree e bytecode owner l =
      let a = contract_address x bytecode owner in
      elim (Bool-cases (validate_contract x bytecode)) [
        | inl good ↦
            rw (deploy_of x e bytecode owner good, good, call)
              (record {
                same_view = view-insert a (fresh x bytecode owner) e.contracts;
                same_reply = refl;
                live = insert-IsLive e a (fresh x bytecode owner) l refl;
              })
        | inr bad ↦
            rw (bad, call, deploy_contract)
              (record { same_view = refl; same_reply = refl; live = l })
      ]

  unknown_update :
      (e : Engine) (a key value : Str)
      → lookup a e.contracts ≡ none
      → update_contract_state x e a key value ≡ (e, false)
  unfolding update_contract_state
  unknown_update e a key value k = ground (arith, h e a)

  unknown_get :
      (e : Engine) (a key : Str)
      → lookup a e.contracts ≡ none
      → get_contract_state x e a key ≡ throws (runtime_error "Contract not found or inactive")
  unfolding get_contract_state
  unknown_get e a key k = ground (arith, h e a)

  unknown_outcome :
      (e : Engine) (a method : Str) (params : List Str)
      → lookup a e.contracts ≡ none
      → outcome x e a method params ≡ throws (runtime_error "Contract not found or inactive")
  unknown_outcome e a method params k = ground arith

  update-Agree :
      (e : Engine) (a key value : Str)
      → IsLive e
      → Agree (call x e (update a key value)) (promise x (view e.contracts) (update a key value))
  unfolding written
  update-Agree e a key value l = elim (Option-cases (lookup a e.contracts)) [
    | inl unknown ↦
        rw (unknown_update e a key value unknown, unknown, promise)
          (record { same_view = refl; same_reply = refl; live = l })
    | inr (c, known) ↦
        let c' : ContractState = record c { storage = insert key value c.storage } in
        rw (update_known x e a key value c h known (l.active a c known), known, promise)
          (record {
            same_view =
                view-insert a c' e.contracts
                ∙ ap (λ (f : Store). at a (some f) (view e.contracts))
                    (insert-at key value c.storage);
            same_reply = refl;
            live = insert-IsLive e a c' l (l.active a c known);
          })
  ]

  get-Agree :
      (e : Engine) (a key : Str)
      → IsLive e
      → Agree (call x e (get a key)) (promise x (view e.contracts) (get a key))
  get-Agree e a key l = elim (Option-cases (lookup a e.contracts)) [
    | inl unknown ↦
        rw (unknown_get e a key unknown, unknown, promise)
          (record { same_view = refl; same_reply = refl; live = l })
    | inr (c, known) ↦
        rw (get_known x e a key c h known (l.active a c known), known, promise)
          (elim (Option-cases (lookup key c.storage)) [
            | inl unset ↦ rw unset (record { same_view = refl; same_reply = refl; live = l })
            | inr (value, set) ↦ rw set (record { same_view = refl; same_reply = refl; live = l })
          ])
  ]

  execute-Agree :
      (e : Engine) (a method : Str) (params : List Str) (caller : Str)
      → IsLive e
      → Agree
          (call x e (execute a method params caller))
          (promise x (view e.contracts) (execute a method params caller))
  execute-Agree e a method params caller l =
      rw (execute_contract-outcome x e a method params caller h)
        (elim (Option-cases (lookup a e.contracts)) [
          | inl unknown ↦
              rw (unknown_outcome e a method params unknown, unknown, promise)
                (record { same_view = refl; same_reply = refl; live = l })
          | inr (c, known) ↦
              rw (method_of e a method params c l known, known, promise)
                (record { same_view = refl; same_reply = refl; live = l })
        ])

  call-Agree :
      (e : Engine) (c : Call) → IsLive e → Agree (call x e c) (promise x (view e.contracts) c)
  call-Agree e (deploy bytecode owner) l = deploy-Agree e bytecode owner l
  call-Agree e (update a key value) l = update-Agree e a key value l
  call-Agree e (get a key) l = get-Agree e a key l
  call-Agree e (execute a method params caller) l = execute-Agree e a method params caller l

  replies-promises :
      (e : Engine) (cs : List Call) → IsLive e → replies x e cs ≡ promises x (view e.contracts) cs
  replies-promises e [] l = refl
  replies-promises e (c ∷ cs) l =
      let g = call-Agree e c l in
      ap₂ (◌∷◌) g.same_reply (
        replies-promises (call x e c).0 cs g.live
        ∙ ap (λ (s : Ledger). promises x s cs) g.same_view)

  -- Every sequence of calls of a new engine (deployments, updates, reads and method calls, of any
  -- contracts, in any order) returns and throws what the specification says, in which the state is
  -- only a function from addresses to the values of their keys: a deployment makes its address an
  -- empty contract, whatever was there, an update of a deployed contract sets the key and no other,
  -- a read finds the last value set since, and no method call changes anything. (`isContractActive`
  -- is taken to read the contract's flag.)
  pub new_engine-replies : (cs : List Call) → replies x new_engine cs ≡ promises x no_contracts cs
  unfolding new_engine lookup
  new_engine-replies cs = replies-promises new_engine cs new_engine-IsLive
