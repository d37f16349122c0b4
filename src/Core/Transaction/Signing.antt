-- ===== src/Core/Transaction/Signing.antt =====
-- Transaction::sign and Transaction::verify together.
use blockchain_messaging.Base.{
  ℕ, ◌≡◌, refl, ap, ap₂, ◌∙◌, ◌⊎◌, inl, inr, List, [], ◌∷◌, ◌++◌, Bool, true, false, not, ◌||◌,
  ◌&&◌, Option, Str, is_empty, all, Result-cases, ok, arith,
}
use blockchain_messaging.Crypto.Encryption.{Libcrypto, generate_public_key}
use blockchain_messaging.Core.Transaction.{
  TransactionInput, TransactionType, Externals, write_all, Double, Tx, hash_text, calculate_hash,
  new_transaction, new_transfer, sign_inputs, sign, get_total_input, get_total_output, verify,
  set_message, set_contract_call,
}

-- A signature made with a key verifies under the public key derived from it.
pub record IsSignatureScheme (c : Libcrypto) : Type 0 where
  pub verifies :
      (m key s k : Str)
      → c.sign m key ≡ ok s
      → generate_public_key c key ≡ ok k
      → c.verify m s k ≡ true

module _ (x : Externals) where
  -- The hash of an input covers what it spends, not the signature that is put in later.
  abbrev pub IgnoresSignature : Type 0
  IgnoresSignature =
      (i : TransactionInput) (s k : Str)
      → x.input_hash (record i { signature = s; public_key = k }) ≡ x.input_hash i

  abbrev pub signed_all : Str → Str → List TransactionInput → List TransactionInput
  signed_all s k [] = []
  signed_all s k (i ∷ rest) = record i { signature = s; public_key = k } ∷ signed_all s k rest

  sign_inputs_all :
      (key s k : Str) (is : List TransactionInput)
      → generate_public_key x.encryption key ≡ ok k
      → sign_inputs x key s is ≡ (signed_all s k is, ok tt)
  unfolding sign_inputs
  sign_inputs_all key s k [] h = refl
  sign_inputs_all key s k (i ∷ rest) h = rw (h, sign_inputs) (rw (sign_inputs_all key s k rest h))

  write_all-signed :
      (s k : Str) (is : List TransactionInput)
      → IgnoresSignature
      → write_all x.input_hash (signed_all s k is) ≡ write_all x.input_hash is
  write_all-signed s k [] h = refl
  write_all-signed s k (i ∷ rest) h = ap₂ (◌++◌) (h i s k) (write_all-signed s k rest h)

  hash_text-signed :
      (t : Tx x) (s k : Str)
      → IgnoresSignature
      → calculate_hash x (record t { inputs = signed_all s k t.inputs }) ≡ calculate_hash x t
  unfolding calculate_hash hash_text
  hash_text-signed t s k h = rw (write_all-signed s k t.inputs h)

  verify_signed_inputs :
      (m s k : Str) (is : List TransactionInput)
      → x.encryption.verify m s k ≡ true
      → all (λ i. x.encryption.verify m i.signature i.public_key) (signed_all s k is) ≡ true
  verify_signed_inputs m s k [] h = refl
  verify_signed_inputs m s k (i ∷ rest) h = rw h (verify_signed_inputs m s k rest h)

  sign-inv_by :
      (t t' : Tx x) (key : Str) (is : List TransactionInput)
      → t.inputs ≡ is
      → sign x t key ≡ (t', ok true)
      → ((t.inputs ≡ []) × (t' ≡ t))
        ⊎ ((s : Str) × (k : Str) × (x.encryption.sign (calculate_hash x t) key ≡ ok s)
            × (generate_public_key x.encryption key ≡ ok k)
            × (t' ≡ record t { inputs = signed_all s k t.inputs }))
  unfolding sign sign_inputs
  sign-inv_by t t' key [] e h = ground arith
  sign-inv_by t t' key (i ∷ rest) e h =
      elim (Result-cases (x.encryption.sign (calculate_hash x t) key)) [
        | inl (s, p) ↦ elim (Result-cases (generate_public_key x.encryption key)) [
          | inl (k, q) ↦ inr (s, k, p, q, ground (arith, sign_inputs_all key s k rest q))
          | inr bad ↦ absurd (ground arith)
        ]
        | inr bad ↦ absurd (ground arith)
      ]

  -- What a successful `sign` did: with no input nothing, and otherwise every input carries the
  -- signature of the transaction's hash and the public key, and nothing else changed.
  pub sign-inv :
      (t t' : Tx x) (key : Str)
      → sign x t key ≡ (t', ok true)
      → ((t.inputs ≡ []) × (t' ≡ t))
        ⊎ ((s : Str) × (k : Str) × (x.encryption.sign (calculate_hash x t) key ≡ ok s)
            × (generate_public_key x.encryption key ≡ ok k)
            × (t' ≡ record t { inputs = signed_all s k t.inputs }))
  sign-inv t t' key h = sign-inv_by t t' key t.inputs refl h

  -- The checks of `verify` other than that of the signatures.
  abbrev pub structure_ok : Tx x → Bool
  structure_ok t =
      not (is_empty t.inputs || is_empty t.outputs)
      && (not (x.floats.lt (get_total_input x t) (get_total_output x t))
          && all x.input_verify t.inputs)

  -- Suppose that signatures verify under the derived key, and that the hash of an input leaves
  -- its signature out. Then after a successful `sign` the hash of the transaction is what it was,
  -- and `verify` answers by its other checks alone: inputs and outputs are there, the inputs
  -- cover the outputs, and each input verifies.
  pub verify-sign :
      (t t' : Tx x) (key : Str)
      → IsSignatureScheme x.encryption
      → IgnoresSignature
      → sign x t key ≡ (t', ok true)
      → (calculate_hash x t' ≡ calculate_hash x t) × (verify x t' ≡ structure_ok t')
  unfolding verify
  verify-sign t t' key c g h = elim (sign-inv t t' key h) [
    | inl (none_in, same) ↦ (ap (calculate_hash x) same, ground arith)
    | inr (s, k, p, q, e) ↦
        let hashes = ap (calculate_hash x) e ∙ hash_text-signed t s k g in
        (
          hashes,
          ground (
            arith,
            hashes,
            verify_signed_inputs (calculate_hash x t) s k t.inputs
                (c.verifies (calculate_hash x t) key s k p q),
          ),
        )
  ]

-- The calls on a transaction that the sources define. (`addInput` and `addOutput` are declared
-- and defined nowhere.)
pub data Edit : Type 0 where
  signs : Str → Edit
  writes_message : Option Str → Str → Str → Edit
  calls_contract : Str → Str → List Str → Edit

module _ (x : Externals) where
  -- A call that throws leaves the transaction as it was.
  abbrev edit : Tx x → Edit → Tx x
  edit t (signs key) = (sign x t key).0
  edit t (writes_message random text key) = elim (set_message x random t text key) [
    | ok t' ↦ t'
    | _ ↦ t
  ]
  edit t (calls_contract address method params) = set_contract_call x t address method params

  abbrev pub edits : Tx x → List Edit → Tx x
  edits t [] = t
  edits t (e ∷ es) = edits (edit t e) es

  edit-inputs : (t : Tx x) (e : Edit) → t.inputs ≡ [] → (edit t e).inputs ≡ []
  unfolding sign sign_inputs set_message set_contract_call
  edit-inputs t (signs key) h = ground arith
  edit-inputs t (writes_message random text key) h = ground arith
  edit-inputs t (calls_contract address method params) h = ground arith

  edits-inputs : (t : Tx x) (es : List Edit) → t.inputs ≡ [] → (edits t es).inputs ≡ []
  edits-inputs t [] h = h
  edits-inputs t (e ∷ es) h = edits-inputs (edit t e) es (edit-inputs t e h)

  -- A transaction made by either constructor and then signed, given a message or given a contract
  -- call, in any order and any number of times, never verifies: it has no inputs.
  pub verify-edits :
      (now : ℕ) (amount : Double x) (sender recipient : Str) (type : TransactionType)
      (es : List Edit)
      → (verify x (edits (new_transaction x now type) es) ≡ false)
        × (verify x (edits (new_transfer x now amount sender recipient type) es) ≡ false)
  unfolding verify new_transfer new_transaction
  verify-edits now amount sender recipient type es = (
    rw (edits-inputs (new_transaction x now type) es refl, verify),
    rw (edits-inputs (new_transfer x now amount sender recipient type) es refl, verify),
  )
