-- ===== src/Core/Transaction.antt =====
-- src/core/transaction.hpp and transaction.cpp: class Transaction. `time_t` and the random bytes
-- of a call are arguments; what the repository only declares is in `Externals`.
pub mod Signing
pub mod Repeats
pub mod Messages
use blockchain_messaging.Base.{
  ℕ, ◌≡◌, List, [], ◌∷◌, ◌++◌, Bool, true, false, not, ◌||◌, Option, Str, decimal, length, is_empty,
  all, if◌then◌else◌, Floats, Result, ok, throws, undefined, ◌>>=◌, ◌>>◌, try_catch, Error,
  runtime_error,
}
use blockchain_messaging.Crypto.Hash.{OpenSsl, double_hash}
use blockchain_messaging.Crypto.Encryption.{Libcrypto, generate_public_key, encrypt}

pub data TransactionStatus : Type 0 where
  pending confirmed failed expired : TransactionStatus

-- `static_cast<int>(status)`.
abbrev pub status_code : TransactionStatus → ℕ
status_code pending = 0
status_code confirmed = 1
status_code failed = 2
status_code expired = 3

-- The enumeration is used by the sources and declared in none of them: these are the values that
-- they name.
pub data TransactionType : Type 0 where
  financial message reward : TransactionType

pub record TransactionInput : Type 0 where
  pub previous_tx_hash : Str
  pub output_index : ℕ
  pub signature : Str
  pub public_key : Str

pub record TransactionOutput (D : Type 0) : Type 0 where
  pub recipient : Str
  pub amount : D
  pub script_pub_key : Str
  pub is_spent : Bool

pub record Transaction (D : Type 0) : Type 0 where
  pub hash : Str
  pub inputs : List TransactionInput
  pub outputs : List (TransactionOutput D)
  pub lock_time : ℕ
  pub status : TransactionStatus
  pub timestamp : ℕ
  pub encrypted_message : Str
  pub message_recipient : Str
  pub contract_address : Str
  pub method_signature : Str
  pub parameters : List Str

-- What the sources call and do not define: the methods of inputs and outputs, the accessors of a
-- transaction, `Transaction::isValid`, and the `amount` of an input, which no class declares.
pub record Externals : Type 1 where
  pub floats : Floats
  pub ssl : OpenSsl
  pub encryption : Libcrypto
  pub input_hash : TransactionInput → Str
  pub input_verify : TransactionInput → Bool
  pub input_amount : TransactionInput → Floats.Double floats
  pub output_hash : TransactionOutput (Floats.Double floats) → Str
  pub get_type : Transaction (Floats.Double floats) → TransactionType
  pub get_sender : Transaction (Floats.Double floats) → Str
  pub get_recipient : Transaction (Floats.Double floats) → Str
  pub get_amount : Transaction (Floats.Double floats) → Floats.Double floats
  pub is_valid : Transaction (Floats.Double floats) → Bool

-- `for (const auto& x : xs) ss << f(x);`
abbrev pub write_all {ℓ} : {A : Type ℓ} → (A → Str) → List A → Str
write_all f [] = []
write_all f (x ∷ xs) = f x ++ write_all f xs

module _ (x : Externals) where
  abbrev pub Double : Type 0
  Double = x.floats.Double

  abbrev pub Tx : Type 0
  Tx = Transaction Double

  -- The text that `calculateHash` writes to its stream.
  unfoldable pub hash_text : Tx → Str
  hash_text t =
      decimal t.timestamp
      ++ (write_all x.input_hash t.inputs
          ++ (write_all x.output_hash t.outputs
              ++ (decimal t.lock_time
                  ++ (decimal (status_code t.status)
                      ++ ((if is_empty t.encrypted_message
                            then []
                            else t.encrypted_message ++ t.message_recipient)
                          ++ (if is_empty t.contract_address
                              then []
                              else t.contract_address
                                ++ (t.method_signature ++ write_all (λ p. p) t.parameters)))))))

  unfoldable pub calculate_hash : Tx → Str
  calculate_hash t = double_hash x.ssl (hash_text t)

  -- Transaction(type): the type is not kept.
  unfoldable pub new_transaction : ℕ → TransactionType → Tx
  new_transaction now type = record t { hash = calculate_hash t }
    where
      t : Tx
      t = record {
        hash = [];
        inputs = [];
        outputs = [];
        lock_time = 0;
        status = pending;
        timestamp = now;
        encrypted_message = [];
        message_recipient = [];
        contract_address = [];
        method_signature = [];
        parameters = [];
      }

  -- Transaction(sender, recipient, type): the sender is not kept, and the amount of the output is
  -- whatever the memory holds.
  unfoldable pub new_transfer : ℕ → Double → Str → Str → TransactionType → Tx
  new_transfer now indeterminate sender recipient type = record t {
    outputs = t.outputs ++ output ∷ [];
  }
    where
      t : Tx
      t = new_transaction now type

      output : TransactionOutput Double
      output = record {
        recipient = recipient;
        amount = indeterminate;
        script_pub_key = [];
        is_spent = false;
      }

  -- The loop of `sign`. An exception leaves the inputs as far as they have been written.
  unfoldable pub sign_inputs :
      Str → Str → List TransactionInput → List TransactionInput × Result (Unit {0})
  sign_inputs key s [] = ([], ok tt)
  sign_inputs key s (i ∷ rest) = elim (generate_public_key x.encryption key) [
    | ok k ↦
        let (done, r) = sign_inputs key s rest in
        (record i { signature = s; public_key = k } ∷ done, r)
    | throws e ↦ (record i { signature = s } ∷ rest, throws e)
    | undefined ↦ (record i { signature = s } ∷ rest, undefined)
  ]

  unfoldable pub sign : Tx → Str → Tx × Result Bool
  sign t key = elim (x.encryption.sign (calculate_hash t) key) [
    | ok s ↦
        let (inputs, r) = sign_inputs key s t.inputs in
        (record t { inputs = inputs }, try_catch (r >> ok true) (λ e. ok false))
    | throws e ↦ (t, ok false)
    | undefined ↦ (t, undefined)
  ]

  total_from {ℓ} : {A : Type ℓ} → (A → Double) → Double → List A → Double
  total_from amount total [] = total
  total_from amount total (a ∷ rest) = total_from amount (x.floats.add total (amount a)) rest

  unfoldable pub get_total_input : Tx → Double
  unfolding total_from
  get_total_input t = total_from x.input_amount (x.floats.of_nat 0) t.inputs

  unfoldable pub get_total_output : Tx → Double
  unfolding total_from
  get_total_output t =
      total_from (λ (o : TransactionOutput Double). o.amount) (x.floats.of_nat 0) t.outputs

  unfoldable pub verify : Tx → Bool
  verify t =
      if is_empty t.inputs || is_empty t.outputs
      then false
      else if x.floats.lt (get_total_input t) (get_total_output t)
      then false
      else if not (all x.input_verify t.inputs)
      then false
      else all (λ i. x.encryption.verify (calculate_hash t) i.signature i.public_key) t.inputs

  unfoldable pub set_message : Option Str → Tx → Str → Str → Result Tx
  set_message random t text recipient_public_key = do
    encrypted ← encrypt x.encryption random text recipient_public_key
    ok (record t { encrypted_message = encrypted; message_recipient = recipient_public_key })

  unfoldable pub decrypt_message : Tx → Str → Result Str
  decrypt_message t recipient_private_key =
      if is_empty t.encrypted_message
      then throws (runtime_error "No encrypted message found")
      else x.encryption.decrypt t.encrypted_message recipient_private_key

  unfoldable pub set_contract_call : Tx → Str → Str → List Str → Tx
  set_contract_call t address method params = record t' { hash = calculate_hash t' }
    where
      t' : Tx
      t' = record t { contract_address = address; method_signature = method; parameters = params }
