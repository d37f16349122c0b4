-- ===== src/Tests/Transactions.antt =====
-- src/core/transaction.cpp at small inputs.
use blockchain_messaging.Base.{
  ◌↔◌, ◌⊎◌, ◌≤◌, ◌*◌, ◌≡◌, refl, List, [], ◌∷◌, true, false, some, replicate, Str, bytes, decimal,
  length, ok, throws, runtime_error, arith,
}
use blockchain_messaging.Base.Integers.{pos, ◌+ℤ◌}
use blockchain_messaging.Crypto.Hash.{double_hash, hash, to_hex, hex_byte, hex_digit}
use blockchain_messaging.Crypto.Merkle.Binding.{Collides}
use blockchain_messaging.Crypto.Encryption.{
  generate_public_key, public_key_run, release_all, release, encrypt,
}
use blockchain_messaging.Core.Transaction.{
  Transaction, TransactionType, TransactionInput, TransactionOutput, calculate_hash, hash_text,
  new_transaction, new_transfer, sign, sign_inputs, verify, get_total_input, get_total_output,
  set_message, decrypt_message, set_contract_call,
}
use blockchain_messaging.Core.Transaction.Signing.{
  verify-sign, structure_ok, Edit, signs, writes_message, edits, verify-edits,
}
use blockchain_messaging.Core.Transaction.Repeats.{AddsExactly, verify-repeated}
use blockchain_messaging.Core.Transaction.Messages.{
  IsCurrent, ReadsBack, set_message-stale, set_message-unreadable,
}
use blockchain_messaging.Tests.World.{
  Number, whole, world, toy-IsSignatureScheme, toy-IsStream, world-IgnoresSignature, sample,
}

abbrev iv : Str
iv = replicate 16 0

program : Unit {0}
unfolding ◌+ℤ◌ calculate_hash hash_text decimal new_transaction new_transfer sign sign_inputs verify
    get_total_input get_total_output set_message decrypt_message set_contract_call
    generate_public_key public_key_run release_all release encrypt double_hash hash to_hex hex_byte
    hex_digit
program = tt

abbrev input : TransactionInput
input = record {
  previous_tx_hash = bytes "prev";
  output_index = 0;
  signature = [];
  public_key = [];
}

abbrev output : TransactionOutput Number
output = record {
  recipient = bytes "bob";
  amount = whole (pos 7);
  script_pub_key = [];
  is_spent = false;
}

abbrev payment : Transaction Number
payment = record (sample [] [] [] 0) { inputs = input ∷ []; outputs = output ∷ [] }

abbrev key : Str
key = bytes "key"

payment_verifies : verify world (sign world payment key).0 ≡ true
unfolding program
payment_verifies = refl

signed_ok : (sign world payment key).1 ≡ ok true
unfolding program
signed_ok = refl

abbrev signed_payment : Transaction Number
signed_payment = record payment {
  inputs = record input { signature = calculate_hash world payment; public_key = key } ∷ [];
}

signed_payment_lem : sign world payment key ≡ (signed_payment, ok true)
unfolding sign sign_inputs generate_public_key public_key_run release_all release
signed_payment_lem = refl

verify-sign_example :
    (calculate_hash world signed_payment ≡ calculate_hash world payment)
    × (verify world signed_payment ≡ structure_ok world signed_payment)
verify-sign_example =
    verify-sign world payment signed_payment key toy-IsSignatureScheme world-IgnoresSignature
      signed_payment_lem

abbrev edits_made : List Edit
edits_made = writes_message (some iv) (bytes "hi") (bytes "bob") ∷ signs key ∷ []

abbrev noted : Str → Transaction Number
noted key = record payment { encrypted_message = 0 ∷ 1 ∷ []; message_recipient = key }

set_message-unreadable_example :
    ((noted (bytes "bob")).encrypted_message ≡ (noted (bytes "eve")).encrypted_message)
    × ((t : Transaction Number)
        → set_message world (some iv) payment [] (bytes "bob") ≡ ok t
        → decrypt_message world t (bytes "secret")
          ≡ throws (runtime_error "No encrypted message found"))
    × ¬ (
        (random text : Str)
        → length text ≡ 2
        → ReadsBack world payment random text (bytes "bob") (bytes "secret"))
unfolding set_message encrypt
set_message-unreadable_example =
    set_message-unreadable world payment (noted (bytes "bob")) (noted (bytes "eve")) iv (1 ∷ [])
      (0 ∷ 1 ∷ []) (bytes "bob") (bytes "eve") (bytes "secret") toy-IsStream (λ e. ground arith)
      refl refl

abbrev current_payment : Transaction Number
current_payment = record payment { hash = calculate_hash world payment }

abbrev with_message : Transaction Number
with_message = record current_payment {
  encrypted_message = bytes "hi";
  message_recipient = bytes "bob";
}

with_message_lem :
    set_message world (some iv) current_payment (bytes "hi") (bytes "bob") ≡ ok with_message
unfolding program
with_message_lem = refl

current_payment-IsCurrent : IsCurrent world current_payment
unfolding calculate_hash hash_text
current_payment-IsCurrent = refl

set_message-stale_example :
    IsCurrent world
      (set_contract_call world current_payment (bytes "c") (bytes "mint") (bytes "3" ∷ []))
    × (with_message.hash ≡ current_payment.hash)
    × ((¬ IsCurrent world with_message)
        ⊎ Collides world.ssl (hash_text world current_payment) (hash_text world with_message))
set_message-stale_example =
    set_message-stale world (some iv) current_payment with_message (bytes "hi") (bytes "bob")
      (bytes "c") (bytes "mint") (bytes "3" ∷ []) current_payment-IsCurrent refl with_message_lem
      (omega arith)

-- One input of 10, listed twice, pays an output of 17.
abbrev doubled : Transaction Number
doubled = record payment {
  inputs = input ∷ input ∷ [];
  outputs = record output { amount = whole (pos 17) } ∷ [];
}

abbrev signed_input : TransactionInput
signed_input = record input { signature = calculate_hash world doubled; public_key = key }

abbrev signed_doubled : Transaction Number
signed_doubled = record doubled { inputs = signed_input ∷ signed_input ∷ [] }

signed_doubled_lem : sign world doubled key ≡ (signed_doubled, ok true)
unfolding sign sign_inputs generate_public_key public_key_run release_all release
signed_doubled_lem = refl

doubled_out : get_total_output world doubled ≡ whole (pos 17)
unfolding program
doubled_out = refl

numbers-AddsExactly : AddsExactly world.floats
unfolding ◌+ℤ◌
numbers-AddsExactly = record {
  add-of_nat = λ a b h. ground arith;
  lt-of_nat = λ a b h k. ground arith;
}

verify-repeated_example : (verify world signed_doubled ≡ true) ↔ (17 ≤ 2 * 10)
unfolding ◌+ℤ◌
verify-repeated_example =
    verify-repeated world doubled signed_doubled key input 2 10 17 toy-IsSignatureScheme
      world-IgnoresSignature numbers-AddsExactly
      (record { verifies = λ s k. refl; worth = λ s k. refl }) (omega arith) refl refl doubled_out
      (omega arith) (omega arith) signed_doubled_lem

verify-edits_example :
    (verify world (edits world (new_transaction world 7 TransactionType.message) edits_made)
      ≡ false)
    × (verify world (
          edits world
            (new_transfer world 7
              (whole (pos 5))
              (bytes "alice")
              (bytes "bob")
              TransactionType.message)
            edits_made)
        ≡ false)
verify-edits_example =
    verify-edits world 7 (whole (pos 5)) (bytes "alice") (bytes "bob") TransactionType.message
      edits_made
