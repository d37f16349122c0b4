-- ===== src/Wallet.antt =====
-- src/wallet/wallet.hpp and wallet.cpp: class Wallet. The random numbers, the clock and the memory
-- that the constructors leave unset are arguments.
pub mod Keys
pub mod Inbox
pub mod Payments
use blockchain_messaging.Base.{
  ℕ, zero, suc, ◌/◌, ◌%◌, List, [], ◌∷◌, ◌++◌, Bool, true, false, not, Option, Str, str_eq, take,
  ltb, if◌then◌else◌, Result, ok, throws, undefined, ◌>>=◌, runtime_error,
}
use blockchain_messaging.Crypto.Hash.{hash, hex_digit}
use blockchain_messaging.Crypto.Encryption.{generate_public_key}
use blockchain_messaging.Core.Transaction.{
  Transaction, TransactionType, Externals, Double, Tx, new_transfer, set_message, decrypt_message,
}

-- The message box and the history are part of the record.
pub record Wallet (D : Type 0) : Type 0 where
  pub address : Str
  pub private_key : Str
  pub public_key : Str
  pub balance : D
  pub sent_messages : List (Transaction D)
  pub received_messages : List (Transaction D)
  pub sent : List (Transaction D)
  pub received : List (Transaction D)
  pub pending : List (Transaction D)

-- `ss << std::hex << n`, without leading zeros. The fuel exceeds the number of digits.
hex_digits : ℕ → ℕ → Str
hex_digits zero n = []
hex_digits (suc fuel) n =
    let rest = hex_digits fuel (n / 16) ++ hex_digit (n % 16) ∷ [] in
    if ltb n 16 then hex_digit n ∷ [] else rest

unfoldable pub hex_number : ℕ → Str
unfolding hex_digits
hex_number n = hex_digits (suc n) n

unfoldable pub hex_numbers : List ℕ → Str
hex_numbers [] = []
hex_numbers (n ∷ ns) = hex_number n ++ hex_numbers ns

-- What the class calls and no file defines. `signTransaction`, `setAmount` and `verifySignature`
-- are methods that class Transaction does not even declare.
pub record WalletExternals (x : Externals) : Type 0 where
  pub set_amount : Tx x → Double x → Tx x
  pub sign_transaction : Tx x → Str → Tx x
  pub verify_signature : Tx x → Bool
  pub import_private_key : Wallet (Double x) → Str → Wallet (Double x) × Bool

module _ (x : Externals) (w : WalletExternals x) where
  abbrev pub Wal : Type 0
  Wal = Wallet (Double x)

  -- The members before the body of a constructor.
  unfoldable pub blank_wallet : Double x → Wal
  blank_wallet indeterminate = record {
    address = [];
    private_key = [];
    public_key = [];
    balance = indeterminate;
    sent_messages = [];
    received_messages = [];
    sent = [];
    received = [];
    pending = [];
  }

  -- On four draws of 64 bits.
  unfoldable pub generate_new_keys : List ℕ → Wal → Result Wal
  generate_new_keys draws v = do
    k ← generate_public_key x.encryption (hex_numbers draws)
    ok (record v {
      private_key = hex_numbers draws;
      public_key = k;
      address = b'M' ∷ take 30 (hash x.ssl k);
    })

  unfoldable pub new_wallet : Double x → List ℕ → Result Wal
  new_wallet indeterminate draws = generate_new_keys draws (blank_wallet indeterminate)

  unfoldable pub new_wallet_of : Double x → List ℕ → Str → Result Wal
  new_wallet_of indeterminate draws key =
      let (v, imported) = w.import_private_key (blank_wallet indeterminate) key in
      if imported then ok v else generate_new_keys draws v

  unfoldable pub create_transaction : ℕ → Double x → Wal → Str → Double x → Result (Wal × Tx x)
  create_transaction now indeterminate v recipient amount =
      if x.floats.lt v.balance amount
      then throws (runtime_error "Insufficient funds")
      else ok (record v { pending = v.pending ++ t ∷ [] }, t)
    where
      t : Tx x
      t =
          w.sign_transaction
            (w.set_amount
              (new_transfer x now indeterminate v.address recipient TransactionType.financial)
              amount)
            v.private_key

  -- The recipient's address is passed on as the public key.
  unfoldable pub create_message : Option Str → ℕ → Double x → Wal → Str → Str → Result (Wal × Tx x)
  create_message random now indeterminate v recipient message = do
    t ←
        set_message x random
          (new_transfer x now indeterminate v.address recipient TransactionType.message) message
          recipient
    let t' : Tx x = w.sign_transaction t v.private_key
    ok (record v { sent_messages = v.sent_messages ++ t' ∷ [] }, t')

  unfoldable pub receive_message : Wal → Tx x → Result Wal
  receive_message v t =
      if not (str_eq (x.get_recipient t) v.address)
      then throws (runtime_error "Message not intended for this wallet")
      else if w.verify_signature t
      then ok (record v { received_messages = v.received_messages ++ t ∷ [] })
      else ok v

  -- The loop of getDecryptedMessages: what throws is skipped.
  unfoldable pub decrypt_all : Str → List (Tx x) → Result (List Str)
  decrypt_all key [] = ok []
  decrypt_all key (t ∷ ts) = elim (decrypt_message x t key) [
    | ok m ↦ decrypt_all key ts >>= λ ms. ok (m ∷ ms)
    | throws e ↦ decrypt_all key ts
    | undefined ↦ undefined
  ]

  unfoldable pub get_decrypted_messages : Wal → Result (List Str)
  get_decrypted_messages v = decrypt_all v.private_key v.received_messages
