-- ===== src/Tests/Wallets.antt =====
-- src/wallet/wallet.cpp at small inputs.
use blockchain_messaging.Base.{ℕ, ◌≡◌, refl, List, [], ◌∷◌, true, false, Str, bytes, take, ok}
use blockchain_messaging.Base.Integers.{pos}
use blockchain_messaging.Crypto.Hash.{hash, hex_digit}
use blockchain_messaging.Crypto.Encryption.{
  generate_public_key, public_key_run, release, release_all,
}
use blockchain_messaging.Core.Transaction.{Transaction, decrypt_message}
use blockchain_messaging.Wallet.{
  Wallet, WalletExternals, hex_number, hex_numbers, new_wallet, generate_new_keys, blank_wallet,
  get_decrypted_messages,
}
use blockchain_messaging.Wallet.Inbox.{
  receive_all, kept, readable, DecryptReturns, receive_all-inbox,
}
use blockchain_messaging.Tests.World.{Number, whole, world, sample}

-- Leading zeros are not written: two sequences of draws with one private key.
hex_run : hex_numbers (1 ∷ 17 ∷ []) ≡ hex_numbers (17 ∷ 1 ∷ [])
unfolding hex_numbers hex_number hex_digit
hex_run = refl

-- Every signature is good, and no key is imported.
abbrev pub helpers : WalletExternals world
helpers = record {
  set_amount = λ t amount. t;
  sign_transaction = λ t key. record t { parameters = key ∷ [] };
  verify_signature = λ t. true;
  import_private_key = λ v key. (v, false);
}

abbrev pub draws : List ℕ
draws = 10 ∷ 11 ∷ 12 ∷ 13 ∷ []

abbrev pub fresh_wallet : Wallet Number
fresh_wallet = record {
  address = b'M' ∷ take 30 (hash world.ssl (bytes "abcd"));
  private_key = bytes "abcd";
  public_key = bytes "abcd";
  balance = whole (pos 5);
  sent_messages = [];
  received_messages = [];
  sent = [];
  received = [];
  pending = [];
}

pub wallet_made : new_wallet world helpers (whole (pos 5)) draws ≡ ok fresh_wallet
unfolding new_wallet generate_new_keys blank_wallet hex_numbers hex_number hex_digit
    generate_public_key public_key_run release_all release
wallet_made = refl

abbrev mine : Wallet Number
mine = record fresh_wallet { address = bytes "bob" }

abbrev note : Str → Str → Transaction Number
note recipient text = record (sample [] (bytes "al") recipient 0) { encrypted_message = text }

abbrev mail : List (Transaction Number)
mail =
    note (bytes "bob") (bytes "one") ∷ note (bytes "eve") (bytes "two") ∷ note (bytes "bob") [] ∷ []

mail_read :
    readable world helpers (bytes "abcd") (kept world helpers (bytes "bob") mail) ≡ bytes "one" ∷ []
unfolding decrypt_message
mail_read = refl

decrypt_returns : DecryptReturns world helpers
decrypt_returns e key h = absurd (cc)

receive_all-inbox_example :
    (receive_all world helpers mine mail
      ≡ record mine { received_messages = kept world helpers (bytes "bob") mail })
    × (get_decrypted_messages world helpers (receive_all world helpers mine mail)
        ≡ ok (readable world helpers (bytes "abcd") (kept world helpers (bytes "bob") mail)))
receive_all-inbox_example = receive_all-inbox world helpers mine mail decrypt_returns
