-- ===== src/Wallet/Keys.antt =====
-- The keys and the address of a new wallet.
use blockchain_messaging.Base.{
  ℕ, ◌≡◌, List, [], ◌∷◌, take, length, ok, Result-cases, inl, inr, arith,
}
use blockchain_messaging.Crypto.Hash.{hash, IsOpenSsl}
use blockchain_messaging.Crypto.Hash.Hex.{length-hash}
use blockchain_messaging.Crypto.Encryption.{generate_public_key}
use blockchain_messaging.Core.Transaction.{Externals, Double}
use blockchain_messaging.Wallet.{
  WalletExternals, Wal, hex_numbers, blank_wallet, generate_new_keys, new_wallet,
}

module _ (x : Externals) (w : WalletExternals x) where
  -- A new wallet holds a pair of keys, in the sense of `generatePublicKey`, and the address that
  -- goes with the public key, an 'M' and 30 characters (with digests of the documented length). It
  -- has received no message and has no payment waiting, and its balance is what the memory held.
  new_wallet-keys :
      (indeterminate : Double x) (draws : List ℕ) (v : Wal x w)
      → IsOpenSsl x.ssl
      → new_wallet x w indeterminate draws ≡ ok v
      → (generate_public_key x.encryption v.private_key ≡ ok v.public_key)
        × (v.address ≡ b'M' ∷ take 30 (hash x.ssl v.public_key))
        × (length v.address ≡ 31)
        × (v.received_messages ≡ [])
        × (v.pending ≡ [])
        × (v.balance ≡ indeterminate)
  unfolding new_wallet generate_new_keys blank_wallet
  new_wallet-keys indeterminate draws v s h =
      elim (Result-cases (generate_public_key x.encryption (hex_numbers draws))) [
        | inl (k, e) ↦ (
          ground arith,
          ground arith,
          ground (arith, length-hash x.ssl s v.public_key),
          ground arith,
          ground arith,
          ground arith,
        )
        | inr bad ↦ absurd (ground arith)
      ]
