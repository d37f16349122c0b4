-- ===== src/Crypto/Encryption/Ciphertexts.antt =====
-- The ciphertexts of class Encryption: what they depend on, and whether they can be read back.
use blockchain_messaging.Base.{◌≡◌, ◌≢◌, sym, ap, ◌∙◌, Str, length}
use blockchain_messaging.Crypto.Encryption.{Libcrypto, zero_key}

-- AES-256-GCM as OpenSSL documents it: a stream cipher, whose ciphertext is as long as its text,
-- and which reaches every ciphertext under every key and IV.
pub record IsStream (c : Libcrypto) : Type 0 where
  pub length-gcm : (key iv m : Str) → length (c.aes_256_gcm key iv m) ≡ length m
  pub gcm-onto : (key iv e : Str) → (m : Str) × (c.aes_256_gcm key iv m ≡ e)

module _ (c : Libcrypto) where
  -- Two texts with one ciphertext, under two IVs.
  pub two_readings :
      (r r' m : Str)
      → IsStream c
      → c.aes_256_gcm zero_key r m ≢ c.aes_256_gcm zero_key r' m
      → (m' : Str) × (m' ≢ m)
        × (length m' ≡ length m)
        × (c.aes_256_gcm zero_key r' m' ≡ c.aes_256_gcm zero_key r m)
  two_readings r r' m s differ =
      let (m', e) = s.gcm-onto zero_key r' (c.aes_256_gcm zero_key r m) in
      (
        m',
        (λ q. differ (sym e ∙ ap (c.aes_256_gcm zero_key r') q)),
        sym (s.length-gcm zero_key r' m') ∙ ap length e ∙ s.length-gcm zero_key r m,
        e,
      )
