-- ===== src/Core/Transaction/Messages.antt =====
-- The message of a transaction: reading back what was written, and what the stored hash covers.
use blockchain_messaging.Base.{
  ◌+◌, ◌<◌, ◌≡◌, ◌≢◌, refl, ap, ◌∙◌, sym, ◌⊎◌, inl, inr, List, [], ◌∷◌, ◌++◌, true, false, Option,
  some, Str, decimal, str_eq, str_eq_iff, length, length-append, is_empty, if◌then◌else◌,
  Bool-cases, Result-cases, ok, throws, runtime_error, arith,
}
use blockchain_messaging.Crypto.Encryption.{encrypt, zero_key}
use blockchain_messaging.Crypto.Encryption.Ciphertexts.{IsStream, two_readings}
use blockchain_messaging.Crypto.Merkle.Binding.{Collides}
use blockchain_messaging.Core.Transaction.{
  Externals, Tx, hash_text, calculate_hash, set_message, decrypt_message, set_contract_call,
  write_all, status_code,
}

is_empty-length : (s : Str) → 0 < length s → is_empty s ≡ false
is_empty-length [] h = absurd (omega arith)
is_empty-length (c ∷ s) h = refl

is_empty-zero : (s : Str) → length s ≡ 0 → is_empty s ≡ true
is_empty-zero [] h = refl
is_empty-zero (c ∷ s) h = absurd (omega arith)

ok_injective : {A : Type 0} {a b : A} → ok a ≡ ok b → a ≡ b
ok_injective h = ground arith

append_cancel : (p a b : Str) → p ++ a ≡ p ++ b → a ≡ b
append_cancel [] a b h = h
append_cancel (c ∷ p) a b h = append_cancel p a b (ground arith)

-- One part of six is longer.
texts_differ :
    (a b c d e p q tail : Str)
    → length p ≡ 0
    → 0 < length q
    → a ++ (b ++ (c ++ (d ++ (e ++ (p ++ tail))))) ≢ a ++ (b ++ (c ++ (d ++ (e ++ (q ++ tail)))))
texts_differ a b c d e p q tail z h k =
    let rest : p ++ tail ≡ q ++ tail =
      append_cancel e _ _
        (append_cancel d _ _ (append_cancel c _ _ (append_cancel b _ _ (append_cancel a _ _ k)))) in
    absurd (omega (arith, ap length rest, length-append p tail, length-append q tail))

module _ (x : Externals) where
  -- `decryptMessage`, as a way to read back what `setMessage` wrote with these random bytes.
  abbrev pub ReadsBack : Tx x → Str → Str → Str → Str → Type 0
  ReadsBack t random text public private =
      (t' : Tx x)
      → set_message x (some random) t text public ≡ ok t'
      → decrypt_message x t' private ≡ ok text

  -- Of two texts under two IVs with one ciphertext, only one can be read back.
  one_reading :
      (t : Tx x) (r r' m m' public private : Str)
      → m' ≢ m
      → x.encryption.aes_256_gcm zero_key r' m' ≡ x.encryption.aes_256_gcm zero_key r m
      → ReadsBack t r m public private
      → ReadsBack t r' m' public private
      → ⊥
  unfolding set_message encrypt
  one_reading t r r' m m' public private differ e a b = differ (
      ok_injective (
        sym (b _ refl)
        ∙ ap
            (λ z.
              decrypt_message x (record t { encrypted_message = z; message_recipient = public })
                private)
            e
        ∙ a _ refl))

  -- With the same random bytes `setMessage` writes the same ciphertext for every recipient; the
  -- empty text is written as no message, and reading it throws; and no decryption whatsoever reads
  -- back what is written: once a text has two ciphertexts under two IVs, some text of that length,
  -- under some IV, is not read back. (OpenSSL's cipher is taken to be the stream cipher that it
  -- documents.)
  pub set_message-unreadable :
      (t t₁ t₂ : Tx x) (r r' m k k' private : Str)
      → IsStream x.encryption
      → x.encryption.aes_256_gcm zero_key r m ≢ x.encryption.aes_256_gcm zero_key r' m
      → set_message x (some r) t m k ≡ ok t₁
      → set_message x (some r) t m k' ≡ ok t₂
      → (t₁.encrypted_message ≡ t₂.encrypted_message)
        × ((t' : Tx x)
            → set_message x (some r) t [] k ≡ ok t'
            → decrypt_message x t' private ≡ throws (runtime_error "No encrypted message found"))
        × ¬ ((iv text : Str) → length text ≡ length m → ReadsBack t iv text k private)
  unfolding set_message encrypt decrypt_message
  set_message-unreadable t t₁ t₂ r r' m k k' private s differ p q = (
    ground arith,
    (λ t' h. ground (arith, is_empty-zero t'.encrypted_message, s.length-gcm zero_key r [])),
    (λ reads.
        let (m', other, long, e) = two_readings x.encryption r r' m s differ in
        one_reading t r r' m m' k private other e (reads r m refl) (reads r' m' long)),
  )

  -- The stored hash is the one that `calculateHash` gives.
  abbrev pub IsCurrent : Tx x → Type 0
  IsCurrent t = t.hash ≡ calculate_hash x t

  length-message_text :
      (m r : Str) → 0 < length m → length (if is_empty m then [] else m ++ r) ≡ length m + length r
  length-message_text [] r h = absurd (omega arith)
  length-message_text (c ∷ m) r h = omega (arith, length-append m r)

  length-message_none : (m r : Str) → m ≡ [] → length (if is_empty m then [] else m ++ r) ≡ 0
  length-message_none [] r h = refl
  length-message_none (c ∷ m) r h = absurd (cc)

  hash_text-set_message :
      (t : Tx x) (m r : Str)
      → t.encrypted_message ≡ []
      → 0 < length m
      → hash_text x t ≢ hash_text x (record t { encrypted_message = m; message_recipient = r })
  unfolding hash_text
  hash_text-set_message t m r none_yet h e =
      texts_differ (decimal t.timestamp) (write_all x.input_hash t.inputs)
        (write_all x.output_hash t.outputs) (decimal t.lock_time) (decimal (status_code t.status)) _
        _ _ (length-message_none t.encrypted_message t.message_recipient none_yet)
        (omega (arith, length-message_text m r h)) e

  stale_by :
      (t t' : Tx x) (m r : Str)
      → IsCurrent t
      → t.encrypted_message ≡ []
      → 0 < length m
      → t' ≡ record t { encrypted_message = m; message_recipient = r }
      → (¬ IsCurrent t') ⊎ Collides x.ssl (hash_text x t) (hash_text x t')
  unfolding calculate_hash
  stale_by t t' m r current none_yet h e =
      let kept : t'.hash ≡ t.hash = ground arith in
      elim (Bool-cases (str_eq t'.hash (calculate_hash x t'))) [
        | inl same ↦ inr (
          (λ q. hash_text-set_message t m r none_yet h (q ∙ ap (hash_text x) e)),
          sym current ∙ sym kept ∙ (str_eq_iff _ _).0 same,
        )
        | inr other ↦ inl (λ q. ground (arith, str_eq_iff t'.hash (calculate_hash x t')))
      ]

  -- A message makes the stored hash of a transaction stale. `setContractCall` leaves the stored
  -- hash equal to the calculated one. `setMessage`, on a transaction with a current hash and no
  -- message yet, keeps the stored hash; and if its ciphertext is not empty, then the stored hash is
  -- not the calculated one any more, or the hashed texts before and after are a collision of the
  -- double hash.
  pub set_message-stale :
      (random : Option Str) (t t' : Tx x) (text key address method : Str) (params : List Str)
      → IsCurrent t
      → t.encrypted_message ≡ []
      → set_message x random t text key ≡ ok t'
      → 0 < length t'.encrypted_message
      → IsCurrent (set_contract_call x t address method params)
        × (t'.hash ≡ t.hash)
        × ((¬ IsCurrent t') ⊎ Collides x.ssl (hash_text x t) (hash_text x t'))
  unfolding set_message
  set_message-stale random t t' text key address method params current none_yet h long = (
    unfold set_contract_call calculate_hash hash_text in refl,
    ground arith,
    elim (Result-cases (encrypt x.encryption random text key)) [
      | inl (m, p) ↦ stale_by t t' m key current none_yet (ground arith) (ground arith)
      | inr bad ↦ absurd (ground arith)
    ],
  )
