-- ===== src/Wallet/Inbox.antt =====
-- Incoming messages: which are kept, and what of them is read.
use blockchain_messaging.Base.{
  ◌≡◌, ◌≢◌, refl, sym, ap, ◌∙◌, List, [], ◌∷◌, ◌++◌, append-nil, append_assoc, true, false, ◌&&◌,
  Str, str_eq, if◌then◌else◌, ok, throws, undefined, ◌>>=◌, Result-cases, Bool-cases, inl, inr,
  arith,
}
use blockchain_messaging.Core.Transaction.{Externals, Tx, decrypt_message}
use blockchain_messaging.Wallet.{
  WalletExternals, Wal, receive_message, decrypt_all, get_decrypted_messages,
}

module _ (x : Externals) (w : WalletExternals x) where
  -- One incoming message; a call that throws leaves the wallet as it is.
  unfoldable pub deliver : Wal x w → Tx x → Wal x w
  deliver v t = elim (receive_message x w v t) [ ok v' ↦ v' | throws e ↦ v | undefined ↦ v ]

  abbrev pub receive_all : Wal x w → List (Tx x) → Wal x w
  receive_all v [] = v
  receive_all v (t ∷ ts) = receive_all (deliver v t) ts

  -- The messages for an address with a good signature.
  abbrev pub kept : Str → List (Tx x) → List (Tx x)
  kept address [] = []
  kept address (t ∷ ts) =
      let rest = kept address ts in
      if str_eq (x.get_recipient t) address && w.verify_signature t then t ∷ rest else rest

  -- The texts of those that can be decrypted.
  abbrev pub readable : Str → List (Tx x) → List Str
  readable key [] = []
  readable key (t ∷ ts) =
      elim (decrypt_message x t key) [ ok m ↦ m ∷ [] | throws e ↦ [] | undefined ↦ [] ]
      ++ readable key ts

  deliver_good :
      (v : Wal x w) (t : Tx x)
      → str_eq (x.get_recipient t) v.address ≡ true
      → w.verify_signature t ≡ true
      → deliver v t ≡ record v { received_messages = v.received_messages ++ t ∷ [] }
  unfolding deliver receive_message
  deliver_good v t mine good = ground arith

  deliver_bad :
      (v : Wal x w) (t : Tx x)
      → str_eq (x.get_recipient t) v.address ≡ true
      → w.verify_signature t ≡ false
      → deliver v t ≡ v
  unfolding deliver receive_message
  deliver_bad v t mine bad = ground arith

  deliver_other :
      (v : Wal x w) (t : Tx x) → str_eq (x.get_recipient t) v.address ≡ false → deliver v t ≡ v
  unfolding deliver receive_message
  deliver_other v t other = ground arith

  receive_all_lem :
      (v : Wal x w) (ts : List (Tx x))
      → receive_all v ts ≡ record v { received_messages = v.received_messages ++ kept v.address ts }
  receive_all_lem v [] =
      ap (λ l. record v { received_messages = l }) (sym (append-nil v.received_messages))
  receive_all_lem v (t ∷ ts) = elim (Bool-cases (str_eq (x.get_recipient t) v.address)) [
    | inl mine ↦ elim (Bool-cases (w.verify_signature t)) [
      | inl good ↦
          rw (deliver_good v t mine good, mine, good)
            (receive_all_lem (record v { received_messages = v.received_messages ++ t ∷ [] }) ts
              ∙ ap (λ l. record v { received_messages = l })
                  (append_assoc v.received_messages (t ∷ []) (kept v.address ts)))
      | inr bad ↦ rw (deliver_bad v t mine bad, mine, bad) (receive_all_lem v ts)
    ]
    | inr other ↦ rw (deliver_other v t other, other) (receive_all_lem v ts)
  ]

  -- Decryption throws or gives a text.
  abbrev pub DecryptReturns : Type 0
  DecryptReturns = (e key : Str) → x.encryption.decrypt e key ≢ undefined

  decrypt_message-returns :
      (t : Tx x) (key : Str) → DecryptReturns → decrypt_message x t key ≢ undefined
  unfolding decrypt_message
  decrypt_message-returns t key d h = ground (arith, d t.encrypted_message key)

  decrypt_all-readable :
      (key : Str) (ts : List (Tx x))
      → DecryptReturns
      → decrypt_all x w key ts ≡ ok (readable key ts)
  unfolding decrypt_all
  decrypt_all-readable key [] d = refl
  decrypt_all-readable key (t ∷ ts) d = elim (Result-cases (decrypt_message x t key)) [
    | inl (m, e) ↦
        rw (e, decrypt_all) (ap (λ r. r >>= λ ms. ok (m ∷ ms)) (decrypt_all-readable key ts d))
    | inr (inl (e, p)) ↦ rw (p, decrypt_all) (decrypt_all-readable key ts d)
    | inr (inr u) ↦ absurd (decrypt_message-returns t key d u)
  ]

  -- Whatever messages come in, the wallet keeps those that are addressed to it and whose signature
  -- is good, in their order, after those that it had, and nothing else about it changes. Where
  -- decryption throws or returns, `getDecryptedMessages` then returns the texts of the kept
  -- messages that decrypt, in that order, and leaves out the others: one message that cannot be
  -- read does not keep the rest from being read.
  pub receive_all-inbox :
      (v : Wal x w) (ts : List (Tx x))
      → DecryptReturns
      → (receive_all v ts
          ≡ record v { received_messages = v.received_messages ++ kept v.address ts })
        × (get_decrypted_messages x w (receive_all v ts)
            ≡ ok (readable v.private_key (v.received_messages ++ kept v.address ts)))
  unfolding get_decrypted_messages
  receive_all-inbox v ts d = (
    receive_all_lem v ts,
    ap (get_decrypted_messages x w) (receive_all_lem v ts)
        ∙ decrypt_all-readable v.private_key (v.received_messages ++ kept v.address ts) d,
  )
