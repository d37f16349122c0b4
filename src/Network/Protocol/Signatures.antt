-- ===== src/Network/Protocol/Signatures.antt =====
-- What the signature of a message covers.
use blockchain_messaging.Base.{
  ℕ, ◌+◌, ◌*◌, ◌^◌, ◌<◌, ◌≡◌, sym, ap, ◌∙◌, ◌++◌, append_assoc, Str, decimal, length, pow10,
  decimal-append, pow10_pos, length-decimal_pos, length-append, arith,
}
use blockchain_messaging.Base.Integers.{signed_decimal}
use blockchain_messaging.Crypto.Encryption.{Libcrypto}
use blockchain_messaging.Network.Protocol.{ProtocolMessage, type_code, message_digest, verify}

-- The message with the number at the end of its payload moved to its timestamp.
abbrev pub shifted : ProtocolMessage → Str → ℕ → ProtocolMessage
shifted m p d = record m {
  payload = p;
  timestamp = d * pow10 (length (decimal m.timestamp)) + m.timestamp;
}

digest-shifted :
    (m : ProtocolMessage) (p : Str) (d : ℕ)
    → m.payload ≡ p ++ decimal d
    → 0 < d
    → message_digest (shifted m p d) ≡ message_digest m
unfolding message_digest
digest-shifted m p d e pos =
    ap (λ s. signed_decimal (type_code m.type) ++ (m.sender ++ s))
      (ap (λ s. p ++ s) (sym (decimal-append d m.timestamp pos))
        ∙ sym (append_assoc p (decimal d) (decimal m.timestamp))
        ∙ ap (λ s. s ++ decimal m.timestamp) (sym e))

grows : (d p t : ℕ) → 0 < d → 0 < p → t < d * p + t
grows d p t a b = grind arith

-- The digest does not say where the payload ends and the timestamp begins. Take a message whose
-- payload ends in a number other than 0, such that this number, written before the timestamp, gives a
-- timestamp below 2^64. Whatever the signature scheme, the message verifies exactly when the message
-- does that has the number cut off its payload and written before its timestamp: who has a signed
-- message of this kind has another one, with a shorter payload and a later timestamp.
pub verify-shifted :
    (c : Libcrypto) (m : ProtocolMessage) (p : Str) (d : ℕ)
    → m.payload ≡ p ++ decimal d
    → 0 < d
    → (shifted m p d).timestamp < 2 ^ 64
    → (verify c (shifted m p d) ≡ verify c m)
      × (length p < length m.payload)
      × (m.timestamp < (shifted m p d).timestamp)
unfolding verify
verify-shifted c m p d e pos fits = (
  ap (λ s. c.verify s m.signature m.sender) (digest-shifted m p d e pos),
  omega (arith, ap length e, length-append p (decimal d), length-decimal_pos d),
  grows d (pow10 (length (decimal m.timestamp))) m.timestamp pos (pow10_pos _),
)
