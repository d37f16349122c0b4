-- ===== src/Crypto/Hash/Hex.antt =====
-- The text form of a digest: its length, its alphabet, and that it determines the digest.
use blockchain_messaging.Base.{
  ℕ, ◌+◌, ◌-◌, ◌*◌, ◌/◌, ◌%◌, ◌≤◌, ◌<◌, ◌≡◌, ◌↔◌, ◌⊎◌, refl, ap, sym, ◌∙◌, [], ◌∷◌, Str, ltb,
  if◌then◌else◌, length, All, arith,
}
use blockchain_messaging.Crypto.Hash.{
  OpenSsl, IsOpenSsl, hex_digit, hex_byte, to_hex, hash, double_hash, hash160,
}

-- '0' to '9' or 'a' to 'f'.
abbrev IsHexDigit : ℕ → Type 0
IsHexDigit c = (48 ≤ c) × (c ≤ 57) ⊎ (97 ≤ c) × (c ≤ 102)

hex_value : ℕ → ℕ
hex_value c = if ltb c 58 then c - 48 else c - 87

-- Reads pairs of digits back.
from_hex : Str → Str
from_hex [] = []
from_hex (a ∷ []) = []
from_hex (a ∷ b ∷ s) = (hex_value a * 16 + hex_value b) ∷ from_hex s

from_hex-to_hex : (s : Str) → All (λ b. b < 256) s → from_hex (to_hex s) ≡ s
unfolding from_hex to_hex hex_byte hex_digit hex_value
from_hex-to_hex [] h = refl
from_hex-to_hex (b ∷ s) h = ground (arith, from_hex-to_hex s h.1)

length-to_hex : (s : Str) → length (to_hex s) ≡ 2 * length s
unfolding to_hex hex_byte
length-to_hex [] = omega arith
length-to_hex (b ∷ s) = ground (arith, length-to_hex s)

hex_digit-IsHexDigit : (d : ℕ) → d < 16 → IsHexDigit (hex_digit d)
unfolding hex_digit
hex_digit-IsHexDigit d h = ground arith

to_hex-IsHexDigit : (s : Str) → All (λ b. b < 256) s → All IsHexDigit (to_hex s)
unfolding to_hex hex_byte
to_hex-IsHexDigit [] h = tt
to_hex-IsHexDigit (b ∷ s) h = ground (
  arith,
  to_hex-IsHexDigit s h.1,
  hex_digit-IsHexDigit b,
  hex_digit-IsHexDigit (b / 16),
  hex_digit-IsHexDigit (b % 16),
)

module _ (o : OpenSsl) (h : IsOpenSsl o) where
  pub length-hash : (m : Str) → length (hash o m) ≡ 64
  unfolding hash
  length-hash m = omega (arith, length-to_hex (o.sha256 m), h.length-sha256 m)

  pub length-double_hash : (m : Str) → length (double_hash o m) ≡ 64
  unfolding double_hash
  length-double_hash m = length-hash (hash o m)

  -- `SHA256::hash` writes 64 hexadecimal digits in lower case, and `hash160` writes 40, for every
  -- message (with digests of the documented length). The digits lose nothing: two messages have the
  -- same `SHA256::hash` exactly when their raw digests are the same.
  hash_shape :
      (m n : Str)
      → (length (hash o m) ≡ 64)
        × All IsHexDigit (hash o m)
        × (length (hash160 o m) ≡ 40)
        × All IsHexDigit (hash160 o m)
        × ((hash o m ≡ hash o n) ↔ (o.sha256 m ≡ o.sha256 n))
  unfolding hash hash160
  hash_shape m n = (
    length-hash m,
    to_hex-IsHexDigit _ (h.sha256-IsByte m),
    omega (arith, length-to_hex (o.ripemd160 (o.sha256 m)), h.length-ripemd160 (o.sha256 m)),
    to_hex-IsHexDigit _ (h.ripemd160-IsByte (o.sha256 m)),
    (
      λ e.
          sym (from_hex-to_hex _ (h.sha256-IsByte m))
          ∙ ap from_hex e
          ∙ from_hex-to_hex _ (h.sha256-IsByte n),
      λ e. ap to_hex e,
    ),
  )
