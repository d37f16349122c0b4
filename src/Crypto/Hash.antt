-- ===== src/Crypto/Hash.antt =====
-- src/crypto/hash.cpp: class SHA256 and HashUtils::hash160. OpenSSL's digests are a parameter.
pub mod Hex
use blockchain_messaging.Base.{
  ℕ, ◌+◌, ◌/◌, ◌%◌, ◌<◌, ◌≡◌, List, [], ◌∷◌, ◌++◌, Str, ltb, if◌then◌else◌, length, All,
}

-- The digests of OpenSSL on a whole message: Init, one Update, Final.
pub record OpenSsl : Type 0 where
  pub sha256 : Str → Str
  pub ripemd160 : Str → Str

-- What OpenSSL documents: SHA256_DIGEST_LENGTH and RIPEMD160_DIGEST_LENGTH bytes.
pub record IsOpenSsl (o : OpenSsl) : Type 0 where
  pub length-sha256 : (m : Str) → length (o.sha256 m) ≡ 32
  pub length-ripemd160 : (m : Str) → length (o.ripemd160 m) ≡ 20
  pub sha256-IsByte : (m : Str) → All (λ b. b < 256) (o.sha256 m)
  pub ripemd160-IsByte : (m : Str) → All (λ b. b < 256) (o.ripemd160 m)

-- A digit as std::hex writes it.
unfoldable pub hex_digit : ℕ → ℕ
hex_digit d = if ltb d 10 then 48 + d else 87 + d

-- `ss << std::hex << std::setw(2) << std::setfill('0') << (int)b` for a byte.
unfoldable pub hex_byte : ℕ → Str
hex_byte b =
    if ltb b 16 then 48 ∷ hex_digit b ∷ [] else hex_digit (b / 16) ∷ hex_digit (b % 16) ∷ []

-- The loop over the digest's bytes.
unfoldable pub to_hex : Str → Str
to_hex [] = []
to_hex (b ∷ s) = hex_byte b ++ to_hex s

module _ (o : OpenSsl) where
  unfoldable pub hash : Str → Str
  hash input = to_hex (o.sha256 input)

  unfoldable pub double_hash : Str → Str
  double_hash input = hash (hash input)

  unfoldable pub hash_with_salt : Str → Str → Str
  hash_with_salt input salt = hash (input ++ salt)

  unfoldable pub hash160 : Str → Str
  hash160 input = to_hex (o.ripemd160 (o.sha256 input))
