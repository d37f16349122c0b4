-- ===== src/Crypto/Encryption.antt =====
-- src/crypto/encryption.hpp and encryption.cpp: class Encryption. OpenSSL is a parameter, and so
-- are the methods and helpers that the class declares or uses and no file defines.
pub mod Keys
pub mod Ciphertexts
use blockchain_messaging.Base.{
  ℕ, List, [], ◌∷◌, Bool, true, false, not, Option, none, some, Str, replicate, if◌then◌else◌,
  Result, ok, throws, undefined, ◌>>=◌, runtime_error,
}

pub record Libcrypto : Type 0 where
  -- EVP_aes_256_gcm on a key, an IV and a text: what Update and Final write. The tag is not read.
  pub aes_256_gcm : Str → Str → Str → Str
  -- Whether EC_KEY_new_by_curve_name gives a key, and EC_KEY_set_private_key takes the number.
  pub ec_key_created : Bool
  pub private_key_set : Str → Bool
  -- EC_POINT_mul, with `none` for its failure, and EC_POINT_point2hex in compressed form.
  pub point_mul : Str → Option Str
  pub point_to_hex : Str → Str
  pub bytes_to_hex : Str → Str
  pub decrypt : Str → Str → Result Str
  pub sign : Str → Str → Result Str
  pub verify : Str → Str → Str → Bool

-- What generatePublicKey gets from OpenSSL and has to give back.
pub data Handle : Type 0 where
  ec_key bignum ec_point hex_text : Handle

abbrev pub same_handle : Handle → Handle → Bool
same_handle ec_key ec_key = true
same_handle bignum bignum = true
same_handle ec_point ec_point = true
same_handle hex_text hex_text = true
same_handle _ _ = false

-- `BN_free`, `EC_KEY_free`, `EC_POINT_free`. To free what is not there is undefined.
unfoldable pub release : Handle → List Handle → Result (List Handle)
release h [] = undefined
release h (g ∷ gs) =
    let rest = release h gs in if same_handle h g then ok gs else do gs' ← rest; ok (g ∷ gs')

-- The calls that free, in their order, on the handles that are there.
unfoldable pub release_all : List Handle → List Handle → Result (List Handle)
release_all [] live = ok live
release_all (h ∷ hs) live = release h live >>= λ left. release_all hs left

-- KEY_SIZE / 8 bytes, as `resize` fills them.
abbrev pub zero_key : Str
zero_key = replicate 32 0

module _ (c : Libcrypto) where
  unfoldable pub generate_private_key : Option Str → Result Str
  generate_private_key none = throws (runtime_error "Failed to generate private key")
  generate_private_key (some random) = ok (c.bytes_to_hex random)

  -- The handles that are left when generatePublicKey ends, and its outcome.
  unfoldable pub public_key_run : Str → Result (List Handle × Result Str)
  public_key_run private_key =
      if not c.ec_key_created
      then ok ([], throws (runtime_error "Failed to create EC key"))
      else if not (c.private_key_set private_key)
      then (release_all (bignum ∷ ec_key ∷ []) (bignum ∷ ec_key ∷ []) >>= λ left.
          ok (left, throws (runtime_error "Failed to set private key")))
      else elim (c.point_mul private_key) [
        | none ↦
            release_all (bignum ∷ ec_key ∷ ec_point ∷ []) (ec_point ∷ bignum ∷ ec_key ∷ [])
            >>= λ left. ok (left, throws (runtime_error "Failed to generate public key"))
        | some point ↦
            release_all (bignum ∷ ec_key ∷ ec_point ∷ [])
              (hex_text ∷ ec_point ∷ bignum ∷ ec_key ∷ [])
            >>= λ left. ok (left, ok (c.point_to_hex point))
      ]

  unfoldable pub generate_public_key : Str → Result Str
  generate_public_key private_key = do (_, r) ← public_key_run private_key; r

  -- `key.key` is resized and never filled; the public key is not used. The random bytes are the
  -- IV, `none` where RAND_bytes fails, and are not part of the result.
  unfoldable pub encrypt : Option Str → Str → Str → Result Str
  encrypt none message public_key = throws (runtime_error "Failed to generate IV")
  encrypt (some iv) message public_key = ok (c.aes_256_gcm zero_key iv message)
