-- ===== src/Crypto/Encryption/Keys.antt =====
-- The key generation of class Encryption: outcomes, and what it gives back to OpenSSL.
use blockchain_messaging.Base.{
  ◌≡◌, List, [], ◌∷◌, not, none, some, Str, if◌then◌else◌, Result, ok, throws, undefined,
  runtime_error, arith,
}
use blockchain_messaging.Crypto.Encryption.{
  Libcrypto, Handle, hex_text, release, release_all, public_key_run, generate_public_key,
}

module _ (c : Libcrypto) where
  -- What generatePublicKey promises its callers.
  abbrev key_outcome : Str → Result Str
  key_outcome key =
      if not c.ec_key_created
      then throws (runtime_error "Failed to create EC key")
      else if not (c.private_key_set key)
      then throws (runtime_error "Failed to set private key")
      else elim (c.point_mul key) [
        | none ↦ throws (runtime_error "Failed to generate public key")
        | some point ↦ ok (c.point_to_hex point)
      ]

  -- The text that point2hex allocates.
  abbrev pub leaked : Result Str → List Handle
  leaked (ok k) = hex_text ∷ []
  leaked (throws e) = []
  leaked undefined = []

  -- On each of its four paths `generatePublicKey` frees the key, the number and the point that it
  -- made, each once, and what is not there never; but each success leaves the text of
  -- EC_POINT_point2hex, which nobody frees. A failure throws the message of the step that failed.
  generate_public_key-handles :
      (key : Str)
      → (public_key_run c key ≡ ok (leaked (key_outcome key), key_outcome key))
        × (generate_public_key c key ≡ key_outcome key)
  unfolding public_key_run generate_public_key release_all release
  generate_public_key-handles key = (ground arith, ground arith)
