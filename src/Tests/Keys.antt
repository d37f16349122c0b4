-- ===== src/Tests/Keys.antt =====
-- src/crypto/encryption.cpp at small inputs.
use blockchain_messaging.Base.{◌≡◌, [], ◌∷◌, bytes, ok, refl}
use blockchain_messaging.Crypto.Encryption.{hex_text, public_key_run, release, release_all}
use blockchain_messaging.Tests.World.{toy}

key_run : public_key_run toy (bytes "key") ≡ ok (hex_text ∷ [], ok (bytes "key"))
unfolding public_key_run release_all release
key_run = refl
