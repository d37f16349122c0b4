-- ===== src/Tests/Blocks.antt =====
-- src/core/block.cpp at small inputs.
use blockchain_messaging.Base.{ℕ, ◌<◌, ◌≡◌, ◌≢◌, refl, [], ◌∷◌, true, bytes, decimal, Option, arith}
use blockchain_messaging.Crypto.Hash.{hash, to_hex, hex_byte, hex_digit}
use blockchain_messaging.Base.{some}
use blockchain_messaging.Crypto.Encryption.{encrypt}
use blockchain_messaging.Core.Transaction.{Transaction, set_message}
use blockchain_messaging.Core.Block.{
  Block, block_text, calculate_hash, new_block, next_nonce, meets, mine_block, is_valid, uint32_mod,
}
use blockchain_messaging.Core.Block.Mining.{
  at_nonce, nonce_after, IsHashed, Finds, mine_block-Finds, take_short,
}
use blockchain_messaging.Crypto.Hash.Hex.{length-hash}
use blockchain_messaging.Core.Block.Contents.{calculate_hash-set_message}
use blockchain_messaging.Tests.World.{Number, world, checksums-IsOpenSsl, sample}

program : Unit {0}
unfolding block_text calculate_hash new_block next_nonce meets mine_block is_valid hash to_hex
    hex_byte hex_digit decimal
program = tt

abbrev letter : Transaction Number
letter = sample [] (bytes "alice") (bytes "bob") 0

abbrev unmined : Block Number
unmined = new_block world 12 1 (letter ∷ []) (bytes "0")

mined : Option (Block Number)
unfolding program
mined = mine_block world 100 1 unmined

unmined-IsHashed : IsHashed world unmined
unfolding program
unmined-IsHashed = record { current = refl; small = omega arith }

nonce_30 : meets world 1 (at_nonce world unmined (nonce_after world unmined 30)).hash ≡ true
unfolding program
nonce_30 = refl

mine_block-Finds_example : Finds world 31 1 unmined 30
mine_block-Finds_example =
    mine_block-Finds world 31 1 30 unmined unmined-IsHashed nonce_30 (omega arith)

no_nonce : (n : ℕ) → n < uint32_mod → meets world 65 (at_nonce world unmined n).hash ≢ true
unfolding calculate_hash
no_nonce n small = take_short world 65 _ (
    omega (
      arith,
      length-hash world.ssl checksums-IsOpenSsl (block_text world (record unmined { nonce = n })),
    ))

abbrev forged : Transaction Number
forged = record letter { encrypted_message = bytes "pay me"; message_recipient = bytes "bob" }

calculate_hash-set_message_example :
    (calculate_hash world (record unmined { transactions = forged ∷ [] })
      ≡ calculate_hash world unmined)
    × (is_valid world (record unmined { transactions = forged ∷ [] }) ≡ is_valid world unmined)
unfolding set_message encrypt new_block
calculate_hash-set_message_example =
    calculate_hash-set_message world unmined [] letter forged [] (some []) (bytes "pay me")
      (bytes "bob") refl refl refl
