-- ===== src/Tests/Hashes.antt =====
-- src/crypto/hash.cpp at small inputs.
use blockchain_messaging.Base.{
  length, ◌≡◌, refl, ◌⊎◌, List, [], ◌∷◌, ◌++◌, Str, bytes, replicate, ok,
}
use blockchain_messaging.Crypto.Hash.{hash, double_hash, to_hex, hex_byte, hex_digit}
use blockchain_messaging.Crypto.Merkle.{
  calculate_merkle_root, merkle_rounds, new_level, front, pad_level, push_back_last,
}
use blockchain_messaging.Crypto.Merkle.Trees.{
  Tree, leaf, node, leaves, tree_hash, merkle_root-leaves, merkle_root_repeat,
}
use blockchain_messaging.Crypto.Merkle.Binding.{TreeCollides, merkle_root_binding}
use blockchain_messaging.Tests.World.{checksums, checksums-IsOpenSsl}

program : Unit {0}
unfolding calculate_merkle_root merkle_rounds new_level front pad_level push_back_last double_hash
    hash to_hex hex_byte hex_digit
program = tt

to_hex_run : to_hex (0 ∷ 171 ∷ 15 ∷ []) ≡ bytes "00ab0f"
unfolding program
to_hex_run = refl

abbrev three : List Str
three = bytes "a" ∷ bytes "b" ∷ bytes "c" ∷ []

merkle_run :
    calculate_merkle_root checksums three
    ≡ ok (
        double_hash checksums
          (double_hash checksums (bytes "ab") ++ double_hash checksums (bytes "cc")))
unfolding program
merkle_run = refl

abbrev four_leaves : Tree 2
four_leaves =
    node (node (leaf (bytes "a")) (leaf (bytes "b"))) (node (leaf (bytes "c")) (leaf (bytes "d")))

merkle_root-leaves_example :
    calculate_merkle_root checksums (leaves four_leaves) ≡ ok (tree_hash checksums four_leaves)
merkle_root-leaves_example = merkle_root-leaves checksums 2 four_leaves

abbrev digits_64 : List Str
digits_64 = replicate 64 48 ∷ replicate 64 49 ∷ []

merkle_root_binding_example :
    (digits_64 ≡ digits_64) ⊎ TreeCollides checksums (length digits_64) digits_64 digits_64
merkle_root_binding_example =
    merkle_root_binding checksums checksums-IsOpenSsl digits_64 digits_64 refl (refl, (refl, tt))
      (refl, (refl, tt)) refl

merkle_root_repeat_example :
    calculate_merkle_root checksums three
    ≡ calculate_merkle_root checksums (bytes "a" ∷ bytes "b" ∷ bytes "c" ∷ bytes "c" ∷ [])
merkle_root_repeat_example =
    merkle_root_repeat checksums 0 (bytes "a" ∷ bytes "b" ∷ []) (bytes "c") refl
