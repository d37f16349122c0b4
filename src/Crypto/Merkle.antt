-- ===== src/Crypto/Merkle.antt =====
-- src/crypto/hash.cpp: HashUtils::calculateMerkleRoot.
pub mod Levels
pub mod Trees
pub mod Binding
use blockchain_messaging.Base.{
  ℕ, zero, suc, ◌%◌, List, [], ◌∷◌, ◌++◌, Bool, true, false, none, some, Str, ltb, ◌==◌,
  if◌then◌else◌, length, last?, is_empty, Result, ok, undefined, ◌>>=◌,
}
use blockchain_messaging.Crypto.Hash.{OpenSsl, hash, double_hash}

-- `tree.push_back(tree.back())`.
unfoldable pub push_back_last : List Str → List Str
push_back_last tree = elim (last? tree) [ none ↦ tree | some x ↦ tree ++ x ∷ [] ]

-- `if (tree.size() % 2 != 0) tree.push_back(tree.back());`
unfoldable pub pad_level : List Str → List Str
unfolding push_back_last
pad_level tree = if length tree % 2 == 0 then tree else push_back_last tree

module _ (o : OpenSsl) where
  -- The `for` loop: `tree[i] + tree[i + 1]`, where reading past the end is undefined.
  unfoldable pub new_level : List Str → Result (List Str)
  new_level [] = ok []
  new_level (a ∷ []) = undefined
  new_level (a ∷ b ∷ rest) = do level ← new_level rest; ok (double_hash o (a ++ b) ∷ level)

  -- `return tree[0];`
  unfoldable pub front : List Str → Result Str
  front [] = undefined
  front (a ∷ rest) = ok a

  -- The `while` loop on fuel. A loop that never ends is undefined behaviour too.
  unfoldable pub merkle_rounds : ℕ → List Str → Result Str
  merkle_rounds zero tree = undefined
  merkle_rounds (suc fuel) tree = elim (ltb 1 (length tree)) [
    | true ↦ new_level (pad_level tree) >>= λ level. merkle_rounds fuel level
    | false ↦ front tree
  ]

  unfoldable pub calculate_merkle_root : List Str → Result Str
  calculate_merkle_root transactions =
      if is_empty transactions
      then ok (hash o [])
      else merkle_rounds (length transactions) transactions
