-- ===== src/Crypto/Merkle/Levels.antt =====
-- The rounds of calculateMerkleRoot against a plain recursion: no read past the end, the loop ends.
use blockchain_messaging.Base.{
  ℕ, zero, suc, ◌+◌, ◌/◌, ◌<◌, ◌≡◌, refl, ◌∙◌, List, [], ◌∷◌, ◌++◌, Str, length, ok, arith,
}
use blockchain_messaging.Crypto.Hash.{OpenSsl, double_hash}
use blockchain_messaging.Crypto.Merkle.{
  push_back_last, pad_level, new_level, front, merkle_rounds, calculate_merkle_root,
}

push_back_last-cons :
    (a b c : Str) (rest : List Str)
    → push_back_last (a ∷ b ∷ c ∷ rest) ≡ a ∷ b ∷ push_back_last (c ∷ rest)
unfolding push_back_last
push_back_last-cons a b c rest = ground arith

pub pad_level-cons :
    (a b c : Str) (rest : List Str) → pad_level (a ∷ b ∷ c ∷ rest) ≡ a ∷ b ∷ pad_level (c ∷ rest)
unfolding pad_level
pad_level-cons a b c rest = ground (arith, push_back_last-cons a b c rest)

module _ (o : OpenSsl) where
  -- One level up: neighbours are hashed together, an odd last entry with itself.
  abbrev pub level_up : List Str → List Str
  level_up [] = []
  level_up (a ∷ []) = double_hash o (a ++ a) ∷ []
  level_up (a ∷ b ∷ rest) = double_hash o (a ++ b) ∷ level_up rest

  pub new_level-pad : (tree : List Str) → new_level o (pad_level tree) ≡ ok (level_up tree)
  unfolding new_level pad_level
  new_level-pad [] = refl
  new_level-pad (a ∷ []) = refl
  new_level-pad (a ∷ b ∷ []) = refl
  new_level-pad (a ∷ b ∷ c ∷ rest) = rw (pad_level-cons, new_level) (rw (new_level-pad (c ∷ rest)))

  pub length-level_up : (tree : List Str) → length (level_up tree) ≡ (length tree + 1) / 2
  length-level_up [] = omega arith
  length-level_up (a ∷ []) = omega arith
  length-level_up (a ∷ b ∷ rest) = omega (arith, length-level_up rest)

  merkle_rounds_step :
      (fuel : ℕ) (a b : Str) (rest : List Str)
      → merkle_rounds o (suc fuel) (a ∷ b ∷ rest)
        ≡ merkle_rounds o fuel (double_hash o (a ++ b) ∷ level_up rest)
  unfolding merkle_rounds
  merkle_rounds_step fuel a b rest = ground (arith, new_level-pad (a ∷ b ∷ rest))

  merkle_rounds_fuel :
      (f g : ℕ) (a : Str) (rest : List Str)
      → length rest < f
      → length rest < g
      → merkle_rounds o f (a ∷ rest) ≡ merkle_rounds o g (a ∷ rest)
  merkle_rounds_fuel zero g a rest h k = elim h [ ]
  merkle_rounds_fuel (suc f) zero a rest h k = elim k [ ]
  merkle_rounds_fuel (suc f) (suc g) a [] h k = unfold merkle_rounds front in refl
  merkle_rounds_fuel (suc f) (suc g) a (b ∷ rest) h k =
      rw (merkle_rounds_step f a b rest, merkle_rounds_step g a b rest)
        (merkle_rounds_fuel f g _ (level_up rest) (omega (arith, length-level_up rest))
          (omega (arith, length-level_up rest)))

  -- The root of two or more entries is the root of the next level up.
  pub calculate_merkle_root_step :
      (a b : Str) (rest : List Str)
      → calculate_merkle_root o (a ∷ b ∷ rest) ≡ calculate_merkle_root o (level_up (a ∷ b ∷ rest))
  calculate_merkle_root_step a b rest =
      unfold calculate_merkle_root in
      merkle_rounds_step (suc (length rest)) a b rest
      ∙ merkle_rounds_fuel (suc (length rest)) (suc (length (level_up rest)))
          (double_hash o (a ++ b)) (level_up rest) (omega (arith, length-level_up rest))
          (omega (arith, length-level_up rest))

  pub calculate_merkle_root_one : (a : Str) → calculate_merkle_root o (a ∷ []) ≡ ok a
  unfolding calculate_merkle_root merkle_rounds front
  calculate_merkle_root_one a = refl
