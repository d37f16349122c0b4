-- ===== src/Crypto/Merkle/Trees.antt =====
-- calculateMerkleRoot against binary hash trees, and what its padding does to the leaves.
use blockchain_messaging.Base.{
  ℕ, zero, suc, ◌+◌, ◌*◌, ◌≤◌, ◌<◌, ◌≡◌, refl, ap, ◌∙◌, sym, List, [], ◌∷◌, ◌++◌, Str, length,
  length-append, ok, arith,
}
use blockchain_messaging.Crypto.Hash.{OpenSsl, hash, double_hash}
use blockchain_messaging.Crypto.Merkle.{calculate_merkle_root}
use blockchain_messaging.Crypto.Merkle.Levels.{
  level_up, length-level_up, calculate_merkle_root_step, calculate_merkle_root_one,
}

-- A perfect binary tree of the given height.
pub data Tree : ℕ → Type 0 where
  leaf : Str → Tree zero
  node : {n : ℕ} → Tree n → Tree n → Tree (suc n)

abbrev pub leaves : {n : ℕ} → Tree n → List Str
leaves (leaf a) = a ∷ []
leaves (node l r) = leaves l ++ leaves r

module _ (o : OpenSsl) where
  -- The hash of a tree: a leaf is its own hash, and a node hashes its two sides joined.
  abbrev pub tree_hash : {n : ℕ} → Tree n → Str
  tree_hash (leaf a) = a
  tree_hash (node l r) = double_hash o (tree_hash l ++ tree_hash r)

  -- The lowest nodes become leaves.
  collapse : (n : ℕ) → Tree (suc n) → Tree n
  collapse zero (node (leaf a) (leaf b)) = leaf (double_hash o (a ++ b))
  collapse (suc n) (node l r) = node (collapse n l) (collapse n r)

  tree_hash-collapse : (n : ℕ) (t : Tree (suc n)) → tree_hash (collapse n t) ≡ tree_hash t
  unfolding collapse
  tree_hash-collapse zero (node (leaf a) (leaf b)) = refl
  tree_hash-collapse (suc n) (node l r) = rw (tree_hash-collapse n l, tree_hash-collapse n r)

  -- Pairs of entries are hashed one by one, so two even parts are hashed apart.
  level_up-append :
      (k : ℕ) (xs ys : List Str)
      → length xs ≡ 2 * k
      → level_up o (xs ++ ys) ≡ level_up o xs ++ level_up o ys
  level_up-append k [] ys h = refl
  level_up-append k (a ∷ []) ys h = absurd (omega arith)
  level_up-append zero (a ∷ b ∷ xs) ys h = absurd (omega arith)
  level_up-append (suc k) (a ∷ b ∷ xs) ys h =
      ap (◌∷◌ (double_hash o (a ++ b))) (level_up-append k xs ys (omega arith))

  half_leaves : (n : ℕ) (t : Tree (suc n)) → (k : ℕ) × (length (leaves t) ≡ 2 * k)
  half_leaves zero (node (leaf a) (leaf b)) = (1, refl)
  half_leaves (suc n) (node l r) =
      let (i, p) = half_leaves n l in
      let (j, q) = half_leaves n r in (i + j, omega (arith, length-append (leaves l) (leaves r)))

  leaves-collapse : (n : ℕ) (t : Tree (suc n)) → level_up o (leaves t) ≡ leaves (collapse n t)
  unfolding collapse
  leaves-collapse zero (node (leaf a) (leaf b)) = refl
  leaves-collapse (suc n) (node l r) =
      let (i, p) = half_leaves n l in
      level_up-append i (leaves l) (leaves r) p ∙ rw (leaves-collapse n l, leaves-collapse n r)

  merkle_root_of_two :
      (xs : List Str)
      → 1 < length xs
      → calculate_merkle_root o xs ≡ calculate_merkle_root o (level_up o xs)
  merkle_root_of_two (a ∷ []) h = absurd (omega arith)
  merkle_root_of_two (a ∷ b ∷ rest) h = calculate_merkle_root_step o a b rest
  merkle_root_of_two [] h = absurd (omega arith)

  two_leaves : (n : ℕ) (t : Tree (suc n)) → 1 < length (leaves t)
  two_leaves zero (node (leaf a) (leaf b)) = omega arith
  two_leaves (suc n) (node l r) = omega (arith, length-append (leaves l) (leaves r), two_leaves n l)

  -- On the leaves of a perfect binary tree the root is the hash of that tree.
  pub merkle_root-leaves :
      (n : ℕ) (t : Tree n) → calculate_merkle_root o (leaves t) ≡ ok (tree_hash t)
  merkle_root-leaves zero (leaf a) = calculate_merkle_root_one o a
  merkle_root-leaves (suc n) t =
      merkle_root_of_two (leaves t) (two_leaves n t)
      ∙ ap (calculate_merkle_root o) (leaves-collapse n t)
      ∙ merkle_root-leaves n (collapse n t)
      ∙ ap ok (tree_hash-collapse n t)

  total_by :
      (f : ℕ) (xs : List Str) → length xs ≤ f → (r : Str) × (calculate_merkle_root o xs ≡ ok r)
  total_by f [] h = (hash o [], unfold calculate_merkle_root in refl)
  total_by f (a ∷ []) h = (a, calculate_merkle_root_one o a)
  total_by zero (a ∷ b ∷ rest) h = elim h [ ]
  total_by (suc f) (a ∷ b ∷ rest) h =
      rw (calculate_merkle_root_step o a b rest)
        (total_by f (level_up o (a ∷ b ∷ rest)) (omega (arith, length-level_up o (a ∷ b ∷ rest))))

  -- For every list of entries the computation ends, reads only entries that are there, and
  -- returns a root: for no entry the hash of the empty string, for one entry that entry.
  merkle_root_total :
      (xs : List Str)
      → ((r : Str) × (calculate_merkle_root o xs ≡ ok r))
        × (calculate_merkle_root o [] ≡ ok (hash o []))
        × ((a : Str) → calculate_merkle_root o (a ∷ []) ≡ ok a)
  merkle_root_total xs = (
    total_by (length xs) xs (omega arith),
    unfold calculate_merkle_root in refl,
    calculate_merkle_root_one o,
  )

  level_up-repeat :
      (k : ℕ) (xs : List Str) (x : Str)
      → length xs ≡ 2 * k
      → level_up o (xs ++ x ∷ []) ≡ level_up o (xs ++ x ∷ x ∷ [])
  level_up-repeat k xs x h =
      level_up-append k xs (x ∷ []) h ∙ sym (level_up-append k xs (x ∷ x ∷ []) h)

  -- An odd number of entries, three or more, has the root of the longer list in which the last
  -- entry is written twice: the root does not fix the number of transactions.
  pub merkle_root_repeat :
      (k : ℕ) (xs : List Str) (x : Str)
      → length xs ≡ 2 * suc k
      → calculate_merkle_root o (xs ++ x ∷ []) ≡ calculate_merkle_root o (xs ++ x ∷ x ∷ [])
  merkle_root_repeat k xs x h =
      merkle_root_of_two _ (omega (arith, length-append xs (x ∷ [])))
      ∙ ap (calculate_merkle_root o) (level_up-repeat (suc k) xs x h)
      ∙ sym (merkle_root_of_two _ (omega (arith, length-append xs (x ∷ x ∷ []))))
