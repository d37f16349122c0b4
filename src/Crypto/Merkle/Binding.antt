-- ===== src/Crypto/Merkle/Binding.antt =====
-- The root commits to the entries: two different lists with one root give a collision in
-- their trees.
use blockchain_messaging.Base.{
  append_split, ℕ, zero, suc, ◌≤◌, ◌≡◌, ◌≢◌, refl, ◌∙◌, sym, ap, ap₂, inl, inr, ◌⊎◌, List, [], ◌∷◌,
  ◌++◌, Str, str_eq, str_eq_iff, length, All, arith, Bool-cases,
}
use blockchain_messaging.Crypto.Hash.{OpenSsl, IsOpenSsl, double_hash}
use blockchain_messaging.Crypto.Hash.Hex.{length-double_hash}
use blockchain_messaging.Crypto.Merkle.{calculate_merkle_root}
use blockchain_messaging.Crypto.Merkle.Levels.{
  level_up, length-level_up, calculate_merkle_root_step, calculate_merkle_root_one,
}

module _ (o : OpenSsl) where
  abbrev pub IsHash : Str → Type 0
  IsHash a = length a ≡ 64

  -- Two different texts that the double hash takes together.
  abbrev pub Collides : Str → Str → Type 0
  Collides m n = (m ≢ n) × (double_hash o m ≡ double_hash o n)

  -- Somewhere in two levels, two pairs collide. (A last entry without a partner is its own.)
  abbrev pub LevelCollides : List Str → List Str → Type 0
  LevelCollides (a ∷ []) (c ∷ []) = Collides (a ++ a) (c ++ c)
  LevelCollides (a ∷ b ∷ xs) (c ∷ d ∷ ys) = Collides (a ++ b) (c ++ d) ⊎ LevelCollides xs ys
  LevelCollides _ _ = ⊥

  -- Somewhere in two levels, or in one of the next levels above them, two pairs collide.
  abbrev pub TreeCollides : ℕ → List Str → List Str → Type 0
  TreeCollides zero xs ys = ⊥
  TreeCollides (suc levels) xs ys =
      LevelCollides xs ys ⊎ TreeCollides levels (level_up o xs) (level_up o ys)

  -- Equal parents have equal children, or collide.
  children :
      (a b c d : Str)
      → IsHash a
      → IsHash c
      → double_hash o (a ++ b) ≡ double_hash o (c ++ d)
      → ((a ≡ c) × (b ≡ d)) ⊎ Collides (a ++ b) (c ++ d)
  children a b c d ha hc e = elim (Bool-cases (str_eq (a ++ b) (c ++ d))) [
    | inl same ↦ inl (append_split a c b d (omega arith) ((str_eq_iff _ _).0 same))
    | inr other ↦ inr ((λ q. ground (arith, str_eq_iff (a ++ b) (c ++ d))), e)
  ]

  level_up-eq :
      (xs ys : List Str)
      → length xs ≡ length ys
      → All IsHash xs
      → All IsHash ys
      → level_up o xs ≡ level_up o ys
      → (xs ≡ ys) ⊎ LevelCollides xs ys
  level_up-eq [] [] h hx hy e = inl refl
  level_up-eq [] (c ∷ ys) h hx hy e = absurd (omega arith)
  level_up-eq (a ∷ xs) [] h hx hy e = absurd (omega arith)
  level_up-eq (a ∷ []) (c ∷ []) h hx hy e = elim (children a a c c hx.0 hy.0 (cc e)) [
    | inl same ↦ inl (ap (λ d. d ∷ []) same.0)
    | inr collision ↦ inr collision
  ]
  level_up-eq (a ∷ []) (c ∷ d ∷ ys) h hx hy e = absurd (omega arith)
  level_up-eq (a ∷ b ∷ xs) (c ∷ []) h hx hy e = absurd (omega arith)
  level_up-eq (a ∷ b ∷ xs) (c ∷ d ∷ ys) h hx hy e = elim (children a b c d hx.0 hy.0 (cc e)) [
    | inr collision ↦ inr (inl collision)
    | inl same ↦ elim (level_up-eq xs ys (omega arith) hx.1.1 hy.1.1 (cc e)) [
      | inr collision ↦ inr (inr collision)
      | inl rest ↦ inl (ap₂ ◌∷◌ same.0 (ap₂ ◌∷◌ same.1 rest))
    ]
  ]

  module _ (h : IsOpenSsl o) where
    level_up-IsHash : (xs : List Str) → All IsHash (level_up o xs)
    level_up-IsHash [] = tt
    level_up-IsHash (a ∷ []) = (length-double_hash o h (a ++ a), tt)
    level_up-IsHash (a ∷ b ∷ xs) = (length-double_hash o h (a ++ b), level_up-IsHash xs)

    binding_by :
        (f : ℕ) (xs ys : List Str)
        → length xs ≤ f
        → length xs ≡ length ys
        → All IsHash xs
        → All IsHash ys
        → calculate_merkle_root o xs ≡ calculate_merkle_root o ys
        → (xs ≡ ys) ⊎ TreeCollides f xs ys
    binding_by f [] [] l k hx hy e = inl refl
    binding_by f [] (c ∷ ys) l k hx hy e = absurd (omega arith)
    binding_by f (a ∷ xs) [] l k hx hy e = absurd (omega arith)
    binding_by f (a ∷ []) (c ∷ []) l k hx hy e =
        ground (arith, calculate_merkle_root_one o a, calculate_merkle_root_one o c)
    binding_by f (a ∷ []) (c ∷ d ∷ ys) l k hx hy e = absurd (omega arith)
    binding_by f (a ∷ b ∷ xs) (c ∷ []) l k hx hy e = absurd (omega arith)
    binding_by zero (a ∷ b ∷ xs) (c ∷ d ∷ ys) l k hx hy e = elim l [ ]
    binding_by (suc f) (a ∷ b ∷ xs) (c ∷ d ∷ ys) l k hx hy e =
        let up =
          binding_by f (level_up o (a ∷ b ∷ xs)) (level_up o (c ∷ d ∷ ys))
            (omega (arith, length-level_up o (a ∷ b ∷ xs)))
            (omega (arith, length-level_up o (a ∷ b ∷ xs), length-level_up o (c ∷ d ∷ ys)))
            (level_up-IsHash (a ∷ b ∷ xs)) (level_up-IsHash (c ∷ d ∷ ys))
            (sym (calculate_merkle_root_step o a b xs) ∙ e ∙ calculate_merkle_root_step o c d ys) in
        elim up [
          | inl same ↦ elim (level_up-eq (a ∷ b ∷ xs) (c ∷ d ∷ ys) k hx hy same) [
            | inl equal ↦ inl equal
            | inr here ↦ inr (inl here)
          ]
          | inr above ↦ inr (inr above)
        ]

    -- Two lists of equally many transaction hashes (64 digits each) with one root are the same
    -- list, or their trees show a collision: at some place of some level, the pairs of the two trees
    -- are different texts with the same double hash (with digests of the documented length).
    pub merkle_root_binding :
        (xs ys : List Str)
        → length xs ≡ length ys
        → All IsHash xs
        → All IsHash ys
        → calculate_merkle_root o xs ≡ calculate_merkle_root o ys
        → (xs ≡ ys) ⊎ TreeCollides (length xs) xs ys
    merkle_root_binding xs ys = binding_by (length xs) xs ys (omega arith)
