-- ===== src/Utils/MemoryPool/Ordering.antt =====
-- The order of the pool: what a cleanup keeps of it, and what stands behind the first entries.
use blockchain_messaging.Base.{
  ℕ, suc, zero, ◌-◌, ◌≤◌, ◌≡◌, refl, ap, ◌∙◌, inl, inr, List, [], ◌∷◌, ltb, take, drop, length, All,
  All-map, All-drop, Bool-cases, arith,
}
use mathlib.Core.List.{Perm, Permᴰ}
use mathlib.Core.Logic.{∥∥₁_elim}
use native.Mathlib.Nat.{ℕ_set}
use blockchain_messaging.Utils.MemoryPool.{PoolEntry, MemoryPool, IsSorted, remove_old}

length-permᴰ {ℓ} : {A : Type ℓ} {xs ys : List A} → Permᴰ xs ys → length xs ≡ length ys
length-permᴰ Permᴰ.nil = refl
length-permᴰ (Permᴰ.cons e p) = ap suc (length-permᴰ p)
length-permᴰ (Permᴰ.swap e f) = refl
length-permᴰ (Permᴰ.trans p q) = length-permᴰ p ∙ length-permᴰ q

pub length-perm {ℓ} : {A : Type ℓ} {xs ys : List A} → Perm xs ys → length xs ≡ length ys
length-perm p = ∥∥₁_elim p (ℕ_set _ _) length-permᴰ

module _ {D : Type 0} where
  pub record IsValid (p : MemoryPool D) : Type 0 where
    pub sorted : IsSorted p.pool
    pub bounded : length p.pool ≤ p.max_size

  -- Young enough to survive a cleanup.
  abbrev pub IsYoung : ℕ → ℕ → PoolEntry D → Type 0
  IsYoung now max_age e = now - e.timestamp ≤ max_age

  IsSorted-cons :
      (e : PoolEntry D) (es : List (PoolEntry D))
      → All (λ (f : PoolEntry D). f.priority ≤ e.priority) es
      → IsSorted es
      → IsSorted (e ∷ es)
  IsSorted-cons e [] h s = tt
  IsSorted-cons e (f ∷ es) h s = (h.0, s)

  pub below_head :
      (e : PoolEntry D) (es : List (PoolEntry D))
      → IsSorted (e ∷ es)
      → All (λ (f : PoolEntry D). f.priority ≤ e.priority) es
  below_head e [] s = tt
  below_head e (f ∷ es) s =
      (s.0, All-map (λ (g : PoolEntry D) h. omega (arith, s.0)) es (below_head f es s.1))

  pub remove_old-All :
      (P : PoolEntry D → Type 0) (now max_age : ℕ) (es : List (PoolEntry D))
      → All P es
      → All P (remove_old now max_age es)
  unfolding remove_old
  remove_old-All P now max_age [] h = tt
  remove_old-All P now max_age (e ∷ es) h = elim (Bool-cases (ltb max_age (now - e.timestamp))) [
    | inl old ↦ rw (old, remove_old) (remove_old-All P now max_age es h.1)
    | inr young ↦ rw (young, remove_old) (h.0, remove_old-All P now max_age es h.1)
  ]

  pub IsSorted-tail : (e : PoolEntry D) (es : List (PoolEntry D)) → IsSorted (e ∷ es) → IsSorted es
  IsSorted-tail e [] s = tt
  IsSorted-tail e (f ∷ es) s = s.1

  pub remove_old-IsSorted :
      (now max_age : ℕ) (es : List (PoolEntry D))
      → IsSorted es
      → IsSorted (remove_old now max_age es)
  unfolding remove_old
  remove_old-IsSorted now max_age [] s = tt
  remove_old-IsSorted now max_age (e ∷ es) s =
      let rest = remove_old-IsSorted now max_age es (IsSorted-tail e es s) in
      elim (Bool-cases (ltb max_age (now - e.timestamp))) [
        | inl old ↦ rw (old, remove_old) rest
        | inr young ↦
            rw (young, remove_old)
              (IsSorted-cons e (remove_old now max_age es)
                (remove_old-All (λ f. f.priority ≤ e.priority) now max_age es (below_head e es s))
                rest)
      ]

  pub length-remove_old :
      (now max_age : ℕ) (es : List (PoolEntry D)) → length (remove_old now max_age es) ≤ length es
  unfolding remove_old
  length-remove_old now max_age [] = omega arith
  length-remove_old now max_age (e ∷ es) = ground (arith, length-remove_old now max_age es)

  pub remove_old-IsYoung :
      (now max_age : ℕ) (es : List (PoolEntry D))
      → All (IsYoung now max_age) (remove_old now max_age es)
  unfolding remove_old
  remove_old-IsYoung now max_age [] = tt
  remove_old-IsYoung now max_age (e ∷ es) = ground (arith, remove_old-IsYoung now max_age es)

  -- No entry behind the first `k` has a higher priority than one of them.
  pub above_back :
      (k : ℕ) (es : List (PoolEntry D))
      → IsSorted es
      → All
          (λ (e : PoolEntry D). All (λ (f : PoolEntry D). f.priority ≤ e.priority) (drop k es))
          (take k es)
  above_back zero es s = tt
  above_back (suc k) [] s = tt
  above_back (suc k) (e ∷ es) s = (
    All-drop (λ (f : PoolEntry D). f.priority ≤ e.priority) k es (below_head e es s),
    above_back k es (IsSorted-tail e es s),
  )
