-- ===== src/Utils/MemoryPool/Priorities.antt =====
-- What getHighestPriorityTransactions returns does not depend on which std::sort runs, up to
-- entries of equal priority.
use mathlib.Core.Quot
use mathlib.Core.Quot.{Quot}
use mathlib.Core.List.{Permᴰ}
use mathlib.Core.Logic.{∥∥₁_elim}
use native.Mathlib.Nat.{ℕ_set}
use blockchain_messaging.Base.{
  ℕ, zero, suc, ◌+◌, ◌≤◌, ◌<◌, ◌≡◌, refl, sym, ap, ap₂, ◌∙◌, inl, inr, List, [], ◌∷◌, ◌++◌, map,
  take, drop, take-append-drop, length-take, min, length, All, if◌then◌else◌, Bool-cases, ltb,
  ltb→lt, All-map, ◌==◌, ==_iff, arith,
}
use blockchain_messaging.Utils.MemoryPool.{
  PoolEntry, IsSort, IsSorted, get_highest_priority_transactions, new_memory_pool,
}
use blockchain_messaging.Utils.MemoryPool.Ordering.{below_head, IsSorted-tail, above_back}
use blockchain_messaging.Utils.MemoryPool.Bags.{Bag}
use blockchain_messaging.Utils.MemoryPool.Contents.{Call, call_all, new_memory_pool-call_all}

is_one : ℕ → ℕ → ℕ
is_one k p = if p == k then 1 else 0

module _ {D : Type 0} where
  -- How many entries have a priority.
  abbrev with_priority : ℕ → List (PoolEntry D) → ℕ
  with_priority k [] = 0
  with_priority k (e ∷ es) = (if e.priority == k then 1 else 0) + with_priority k es

  with_priority-permᴰ :
      (k : ℕ) {es fs : List (PoolEntry D)} → Permᴰ es fs → with_priority k es ≡ with_priority k fs
  with_priority-permᴰ k Permᴰ.nil = refl
  with_priority-permᴰ k (Permᴰ.cons e p) =
      ap₂ (λ (a : PoolEntry D) (n : ℕ). (if a.priority == k then 1 else 0) + n) e
        (with_priority-permᴰ k p)
  with_priority-permᴰ k (Permᴰ.swap {a} {b} {a'} {b'} {l} e f) =
      let one : PoolEntry D → ℕ = λ c. if c.priority == k then 1 else 0 in
      omega (arith, ap one e, ap one f)
  with_priority-permᴰ k (Permᴰ.trans p q) = with_priority-permᴰ k p ∙ with_priority-permᴰ k q

  with_priority_bag : ℕ → Bag D → ℕ
  with_priority_bag k =
      Quot.lift ℕ_set (with_priority k) λ es fs p. ∥∥₁_elim p (ℕ_set _ _) (with_priority-permᴰ k)

  above_all :
      (k : ℕ) (es : List (PoolEntry D))
      → All (λ (e : PoolEntry D). e.priority < k) es
      → with_priority k es ≡ 0
  above_all k [] h = refl
  above_all k (e ∷ es) h = ground (arith, above_all k es h.1, ==_iff e.priority k)

  -- A sorted list starts with the highest priority that is there.
  head_le :
      (e f : PoolEntry D) (es fs : List (PoolEntry D))
      → IsSorted (f ∷ fs)
      → with_priority e.priority (e ∷ es) ≡ with_priority e.priority (f ∷ fs)
      → e.priority ≤ f.priority
  head_le e f es fs s h = elim (Bool-cases (ltb f.priority e.priority)) [
    | inl lower ↦
        let low : f.priority < e.priority = ltb→lt f.priority e.priority lower in
        let none_there : with_priority e.priority (f ∷ fs) ≡ 0 =
          above_all e.priority (f ∷ fs)
            (low, All-map (λ (g : PoolEntry D) k. omega (arith, k, low)) fs (below_head f fs s)) in
        absurd (ground (arith, h, none_there, ==_iff e.priority e.priority))
    | inr not_lower ↦ ground (arith, not_lower)
  ]

  priorities_unique :
      (es fs : List (PoolEntry D))
      → IsSorted es
      → IsSorted fs
      → ((k : ℕ) → with_priority k es ≡ with_priority k fs)
      → map (λ e. e.priority) es ≡ map (λ e. e.priority) fs
  unfolding is_one
  priorities_unique [] [] s t h = refl
  priorities_unique [] (f ∷ fs) s t h =
      absurd (ground (arith, h f.priority, ==_iff f.priority f.priority))
  priorities_unique (e ∷ es) [] s t h =
      absurd (ground (arith, h e.priority, ==_iff e.priority e.priority))
  priorities_unique (e ∷ es) (f ∷ fs) s t h =
      let same : e.priority ≡ f.priority =
        omega
          (arith, head_le e f es fs t (h e.priority), head_le f e fs es s (sym (h f.priority))) in
      ap₂ (◌∷◌) same (
        priorities_unique es fs (IsSorted-tail e es s) (IsSorted-tail f fs t)
          (λ k. omega (arith, h k, ap (is_one k) same)))

  map-take :
      (k : ℕ) (es : List (PoolEntry D))
      → map (λ (e : PoolEntry D). e.priority) (take k es)
        ≡ take k (map (λ (e : PoolEntry D). e.priority) es)
  map-take zero es = refl
  map-take (suc k) [] = refl
  map-take (suc k) (e ∷ es) = ap (◌∷◌ e.priority) (map-take k es)

  length-priorities :
      (es : List (PoolEntry D)) → length (map (λ (e : PoolEntry D). e.priority) es) ≡ length es
  length-priorities [] = refl
  length-priorities (e ∷ es) = ap suc (length-priorities es)

  -- After the same calls on two new pools, each with a std::sort of its own, the transactions that
  -- `getHighestPriorityTransactions` returns belong to entries at the front of the two pools that
  -- have the same priorities, in the same order; they are as many as asked for, or all there are, and
  -- no entry that stays behind in its pool has a higher priority than one that is returned from it. So only among equal priorities does the choice
  -- depend on the sort. (Each sort is taken to permute and to sort.)
  pub get_highest-any_sort :
      (sort sort' : List (PoolEntry D) → List (PoolEntry D)) (o : IsSort sort) (o' : IsSort sort')
      → (max_size : ℕ) (cs : List (Call D)) (count : ℕ)
      → let p = (call_all sort (new_memory_pool max_size) cs).0 in
        let p' = (call_all sort' (new_memory_pool max_size) cs).0 in
        (front back front' back' : List (PoolEntry D)) × (p.pool ≡ front ++ back)
        × (p'.pool ≡ front' ++ back')
        × (get_highest_priority_transactions p count ≡ map (λ e. e.transaction) front)
        × (get_highest_priority_transactions p' count ≡ map (λ e. e.transaction) front')
        × (map (λ e. e.priority) front ≡ map (λ e. e.priority) front')
        × (length front ≡ min count (length p.pool))
        × (length front' ≡ min count (length p'.pool))
        × All (λ (e : PoolEntry D). All (λ (f : PoolEntry D). f.priority ≤ e.priority) back) front
        × All (λ (e : PoolEntry D). All (λ (f : PoolEntry D). f.priority ≤ e.priority) back') front'
  unfolding get_highest_priority_transactions with_priority_bag
  get_highest-any_sort sort sort' o o' max_size cs count =
      let p = (call_all sort (new_memory_pool max_size) cs).0 in
      let p' = (call_all sort' (new_memory_pool max_size) cs).0 in
      let (_, bags, valid) = new_memory_pool-call_all sort o max_size cs in
      let (_, bags', valid') = new_memory_pool-call_all sort' o' max_size cs in
      let ranks : map (λ (e : PoolEntry D). e.priority) p.pool
          ≡ map (λ (e : PoolEntry D). e.priority) p'.pool =
        priorities_unique p.pool p'.pool valid.sorted valid'.sorted
          (λ k. ap (with_priority_bag k) (bags ∙ sym bags')) in
      let sizes : length p.pool ≡ length p'.pool =
        omega (arith, ap length ranks, length-priorities p.pool, length-priorities p'.pool) in
      let k = min count (length p.pool) in
      let k' = min count (length p'.pool) in
      (
        take k p.pool,
        drop k p.pool,
        take k' p'.pool,
        drop k' p'.pool,
        sym (take-append-drop k p.pool),
        sym (take-append-drop k' p'.pool),
        refl,
        refl,
        map-take k p.pool
            ∙ ap₂ (λ n (l : List ℕ). take (min count n) l) sizes ranks
            ∙ sym (map-take k' p'.pool),
        omega (arith, length-take k p.pool),
        omega (arith, length-take k' p'.pool),
        above_back k p.pool valid.sorted,
        above_back k' p'.pool valid'.sorted,
      )
