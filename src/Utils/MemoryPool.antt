-- ===== src/Utils/MemoryPool.antt =====
-- src/utils/memory_pool.hpp and memory_pool.cpp: class MemoryPool, one call at a time.
-- std::sort is a parameter, since the standard leaves the order of equal priorities open.
pub mod Ordering
pub mod Queueing
pub mod Bags
pub mod Contents
pub mod Priorities
use blockchain_messaging.Base.{
  ℕ, ◌-◌, ◌≤◌, List, [], ◌∷◌, ◌++◌, map, Bool, true, false, not, min, ltb, leb, take, length,
  if◌then◌else◌,
}
use mathlib.Core.List.{Perm}
use blockchain_messaging.Core.Transaction.{Transaction}

pub record PoolEntry (D : Type 0) : Type 0 where
  pub transaction : Transaction D
  pub timestamp : ℕ
  pub priority : ℕ

pub record MemoryPool (D : Type 0) : Type 0 where
  pub pool : List (PoolEntry D)
  pub max_size : ℕ

unfoldable pub new_memory_pool : {D : Type 0} → ℕ → MemoryPool D
new_memory_pool max_size = record { pool = []; max_size = max_size }

-- The default argument of `cleanup`, in seconds.
abbrev pub default_max_age : ℕ
default_max_age = 3600

module _ {D : Type 0} where
  -- `a.priority > b.priority` holds of no entry and one before it.
  abbrev pub IsSorted : List (PoolEntry D) → Type 0
  IsSorted [] = Unit {0}
  IsSorted (e ∷ []) = Unit {0}
  IsSorted (e ∷ e' ∷ es) = (e'.priority ≤ e.priority) × IsSorted (e' ∷ es)

  -- What std::sort promises: the same entries, in the order of the comparison.
  pub record IsSort (sort : List (PoolEntry D) → List (PoolEntry D)) : Type 0 where
    pub permutes : (es : List (PoolEntry D)) → Perm (sort es) es
    pub sorts : (es : List (PoolEntry D)) → IsSorted (sort es)

  unfoldable pub is_full : MemoryPool D → Bool
  is_full p = leb p.max_size (length p.pool)

  -- The loop of std::remove_if. An entry from the future has a negative age, and stays.
  unfoldable pub remove_old : ℕ → ℕ → List (PoolEntry D) → List (PoolEntry D)
  remove_old now max_age [] = []
  remove_old now max_age (e ∷ es) =
      if ltb max_age (now - e.timestamp)
      then remove_old now max_age es
      else e ∷ remove_old now max_age es

  unfoldable pub cleanup : ℕ → ℕ → MemoryPool D → MemoryPool D
  cleanup now max_age p = record p { pool = remove_old now max_age p.pool }

  unfoldable pub get_highest_priority_transactions : MemoryPool D → ℕ → List (Transaction D)
  get_highest_priority_transactions p count =
      map (λ e. e.transaction) (take (min count (length p.pool)) p.pool)

  module _ (sort : List (PoolEntry D) → List (PoolEntry D)) where
    -- `pool.push_back(entry); std::sort(...);`
    unfoldable pub push_entry : MemoryPool D → PoolEntry D → MemoryPool D
    push_entry p e = record p { pool = sort (p.pool ++ e ∷ []) }

    -- `now` is the time that a cleanup reads, and `time` the one that the entry gets.
    unfoldable pub add_transaction : ℕ → ℕ → MemoryPool D → Transaction D → ℕ → MemoryPool D × Bool
    add_transaction now time p t priority =
        let entry : PoolEntry D = record {
          transaction = t;
          timestamp = time;
          priority = priority;
        } in
        if is_full p
        then (let p' = cleanup now default_max_age p in
            if is_full p' then (p', false) else (push_entry p' entry, true))
        else (push_entry p entry, true)
