-- ===== src/Utils/MemoryPool/Queueing.antt =====
-- What addTransaction keeps of the order and the size of the pool.
use blockchain_messaging.Base.{
  ℕ, ◌+◌, ◌<◌, ◌≡◌, ◌∙◌, inl, inr, List, [], ◌∷◌, ◌++◌, true, false, length, length-append,
  if◌then◌else◌, Bool-cases, arith,
}
use blockchain_messaging.Core.Transaction.{Transaction}
use blockchain_messaging.Utils.MemoryPool.{
  PoolEntry, MemoryPool, IsSort, is_full, cleanup, default_max_age, push_entry, add_transaction,
}
use blockchain_messaging.Utils.MemoryPool.Ordering.{
  IsValid, length-perm, remove_old-IsSorted, length-remove_old,
}

module _ {D : Type 0} where
  module _ (sort : List (PoolEntry D) → List (PoolEntry D)) (o : IsSort sort) where
    length-push :
        (p : MemoryPool D) (e : PoolEntry D) → length (push_entry sort p e).pool ≡ length p.pool + 1
    unfolding push_entry
    length-push p e =
        length-perm (o.permutes (p.pool ++ e ∷ [])) ∙ omega (arith, length-append p.pool (e ∷ []))

    push-IsValid :
        (p : MemoryPool D) (e : PoolEntry D)
        → length p.pool < p.max_size
        → IsValid (push_entry sort p e)
    push-IsValid p e h = record {
      sorted = unfold push_entry in o.sorts (p.pool ++ e ∷ []);
      bounded = unfold push_entry in omega (arith, length-push p e);
    }

    pub cleanup-IsValid :
        (p : MemoryPool D) (now max_age : ℕ) → IsValid p → IsValid (cleanup now max_age p)
    unfolding cleanup
    cleanup-IsValid p now max_age v = record {
      sorted = remove_old-IsSorted now max_age p.pool v.sorted;
      bounded = omega (arith, length-remove_old now max_age p.pool, v.bounded);
    }

    -- What is in the pool when the new entry is tried: a full pool is cleaned first.
    abbrev kept : ℕ → MemoryPool D → MemoryPool D
    kept now p = if is_full p then cleanup now default_max_age p else p

    kept-IsValid : (now : ℕ) (p : MemoryPool D) → IsValid p → IsValid (kept now p)
    kept-IsValid now p v = elim (Bool-cases (is_full p)) [
      | inl full ↦ rw full (cleanup-IsValid p now default_max_age v)
      | inr room ↦ rw room v
    ]

    add_kept :
        (now time : ℕ) (p : MemoryPool D) (t : Transaction D) (priority : ℕ)
        → add_transaction sort now time p t priority ≡ (
            if is_full (kept now p) then (kept now p, false) else (
              push_entry sort
                  (kept now p)
                  (record { transaction = t; timestamp = time; priority = priority }),
              true,
            ))
    unfolding add_transaction
    add_kept now time p t priority = elim (Bool-cases (is_full p)) [
      | inl full ↦ rw full
      | inr room ↦ rw (room, room)
    ]

    not_full : (p : MemoryPool D) → is_full p ≡ false → length p.pool < p.max_size
    unfolding is_full
    not_full p h = ground arith

    -- `addTransaction` keeps the pool sorted by priority and within its size, on both of its
    -- branches, where std::sort sorts.
    pub add_transaction-IsValid :
        (now time : ℕ) (p : MemoryPool D) (t : Transaction D) (priority : ℕ)
        → IsValid p
        → IsValid (add_transaction sort now time p t priority).0
    add_transaction-IsValid now time p t priority v = elim (Bool-cases (is_full (kept now p))) [
      | inl no_room ↦ rw (add_kept now time p t priority, no_room) (kept-IsValid now p v)
      | inr room ↦
          rw (add_kept now time p t priority, room)
            (push-IsValid (kept now p) _ (not_full (kept now p) room))
    ]
