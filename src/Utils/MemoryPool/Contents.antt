-- ===== src/Utils/MemoryPool/Contents.antt =====
-- The pool up to the order of its entries, which std::sort leaves open for equal priorities.
use mathlib.Core.Quot
use mathlib.Core.Quot.{Quot, Quot-set}
use mathlib.Core.List.{perm_append_singleton}
use mathlib.Core.List.Perm
use blockchain_messaging.Base.{
  ℕ, ◌≡◌, refl, ap, ap₂, ◌∙◌, inl, inr, List, [], ◌∷◌, ◌++◌, Bool, true, false, leb, length,
  if◌then◌else◌, Bool-cases, arith,
}
use blockchain_messaging.Core.Transaction.{Transaction}
use blockchain_messaging.Utils.MemoryPool.{
  PoolEntry, MemoryPool, IsSort, is_full, cleanup, remove_old, default_max_age, push_entry,
  add_transaction, new_memory_pool,
}
use blockchain_messaging.Utils.MemoryPool.Bags.{
  Bag, bag, young_entries, remove_old-young_entries, young, size, with_entry,
}
use blockchain_messaging.Utils.MemoryPool.Ordering.{IsValid}
use blockchain_messaging.Utils.MemoryPool.Queueing.{add_transaction-IsValid, cleanup-IsValid}

-- `addTransaction` has two readings of the clock: that of a cleanup, and that of the new entry.
pub data Call (D : Type 0) : Type 0 where
  adds : ℕ → ℕ → Transaction D → ℕ → Call D
  cleans : ℕ → ℕ → Call D

module _ {D : Type 0} where
  -- What each call does to a bag of at most `max_size` entries, and what it answers.
  abbrev pub spec_add : ℕ → ℕ → Bag D → PoolEntry D → Bag D × Bool
  spec_add max_size now b e =
      let b' : Bag D = if leb max_size (size b) then young now default_max_age b else b in
      if leb max_size (size b') then (b', false) else (with_entry e b', true)

  abbrev pub spec_all : ℕ → Bag D → List (Call D) → Bag D × List Bool
  spec_all max_size b [] = (b, [])
  spec_all max_size b (adds now time t priority ∷ cs) =
      let (b', r) =
        spec_add max_size now b
          (record { transaction = t; timestamp = time; priority = priority }) in
      let (b'', rs) = spec_all max_size b' cs in (b'', r ∷ rs)
  spec_all max_size b (cleans now max_age ∷ cs) = spec_all max_size (young now max_age b) cs

  module _ (sort : List (PoolEntry D) → List (PoolEntry D)) where
    -- The pool after all calls, and what the additions return.
    abbrev pub call_all : MemoryPool D → List (Call D) → MemoryPool D × List Bool
    call_all p [] = (p, [])
    call_all p (adds now time t priority ∷ cs) =
        let (p', r) = add_transaction sort now time p t priority in
        let (p'', rs) = call_all p' cs in (p'', r ∷ rs)
    call_all p (cleans now max_age ∷ cs) = call_all (cleanup now max_age p) cs

    push-bag :
        (o : IsSort sort) (p : MemoryPool D) (e : PoolEntry D)
        → bag (sort (p.pool ++ e ∷ [])) ≡ with_entry e (bag p.pool)
    unfolding with_entry
    push-bag o p e =
        Quot.sound (Perm.trans (o.permutes (p.pool ++ e ∷ [])) (perm_append_singleton e p.pool))

    view : MemoryPool D × Bool → Bag D × Bool
    view r = (bag r.0.pool, r.1)

    add-max_size :
        (now time : ℕ) (p : MemoryPool D) (t : Transaction D) (priority : ℕ)
        → (add_transaction sort now time p t priority).0.max_size ≡ p.max_size
    unfolding add_transaction cleanup push_entry
    add-max_size now time p t priority = ground arith

    add-spec :
        (o : IsSort sort) (now time : ℕ) (p : MemoryPool D) (t : Transaction D) (priority : ℕ)
        → view (add_transaction sort now time p t priority)
          ≡ spec_add p.max_size now
              (bag p.pool)
              (record { transaction = t; timestamp = time; priority = priority })
    unfolding view add_transaction is_full cleanup push_entry size young
    add-spec o now time p t priority =
        let e : PoolEntry D = record { transaction = t; timestamp = time; priority = priority } in
        elim (Bool-cases (leb p.max_size (length p.pool))) [
          | inr room ↦ rw (room, room) (ap (λ (b : Bag D). (b, true)) (push-bag o p e))
          | inl full ↦
              rw (full, ← remove_old-young_entries now default_max_age p.pool)
                (elim (Bool-cases
                  (leb p.max_size (length (remove_old now default_max_age p.pool)))) [
                    | inl no_room ↦ rw no_room refl
                    | inr room ↦ rw room (
                        ap (λ (b : Bag D). (b, true))
                          (push-bag o (cleanup now default_max_age p) e))
                  ])
        ]

    all-spec :
        (o : IsSort sort) (p : MemoryPool D) (cs : List (Call D))
        → (bag (call_all p cs).0.pool ≡ (spec_all p.max_size (bag p.pool) cs).0)
          × ((call_all p cs).1 ≡ (spec_all p.max_size (bag p.pool) cs).1)
    unfolding view young cleanup
    all-spec o p [] = (refl, refl)
    all-spec o p (adds now time t priority ∷ cs) =
        let e : PoolEntry D = record { transaction = t; timestamp = time; priority = priority } in
        let p' = (add_transaction sort now time p t priority).0 in
        let one = add-spec o now time p t priority in
        let same_size : p'.max_size ≡ p.max_size = add-max_size now time p t priority in
        let (bags, answers) = all-spec o p' cs in
        let rest : spec_all p'.max_size (bag p'.pool) cs
            ≡ spec_all p.max_size (spec_add p.max_size now (bag p.pool) e).0 cs =
          ap₂ (λ n b. spec_all n b cs) same_size (ap (λ r. r.0) one) in
        (bags ∙ ap (λ r. r.0) rest, ap₂ (◌∷◌) (ap (λ r. r.1) one) (answers ∙ ap (λ r. r.1) rest))
    all-spec o p (cleans now max_age ∷ cs) =
        let (bags, answers) = all-spec o (cleanup now max_age p) cs in
        let rest : spec_all p.max_size (bag (remove_old now max_age p.pool)) cs
            ≡ spec_all p.max_size (bag (young_entries now max_age p.pool)) cs =
          ap (λ (es : List (PoolEntry D)). spec_all p.max_size (bag es) cs)
            (remove_old-young_entries now max_age p.pool) in
        (bags ∙ ap (λ r. r.0) rest, answers ∙ ap (λ r. r.1) rest)

    all-IsValid :
        (o : IsSort sort) (p : MemoryPool D) (cs : List (Call D))
        → IsValid p
        → IsValid (call_all p cs).0
    all-IsValid o p [] v = v
    all-IsValid o p (adds now time t priority ∷ cs) v =
        all-IsValid o (add_transaction sort now time p t priority).0 cs
          (add_transaction-IsValid sort o now time p t priority v)
    all-IsValid o p (cleans now max_age ∷ cs) v =
        all-IsValid o (cleanup now max_age p) cs (cleanup-IsValid sort o p now max_age v)

    -- Every sequence of `addTransaction` and `cleanup` calls on a new pool, at any times, answers as a
    -- bag of entries does that knows no order, and holds the entries of that bag: an entry goes in
    -- while there is room, a full bag first loses its entries older than an hour, and where that
    -- makes no room the answer is `false`. So neither depends on which std::sort runs. The pool is
    -- sorted by priority and within its size in the end. (std::sort is taken to permute and to sort.)
    pub new_memory_pool-call_all :
        (o : IsSort sort) (max_size : ℕ) (cs : List (Call D))
        → ((call_all (new_memory_pool max_size) cs).1 ≡ (spec_all max_size (bag []) cs).1)
          × (bag (call_all (new_memory_pool max_size) cs).0.pool
              ≡ (spec_all max_size (bag []) cs).0)
          × IsValid (call_all (new_memory_pool max_size) cs).0
    unfolding new_memory_pool
    new_memory_pool-call_all o max_size cs =
        let (bags, answers) = all-spec o (new_memory_pool max_size) cs in
        (
          answers,
          bags,
          all-IsValid o (new_memory_pool max_size) cs
              (record { sorted = tt; bounded = omega arith }),
        )
