-- ===== src/Tests/Pools.antt =====
-- src/utils/memory_pool.cpp at small inputs, with an insertion sort for std::sort.
use blockchain_messaging.Base.{
  ℕ, ◌≡◌, refl, List, [], ◌∷◌, ◌++◌, map, min, length, All, ◌≤◌, true, false, ltb, if◌then◌else◌,
  Bool-cases, bytes, arith, inl, inr,
}
use mathlib.Core.List.{Perm, perm_append_singleton}
use mathlib.Core.List.Perm
use blockchain_messaging.Utils.MemoryPool.{
  get_highest_priority_transactions, PoolEntry, MemoryPool, IsSorted, IsSort, is_full, remove_old,
  cleanup, push_entry, add_transaction, new_memory_pool,
}
use blockchain_messaging.Utils.MemoryPool.Ordering.{IsValid}
use blockchain_messaging.Utils.MemoryPool.Bags.{bag}
use blockchain_messaging.Utils.MemoryPool.Contents.{
  Call, adds, cleans, spec_all, call_all, new_memory_pool-call_all,
}
use blockchain_messaging.Utils.MemoryPool.Priorities.{get_highest-any_sort}
use blockchain_messaging.Tests.World.{Number, sample}

insert_entry : PoolEntry Number → List (PoolEntry Number) → List (PoolEntry Number)
insert_entry e [] = e ∷ []
insert_entry e (f ∷ fs) = if ltb e.priority f.priority then f ∷ insert_entry e fs else e ∷ f ∷ fs

sort : List (PoolEntry Number) → List (PoolEntry Number)
sort [] = []
sort (e ∷ es) = insert_entry e (sort es)

insert-perm :
    (e : PoolEntry Number) (fs : List (PoolEntry Number)) → Perm (insert_entry e fs) (e ∷ fs)
unfolding insert_entry
insert-perm e [] = Perm.refl (e ∷ [])
insert-perm e (f ∷ fs) = elim (Bool-cases (ltb e.priority f.priority)) [
  | inl later ↦
      rw (later, insert_entry) (Perm.trans (Perm.cons f (insert-perm e fs)) (Perm.swap e f fs))
  | inr here ↦ rw (here, insert_entry) (Perm.refl (e ∷ f ∷ fs))
]

sort-perm : (es : List (PoolEntry Number)) → Perm (sort es) es
unfolding sort
sort-perm [] = Perm.refl []
sort-perm (e ∷ es) = Perm.trans (insert-perm e (sort es)) (Perm.cons e (sort-perm es))

insert-IsSorted :
    (e : PoolEntry Number) (fs : List (PoolEntry Number))
    → IsSorted fs
    → IsSorted (insert_entry e fs)
unfolding insert_entry
insert-IsSorted e [] s = tt
insert-IsSorted e (f ∷ []) s = ground arith
insert-IsSorted e (f ∷ g ∷ fs) s = ground (arith, insert-IsSorted e (g ∷ fs))

sort-IsSorted : (es : List (PoolEntry Number)) → IsSorted (sort es)
unfolding sort
sort-IsSorted [] = tt
sort-IsSorted (e ∷ es) = insert-IsSorted e (sort es) (sort-IsSorted es)

back_to_front : List (PoolEntry Number) → List (PoolEntry Number)
back_to_front [] = []
back_to_front (e ∷ es) = back_to_front es ++ e ∷ []

back_to_front-perm : (es : List (PoolEntry Number)) → Perm (back_to_front es) es
unfolding back_to_front
back_to_front-perm [] = Perm.refl []
back_to_front-perm (e ∷ es) =
    Perm.trans (perm_append_singleton e (back_to_front es)) (Perm.cons e (back_to_front-perm es))

sort-IsSort : IsSort sort
sort-IsSort = record { permutes = sort-perm; sorts = sort-IsSorted }

abbrev entry : ℕ → ℕ → PoolEntry Number
entry when priority = record {
  transaction = sample [] (bytes "a") (bytes "b") when;
  timestamp = when;
  priority = priority;
}

abbrev two : MemoryPool Number
two = record { pool = entry 5000 9 ∷ entry 100 2 ∷ []; max_size = 2 }

add_run :
    add_transaction sort 5001 5001 two (sample [] (bytes "a") (bytes "b") 5001) 4
    ≡ (record two { pool = entry 5000 9 ∷ entry 5001 4 ∷ [] }, true)
unfolding is_full remove_old cleanup push_entry add_transaction sort insert_entry
add_run = refl

-- A full pool that a call cleans, and one where nothing is old enough.
abbrev calls : List (Call Number)
calls =
    adds 100 100 (entry 100 2).transaction 2
    ∷ adds 5000 5000 (entry 5000 9).transaction 9
    ∷ adds 5000 5001 (entry 5001 4).transaction 4
    ∷ adds 5002 5002 (entry 5002 7).transaction 7
    ∷ cleans 9000 100
    ∷ []

calls_run :
    call_all sort (new_memory_pool 2) calls ≡ (new_memory_pool 2, true ∷ true ∷ true ∷ false ∷ [])
unfolding is_full remove_old cleanup push_entry add_transaction sort insert_entry new_memory_pool
calls_run = refl

new_memory_pool-call_all_example :
    ((call_all sort (new_memory_pool 2) calls).1 ≡ (spec_all 2 (bag []) calls).1)
    × (bag (call_all sort (new_memory_pool 2) calls).0.pool ≡ (spec_all 2 (bag []) calls).0)
    × IsValid (call_all sort (new_memory_pool 2) calls).0
new_memory_pool-call_all_example = new_memory_pool-call_all sort sort-IsSort 2 calls

-- Two entries of one priority, which the two sorts leave in different orders.
abbrev equals : List (Call Number)
equals = adds 1 1 (entry 1 5).transaction 5 ∷ adds 2 2 (entry 2 5).transaction 5 ∷ []

backwards : List (PoolEntry Number) → List (PoolEntry Number)
backwards es = sort (back_to_front es)

backwards-IsSort : IsSort backwards
unfolding backwards
backwards-IsSort = record {
  permutes = λ es. Perm.trans (sort-perm (back_to_front es)) (back_to_front-perm es);
  sorts = λ es. sort-IsSorted (back_to_front es);
}

orders_differ :
    ((call_all sort (new_memory_pool 9) equals).0.pool ≡ entry 1 5 ∷ entry 2 5 ∷ [])
    × ((call_all backwards (new_memory_pool 9) equals).0.pool ≡ entry 2 5 ∷ entry 1 5 ∷ [])
unfolding is_full cleanup push_entry add_transaction sort backwards back_to_front insert_entry
    new_memory_pool
orders_differ = (refl, refl)

get_highest-any_sort_example :
    (front back front' back' : List (PoolEntry Number)) × ((call_all sort
        (new_memory_pool 9)
        equals).0.pool
      ≡ front ++ back)
    × ((call_all backwards (new_memory_pool 9) equals).0.pool ≡ front' ++ back')
    × (get_highest_priority_transactions (call_all sort (new_memory_pool 9) equals).0 1
        ≡ map (λ e. e.transaction) front)
    × (get_highest_priority_transactions (call_all backwards (new_memory_pool 9) equals).0 1
        ≡ map (λ e. e.transaction) front')
    × (map (λ e. e.priority) front ≡ map (λ e. e.priority) front')
    × (length front ≡ min 1 (length (call_all sort (new_memory_pool 9) equals).0.pool))
    × (length front' ≡ min 1 (length (call_all backwards (new_memory_pool 9) equals).0.pool))
    × All
        (λ (e : PoolEntry Number). All (λ (f : PoolEntry Number). f.priority ≤ e.priority) back)
        front
    × All
        (λ (e : PoolEntry Number). All (λ (f : PoolEntry Number). f.priority ≤ e.priority) back')
        front'
get_highest-any_sort_example =
    get_highest-any_sort sort backwards sort-IsSort backwards-IsSort 9 equals 1
