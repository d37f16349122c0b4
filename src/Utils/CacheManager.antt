-- ===== src/Utils/CacheManager.antt =====
-- src/utils/cache_manager.hpp: class LRUCache with its uses in BlockCache, whose keys are hashes.
-- An iterator into the std::list is the number of its node. `get` is declared const and splices
-- the list, which no compiler takes; it is read as a method that changes the list.
pub mod Entries
pub mod Representation
pub mod Recency
pub mod Reads
pub mod Calls
pub mod BlockCache
use blockchain_messaging.Base.{
  ℕ, suc, List, [], ◌∷◌, Bool, true, false, Option, none, some, Str, leb, ◌==◌, last?, length,
  if◌then◌else◌, Result, ok, undefined, ◌>>=◌,
}
use blockchain_messaging.Base.Maps.{Map, lookup, insert, erase}

pub record LruCache (V : Type 0) : Type 0 where
  pub capacity : ℕ
  pub lru_list : List (ℕ × Str)
  pub cache : Map (V × ℕ)
  pub next_node : ℕ

-- `lruList.erase(it)`: undefined if the list has no such node.
unfoldable pub erase_node : ℕ → List (ℕ × Str) → Result (List (ℕ × Str))
erase_node it [] = undefined
erase_node it (n ∷ ns) =
    let rest = erase_node it ns in if n.0 == it then ok ns else (rest >>= λ r. ok (n ∷ r))

-- `*it`.
unfoldable pub key_at : ℕ → List (ℕ × Str) → Result Str
key_at it [] = undefined
key_at it (n ∷ ns) = if n.0 == it then ok (n.1) else key_at it ns

-- `pop_back` on a list with an element.
unfoldable pub drop_last {ℓ} : {A : Type ℓ} → List A → List A
drop_last [] = []
drop_last (a ∷ []) = []
drop_last (a ∷ b ∷ l) = a ∷ drop_last (b ∷ l)

module _ {V : Type 0} where
  unfoldable pub new_cache : ℕ → LruCache V
  new_cache size = record { capacity = size; lru_list = []; cache = []; next_node = 0 }

  -- `cache.erase(lruList.back()); lruList.pop_back();`
  unfoldable pub evict : LruCache V → Result (LruCache V)
  evict c = elim (last? c.lru_list) [
    | none ↦ undefined
    | some n ↦ ok (record c { cache = erase (n.1) c.cache; lru_list = drop_last c.lru_list })
  ]

  -- `lruList.push_front(key); cache[key] = {value, lruList.begin()};`
  unfoldable pub push_front : Str → V → LruCache V → LruCache V
  push_front key value c = record c {
    lru_list = (c.next_node, key) ∷ c.lru_list;
    cache = insert key (value, c.next_node) c.cache;
    next_node = suc c.next_node;
  }

  unfoldable pub put : Str → V → LruCache V → Result (LruCache V)
  put key value c = elim (lookup key c.cache) [
    | some it ↦
        erase_node (it.1) c.lru_list >>= λ l. ok (push_front key value (record c { lru_list = l }))
    | none ↦ elim (leb c.capacity (length c.cache)) [
      | true ↦ evict c >>= λ c'. ok (push_front key value c')
      | false ↦ ok (push_front key value c)
    ]
  ]

  unfoldable pub get : Str → LruCache V → Result (LruCache V × Option V)
  get key c = elim (lookup key c.cache) [
    | none ↦ ok (c, none)
    | some it ↦ key_at (it.1) c.lru_list >>= λ k. erase_node (it.1) c.lru_list >>= λ l.
        ok (record c { lru_list = (it.1, k) ∷ l }, some (it.0))
  ]
