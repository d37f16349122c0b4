-- ===== src/Utils/CacheManager/BlockCache.antt =====
-- src/utils/cache_manager.hpp: class BlockCache.
use blockchain_messaging.Base.{
  ℕ, ◌<◌, ◌≡◌, refl, ap, ◌∙◌, List, [], ◌∷◌, Option, some, Str, str_eq_self, Result, ok, ◌>>=◌,
  arith, Option-cases, inl, inr,
}
use blockchain_messaging.Base.Maps.{Map, lookup}
use blockchain_messaging.Core.Transaction.{Transaction}
use blockchain_messaging.Core.Block.{Block}
use blockchain_messaging.Utils.CacheManager.{LruCache, new_cache, put, get}
use blockchain_messaging.Utils.CacheManager.Entries.{Entry}
use blockchain_messaging.Utils.CacheManager.Representation.{Represents}
use blockchain_messaging.Utils.CacheManager.Recency.{spec_get, spec_put, view, put-Refines}
use blockchain_messaging.Utils.CacheManager.Reads.{get-Reads}

pub record BlockCache (D : Type 0) : Type 0 where
  pub block_cache : LruCache (Block D)
  pub transaction_cache : LruCache (Transaction D)

spec_get-spec_put :
    {V : Type 0} (n : ℕ) (k : Str) (v : V) (m : Map V) → (spec_get k (spec_put n k v m)).1 ≡ some v
unfolding lookup
spec_get-spec_put n k v m = elim (Option-cases (lookup k m)) [
  | inl e ↦ ground (arith, str_eq_self k)
  | inr (w, e) ↦ ground (arith, str_eq_self k)
]

module _ {D : Type 0} where
  unfoldable pub new_block_cache : ℕ → ℕ → BlockCache D
  new_block_cache block_cache_size tx_cache_size = record {
    block_cache = new_cache block_cache_size;
    transaction_cache = new_cache tx_cache_size;
  }

  -- The loop of cacheBlock.
  unfoldable pub cache_transactions :
      List (Transaction D) → LruCache (Transaction D) → Result (LruCache (Transaction D))
  cache_transactions [] c = ok c
  cache_transactions (t ∷ ts) c = put t.hash t c >>= λ c'. cache_transactions ts c'

  unfoldable pub cache_block : Block D → BlockCache D → Result (BlockCache D)
  cache_block b c = do
    blocks ← put b.hash b c.block_cache
    transactions ← cache_transactions b.transactions c.transaction_cache
    ok (record { block_cache = blocks; transaction_cache = transactions })

  unfoldable pub get_block : Str → BlockCache D → Result (BlockCache D × Option (Block D))
  get_block hash c = get hash c.block_cache >>= λ p. ok (record c { block_cache = p.0 }, p.1)

  unfoldable pub get_transaction :
      Str → BlockCache D → Result (BlockCache D × Option (Transaction D))
  get_transaction hash c =
      get hash c.transaction_cache >>= λ p. ok (record c { transaction_cache = p.0 }, p.1)

  -- Both caches are well formed and have room for something.
  pub record IsValid (c : BlockCache D) : Type 0 where
    pub blocks : List (Entry (Block D))
    pub transactions : List (Entry (Transaction D))
    pub blocks_represented : Represents c.block_cache blocks
    pub transactions_represented : Represents c.transaction_cache transactions
    pub block_room : 0 < c.block_cache.capacity
    pub transaction_room : 0 < c.transaction_cache.capacity

  record Cached (c : LruCache (Transaction D)) (r : Result (LruCache (Transaction D)))
      : Type 0 where
    cached : LruCache (Transaction D)
    entries : List (Entry (Transaction D))
    returns : r ≡ ok cached
    represents : Represents cached entries
    room : 0 < cached.capacity

  cache_transactions-Cached :
      (ts : List (Transaction D)) (c : LruCache (Transaction D)) (es : List (Entry (Transaction D)))
      → Represents c es
      → 0 < c.capacity
      → Cached c (cache_transactions ts c)
  unfolding cache_transactions
  cache_transactions-Cached [] c es r pos = record {
    cached = c;
    entries = es;
    returns = refl;
    represents = r;
    room = pos;
  }
  cache_transactions-Cached (t ∷ ts) c es r pos =
      let p = put-Refines c es t.hash t r pos in
      let q =
        cache_transactions-Cached ts p.cache_after p.entries_after p.represents
          (omega (arith, p.same_capacity)) in
      record {
        cached = q.cached;
        entries = q.entries;
        returns = rw p.returns q.returns;
        represents = q.represents;
        room = q.room;
      }

  -- On well-formed caches of capacities above 0 `cacheBlock` returns, whatever the transactions of
  -- the block are, and leaves well-formed caches; and `getBlock` with the hash of the block then
  -- returns the block.
  pub cache_block-get_block :
      (c : BlockCache D) (b : Block D)
      → IsValid c
      → (c' : BlockCache D) × (c'' : BlockCache D) × (cache_block b c ≡ ok c')
        × IsValid c'
        × (get_block b.hash c' ≡ ok (c'', some b))
        × IsValid c''
  unfolding cache_block get_block
  cache_block-get_block c b i =
      let p = put-Refines c.block_cache i.blocks b.hash b i.blocks_represented i.block_room in
      let q =
        cache_transactions-Cached b.transactions c.transaction_cache i.transactions
          i.transactions_represented i.transaction_room in
      let g = get-Reads p.cache_after p.entries_after b.hash p.represents in
      let found : (spec_get b.hash (view p.entries_after)).1 ≡ some b =
        ap (λ m. (spec_get b.hash m).1) p.viewed
        ∙ spec_get-spec_put c.block_cache.capacity b.hash b (view i.blocks) in
      (
        record { block_cache = p.cache_after; transaction_cache = q.cached },
        record { block_cache = g.cache_after; transaction_cache = q.cached },
        rw p.returns (rw q.returns refl),
        record {
          blocks = p.entries_after;
          transactions = q.entries;
          blocks_represented = p.represents;
          transactions_represented = q.represents;
          block_room = omega (arith, p.same_capacity, i.block_room);
          transaction_room = q.room;
        },
        rw g.returns (rw found refl),
        record {
          blocks = g.entries_after;
          transactions = q.entries;
          blocks_represented = g.represents;
          transactions_represented = q.represents;
          block_room = omega (arith, p.same_capacity, g.same_capacity, i.block_room);
          transaction_room = q.room;
        },
      )
