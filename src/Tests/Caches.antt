-- ===== src/Tests/Caches.antt =====
-- src/utils/cache_manager.hpp at small inputs.
use blockchain_messaging.Base.{
  ◌≡◌, ◌≤◌, refl, List, [], ◌∷◌, none, some, bytes, length, ok, undefined, arith, ℕ,
}
use blockchain_messaging.Base.Maps.{lookup, insert, erase}
use blockchain_messaging.Core.Block.{Block}
use blockchain_messaging.Utils.CacheManager.{
  LruCache, new_cache, put, get, evict, push_front, erase_node, key_at, drop_last,
}
use blockchain_messaging.Utils.CacheManager.Calls.{
  Call, puts, gets, run, spec_run, new_cache-Represents, new_cache-run,
}
use blockchain_messaging.Utils.CacheManager.BlockCache.{
  BlockCache, new_block_cache, cache_block, get_block, IsValid, cache_block-get_block,
}
use blockchain_messaging.Tests.World.{Number, sample}

-- Of three keys in two places the one that was not read goes.
abbrev calls : List (Call ℕ)
calls =
    puts (bytes "a") 1
    ∷ puts (bytes "b") 2
    ∷ gets (bytes "a")
    ∷ puts (bytes "c") 3
    ∷ gets (bytes "b")
    ∷ gets (bytes "a")
    ∷ []

reads : (spec_run 2 [] calls).1 ≡ some 1 ∷ none ∷ some 1 ∷ []
unfolding lookup erase drop_last
reads = refl

abbrev last_cache : LruCache ℕ
last_cache = record {
  capacity = 2;
  lru_list = (0, bytes "a") ∷ (2, bytes "c") ∷ [];
  cache = (bytes "a", (1, 0)) ∷ (bytes "c", (3, 2)) ∷ [];
  next_node = 3;
}

calls-run : run (new_cache 2) calls ≡ ok (last_cache, some 1 ∷ none ∷ some 1 ∷ [])
unfolding new_cache put get evict push_front erase_node key_at drop_last lookup insert erase
calls-run = refl

-- A cache of capacity 0 takes the back of its empty list.
zero_run : put {V = ℕ} (bytes "a") 1 (new_cache 0) ≡ undefined
unfolding new_cache put evict lookup
zero_run = refl

new_cache-run_example :
    (c : LruCache ℕ) × (run (new_cache 2) calls ≡ ok (c, (spec_run 2 [] calls).1))
    × (length c.cache ≤ 2)
    × (length c.lru_list ≡ length c.cache)
new_cache-run_example = new_cache-run 2 calls (omega arith)

abbrev block : Block Number
block = record {
  index = 1;
  timestamp = 0;
  previous_hash = bytes "g";
  hash = bytes "h";
  transactions = sample (bytes "pay") (bytes "al") (bytes "bob") 3 ∷ [];
  nonce = 0;
}

two-IsValid : IsValid {D = Number} (new_block_cache 2 2)
unfolding new_block_cache new_cache
two-IsValid = record {
  blocks = [];
  transactions = [];
  blocks_represented = new_cache-Represents 2;
  transactions_represented = new_cache-Represents 2;
  block_room = omega arith;
  transaction_room = omega arith;
}

cache_block-get_block_example :
    (c' : BlockCache Number) × (c'' : BlockCache Number) × (cache_block block (new_block_cache 2 2)
      ≡ ok c')
    × IsValid c'
    × (get_block (bytes "h") c' ≡ ok (c'', some block))
    × IsValid c''
cache_block-get_block_example = cache_block-get_block (new_block_cache 2 2) block two-IsValid
