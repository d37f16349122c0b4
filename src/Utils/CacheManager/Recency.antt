-- ===== src/Utils/CacheManager/Recency.antt =====
-- The cache against its contract: a list of keys and values by recency, bounded by the capacity.
use blockchain_messaging.Base.{
  ℕ, suc, ◌<◌, ◌≡◌, ◌≢◌, refl, sym, ap, ◌∙◌, List, [], ◌∷◌, map, true, false, Option, none, some,
  Str, leb, leb→le, length, if◌then◌else◌, Result, ok, Bool-cases, Option-cases, inl, inr, All,
  arith,
}
use blockchain_messaging.Base.Maps.{Map, lookup, erase}
use blockchain_messaging.Utils.CacheManager.{
  LruCache, erase_node, drop_last, evict, push_front, put,
}
use blockchain_messaging.Utils.CacheManager.Entries.{
  Entry, node, find, remove, erase_node_lem, absent-find, find-absent,
}
use blockchain_messaging.Utils.CacheManager.Representation.{
  Represents, newest, drop_last-map, Represents-push, Represents-renew, Represents-evict,
}

module _ {V : Type 0} where
  -- The contract: keys with values, most recently used first.
  abbrev pub spec_get : Str → Map V → Map V × Option V
  spec_get k m = elim (lookup k m) [ none ↦ (m, none) | some v ↦ ((k, v) ∷ erase k m, some v) ]

  abbrev pub spec_put : ℕ → Str → V → Map V → Map V
  spec_put capacity k v m = elim (lookup k m) [
    | some _ ↦ (k, v) ∷ erase k m
    | none ↦ (k, v) ∷ (if leb capacity (length m) then drop_last m else m)
  ]

  abbrev pub view : List (Entry V) → Map V
  view es = map (λ e. (e.key, e.value)) es

  pub view-remove : (k : Str) (es : List (Entry V)) → view (remove k es) ≡ erase k (view es)
  unfolding remove erase
  view-remove k [] = refl
  view-remove k (e ∷ es) = ground (arith, view-remove k es)

  pub view-find-some :
      (k : Str) (es : List (Entry V)) (s : V × ℕ)
      → find k es ≡ some s
      → lookup k (view es) ≡ some (s.0)
  unfolding find lookup
  view-find-some k [] s h = absurd (cc)
  view-find-some k (e ∷ es) s h = ground (arith, view-find-some k es s)

  pub view-find-none :
      (k : Str) (es : List (Entry V)) → find k es ≡ none → lookup k (view es) ≡ none
  unfolding find lookup
  view-find-none k [] h = refl
  view-find-none k (e ∷ es) h = ground (arith, view-find-none k es)

  pub length-view : (es : List (Entry V)) → length (view es) ≡ length es
  length-view [] = refl
  length-view (e ∷ es) = ap suc (length-view es)

  drop_last-All : (P : Entry V → Type 0) (es : List (Entry V)) → All P es → All P (drop_last es)
  unfolding drop_last
  drop_last-All P [] h = tt
  drop_last-All P (e ∷ []) h = tt
  drop_last-All P (e ∷ e' ∷ es) h = (h.0, drop_last-All P (e' ∷ es) h.1)

  -- A method of the cache, its result, and the contract's.
  pub record Refines (c : LruCache V) (m : Map V) (r : Result (LruCache V)) : Type 0 where
    pub cache_after : LruCache V
    pub entries_after : List (Entry V)
    pub returns : r ≡ ok cache_after
    pub represents : Represents cache_after entries_after
    pub viewed : view entries_after ≡ m
    pub same_capacity : cache_after.capacity ≡ c.capacity

  put_known :
      (c : LruCache V) (es : List (Entry V)) (k : Str) (v : V) (s : V × ℕ)
      → Represents c es
      → find k es ≡ some s
      → put k v c ≡ ok (push_front k v (record c { lru_list = map node (remove k es) }))
  unfolding put
  put_known c es k v s r h =
      let erased : erase_node (s.1) c.lru_list ≡ ok (map node (remove k es)) =
        ap (erase_node (s.1)) r.nodes ∙ erase_node_lem k es s r.distinct h in
      ground (arith, r.finds k, erased)

  put_room :
      (c : LruCache V) (k : Str) (v : V)
      → lookup k c.cache ≡ none
      → leb c.capacity (length c.cache) ≡ false
      → put k v c ≡ ok (push_front k v c)
  unfolding put
  put_room c k v h room = ground arith

  put_full :
      (c c' : LruCache V) (k : Str) (v : V)
      → lookup k c.cache ≡ none
      → leb c.capacity (length c.cache) ≡ true
      → evict c ≡ ok c'
      → put k v c ≡ ok (push_front k v c')
  unfolding put
  put_full c c' k v h full e = ground arith

  viewed_known :
      (c : LruCache V) (es : List (Entry V)) (k : Str) (v : V) (s : V × ℕ) (n : ℕ)
      → find k es ≡ some s
      → (k, v) ∷ view (remove k es) ≡ spec_put n k v (view es)
  viewed_known c es k v s n h =
      rw (view-find-some k es s h, spec_put) (ap (◌∷◌ (k, v)) (view-remove k es))

  viewed_new :
      (es kept : List (Entry V)) (k : Str) (v : V) (n : ℕ)
      → find k es ≡ none
      → view kept ≡ (if leb n (length (view es)) then drop_last (view es) else view es)
      → (k, v) ∷ view kept ≡ spec_put n k v (view es)
  viewed_new es kept k v n h e = rw (view-find-none k es h, spec_put) (ap (◌∷◌ (k, v)) e)

  put_known-Refines :
      (c : LruCache V) (es : List (Entry V)) (k : Str) (v : V) (s : V × ℕ)
      → Represents c es
      → find k es ≡ some s
      → Refines c (spec_put c.capacity k v (view es)) (put k v c)
  unfolding push_front
  put_known-Refines c es k v s r h = record {
    cache_after = push_front k v (record c { lru_list = map node (remove k es) });
    entries_after = newest c k v ∷ remove k es;
    returns = put_known c es k v s r h;
    represents = Represents-renew c es k v s r h;
    viewed = viewed_known c es k v s c.capacity h;
    same_capacity = refl;
  }

  put_room-Refines :
      (c : LruCache V) (es : List (Entry V)) (k : Str) (v : V)
      → Represents c es
      → find k es ≡ none
      → leb c.capacity (length c.cache) ≡ false
      → Refines c (spec_put c.capacity k v (view es)) (put k v c)
  unfolding push_front
  put_room-Refines c es k v r h room = record {
    cache_after = push_front k v c;
    entries_after = newest c k v ∷ es;
    returns = put_room c k v (r.finds k ∙ h) room;
    represents = Represents-push c es k v r h;
    viewed = viewed_new es es k v c.capacity h (rw (length-view es, sym r.sizes, room) refl);
    same_capacity = refl;
  }

  put_full-Refines :
      (c : LruCache V) (es : List (Entry V)) (k : Str) (v : V)
      → Represents c es
      → 0 < c.capacity
      → find k es ≡ none
      → leb c.capacity (length c.cache) ≡ true
      → Refines c (spec_put c.capacity k v (view es)) (put k v c)
  unfolding push_front
  put_full-Refines c [] k v r pos h full = absurd (omega (arith, r.sizes, leb→le _ _ full))
  put_full-Refines c (e ∷ es) k v r pos h full =
      let (c', run, r', cap, next) = Represents-evict c e es r in
      let absent : find k (drop_last (e ∷ es)) ≡ none =
        find-absent k (drop_last (e ∷ es))
          (drop_last-All (λ f. f.key ≢ k) (e ∷ es) (absent-find k (e ∷ es) h)) in
      record {
        cache_after = push_front k v c';
        entries_after = newest c' k v ∷ drop_last (e ∷ es);
        returns = put_full c c' k v (r.finds k ∙ h) full run;
        represents = Represents-push c' (drop_last (e ∷ es)) k v r' absent;
        viewed = viewed_new (e ∷ es) (drop_last (e ∷ es)) k v c.capacity h (
            sym (drop_last-map _ (e ∷ es))
            ∙ sym (rw (length-view (e ∷ es), sym r.sizes, full) refl));
        same_capacity = cap;
      }

  -- `put` refines the contract. On a cache of a capacity above 0 that stands for some entries it
  -- erases no iterator that is not there and no back of an empty list; it returns a cache that
  -- stands for what the contract says: the key with its new value in front, without its old entry
  -- if there was one, and without the least recently used entry if there was none and the cache
  -- was full.
  pub put-Refines :
      (c : LruCache V) (es : List (Entry V)) (k : Str) (v : V)
      → Represents c es
      → 0 < c.capacity
      → Refines c (spec_put c.capacity k v (view es)) (put k v c)
  put-Refines c es k v r pos = elim (Option-cases (find k es)) [
    | inr (s, h) ↦ put_known-Refines c es k v s r h
    | inl h ↦ elim (Bool-cases (leb c.capacity (length c.cache))) [
      | inl full ↦ put_full-Refines c es k v r pos h full
      | inr room ↦ put_room-Refines c es k v r h room
    ]
  ]
