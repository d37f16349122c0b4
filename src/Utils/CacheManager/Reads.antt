-- ===== src/Utils/CacheManager/Reads.antt =====
-- Reads against the contract of the cache.
use blockchain_messaging.Base.{
  ℕ, ◌<◌, ◌≡◌, refl, sym, ap, ◌∙◌, subst, List, ◌∷◌, map, Option, none, some, Str, Result, ok,
  Option-cases, inl, inr, arith,
}
use blockchain_messaging.Base.Maps.{Map, lookup, erase}
use blockchain_messaging.Utils.CacheManager.{LruCache, erase_node, key_at, get}
use blockchain_messaging.Utils.CacheManager.Entries.{
  Entry, node, find, find-All, remove, erase_node_lem, key_at_lem,
}
use blockchain_messaging.Utils.CacheManager.Representation.{Represents, Represents-splice}
use blockchain_messaging.Utils.CacheManager.Recency.{
  spec_get, view, view-find-none, view-find-some, view-remove,
}

module _ {V : Type 0} where
  -- A read, its result, and the contract's.
  pub record Reads (c : LruCache V) (m : Map V × Option V) (r : Result (LruCache V × Option V))
      : Type 0 where
    pub cache_after : LruCache V
    pub entries_after : List (Entry V)
    pub returns : r ≡ ok (cache_after, m.1)
    pub represents : Represents cache_after entries_after
    pub viewed : view entries_after ≡ m.0
    pub same_capacity : cache_after.capacity ≡ c.capacity

  get_known :
      (c : LruCache V) (es : List (Entry V)) (k : Str) (s : V × ℕ)
      → Represents c es
      → find k es ≡ some s
      → get k c ≡ ok (record c { lru_list = (s.1, k) ∷ map node (remove k es) }, some (s.0))
  unfolding get
  get_known c es k s r h =
      let erased : erase_node (s.1) c.lru_list ≡ ok (map node (remove k es)) =
        ap (erase_node (s.1)) r.nodes ∙ erase_node_lem k es s r.distinct h in
      let there : key_at (s.1) c.lru_list ≡ ok k =
        ap (key_at (s.1)) r.nodes ∙ key_at_lem k es s r.distinct h in
      ground (arith, r.finds k, erased, there)

  get_unknown : (c : LruCache V) (k : Str) → lookup k c.cache ≡ none → get k c ≡ ok (c, none)
  unfolding get
  get_unknown c k h = ground arith

  spec_get_known :
      (k : Str) (m : Map V) (v : V)
      → lookup k m ≡ some v
      → spec_get k m ≡ ((k, v) ∷ erase k m, some v)
  spec_get_known k m v h = rw (h, spec_get) refl

  spec_get_unknown : (k : Str) (m : Map V) → lookup k m ≡ none → spec_get k m ≡ (m, none)
  spec_get_unknown k m h = rw (h, spec_get) refl

  pub get-Reads :
      (c : LruCache V) (es : List (Entry V)) (k : Str)
      → Represents c es
      → Reads c (spec_get k (view es)) (get k c)
  get-Reads c es k r = elim (Option-cases (find k es)) [
    | inl h ↦
        let e = spec_get_unknown k (view es) (view-find-none k es h) in
        record {
          cache_after = c;
          entries_after = es;
          returns = get_unknown c k (r.finds k ∙ h) ∙ ap (λ p. ok (c, p.1)) (sym e);
          represents = r;
          viewed = ap (λ p. p.0) (sym e);
          same_capacity = refl;
        }
    | inr (s, h) ↦
        let e = spec_get_known k (view es) (s.0) (view-find-some k es s h) in
        let (f, small, q, same) = find-All _ k es s r.fresh h in
        let c' : LruCache V = record c { lru_list = (s.1, k) ∷ map node (remove k es) } in
        record {
          cache_after = c';
          entries_after = record { id = s.1; key = k; value = s.0 } ∷ remove k es;
          returns = get_known c es k s r h ∙ ap (λ p. ok (c', p.1)) (sym e);
          represents =
              Represents-splice c es k s r h (subst (λ (t : V × ℕ). t.1 < c.next_node) same small);
          viewed = ap (◌∷◌ (k, s.0)) (view-remove k es) ∙ ap (λ p. p.0) (sym e);
          same_capacity = refl;
        }
  ]
