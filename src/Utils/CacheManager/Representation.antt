-- ===== src/Utils/CacheManager/Representation.antt =====
-- What a cache stands for, and that each step of its methods keeps it so.
use blockchain_messaging.Base.{
  ℕ, suc, ◌<◌, ◌≡◌, ◌≢◌, refl, sym, ap, ◌∙◌, List, [], ◌∷◌, map, false, none, some, Str, str_eq,
  str_eq_iff, str_eq_self, subst, last?, length, ok, Bool-cases, inl, inr, All, arith,
}
use blockchain_messaging.Base.Maps.{
  lookup, erase, lookup-insert, DistinctKeys, insert-DistinctKeys, erase-DistinctKeys,
  lookup-erase_ne, lookup-erase_self, length-insert_new, length-insert_old, length-erase,
}
use blockchain_messaging.Utils.CacheManager.{LruCache, drop_last, evict, push_front}
use blockchain_messaging.Utils.CacheManager.Entries.{
  Entry, node, find, find-All, remove, Distinct, remove-All, remove-Distinct, find-absent,
  absent-find, find-remove_ne, length-remove, remove-apart, remove-absent,
}

module _ {V : Type 0} where
  -- A cache stands for these entries, most recent first.
  pub record Represents (c : LruCache V) (es : List (Entry V)) : Type 0 where
    pub nodes : c.lru_list ≡ map node es
    pub finds : (k : Str) → lookup k c.cache ≡ find k es
    pub sizes : length c.cache ≡ length es
    pub distinct : Distinct es
    pub fresh : All (λ e. e.id < c.next_node) es
    pub keys : DistinctKeys c.cache

  pub drop_last-map :
      {B : Type 0} (f : Entry V → B) (es : List (Entry V))
      → drop_last (map f es) ≡ map f (drop_last es)
  unfolding drop_last
  drop_last-map f [] = refl
  drop_last-map f (e ∷ []) = refl
  drop_last-map f (e ∷ e' ∷ es) = ap (◌∷◌ (f e)) (drop_last-map f (e' ∷ es))

  apart_all :
      (k : Str) (n : ℕ) (es : List (Entry V))
      → All (λ e. e.key ≢ k) es
      → All (λ e. e.id < n) es
      → All (λ f. (f.key ≢ k) × (f.id ≢ n)) es
  apart_all k n [] a b = tt
  apart_all k n (e ∷ es) a b =
      ((a.0, (λ q. absurd (omega (arith, q, b.0)))), apart_all k n es a.1 b.1)

  fresh_later : (n : ℕ) (es : List (Entry V)) → All (λ e. e.id < n) es → All (λ e. e.id < suc n) es
  fresh_later n [] h = tt
  fresh_later n (e ∷ es) h = (omega (arith, h.0), fresh_later n es h.1)

  abbrev pub newest : LruCache V → Str → V → Entry V
  newest c k v = record { id = c.next_node; key = k; value = v }

  pub Represents-push :
      (c : LruCache V) (es : List (Entry V)) (k : Str) (v : V)
      → Represents c es
      → find k es ≡ none
      → Represents (push_front k v c) (newest c k v ∷ es)
  unfolding push_front find
  Represents-push c es k v r h = record {
    nodes = ap (◌∷◌ (c.next_node, k)) r.nodes;
    finds = λ j. ground (arith, lookup-insert k j (v, c.next_node) c.cache, r.finds j);
    sizes = length-insert_new k (v, c.next_node) c.cache (r.finds k ∙ h) ∙ ap suc r.sizes;
    distinct = (apart_all k c.next_node es (absent-find k es h) r.fresh, r.distinct);
    fresh = (omega arith, fresh_later c.next_node es r.fresh);
    keys = insert-DistinctKeys k (v, c.next_node) c.cache r.keys;
  }

  pub Represents-renew :
      (c : LruCache V) (es : List (Entry V)) (k : Str) (v : V) (s : V × ℕ)
      → Represents c es
      → find k es ≡ some s
      → Represents
          (push_front k v (record c { lru_list = map node (remove k es) }))
          (newest c k v ∷ remove k es)
  unfolding push_front find
  Represents-renew c es k v s r h = record {
    nodes = refl;
    finds = λ j. ground (
      arith,
      lookup-insert k j (v, c.next_node) c.cache,
      r.finds j,
      str_eq_iff k j,
      find-remove_ne k j es,
    );
    sizes =
        length-insert_old k (v, c.next_node) s c.cache (r.finds k ∙ h)
        ∙ r.sizes
        ∙ sym (length-remove k es s h);
    distinct = (
      apart_all k c.next_node (remove k es) (remove-absent k es r.distinct)
          (remove-All _ k es r.fresh),
      remove-Distinct k es r.distinct,
    );
    fresh = (omega arith, fresh_later c.next_node (remove k es) (remove-All _ k es r.fresh));
    keys = insert-DistinctKeys k (v, c.next_node) c.cache r.keys;
  }

  pub Represents-splice :
      (c : LruCache V) (es : List (Entry V)) (k : Str) (s : V × ℕ)
      → Represents c es
      → find k es ≡ some s
      → s.1 < c.next_node
      → Represents
          (record c { lru_list = (s.1, k) ∷ map node (remove k es) })
          (record { id = s.1; key = k; value = s.0 } ∷ remove k es)
  unfolding find
  Represents-splice c es k s r h small = record {
    nodes = refl;
    finds = λ j. ground (arith, r.finds j, str_eq_iff k j, find-remove_ne k j es);
    sizes = r.sizes ∙ sym (length-remove k es s h);
    distinct = (remove-apart k es s r.distinct h, remove-Distinct k es r.distinct);
    fresh = (small, remove-All _ k es r.fresh);
    keys = r.keys;
  }

  -- The last entry of a list with entries.
  record IsLast (l : Entry V) (es : List (Entry V)) : Type 0 where
    back : last? (map node es) ≡ some (node l)
    found : find l.key es ≡ some (l.value, l.id)
    dropped : remove l.key es ≡ drop_last es

  IsLast-entry :
      (e : Entry V) (es : List (Entry V)) → Distinct (e ∷ es) → (l : Entry V) × IsLast l (e ∷ es)
  unfolding find remove drop_last
  IsLast-entry e [] d = (
    e,
    record {
      back = refl;
      found = ground (arith, str_eq_self e.key);
      dropped = ground (arith, str_eq_self e.key);
    },
  )
  IsLast-entry e (e' ∷ es) d =
      let (l, i) = IsLast-entry e' es d.1 in
      let (f, ne, q, r) = find-All _ l.key (e' ∷ es) (l.value, l.id) d.0 i.found in
      let other : str_eq e.key l.key ≡ false = ground (arith, str_eq_iff e.key l.key, ne.0) in
      (
        l,
        record {
          back = i.back;
          found = rw other i.found;
          dropped = rw other (ap (◌∷◌ e) i.dropped);
        },
      )

  finds_evicted :
      (c : LruCache V) (es : List (Entry V)) (k : Str)
      → Represents c es
      → (j : Str) → lookup j (erase k c.cache) ≡ find j (remove k es)
  finds_evicted c es k r j = elim (Bool-cases (str_eq k j)) [
    | inl same ↦
        subst (λ (i : Str). lookup i (erase k c.cache) ≡ find i (remove k es))
          ((str_eq_iff k j).0 same)
          (lookup-erase_self k c.cache r.keys
            ∙ sym (find-absent k (remove k es) (remove-absent k es r.distinct)))
    | inr other ↦
        let ne : k ≢ j = λ q. ground (arith, str_eq_iff k j) in
        lookup-erase_ne k j c.cache ne ∙ r.finds j ∙ sym (find-remove_ne k j es ne)
  ]

  evict_lem :
      (c : LruCache V) (n : ℕ × Str)
      → last? c.lru_list ≡ some n
      → evict c ≡ ok (record c { cache = erase (n.1) c.cache; lru_list = drop_last c.lru_list })
  unfolding evict
  evict_lem c n h = ground arith

  pub Represents-evict :
      (c : LruCache V) (e : Entry V) (es : List (Entry V))
      → Represents c (e ∷ es)
      → (c' : LruCache V) × (evict c ≡ ok c')
        × Represents c' (drop_last (e ∷ es))
        × (c'.capacity ≡ c.capacity)
        × (c'.next_node ≡ c.next_node)
  unfolding evict
  Represents-evict c e es r =
      let (l, i) = IsLast-entry e es r.distinct in
      let gone : lookup l.key c.cache ≡ some (l.value, l.id) = r.finds l.key ∙ i.found in
      (
        record c { cache = erase l.key c.cache; lru_list = drop_last c.lru_list },
        evict_lem c (node l) (ap last? r.nodes ∙ i.back),
        subst (Represents _) i.dropped (record {
          nodes =
              ap drop_last r.nodes ∙ drop_last-map node (e ∷ es) ∙ ap (map node) (sym i.dropped);
          finds = finds_evicted c (e ∷ es) l.key r;
          sizes = omega (
            arith,
            length-erase l.key (l.value, l.id) c.cache gone,
            length-remove l.key (e ∷ es) (l.value, l.id) i.found,
            r.sizes,
          );
          distinct = remove-Distinct l.key (e ∷ es) r.distinct;
          fresh = remove-All _ l.key (e ∷ es) r.fresh;
          keys = erase-DistinctKeys l.key c.cache r.keys;
        }),
        refl,
        refl,
      )
