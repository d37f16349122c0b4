-- ===== src/Utils/CacheManager/Calls.antt =====
-- Whole sequences of calls against the contract of the cache.
use blockchain_messaging.Base.{
  ℕ, suc, ◌≤◌, ◌<◌, ◌≡◌, refl, sym, ap, ap₂, ◌∙◌, List, [], ◌∷◌, map, Option, Str, leb, leb→le,
  length, Result, ok, ◌>>=◌, Bool-cases, Option-cases, inl, inr, arith,
}
use blockchain_messaging.Base.Maps.{Map, lookup, length-erase}
use blockchain_messaging.Utils.CacheManager.{LruCache, drop_last, new_cache, put, get}
use blockchain_messaging.Utils.CacheManager.Entries.{Entry, node, find}
use blockchain_messaging.Utils.CacheManager.Representation.{Represents}
use blockchain_messaging.Utils.CacheManager.Recency.{
  spec_get, spec_put, view, length-view, put-Refines,
}
use blockchain_messaging.Utils.CacheManager.Reads.{get-Reads}

-- One call of a method.
pub data Call (V : Type 0) : Type 0 where
  puts : Str → V → Call V
  gets : Str → Call V

length-map : {A B : Type 0} (f : A → B) (l : List A) → length (map f l) ≡ length l
length-map f [] = refl
length-map f (a ∷ l) = ap suc (length-map f l)

module _ {V : Type 0} where
  -- A sequence of calls, with what the reads return.
  abbrev pub run : LruCache V → List (Call V) → Result (LruCache V × List (Option V))
  run c [] = ok (c, [])
  run c (puts k v ∷ cs) = put k v c >>= λ c'. run c' cs
  run c (gets k ∷ cs) = get k c >>= λ p. run (p.0) cs >>= λ q. ok (q.0, p.1 ∷ q.1)

  abbrev pub spec_run : ℕ → Map V → List (Call V) → Map V × List (Option V)
  spec_run capacity m [] = (m, [])
  spec_run capacity m (puts k v ∷ cs) = spec_run capacity (spec_put capacity k v m) cs
  spec_run capacity m (gets k ∷ cs) =
      let q = spec_run capacity ((spec_get k m).0) cs in (q.0, (spec_get k m).1 ∷ q.1)

  record Follows (m : Map V × List (Option V)) (r : Result (LruCache V × List (Option V)))
      : Type 0 where
    cache_last : LruCache V
    entries_last : List (Entry V)
    answers : r ≡ ok (cache_last, m.1)
    stands_for : Represents cache_last entries_last
    seen : view entries_last ≡ m.0

  run-Follows :
      (n : ℕ) (c : LruCache V) (es : List (Entry V)) (m : Map V) (cs : List (Call V))
      → Represents c es
      → 0 < n
      → c.capacity ≡ n
      → view es ≡ m
      → Follows (spec_run n m cs) (run c cs)
  run-Follows n c es m [] r pos full v = record {
    cache_last = c;
    entries_last = es;
    answers = refl;
    stands_for = r;
    seen = v;
  }
  run-Follows n c es m (puts k x ∷ cs) r pos full v =
      let p = put-Refines c es k x r (omega arith) in
      let e : view p.entries_after ≡ spec_put n k x m =
        p.viewed ∙ ap₂ (λ i l. spec_put i k x l) full v in
      let f =
        run-Follows n p.cache_after p.entries_after (spec_put n k x m) cs p.represents pos
          (p.same_capacity ∙ full) e in
      record {
        cache_last = f.cache_last;
        entries_last = f.entries_last;
        answers = rw p.returns f.answers;
        stands_for = f.stands_for;
        seen = f.seen;
      }
  run-Follows n c es m (gets k ∷ cs) r pos full v =
      let p = get-Reads c es k r in
      let e : view p.entries_after ≡ (spec_get k m).0 = p.viewed ∙ ap (λ l. (spec_get k l).0) v in
      let f =
        run-Follows n p.cache_after p.entries_after ((spec_get k m).0) cs p.represents pos
          (p.same_capacity ∙ full) e in
      let out : get k c ≡ ok (p.cache_after, (spec_get k m).1) =
        p.returns ∙ ap (λ l. ok (p.cache_after, (spec_get k l).1)) v in
      record {
        cache_last = f.cache_last;
        entries_last = f.entries_last;
        answers = rw out (rw f.answers refl);
        stands_for = f.stands_for;
        seen = f.seen;
      }

  length-drop_last : (m : Map V) → 0 < length m → suc (length (drop_last m)) ≡ length m
  unfolding drop_last
  length-drop_last [] h = absurd (omega arith)
  length-drop_last (p ∷ []) h = refl
  length-drop_last (p ∷ q ∷ m) h = ap suc (length-drop_last (q ∷ m) (omega arith))

  spec_put-bound :
      (n : ℕ) (k : Str) (v : V) (m : Map V) → 0 < n → length m ≤ n → length (spec_put n k v m) ≤ n
  spec_put-bound n k v m pos h = elim (Option-cases (lookup k m)) [
    | inr (w, e) ↦ rw (e, spec_put) (omega (arith, length-erase k w m e))
    | inl e ↦ elim (Bool-cases (leb n (length m))) [
      | inl full ↦
          rw (e, spec_put)
            (rw full (
              omega (
                arith,
                leb→le n (length m) full,
                length-drop_last m (omega (arith, leb→le n (length m) full)),
              )))
      | inr room ↦ rw (e, spec_put) (rw room (ground arith))
    ]
  ]

  spec_get-bound : (n : ℕ) (k : Str) (m : Map V) → length m ≤ n → length ((spec_get k m).0) ≤ n
  spec_get-bound n k m h = elim (Option-cases (lookup k m)) [
    | inr (w, e) ↦ rw (e, spec_get) (omega (arith, length-erase k w m e))
    | inl e ↦ rw (e, spec_get) h
  ]

  spec_run-bound :
      (n : ℕ) (m : Map V) (cs : List (Call V))
      → 0 < n
      → length m ≤ n
      → length ((spec_run n m cs).0) ≤ n
  spec_run-bound n m [] pos h = h
  spec_run-bound n m (puts k v ∷ cs) pos h =
      spec_run-bound n (spec_put n k v m) cs pos (spec_put-bound n k v m pos h)
  spec_run-bound n m (gets k ∷ cs) pos h =
      spec_run-bound n ((spec_get k m).0) cs pos (spec_get-bound n k m h)

  pub new_cache-Represents : (n : ℕ) → Represents (new_cache {V = V} n) []
  unfolding new_cache find lookup
  new_cache-Represents n = record {
    nodes = refl;
    finds = λ k. refl;
    sizes = refl;
    distinct = tt;
    fresh = tt;
    keys = tt;
  }

  -- A cache of a capacity above 0 is a least-recently-used cache. Whatever sequence of `put` and
  -- `get` is called on a new one, no call uses an iterator that is not in the list or the back of
  -- an empty list; the reads return what they return on a list of keys and values by recency, from
  -- which a full `put` of a new key drops the last; and the cache never holds more entries than its
  -- capacity.
  pub new_cache-run :
      (n : ℕ) (cs : List (Call V))
      → 0 < n
      → (c : LruCache V) × (run (new_cache n) cs ≡ ok (c, (spec_run n [] cs).1))
        × (length c.cache ≤ n)
        × (length c.lru_list ≡ length c.cache)
  unfolding new_cache
  new_cache-run n cs pos =
      let f = run-Follows n (new_cache n) [] [] cs (new_cache-Represents n) pos refl refl in
      let same : length f.cache_last.cache ≡ length f.entries_last = f.stands_for.sizes in
      let nodes : length f.cache_last.lru_list ≡ length f.entries_last =
        ap length f.stands_for.nodes ∙ length-map node f.entries_last in
      let small : length f.entries_last ≤ n = omega (
        arith,
        length-view f.entries_last,
        ap length f.seen,
        spec_run-bound n [] cs pos (omega arith),
      ) in
      (f.cache_last, f.answers, omega (arith, same, small), nodes ∙ sym same)
