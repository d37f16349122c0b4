-- ===== src/Utils/CacheManager/Entries.antt =====
-- The entries behind a cache, most recent first, against its list and its map.
use blockchain_messaging.Base.{
  ℕ, suc, ◌≡◌, ◌≢◌, refl, sym, ap, subst, ◌∙◌, List, [], ◌∷◌, map, Option, none, some, Str, str_eq,
  str_eq_iff, ==_iff, length, if◌then◌else◌, ok, Bool-cases, inl, inr, All, arith,
}
use blockchain_messaging.Utils.CacheManager.{erase_node, key_at}

-- A node of the list with the value that the map holds for its key.
pub record Entry (V : Type 0) : Type 0 where
  pub id : ℕ
  pub key : Str
  pub value : V

module _ {V : Type 0} where
  abbrev pub node : Entry V → ℕ × Str
  node e = (e.id, e.key)

  abbrev pub slot : Entry V → V × ℕ
  slot e = (e.value, e.id)

  unfoldable pub find : Str → List (Entry V) → Option (V × ℕ)
  find k [] = none
  find k (e ∷ es) = if str_eq e.key k then some (slot e) else find k es

  unfoldable pub remove : Str → List (Entry V) → List (Entry V)
  remove k [] = []
  remove k (e ∷ es) = if str_eq e.key k then es else e ∷ remove k es

  -- No key and no node twice.
  abbrev pub Distinct : List (Entry V) → Type 0
  Distinct [] = Unit {0}
  Distinct (e ∷ es) = All (λ f. (f.key ≢ e.key) × (f.id ≢ e.id)) es × Distinct es

  pub find-All :
      (P : Entry V → Type 0) (k : Str) (es : List (Entry V)) (s : V × ℕ)
      → All P es
      → find k es ≡ some s
      → (e : Entry V) × P e × (e.key ≡ k) × (slot e ≡ s)
  unfolding find
  find-All P k [] s h f = absurd (cc)
  find-All P k (e ∷ es) s h f = elim (Bool-cases (str_eq e.key k)) [
    | inl same ↦ (e, h.0, (str_eq_iff e.key k).0 same, ground arith)
    | inr other ↦ find-All P k es s h.1 (ground arith)
  ]

  pub remove-All :
      (P : Entry V → Type 0) (k : Str) (es : List (Entry V)) → All P es → All P (remove k es)
  unfolding remove
  remove-All P k [] h = tt
  remove-All P k (e ∷ es) h = elim (Bool-cases (str_eq e.key k)) [
    | inl same ↦ rw same (h.1)
    | inr other ↦ rw other (h.0, remove-All P k es h.1)
  ]

  pub remove-Distinct : (k : Str) (es : List (Entry V)) → Distinct es → Distinct (remove k es)
  unfolding remove
  remove-Distinct k [] h = tt
  remove-Distinct k (e ∷ es) h = elim (Bool-cases (str_eq e.key k)) [
    | inl same ↦ rw same (h.1)
    | inr other ↦ rw other (remove-All _ k es h.0, remove-Distinct k es h.1)
  ]

  -- After the removal the key is gone.
  pub remove-absent :
      (k : Str) (es : List (Entry V)) → Distinct es → All (λ e. e.key ≢ k) (remove k es)
  unfolding remove
  remove-absent k [] h = tt
  remove-absent k (e ∷ es) h = elim (Bool-cases (str_eq e.key k)) [
    | inl same ↦ rw same (absent_of k e.key ((str_eq_iff e.key k).0 same) es e.id h.0)
    | inr other ↦ rw other ((λ q. ground (arith, str_eq_iff e.key k)), remove-absent k es h.1)
  ]
    where
      absent_of :
          (k j : Str)
          → j ≡ k
          → (es : List (Entry V)) (n : ℕ) → All (λ f. (f.key ≢ j) × (f.id ≢ n)) es
          → All (λ e. e.key ≢ k) es
      absent_of k j q [] n h = tt
      absent_of k j q (f ∷ es) n h = ((λ r. h.0.0 (r ∙ sym q)), absent_of k j q es n h.1)

  pub find-absent : (k : Str) (es : List (Entry V)) → All (λ e. e.key ≢ k) es → find k es ≡ none
  unfolding find
  find-absent k [] h = refl
  find-absent k (e ∷ es) h = elim (Bool-cases (str_eq e.key k)) [
    | inl same ↦ absurd (h.0 ((str_eq_iff e.key k).0 same))
    | inr other ↦ rw other (find-absent k es h.1)
  ]

  pub absent-find : (k : Str) (es : List (Entry V)) → find k es ≡ none → All (λ e. e.key ≢ k) es
  unfolding find
  absent-find k [] h = tt
  absent-find k (e ∷ es) h = elim (Bool-cases (str_eq e.key k)) [
    | inl same ↦ absurd (ground arith)
    | inr other ↦ ((λ q. ground (arith, str_eq_iff e.key k)), absent-find k es (ground arith))
  ]

  pub find-remove_ne : (k j : Str) (es : List (Entry V)) → k ≢ j → find j (remove k es) ≡ find j es
  unfolding find remove
  find-remove_ne k j [] h = refl
  find-remove_ne k j (e ∷ es) h =
      ground (arith, str_eq_iff e.key k, str_eq_iff e.key j, find-remove_ne k j es h)

  pub length-remove :
      (k : Str) (es : List (Entry V)) (s : V × ℕ)
      → find k es ≡ some s
      → suc (length (remove k es)) ≡ length es
  unfolding find remove
  length-remove k [] s h = absurd (cc)
  length-remove k (e ∷ es) s h = elim (Bool-cases (str_eq e.key k)) [
    | inl same ↦ rw same refl
    | inr other ↦ rw other (ap suc (length-remove k es s (ground arith)))
  ]

  pub erase_node_lem :
      (k : Str) (es : List (Entry V)) (s : V × ℕ)
      → Distinct es
      → find k es ≡ some s
      → erase_node (s.1) (map node es) ≡ ok (map node (remove k es))
  unfolding find remove erase_node
  erase_node_lem k [] s d h = absurd (cc)
  erase_node_lem k (e ∷ es) s d h = elim (Bool-cases (str_eq e.key k)) [
    | inl same ↦ ground (arith, ==_iff e.id (s.1))
    | inr other ↦
        let (f, ne, q, r) = find-All _ k es s d.0 (ground arith) in
        ground (arith, ==_iff e.id (s.1), ne.1, erase_node_lem k es s d.1)
  ]

  pub key_at_lem :
      (k : Str) (es : List (Entry V)) (s : V × ℕ)
      → Distinct es
      → find k es ≡ some s
      → key_at (s.1) (map node es) ≡ ok k
  unfolding find key_at
  key_at_lem k [] s d h = absurd (cc)
  key_at_lem k (e ∷ es) s d h = elim (Bool-cases (str_eq e.key k)) [
    | inl same ↦ ground (arith, ==_iff e.id (s.1), str_eq_iff e.key k)
    | inr other ↦
        let (f, ne, q, r) = find-All _ k es s d.0 (ground arith) in
        ground (arith, ==_iff e.id (s.1), ne.1, key_at_lem k es s d.1)
  ]

  -- Without the entry of a key that is there, neither its key nor its node is left.
  pub remove-apart :
      (k : Str) (es : List (Entry V)) (s : V × ℕ)
      → Distinct es
      → find k es ≡ some s
      → All (λ f. (f.key ≢ k) × (f.id ≢ s.1)) (remove k es)
  unfolding find remove
  remove-apart k [] s d h = tt
  remove-apart k (e ∷ es) s d h = elim (Bool-cases (str_eq e.key k)) [
    | inl same ↦
        let q : e.key ≡ k = (str_eq_iff e.key k).0 same in
        let r : e.id ≡ s.1 = ground arith in
        rw same (
          subst (λ (n : ℕ). All (λ f. (f.key ≢ k) × (f.id ≢ n)) es) r
            (subst (λ (j : Str). All (λ f. (f.key ≢ j) × (f.id ≢ e.id)) es) q d.0))
    | inr other ↦
        let (f, ne, q, r) = find-All _ k es s d.0 (ground arith) in
        rw other (
          (
            (λ z. ground (arith, str_eq_iff e.key k)),
            (λ z. ne.1 (ap (λ (p : V × ℕ). p.1) r ∙ sym z)),
          ),
          remove-apart k es s d.1 (ground arith),
        )
  ]
