-- ===== src/Utils/MemoryPool/Bags.antt =====
-- The entries of the pool up to their order.
use mathlib.Core.Quot
use mathlib.Core.Quot.{Quot, Quot-set}
use mathlib.Core.List.{Perm, Permᴰ}
use mathlib.Core.List.Perm
use mathlib.Core.List.Permᴰ
use mathlib.Core.Logic.{∥∥₁_map}
use native.Mathlib.Nat.{ℕ_set}
use blockchain_messaging.Base.{
  ℕ, ◌-◌, ◌≡◌, refl, List, [], ◌∷◌, Bool, true, false, leb, length, if◌then◌else◌, arith, subst,
}
use blockchain_messaging.Utils.MemoryPool.{PoolEntry, remove_old}
use blockchain_messaging.Utils.MemoryPool.Ordering.{length-perm}

-- The entries, each as often as it is there.
abbrev pub Bag : Type 0 → Type 0
Bag D = Quot {α = List (PoolEntry D)} Perm

if_permᴰ {ℓ} :
    {A : Type ℓ} (b : Bool) (a : A) {es fs : List A}
    → Permᴰ es fs
    → Permᴰ (if b then a ∷ es else es) (if b then a ∷ fs else fs)
if_permᴰ false a p = p
if_permᴰ true a p = Permᴰ.cons refl p

if_swapᴰ {ℓ} :
    {A : Type ℓ} (b c : Bool) (a a' : A) (es : List A)
    → Permᴰ
        (if b then a ∷ (if c then a' ∷ es else es) else (if c then a' ∷ es else es))
        (if c then a' ∷ (if b then a ∷ es else es) else (if b then a ∷ es else es))
if_swapᴰ false c a a' es = Permᴰ.refl _
if_swapᴰ true false a a' es = Permᴰ.refl _
if_swapᴰ true true a a' es = Permᴰ.swap refl refl

module _ {D : Type 0} where
  abbrev pub bag : List (PoolEntry D) → Bag D
  bag es = Quot.mk es

  -- The entries whose age is at most `max_age`.
  abbrev pub young_entries : ℕ → ℕ → List (PoolEntry D) → List (PoolEntry D)
  young_entries now max_age [] = []
  young_entries now max_age (e ∷ es) =
      if leb (now - e.timestamp) max_age
      then e ∷ young_entries now max_age es
      else young_entries now max_age es

  pub remove_old-young_entries :
      (now max_age : ℕ) (es : List (PoolEntry D))
      → remove_old now max_age es ≡ young_entries now max_age es
  unfolding remove_old
  remove_old-young_entries now max_age [] = refl
  remove_old-young_entries now max_age (e ∷ es) =
      ground (arith, remove_old-young_entries now max_age es)

  pub young_entries-permᴰ :
      (now max_age : ℕ) {es fs : List (PoolEntry D)}
      → Permᴰ es fs
      → Permᴰ (young_entries now max_age es) (young_entries now max_age fs)
  young_entries-permᴰ now max_age Permᴰ.nil = Permᴰ.nil
  young_entries-permᴰ now max_age (Permᴰ.cons {a} {b} {l₁} {l₂} e p) =
      subst
        (λ (b : PoolEntry D).
          Permᴰ (young_entries now max_age (a ∷ l₁)) (young_entries now max_age (b ∷ l₂)))
        e (if_permᴰ (leb (now - a.timestamp) max_age) a (young_entries-permᴰ now max_age p))
  young_entries-permᴰ now max_age (Permᴰ.swap {a} {b} {a'} {b'} {l} e f) =
      subst
        (λ (c : PoolEntry D).
          Permᴰ (young_entries now max_age (a ∷ b ∷ l)) (young_entries now max_age (a' ∷ c ∷ l)))
        e
        (subst
          (λ (c : PoolEntry D).
            Permᴰ (young_entries now max_age (a ∷ b ∷ l)) (young_entries now max_age (c ∷ a ∷ l)))
          f
          (if_swapᴰ (leb (now - a.timestamp) max_age) (leb (now - b.timestamp) max_age) a b
            (young_entries now max_age l)))
  young_entries-permᴰ now max_age (Permᴰ.trans p q) =
      Permᴰ.trans (young_entries-permᴰ now max_age p) (young_entries-permᴰ now max_age q)

  -- The bag of the entries that are young enough, the number of entries, and one entry more.
  unfoldable pub young : ℕ → ℕ → Bag D → Bag D
  young now max_age =
      Quot.lift Quot-set (λ es. bag (young_entries now max_age es))
        λ es fs p. Quot.sound (∥∥₁_map p (young_entries-permᴰ now max_age))

  unfoldable pub size : Bag D → ℕ
  size = Quot.lift ℕ_set length λ es fs p. length-perm p

  unfoldable pub with_entry : PoolEntry D → Bag D → Bag D
  with_entry e = Quot.lift Quot-set (λ es. bag (e ∷ es)) λ es fs p. Quot.sound (Perm.cons e p)
