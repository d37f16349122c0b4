-- ===== src/Base/Maps.antt =====
-- std::unordered_map with string keys as an association list.
use mathlib.Core.Bool.{true, false}
use mathlib.Core.List.{List, [], ◌∷◌}
use Prim.Native.Nat.{suc}
use mathlib.Core.Logic.{◌≢◌, inl, inr}
use mathlib.Core.Option.{Option, none, some}
use mathlib.Core.Path.{◌≡◌, refl, ap, ◌∙◌}
use native.Mathlib.Omega.{arith}
use blockchain_messaging.Base.Bytes.{Str, str_eq, str_eq_iff, str_eq_self}
use blockchain_messaging.Base.Tests.{if◌then◌else◌, Bool-cases}
use blockchain_messaging.Base.Lists.{length}

abbrev pub Map {ℓ} : Type ℓ → Type ℓ
Map V = List (Str × V)

module _ {ℓ} {V : Type ℓ} where
  -- `find` and `count`.
  unfoldable pub lookup : Str → Map V → Option V
  lookup k [] = none
  lookup k ((j, v) ∷ m) = if str_eq j k then some v else lookup k m

  -- `m[k] = v`.
  unfoldable pub insert : Str → V → Map V → Map V
  insert k v [] = (k, v) ∷ []
  insert k v ((j, w) ∷ m) = if str_eq j k then (j, v) ∷ m else (j, w) ∷ insert k v m

  -- `m.erase(k)`.
  unfoldable pub erase : Str → Map V → Map V
  erase k [] = []
  erase k ((j, w) ∷ m) = if str_eq j k then m else (j, w) ∷ erase k m

  -- The value that `m[k]` reads, where a missing key gets the default value.
  unfoldable pub get_or : V → Str → Map V → V
  get_or d k m = elim (lookup k m) [ none ↦ d | some v ↦ v ]

  pub lookup-insert :
      (k j : Str) (v : V) (m : Map V)
      → lookup j (insert k v m) ≡ (if str_eq k j then some v else lookup j m)
  unfolding lookup insert
  lookup-insert k j v [] = refl
  lookup-insert k j v ((i, w) ∷ m) =
      ground (arith, str_eq_iff k j, str_eq_iff i k, str_eq_iff i j, lookup-insert k j v m)

  pub lookup-insert_self : (k : Str) (v : V) (m : Map V) → lookup k (insert k v m) ≡ some v
  lookup-insert_self k v m = ground (arith, lookup-insert k k v m, str_eq_self k)

  pub lookup-insert_ne :
      (k j : Str) (v : V) (m : Map V) → k ≢ j → lookup j (insert k v m) ≡ lookup j m
  lookup-insert_ne k j v m h = ground (arith, lookup-insert k j v m, str_eq_iff k j)

  pub insert-head :
      (k j : Str) (v w : V) (m : Map V) → str_eq j k ≡ true → insert k v ((j, w) ∷ m) ≡ (j, v) ∷ m
  unfolding insert
  insert-head k j v w m h = rw h

  pub insert-tail :
      (k j : Str) (v w : V) (m : Map V)
      → str_eq j k ≡ false
      → insert k v ((j, w) ∷ m) ≡ (j, w) ∷ insert k v m
  unfolding insert
  insert-tail k j v w m h = rw h

  pub get_or-head :
      (d : V) (k j : Str) (w : V) (m : Map V) → str_eq j k ≡ true → get_or d k ((j, w) ∷ m) ≡ w
  unfolding get_or lookup
  get_or-head d k j w m h = ground arith

  pub get_or-tail :
      (d : V) (k j : Str) (w : V) (m : Map V)
      → str_eq j k ≡ false
      → get_or d k ((j, w) ∷ m) ≡ get_or d k m
  unfolding get_or lookup
  get_or-tail d k j w m h = ground arith

  pub get_or-insert_self : (d : V) (k : Str) (v : V) (m : Map V) → get_or d k (insert k v m) ≡ v
  unfolding get_or
  get_or-insert_self d k v m = ground (arith, lookup-insert_self k v m)

  pub get_or-insert_ne :
      (d : V) (k j : Str) (v : V) (m : Map V) → k ≢ j → get_or d j (insert k v m) ≡ get_or d j m
  unfolding get_or
  get_or-insert_ne d k j v m h = ground (arith, lookup-insert_ne k j v m)

  -- Writing back what is there changes nothing.
  pub insert_same : (k : Str) (v : V) (m : Map V) → lookup k m ≡ some v → insert k v m ≡ m
  unfolding lookup insert
  insert_same k v [] h = absurd (cc)
  insert_same k v ((j, w) ∷ m) h = ground (arith, insert_same k v m)

  -- No key twice, as in every map that the program builds.
  abbrev pub DistinctKeys : Map V → Type ℓ
  DistinctKeys [] = Unit {ℓ}
  DistinctKeys ((j, w) ∷ m) = (lookup j m ≡ none) × DistinctKeys m

  pub insert-DistinctKeys :
      (k : Str) (v : V) (m : Map V) → DistinctKeys m → DistinctKeys (insert k v m)
  unfolding lookup insert
  insert-DistinctKeys k v [] h = (refl, tt)
  insert-DistinctKeys k v ((j, w) ∷ m) h = elim (Bool-cases (str_eq j k)) [
    | inl same ↦ rw same h
    | inr other ↦ rw other (
      lookup-insert_ne k j v m (λ q. ground (arith, str_eq_iff j k)) ∙ h.0,
      insert-DistinctKeys k v m h.1,
    )
  ]

  pub lookup-erase_ne : (k j : Str) (m : Map V) → k ≢ j → lookup j (erase k m) ≡ lookup j m
  unfolding lookup erase
  lookup-erase_ne k j [] h = refl
  lookup-erase_ne k j ((i, w) ∷ m) h =
      ground (arith, str_eq_iff i k, str_eq_iff i j, lookup-erase_ne k j m h)

  pub lookup-erase_self : (k : Str) (m : Map V) → DistinctKeys m → lookup k (erase k m) ≡ none
  unfolding lookup erase
  lookup-erase_self k [] h = refl
  lookup-erase_self k ((j, w) ∷ m) h = ground (arith, str_eq_iff j k, lookup-erase_self k m h.1)

  pub erase-DistinctKeys : (k : Str) (m : Map V) → DistinctKeys m → DistinctKeys (erase k m)
  unfolding lookup erase
  erase-DistinctKeys k [] h = tt
  erase-DistinctKeys k ((j, w) ∷ m) h = elim (Bool-cases (str_eq j k)) [
    | inl same ↦ rw same (h.1)
    | inr other ↦ rw other (
      lookup-erase_ne k j m (λ q. ground (arith, str_eq_iff j k)) ∙ h.0,
      erase-DistinctKeys k m h.1,
    )
  ]

  pub length-insert_new :
      (k : Str) (v : V) (m : Map V) → lookup k m ≡ none → length (insert k v m) ≡ suc (length m)
  unfolding lookup insert
  length-insert_new k v [] h = refl
  length-insert_new k v ((j, w) ∷ m) h = elim (Bool-cases (str_eq j k)) [
    | inl same ↦ absurd (ground arith)
    | inr other ↦ rw other (ap suc (length-insert_new k v m (ground arith)))
  ]

  pub length-insert_old :
      (k : Str) (v w : V) (m : Map V) → lookup k m ≡ some w → length (insert k v m) ≡ length m
  unfolding lookup insert
  length-insert_old k v w [] h = absurd (cc)
  length-insert_old k v w ((j, u) ∷ m) h = elim (Bool-cases (str_eq j k)) [
    | inl same ↦ rw same refl
    | inr other ↦ rw other (ap suc (length-insert_old k v w m (ground arith)))
  ]

  pub length-erase :
      (k : Str) (w : V) (m : Map V) → lookup k m ≡ some w → suc (length (erase k m)) ≡ length m
  unfolding lookup erase
  length-erase k w [] h = absurd (cc)
  length-erase k w ((j, u) ∷ m) h = elim (Bool-cases (str_eq j k)) [
    | inl same ↦ rw same refl
    | inr other ↦ rw other (ap suc (length-erase k w m (ground arith)))
  ]
