-- ===== src/Utils/Logger/Singleton/Invariant.antt =====
-- What holds at every step of the threads in Logger::getInstance.
use blockchain_messaging.Base.Families.{set_at}
use blockchain_messaging.Base.{
  ℕ, ◌≤◌, ◌≡◌, ◌≢◌, refl, subst, sym, ap, ◌∙◌, ◌⊎◌, inl, inr, List, [], ◌∷◌, true, Option, none,
  some, ◌==◌, ==_iff, Bool-cases, arith,
}
use blockchain_messaging.Utils.Logger.Singleton.{
  Place, testing, waiting, testing_again, constructing, storing, unlocking, reading, returned,
  Shared, take_step, Threads, set_thread, step, schedule, calling, is_inside,
}

abbrev pub Settled : Shared → Type 0
Settled s =
    ((s.instance_pointer ≡ none) × (s.made ≡ 0)) ⊎ ((s.instance_pointer ≡ some 0) × (s.made ≡ 1))

-- What a thread knows at its place.
abbrev pub Knows : ℕ → Shared → Place → Type 0
Knows i s testing = Unit {0}
Knows i s waiting = Unit {0}
Knows i s testing_again = (s.holder ≡ some i) × Settled s
Knows i s constructing = (s.holder ≡ some i) × (s.instance_pointer ≡ none) × (s.made ≡ 0)
Knows i s (storing p) = (s.holder ≡ some i) × (s.instance_pointer ≡ none) × (s.made ≡ 1) × (p ≡ 0)
Knows i s unlocking = (s.holder ≡ some i) × (s.instance_pointer ≡ some 0) × (s.made ≡ 1)
Knows i s reading = s.instance_pointer ≡ some 0
Knows i s (returned p) = (s.instance_pointer ≡ some 0) × (p ≡ some 0)

abbrev pub IsShared : Shared → Type 0
IsShared s =
    (s.holder ≡ none → Settled s)
    × ((s.instance_pointer ≡ none) ⊎ (s.instance_pointer ≡ some 0))
    × (s.made ≤ 1)

-- A condition on what a step leads to, where there is one.
abbrev AfterStep : (Shared → Place → Type 0) → Option (Shared × Place) → Type 0
AfterStep Holds none = Unit {0}
AfterStep Holds (some r) = Holds (r.0) (r.1)

abbrev shared : Option ℕ → Option ℕ → ℕ → Shared
shared pointer holder made = record { instance_pointer = pointer; holder = holder; made = made }

take_step-Knows :
    (i : ℕ) (pointer holder : Option ℕ) (made : ℕ) (place : Place)
    → IsShared (shared pointer holder made)
    → Knows i (shared pointer holder made) place
    → AfterStep
        (λ s' place'. IsShared s' × Knows i s' place')
        (take_step i (shared pointer holder made) place)
unfolding take_step
take_step-Knows i none holder made testing h k = (h, tt)
take_step-Knows i (some p) holder made testing h k = ground arith
take_step-Knows i pointer none made waiting h k = ground arith
take_step-Knows i pointer (some j) made waiting h k = tt
take_step-Knows i none holder made testing_again h k = ground arith
take_step-Knows i (some p) holder made testing_again h k = ground arith
take_step-Knows i pointer holder made constructing h k = ground arith
take_step-Knows i pointer holder made (storing p) h k = ground arith
take_step-Knows i pointer holder made unlocking h k = ground arith
take_step-Knows i pointer holder made reading h k = (h, (k, k))
take_step-Knows i pointer holder made (returned p) h k = tt

-- Outside of the lock a thread only knows of a pointer that stays.
outside-Knows :
    (j : ℕ) (s s' : Shared) (place : Place)
    → s.holder ≢ some j
    → (s.instance_pointer ≡ some 0 → s'.instance_pointer ≡ some 0)
    → Knows j s place
    → Knows j s' place
outside-Knows j s s' testing out stays k = tt
outside-Knows j s s' waiting out stays k = tt
outside-Knows j s s' testing_again out stays k = absurd (out k.0)
outside-Knows j s s' constructing out stays k = absurd (out k.0)
outside-Knows j s s' (storing p) out stays k = absurd (out k.0)
outside-Knows j s s' unlocking out stays k = absurd (out k.0)
outside-Knows j s s' reading out stays k = stays k
outside-Knows j s s' (returned p) out stays k = (stays k.0, k.1)

-- What another thread knows is not changed by the step.
take_step_others :
    (i j : ℕ) (pointer holder : Option ℕ) (made : ℕ) (place other : Place)
    → i ≢ j
    → Knows i (shared pointer holder made) place
    → Knows j (shared pointer holder made) other
    → AfterStep (λ s' place'. Knows j s' other) (take_step i (shared pointer holder made) place)
unfolding take_step
take_step_others i j pointer holder made testing other d k l = l
take_step_others i j pointer none made waiting other d k l =
    outside-Knows j _ _ other (λ q. cc q) (λ q. q) l
take_step_others i j pointer (some h) made waiting other d k l = tt
take_step_others i j pointer holder made testing_again other d k l = l
take_step_others i j pointer holder made constructing other d k l =
    outside-Knows j _ _ other (λ q. ground arith) (λ q. q) l
take_step_others i j pointer holder made (storing p) other d k l =
    outside-Knows j _ _ other (λ q. ground arith) (λ q. ground arith) l
take_step_others i j pointer holder made unlocking other d k l =
    outside-Knows j _ _ other (λ q. ground arith) (λ q. q) l
take_step_others i j pointer holder made reading other d k l = l
take_step_others i j pointer holder made (returned p) other d k l = tt

pub Knows-is_inside :
    (i : ℕ) (s : Shared) (place : Place)
    → Knows i s place
    → is_inside place ≡ true
    → s.holder ≡ some i
Knows-is_inside i s testing k h = absurd (cc)
Knows-is_inside i s waiting k h = absurd (cc)
Knows-is_inside i s testing_again k h = k.0
Knows-is_inside i s constructing k h = k.0
Knows-is_inside i s (storing p) k h = k.0
Knows-is_inside i s unlocking k h = k.0
Knows-is_inside i s reading k h = absurd (cc)
Knows-is_inside i s (returned p) k h = absurd (cc)

-- Whoever holds the lock after a step is inside, or has held it before.
take_step-holder :
    (i : ℕ) (pointer holder : Option ℕ) (made : ℕ) (place : Place)
    → (holder ≡ some i → is_inside place ≡ true)
    → AfterStep
        (λ s' place'.
          (s'.holder ≡ some i → is_inside place' ≡ true)
          × ((k : ℕ) → i ≢ k → s'.holder ≡ some k → holder ≡ some k))
        (take_step i (shared pointer holder made) place)
unfolding take_step
take_step-holder i none holder made testing h = (ground arith, λ k d q. q)
take_step-holder i (some p) holder made testing h = (ground arith, λ k d q. q)
take_step-holder i pointer none made waiting h = ((λ q. refl), λ k d q. ground arith)
take_step-holder i pointer (some j) made waiting h = tt
take_step-holder i none holder made testing_again h = ((λ q. refl), λ k d q. q)
take_step-holder i (some p) holder made testing_again h = ((λ q. refl), λ k d q. q)
take_step-holder i pointer holder made constructing h = ((λ q. refl), λ k d q. q)
take_step-holder i pointer holder made (storing p) h = ((λ q. refl), λ k d q. q)
take_step-holder i pointer holder made unlocking h = ((λ q. absurd (cc)), λ k d q. absurd (cc))
take_step-holder i pointer holder made reading h = (h, λ k d q. q)
take_step-holder i pointer holder made (returned p) h = tt

-- A thread that holds the lock is inside.
abbrev pub IsHeld : Threads → Type 0
IsHeld t = (k : ℕ) → t.shared.holder ≡ some k → is_inside (t.places k) ≡ true

abbrev pub IsThreads : Threads → Type 0
IsThreads t = IsShared t.shared × ((j : ℕ) → Knows j t.shared (t.places j)) × IsHeld t

module _ (i : ℕ) (t : Threads) where
  set_thread-Knows :
      (o : Option (Shared × Place))
      → ((j : ℕ) → Knows j t.shared (t.places j))
      → AfterStep (λ s' place'. Knows i s' place') o
      → ((j : ℕ) → i ≢ j → AfterStep (λ s' place'. Knows j s' (t.places j)) o)
      → (j : ℕ) → Knows j (set_thread i t o).shared ((set_thread i t o).places j)
  unfolding set_at
  set_thread-Knows none h known others j = h j
  set_thread-Knows (some r) h known others j = elim (Bool-cases (i == j)) [
    | inl same ↦ rw same (subst (λ k. Knows k (r.0) (r.1)) ((==_iff i j).0 same) known)
    | inr other ↦ rw other (others j (λ q. ground arith))
  ]

  set_thread-IsHeld :
      (o : Option (Shared × Place))
      → IsHeld t
      → AfterStep
          (λ s' place'.
            (s'.holder ≡ some i → is_inside place' ≡ true)
            × ((k : ℕ) → i ≢ k → s'.holder ≡ some k → t.shared.holder ≡ some k))
          o
      → IsHeld (set_thread i t o)
  unfolding set_at
  set_thread-IsHeld none h after k e = h k e
  set_thread-IsHeld (some r) h after k e = elim (Bool-cases (i == k)) [
    | inl same ↦ rw same (after.0 (e ∙ ap some (sym ((==_iff i k).0 same))))
    | inr other ↦ rw other (h k (after.1 k (λ q. ground arith) e))
  ]

  set_thread-IsShared :
      (o : Option (Shared × Place))
      → IsShared t.shared
      → AfterStep (λ s' place'. IsShared s' × Knows i s' place') o
      → IsShared (set_thread i t o).shared × AfterStep (λ s' place'. Knows i s' place') o
  set_thread-IsShared none h after = (h, tt)
  set_thread-IsShared (some r) h after = after

  step-IsThreads : IsThreads t → IsThreads (step i t)
  unfolding step
  step-IsThreads (h, knows, held) =
      let s = t.shared in
      let taken = take_step i s (t.places i) in
      let (fine, known) =
        set_thread-IsShared taken h
          (take_step-Knows i s.instance_pointer s.holder s.made (t.places i) h (knows i)) in
      (
        fine,
        set_thread-Knows taken knows known (λ j d.
            take_step_others i j s.instance_pointer s.holder s.made (t.places i) (t.places j) d
              (knows i) (knows j)),
        set_thread-IsHeld taken held
            (take_step-holder i s.instance_pointer s.holder s.made (t.places i) (held i)),
      )

schedule-IsThreads : (is : List ℕ) (t : Threads) → IsThreads t → IsThreads (schedule is t)
unfolding schedule
schedule-IsThreads [] t h = h
schedule-IsThreads (i ∷ is) t h = schedule-IsThreads is (step i t) (step-IsThreads i t h)

pub calling-IsThreads : (is : List ℕ) → IsThreads (schedule is calling)
unfolding calling
calling-IsThreads is =
    schedule-IsThreads is calling
      ((λ q. inl (refl, refl), inl refl, omega arith), (λ j. tt), λ k e. absurd (cc))
