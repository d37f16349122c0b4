-- ===== src/Utils/Logger/Singleton/Calls.antt =====
-- What the calls of Logger::getInstance return, and that they return.
use blockchain_messaging.Base.{
  ℕ, ◌≤◌, ◌≡◌, refl, subst, ap, ◌∙◌, inl, inr, List, [], ◌∷◌, ◌++◌, true, Option, none, some,
  Option-cases, arith,
}
use blockchain_messaging.Base.Families.{set_at_self}
use blockchain_messaging.Utils.Logger.Singleton.{
  Place, testing, waiting, testing_again, constructing, storing, unlocking, reading, returned,
  Shared, Threads, take_step, step, schedule, calling, is_inside,
}
use blockchain_messaging.Utils.Logger.Singleton.Invariant.{
  Knows, Knows-is_inside, calling-IsThreads,
}

-- However many threads call getInstance, and however their steps interleave: at most one Logger is
-- made, all calls that have returned have returned it, none of them null, and two threads between
-- the locking and the unlocking are the same thread.
pub schedule_singleton :
    (is : List ℕ)
    → ((schedule is calling).shared.made ≤ 1)
      × ((j : ℕ) (p : Option ℕ) → (schedule is calling).places j ≡ returned p → p ≡ some 0)
      × ((i j : ℕ)
          → is_inside ((schedule is calling).places i) ≡ true
          → is_inside ((schedule is calling).places j) ≡ true
          → i ≡ j)
schedule_singleton is =
    let t = schedule is calling in
    let (fine, knows, held) = calling-IsThreads is in
    (
      fine.2,
      (λ j p e. (subst (Knows j t.shared) e (knows j)).1),
      λ i j h k.
          let a = Knows-is_inside i t.shared (t.places i) (knows i) h in
          let b = Knows-is_inside j t.shared (t.places j) (knows j) k in ground arith,
    )

step-taken :
    (i : ℕ) (t : Threads) (r : Shared × Place)
    → take_step i t.shared (t.places i) ≡ some r
    → ((step i t).shared ≡ r.0) × ((step i t).places i ≡ r.1)
unfolding step
step-taken i t r e = rw e (refl, set_at_self i (r.1) t.places)

-- Where a thread goes from a place.
step_from :
    (i : ℕ) (t : Threads) (place : Place) (r : Shared × Place)
    → t.places i ≡ place
    → take_step i t.shared place ≡ some r
    → ((step i t).shared ≡ r.0) × ((step i t).places i ≡ r.1)
step_from i t place r h e = step-taken i t r (ap (take_step i t.shared) h ∙ e)

schedule-append :
    (is js : List ℕ) (t : Threads) → schedule (is ++ js) t ≡ schedule js (schedule is t)
unfolding schedule
schedule-append [] js t = refl
schedule-append (i ∷ is) js t = schedule-append is js (step i t)

-- Some steps of threads from which on a condition holds.
abbrev Leads : (Threads → Type 0) → Threads → Type 0
Leads P t = (is : List ℕ) × P (schedule is t)

first_step : (i : ℕ) (P : Threads → Type 0) (t : Threads) → Leads P (step i t) → Leads P t
unfolding schedule
first_step i P t (is, h) = (i ∷ is, h)

no_step : (P : Threads → Type 0) (t : Threads) → P t → Leads P t
unfolding schedule
no_step P t h = ([], h)

-- Nobody holds the lock.
abbrev IsFree : Threads → Type 0
IsFree t = t.shared.holder ≡ none

release_unlocking : (i : ℕ) (t : Threads) → t.places i ≡ unlocking → Leads IsFree t
unfolding take_step
release_unlocking i t h =
    let (shared, place) = step_from i t unlocking _ h refl in
    first_step i IsFree t (no_step IsFree (step i t) (ap (λ (s : Shared). s.holder) shared))

release_storing : (i : ℕ) (t : Threads) (p : ℕ) → t.places i ≡ storing p → Leads IsFree t
unfolding take_step
release_storing i t p h =
    first_step i IsFree t (release_unlocking i (step i t) ((step_from i t (storing p) _ h refl).1))

release_constructing : (i : ℕ) (t : Threads) → t.places i ≡ constructing → Leads IsFree t
unfolding take_step
release_constructing i t h =
    first_step i IsFree t
      (release_storing i (step i t) t.shared.made ((step_from i t constructing _ h refl).1))

release_testing_again : (i : ℕ) (t : Threads) → t.places i ≡ testing_again → Leads IsFree t
unfolding take_step
release_testing_again i t h = elim (Option-cases t.shared.instance_pointer) [
  | inl e ↦ first_step i IsFree t (
      release_constructing i (step i t)
        ((step_from i t testing_again (t.shared, constructing) h (rw e refl)).1))
  | inr (p, e) ↦ first_step i IsFree t (
      release_unlocking i (step i t)
        ((step_from i t testing_again (t.shared, unlocking) h (rw e refl)).1))
]

-- Whoever holds the lock can release it.
inside-IsFree :
    (i : ℕ) (t : Threads) (place : Place)
    → t.places i ≡ place
    → is_inside place ≡ true
    → Leads IsFree t
inside-IsFree i t testing h k = absurd (cc)
inside-IsFree i t waiting h k = absurd (cc)
inside-IsFree i t testing_again h k = release_testing_again i t h
inside-IsFree i t constructing h k = release_constructing i t h
inside-IsFree i t (storing p) h k = release_storing i t p h
inside-IsFree i t unlocking h k = release_unlocking i t h
inside-IsFree i t reading h k = absurd (cc)
inside-IsFree i t (returned p) h k = absurd (cc)

module _ (j : ℕ) where
  -- The call has returned.
  abbrev pub HasReturned : Threads → Type 0
  HasReturned t = (p : Option ℕ) × (t.places j ≡ returned p)

  finish_reading : (t : Threads) → t.places j ≡ reading → Leads HasReturned t
  unfolding take_step
  finish_reading t h = first_step j HasReturned t (
      no_step HasReturned (step j t)
        (t.shared.instance_pointer, (step_from j t reading _ h refl).1))

  finish_unlocking : (t : Threads) → t.places j ≡ unlocking → Leads HasReturned t
  unfolding take_step
  finish_unlocking t h =
      first_step j HasReturned t (finish_reading (step j t) ((step_from j t unlocking _ h refl).1))

  finish_storing : (t : Threads) (p : ℕ) → t.places j ≡ storing p → Leads HasReturned t
  unfolding take_step
  finish_storing t p h =
      first_step j HasReturned t
        (finish_unlocking (step j t) ((step_from j t (storing p) _ h refl).1))

  finish_constructing : (t : Threads) → t.places j ≡ constructing → Leads HasReturned t
  unfolding take_step
  finish_constructing t h =
      first_step j HasReturned t
        (finish_storing (step j t) t.shared.made ((step_from j t constructing _ h refl).1))

  finish_testing_again : (t : Threads) → t.places j ≡ testing_again → Leads HasReturned t
  unfolding take_step
  finish_testing_again t h = elim (Option-cases t.shared.instance_pointer) [
    | inl e ↦ first_step j HasReturned t (
        finish_constructing (step j t)
          ((step_from j t testing_again (t.shared, constructing) h (rw e refl)).1))
    | inr (p, e) ↦ first_step j HasReturned t (
        finish_unlocking (step j t)
          ((step_from j t testing_again (t.shared, unlocking) h (rw e refl)).1))
  ]

  finish_waiting : (t : Threads) → IsFree t → t.places j ≡ waiting → Leads HasReturned t
  unfolding take_step
  finish_waiting t free h = first_step j HasReturned t (
      finish_testing_again (step j t) (
        (step_from j t waiting (record t.shared { holder = some j }, testing_again) h
          (rw free refl)).1))

  finish_testing : (t : Threads) → IsFree t → t.places j ≡ testing → Leads HasReturned t
  unfolding take_step
  finish_testing t free h = elim (Option-cases t.shared.instance_pointer) [
    | inl e ↦
        let (shared, place) = step_from j t testing (t.shared, waiting) h (rw e refl) in
        first_step j HasReturned t
          (finish_waiting (step j t) (ap (λ (s : Shared). s.holder) shared ∙ free) place)
    | inr (p, e) ↦
        first_step j HasReturned t
          (finish_reading (step j t) ((step_from j t testing (t.shared, reading) h (rw e refl)).1))
  ]

  -- While nobody holds the lock a call can return.
  free-HasReturned :
      (t : Threads) (place : Place) → IsFree t → t.places j ≡ place → Leads HasReturned t
  free-HasReturned t testing free h = finish_testing t free h
  free-HasReturned t waiting free h = finish_waiting t free h
  free-HasReturned t testing_again free h = finish_testing_again t h
  free-HasReturned t constructing free h = finish_constructing t h
  free-HasReturned t (storing p) free h = finish_storing t p h
  free-HasReturned t unlocking free h = finish_unlocking t h
  free-HasReturned t reading free h = finish_reading t h
  free-HasReturned t (returned p) free h = no_step HasReturned t (p, h)

-- The calls of getInstance do not deadlock: wherever any interleaving of their steps has brought
-- them, and whichever thread holds the lock, every call can still be brought to return the one
-- Logger, by some further steps.
pub schedule_progress :
    (is : List ℕ) (j : ℕ)
    → (js : List ℕ) × ((schedule (is ++ js) calling).places j ≡ returned (some 0))
schedule_progress is j =
    let t = schedule is calling in
    let (fine, knows, held) = calling-IsThreads is in
    let (js, free) : Leads IsFree t = elim (Option-cases t.shared.holder) [
      | inl free ↦ no_step IsFree t free
      | inr (k, e) ↦ inside-IsFree k t (t.places k) refl (held k e)
    ] in
    let (ks, (p, done)) = free-HasReturned j (schedule js t) ((schedule js t).places j) free refl in
    let whole : schedule (is ++ (js ++ ks)) calling ≡ schedule ks (schedule js t) =
      schedule-append is (js ++ ks) calling ∙ schedule-append js ks t in
    let ends = ap (λ (t : Threads). t.places j) whole ∙ done in
    (js ++ ks, ends ∙ ap returned ((schedule_singleton (is ++ (js ++ ks))).1 j p ends))
