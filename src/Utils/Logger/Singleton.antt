-- ===== src/Utils/Logger/Singleton.antt =====
-- Logger::getInstance with its double-checked lock, run by any number of threads. A step is one
-- access to what the threads share, and the steps of the threads interleave in any order: what the
-- C++ memory model says of the unlocked read of `instance`, which races with the write, is left out.
pub mod Invariant
pub mod Calls
use blockchain_messaging.Base.Families.{set_at}
use blockchain_messaging.Base.{
  ℕ, suc, ◌+◌, ◌≤◌, ◌≡◌, ◌≢◌, refl, subst, sym, ap, ◌∙◌, ◌⊎◌, inl, inr, List, [], ◌∷◌, Bool, true,
  false, Option, none, some, Option-cases, ◌==◌, ==_iff, Bool-cases, if◌then◌else◌, arith,
}

-- Where a thread is: before the first test, before the lock, before the second test, before
-- `new Logger()`, before the assignment of the object, before the unlocking, before the return,
-- and behind it with the pointer.
pub data Place : Type 0 where
  testing waiting testing_again constructing : Place
  storing : ℕ → Place
  unlocking reading : Place
  returned : Option ℕ → Place

-- `instance`, the thread that holds `instanceMutex`, and the number of the Loggers made so far. A
-- pointer to a Logger is the number of those made before it.
pub record Shared : Type 0 where
  pub instance_pointer : Option ℕ
  pub holder : Option ℕ
  pub made : ℕ

-- The next step of a thread, none where it waits for the lock or has returned.
unfoldable pub take_step : ℕ → Shared → Place → Option (Shared × Place)
take_step i s testing = some (s, elim s.instance_pointer [ none ↦ waiting | some _ ↦ reading ])
take_step i s waiting = elim s.holder [
  | none ↦ some (record s { holder = some i }, testing_again)
  | some _ ↦ none
]
take_step i s testing_again =
    some (s, elim s.instance_pointer [ none ↦ constructing | some _ ↦ unlocking ])
take_step i s constructing = some (record s { made = s.made + 1 }, storing s.made)
take_step i s (storing p) = some (record s { instance_pointer = some p }, unlocking)
take_step i s unlocking = some (record s { holder = none }, reading)
take_step i s reading = some (s, returned s.instance_pointer)
take_step i s (returned p) = none

pub record Threads : Type 0 where
  pub shared : Shared
  pub places : ℕ → Place

-- A thread that cannot take a step is passed over.
abbrev pub set_thread : ℕ → Threads → Option (Shared × Place) → Threads
set_thread i t none = t
set_thread i t (some r) = record { shared = r.0; places = set_at i (r.1) t.places }

unfoldable pub step : ℕ → Threads → Threads
step i t = set_thread i t (take_step i t.shared (t.places i))

unfoldable pub schedule : List ℕ → Threads → Threads
schedule [] t = t
schedule (i ∷ is) t = schedule is (step i t)

unfoldable pub calling : Threads
calling = record {
  shared = record { instance_pointer = none; holder = none; made = 0 };
  places = λ i. testing;
}

-- The places between the locking and the unlocking.
abbrev pub is_inside : Place → Bool
is_inside testing_again = true
is_inside constructing = true
is_inside (storing p) = true
is_inside unlocking = true
is_inside _ = false
