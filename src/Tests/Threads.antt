-- ===== src/Tests/Threads.antt =====
-- The calls of Logger::getInstance in small schedules.
use blockchain_messaging.Base.Families.{set_at}
use blockchain_messaging.Base.{ℕ, ◌≤◌, ◌≡◌, refl, List, [], ◌∷◌, ◌++◌, true, Option, some}
use blockchain_messaging.Utils.Logger.Singleton.{
  returned, waiting, take_step, step, schedule, calling, is_inside,
}
use blockchain_messaging.Utils.Logger.Singleton.Calls.{schedule_singleton, schedule_progress}

-- Both threads see no Logger; the second waits for the lock, and makes none.
abbrev race : List ℕ
race = 0 ∷ 1 ∷ 0 ∷ 1 ∷ 0 ∷ 0 ∷ 0 ∷ 1 ∷ 0 ∷ 1 ∷ 1 ∷ 1 ∷ 1 ∷ 0 ∷ []

race_run : (schedule race calling).places 1 ≡ returned (some 0)
unfolding schedule calling step take_step set_at
race_run = refl

schedule_singleton_example :
    ((schedule race calling).shared.made ≤ 1)
    × ((j : ℕ) (p : Option ℕ) → (schedule race calling).places j ≡ returned p → p ≡ some 0)
    × ((i j : ℕ)
        → is_inside ((schedule race calling).places i) ≡ true
        → is_inside ((schedule race calling).places j) ≡ true
        → i ≡ j)
schedule_singleton_example = schedule_singleton race

-- The first thread holds the lock, and the second waits.
abbrev stuck : List ℕ
stuck = 0 ∷ 1 ∷ 0 ∷ 1 ∷ []

second_waits : (schedule stuck calling).places 1 ≡ waiting
unfolding schedule calling step take_step set_at
second_waits = refl

schedule_progress_example :
    (js : List ℕ) × ((schedule (stuck ++ js) calling).places 1 ≡ returned (some 0))
schedule_progress_example = schedule_progress stuck 1
