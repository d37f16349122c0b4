-- ===== src/Utils/PerformanceMonitor.antt =====
-- src/utils/performance_monitor.hpp: the timer of PerformanceMonitor. recordMetric is declared and
-- not defined: a parameter, on a state of any type. Points in time are nanoseconds since an epoch.
pub mod Nesting
use blockchain_messaging.Base.{ℕ, ◌-◌, ◌/◌, ◌≤◌, Str, Floats, leb, if◌then◌else◌}

pub record ScopedTimer : Type 0 where
  pub operation : Str
  pub start : ℕ

unfoldable pub scoped_timer : Str → ℕ → ScopedTimer
scoped_timer op now = record { operation = op; start = now }

-- `duration_cast<milliseconds>`, which drops the fraction, of a duration that is not negative.
unfoldable pub milliseconds : ℕ → ℕ
milliseconds nanoseconds = nanoseconds / 1_000_000

module _ (f : Floats) where
  -- The count as a double; a clock that has gone back gives a negative one.
  unfoldable pub elapsed : ℕ → ℕ → Floats.Double f
  elapsed start now =
      if leb start now
      then f.of_nat (milliseconds (now - start))
      else f.sub (f.of_nat 0) (f.of_nat (milliseconds (start - now)))

  -- The destructor.
  unfoldable pub end_timer :
      {S : Type 0} → (Str → Floats.Double f → S → S) → ScopedTimer → ℕ → S → S
  end_timer record_metric timer now s = record_metric timer.operation (elapsed timer.start now) s
