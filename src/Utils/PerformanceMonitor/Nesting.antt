-- ===== src/Utils/PerformanceMonitor/Nesting.antt =====
-- Timers of scopes inside another.
use blockchain_messaging.Base.{
  ℕ, ◌+◌, ◌-◌, ◌≤◌, ◌≡◌, sym, ◌∙◌, append-nil, append_assoc, List, [], ◌∷◌, ◌++◌, Str, Floats,
  arith,
}
use blockchain_messaging.Utils.PerformanceMonitor.{scoped_timer, milliseconds, elapsed, end_timer}

-- A scope inside: its operation, its begin and its end.
abbrev Span : Type 0
Span = Str × ℕ × ℕ

-- The scopes follow each other between two points in time.
abbrev Between : ℕ → ℕ → List Span → Type 0
Between from to [] = from ≤ to
Between from to (s ∷ spans) = (from ≤ s.1) × (s.1 ≤ s.2) × Between (s.2) to spans

abbrev pub total : List Span → ℕ
total [] = 0
total (s ∷ spans) = milliseconds (s.2 - s.1) + total spans

Between-le : (from to : ℕ) (spans : List Span) → Between from to spans → from ≤ to
Between-le from to [] h = h
Between-le from to (s ∷ spans) h = omega (arith, Between-le (s.2) to spans)

total-Between :
    (from to : ℕ) (spans : List Span)
    → Between from to spans
    → total spans ≤ milliseconds (to - from)
unfolding milliseconds
total-Between from to [] h = omega arith
total-Between from to (s ∷ spans) h =
    omega (arith, total-Between (s.2) to spans, Between-le (s.2) to spans)

module _ (f : Floats) where
  -- What the timers of the scopes record, one after the other.
  abbrev record_all : List (Str × Floats.Double f) → List Span → List (Str × Floats.Double f)
  record_all log [] = log
  record_all log (s ∷ spans) =
      record_all
        (end_timer f (λ op time l. l ++ (op, time) ∷ []) (scoped_timer (s.0) (s.1)) (s.2) log) spans

  abbrev pub entries : List Span → List (Str × Floats.Double f)
  entries [] = []
  entries (s ∷ spans) = (s.0, f.of_nat (milliseconds (s.2 - s.1))) ∷ entries spans

  elapsed-le : (from to : ℕ) → from ≤ to → elapsed f from to ≡ f.of_nat (milliseconds (to - from))
  unfolding elapsed
  elapsed-le from to h = ground arith

  record_all-append :
      (from to : ℕ) (log : List (Str × Floats.Double f)) (spans : List Span)
      → Between from to spans
      → record_all log spans ≡ log ++ entries spans
  unfolding end_timer scoped_timer
  record_all-append from to log [] h = sym (append-nil log)
  record_all-append from to log (s ∷ spans) h = rw (elapsed-le (s.1) (s.2) h.1) (
      record_all-append (s.2) to (log ++ (s.0, f.of_nat (milliseconds (s.2 - s.1))) ∷ []) spans h.2
      ∙ append_assoc log ((s.0, f.of_nat (milliseconds (s.2 - s.1))) ∷ []) (entries spans))

  -- Scopes that follow each other inside another scope record their operations in order, with their
  -- whole milliseconds, and these are together no more than what the outer scope records.
  record_all-entries :
      (from to : ℕ) (log : List (Str × Floats.Double f)) (spans : List Span)
      → Between from to spans
      → (record_all log spans ≡ log ++ entries spans)
        × (total spans ≤ milliseconds (to - from))
        × (elapsed f from to ≡ f.of_nat (milliseconds (to - from)))
  record_all-entries from to log spans h = (
    record_all-append from to log spans h,
    total-Between from to spans h,
    elapsed-le from to (Between-le from to spans h),
  )
