-- ===== src/Validation/Validator/Reputation.antt =====
-- The reputation of a validator over a sequence of reports.
use blockchain_messaging.Base.{ℕ, ◌+◌, ◌*◌, ◌≤◌, List, [], ◌∷◌, Bool, true, false, arith}
use blockchain_messaging.Validation.Validator.{Validator, update_reputation}

-- The reports on one validator, in order.
abbrev pub run_reports : {D : Type 0} → Validator D → List Bool → Validator D
run_reports v [] = v
run_reports v (r ∷ rs) = run_reports (update_reputation v r) rs

abbrev pub failures : List Bool → ℕ
failures [] = 0
failures (true ∷ rs) = failures rs
failures (false ∷ rs) = failures rs + 1

abbrev pub successes : List Bool → ℕ
successes [] = 0
successes (true ∷ rs) = successes rs + 1
successes (false ∷ rs) = successes rs

step_bounds :
    {D : Type 0} (v : Validator D) (r : Bool)
    → v.reputation ≤ 100
    → ((update_reputation v r).reputation ≤ 100)
      × (v.reputation ≤ (update_reputation v r).reputation + 5 * failures (r ∷ []))
      × ((update_reputation v r).reputation ≤ v.reputation + successes (r ∷ []))
unfolding update_reputation
step_bounds v true h = ground arith
step_bounds v false h = ground arith

-- From a reputation of at most 100, as the constructor sets it, no sequence of reports takes the
-- reputation above 100. Each failure costs at most 5 points, and the gain is at most one point
-- for each success.
pub run_reports-bounds :
    {D : Type 0} (v : Validator D) (rs : List Bool)
    → v.reputation ≤ 100
    → ((run_reports v rs).reputation ≤ 100)
      × (v.reputation ≤ (run_reports v rs).reputation + 5 * failures rs)
      × ((run_reports v rs).reputation ≤ v.reputation + successes rs)
run_reports-bounds v [] h = (h, omega arith, omega arith)
run_reports-bounds v (true ∷ rs) h =
    let (a, b, c) = step_bounds v true h in
    let (d, e, f) = run_reports-bounds (update_reputation v true) rs a in
    (d, omega arith, omega arith)
run_reports-bounds v (false ∷ rs) h =
    let (a, b, c) = step_bounds v false h in
    let (d, e, f) = run_reports-bounds (update_reputation v false) rs a in
    (d, omega arith, omega arith)
