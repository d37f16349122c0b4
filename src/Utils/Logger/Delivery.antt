-- ===== src/Utils/Logger/Delivery.antt =====
-- What of the logged messages gets to the file, on every interleaving of the threads.
use blockchain_messaging.Base.{
  ◌≡◌, sym, ap, ap₂, ◌∙◌, List, [], ◌∷◌, ◌++◌, append-nil, append_assoc, Str, Bool-cases, inl, inr,
}
use blockchain_messaging.Utils.Logger.{
  LogLevel, Logger, AsyncLogging, IsAsyncLogging, is_below, log, accepted, print, check,
  write_queue, drain, Step, logs, prints, checks, wakes, sets_min_level, sets_console_output,
  starts, stops, Run, here, next,
}

pub write_queue_lem : (file queue : List Str) → write_queue file queue ≡ file ++ queue
unfolding write_queue
write_queue_lem file [] = sym (append-nil file)
write_queue_lem file (m ∷ queue) =
    write_queue_lem (file ++ m ∷ []) queue ∙ append_assoc file (m ∷ []) queue

-- What has been written, and then what waits.
abbrev pub lines : Logger → List Str
lines s = s.log_file ++ s.message_queue

lines-log :
    (level : LogLevel) (m : Str) (s : Logger)
    → lines (log level m s) ≡ lines s ++ accepted level m s
unfolding log accepted
lines-log level m s = elim (Bool-cases (is_below level s.min_level)) [
  | inl low ↦ rw low (sym (append-nil (lines s)))
  | inr high ↦ rw high (sym (append_assoc s.log_file s.message_queue (m ∷ [])))
]

module _ {a : AsyncLogging} (laws : IsAsyncLogging a) where
  lines-Step : {s s' : Logger} {ms : List Str} → Step a s ms s' → lines s' ≡ lines s ++ ms
  unfolding print check drain
  lines-Step (logs level m s) = lines-log level m s
  lines-Step (prints before after m s h) = sym (append-nil (lines s))
  lines-Step (checks s h) = sym (append-nil (lines s))
  lines-Step (wakes s h w) =
      append-nil (write_queue s.log_file s.message_queue)
      ∙ write_queue_lem s.log_file s.message_queue
      ∙ sym (append-nil (lines s))
  lines-Step (sets_min_level level s) = sym (append-nil (lines s))
  lines-Step (sets_console_output enable s) = sym (append-nil (lines s))
  lines-Step (starts s) =
      ap₂ (◌++◌) (laws.start-log_file s) (laws.start-message_queue s) ∙ sym (append-nil (lines s))
  lines-Step (stops s) =
      ap₂ (◌++◌) (laws.stop-log_file s) (laws.stop-message_queue s) ∙ sym (append-nil (lines s))

  -- However the threads interleave, the lines of the file and then the queue are what they were,
  -- and then the messages accepted since: none is lost, doubled or overtaken between the callers of
  -- `log` and the file.
  pub Run-lines : {s s' : Logger} {ms : List Str} → Run a s ms s' → lines s' ≡ lines s ++ ms
  Run-lines (here s) = sym (append-nil (lines s))
  Run-lines (next s s' s'' ms ns step run) =
      Run-lines run ∙ ap (λ l. l ++ ns) (lines-Step step) ∙ append_assoc (lines s) ms ns
