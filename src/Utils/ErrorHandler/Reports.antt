-- ===== src/Utils/ErrorHandler/Reports.antt =====
-- What the log gets of an exception.
use blockchain_messaging.Base.{
  ℕ, ◌≡◌, refl, sym, ap, ◌∙◌, inl, inr, List, [], ◌∷◌, ◌++◌, append_assoc, append-nil, not, ◌&&◌,
  Option, none, some, Str, is_empty, ◌==◌, ltb, Bool-cases, if◌then◌else◌, arith,
}
use blockchain_messaging.Utils.Logger.{LogLevel, debug, error, Logger, level_code, is_below, log}
use blockchain_messaging.Utils.ErrorHandler.{
  BlockchainException, error_line, details_line, handle_error,
}

-- The lines for an exception at a minimal level: the error below the level CRITICAL, and the
-- details, where there are any, at the level DEBUG only.
abbrev pub report : LogLevel → Str → Str → Str → List Str
report min_level line details extra =
    (if ltb (level_code min_level) 4 then line ∷ [] else [])
    ++ (if level_code min_level == 0 && not (is_empty details) then extra ∷ [] else [])

log-message_queue :
    (level : LogLevel) (m : Str) (logger : Logger)
    → (log level m logger).message_queue
      ≡ logger.message_queue ++ (if is_below level logger.min_level then [] else m ∷ [])
unfolding log
log-message_queue level m logger = elim (Bool-cases (is_below level logger.min_level)) [
  | inl low ↦ rw low (sym (append-nil logger.message_queue))
  | inr high ↦ rw high refl
]

log-min_level :
    (level : LogLevel) (m : Str) (logger : Logger)
    → (log level m logger).min_level ≡ logger.min_level
unfolding log
log-min_level level m logger = ground arith

-- What the two calls of `log` put into the queue.
abbrev passed : LogLevel → LogLevel → Str → List Str
passed level min_level m = if is_below level min_level then [] else m ∷ []

report_no_details : (m : LogLevel) (line extra : Str) → passed error m line ≡ report m line [] extra
report_no_details LogLevel.debug line extra = refl
report_no_details LogLevel.info line extra = refl
report_no_details LogLevel.warning line extra = refl
report_no_details LogLevel.error line extra = refl
report_no_details LogLevel.critical line extra = refl

report-details :
    (m : LogLevel) (line extra : Str) (c : ℕ) (s : Str)
    → passed error m line ++ passed debug m extra ≡ report m line (c ∷ s) extra
report-details LogLevel.debug line extra c s = refl
report-details LogLevel.info line extra c s = refl
report-details LogLevel.warning line extra c s = refl
report-details LogLevel.error line extra c s = refl
report-details LogLevel.critical line extra c s = refl

reported :
    (line extra details : Str) (logger : Logger)
    → let logged = log error line logger in
      ((if not (is_empty details) then log debug extra logged else logged).message_queue
        ≡ logger.message_queue ++ report logger.min_level line details extra)
      × ((if not (is_empty details) then log debug extra logged else logged).min_level
          ≡ logger.min_level)
reported line extra [] logger = (
  log-message_queue error line logger
      ∙ ap (λ ms. logger.message_queue ++ ms) (report_no_details logger.min_level line extra),
  log-min_level error line logger,
)
reported line extra (c ∷ s) logger = (
  log-message_queue debug extra (log error line logger)
      ∙ ap (λ m. (log error line logger).message_queue ++ passed debug m extra)
          (log-min_level error line logger)
      ∙ ap (λ ms. ms ++ passed debug logger.min_level extra) (log-message_queue error line logger)
      ∙ append_assoc logger.message_queue (passed error logger.min_level line)
          (passed debug logger.min_level extra)
      ∙ ap (λ ms. logger.message_queue ++ ms) (report-details logger.min_level line extra c s),
  log-min_level debug extra (log error line logger) ∙ log-min_level error line logger,
)

-- An exception that is handled adds to the queue the line with its code and its message, unless the
-- minimal level is CRITICAL, and then its details, where it has any and the minimal level is DEBUG;
-- at the level INFO, which a new Logger has, the details are dropped. Nothing else of the queue and
-- of the levels changes, and the callback, where there is one, is called once, with the exception.
pub handle_error-report :
    (time : Str) (level_to_string : LogLevel → Str) (file : Str) {S : Type 0}
    (e : BlockchainException) (callback : Option (BlockchainException → S → S)) (logger : Logger)
    (s : S)
    → let r = handle_error time level_to_string file e callback logger s in
      (r.0.message_queue
        ≡ logger.message_queue
          ++ report logger.min_level
              (error_line time level_to_string file e)
              e.details
              (details_line time level_to_string file e))
      × (r.0.min_level ≡ logger.min_level)
      × (r.1 ≡ (elim callback [ none ↦ s | some f ↦ f e s ]))
unfolding handle_error
handle_error-report time level_to_string file e callback logger s =
    let (queue, level) =
      reported (error_line time level_to_string file e) (details_line time level_to_string file e)
        e.details logger in
    (queue, level, refl)
