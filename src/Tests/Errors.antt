-- ===== src/Tests/Errors.antt =====
-- src/utils/error_handler.hpp at small inputs.
use blockchain_messaging.Base.{◌+◌, ◌≡◌, refl, [], ◌∷◌, ◌++◌, some, Str, bytes, decimal}
use blockchain_messaging.Base.Integers.{signed_decimal}
use blockchain_messaging.Tests.Logs.{asyncs}
use blockchain_messaging.Utils.Logger.{LogLevel, new_logger, log, format_message}
use blockchain_messaging.Utils.ErrorHandler.{
  invalid_block, error_code_of, BlockchainException, blockchain_exception, c_str, what, error_line,
  details_line, handle_error, handle_standard_exception,
}
use blockchain_messaging.Utils.ErrorHandler.Reports.{report, handle_error-report}

abbrev failure : BlockchainException
failure = blockchain_exception (bytes "bad") (error_code_of invalid_block) (bytes "hash")

abbrev level_name : LogLevel → Str
level_name l = bytes "L"

-- A new Logger drops the details.
failure_run :
    (handle_error
      (bytes "t")
      level_name
      (bytes "f")
      failure
      (some (λ e n. n + 1))
      (new_logger asyncs)
      0).0.message_queue
    ≡ bytes "t [L] f:29 - Error 1002: bad" ∷ []
unfolding handle_error error_line details_line log format_message new_logger decimal signed_decimal
    what c_str blockchain_exception error_code_of
failure_run = refl

handle_error-report_example :
    ((handle_error
        (bytes "t")
        level_name
        (bytes "f")
        failure
        (some (λ e n. n + 1))
        (new_logger asyncs)
        0).0.message_queue
      ≡ (new_logger asyncs).message_queue
        ++ report
            (new_logger asyncs).min_level
            (error_line (bytes "t") level_name (bytes "f") failure)
            failure.details
            (details_line (bytes "t") level_name (bytes "f") failure))
    × ((handle_error
          (bytes "t")
          level_name
          (bytes "f")
          failure
          (some (λ e n. n + 1))
          (new_logger asyncs)
          0).0.min_level
        ≡ (new_logger asyncs).min_level)
    × ((handle_error
          (bytes "t")
          level_name
          (bytes "f")
          failure
          (some (λ e n. n + 1))
          (new_logger asyncs)
          0).1
        ≡ 1)
handle_error-report_example =
    handle_error-report (bytes "t") level_name (bytes "f") failure (some (λ e n. n + 1))
      (new_logger asyncs) 0

-- A message ends at its first zero byte.
standard_run :
    (handle_standard_exception
      (bytes "t")
      level_name
      (bytes "f")
      (b'a' ∷ 0 ∷ b'b' ∷ [])
      (bytes "c")
      (new_logger asyncs)).message_queue
    ≡ bytes "t [L] f:42 - c: a" ∷ []
unfolding handle_standard_exception log format_message new_logger decimal c_str
standard_run = refl
