-- ===== src/Utils/ErrorHandler.antt =====
-- src/utils/error_handler.hpp: the exceptions of the program and their logging. The time of a
-- message, the names of the levels and the path of the header are arguments, as in `log`.
pub mod Reports
use blockchain_messaging.Base.{
  ℕ, List, [], ◌∷◌, ◌++◌, Bool, not, Option, none, some, Str, bytes, is_empty, ◌==◌, if◌then◌else◌,
}
use blockchain_messaging.Base.Integers.{ℤ, pos, signed_decimal}
use blockchain_messaging.Utils.Logger.{LogLevel, debug, error, Logger, log, format_message}

pub data BlockchainErrorCode : Type 0 where
  invalid_transaction invalid_block consensus_failure network_error : BlockchainErrorCode
  validation_error contract_error : BlockchainErrorCode

unfoldable pub error_code_of : BlockchainErrorCode → ℤ
error_code_of invalid_transaction = pos 1001
error_code_of invalid_block = pos 1002
error_code_of consensus_failure = pos 1003
error_code_of network_error = pos 1004
error_code_of validation_error = pos 1005
error_code_of contract_error = pos 1006

pub record BlockchainException : Type 0 where
  pub message : Str
  pub details : Str
  pub error_code : ℤ

unfoldable pub blockchain_exception : Str → ℤ → Str → BlockchainException
blockchain_exception msg code detail = record { message = msg; details = detail; error_code = code }

-- What a reader of a `const char*` sees of a string: it ends at the first zero byte.
unfoldable pub c_str : Str → Str
c_str [] = []
c_str (c ∷ s) = let rest = c_str s in if c == 0 then [] else c ∷ rest

unfoldable pub what : BlockchainException → Str
what e = c_str e.message

module _ (time : Str) (level_to_string : LogLevel → Str) (file : Str) where
  unfoldable pub error_line : BlockchainException → Str
  error_line e =
      format_message time level_to_string error
        (bytes "Error " ++ (signed_decimal e.error_code ++ (bytes ": " ++ what e))) file 29

  unfoldable pub details_line : BlockchainException → Str
  details_line e =
      format_message time level_to_string debug (bytes "Error details: " ++ e.details) file 32

  -- The callback, which may be empty, changes whatever it changes, of type `S`.
  unfoldable pub handle_error :
      {S : Type 0}
      → BlockchainException
      → Option (BlockchainException → S → S)
      → Logger
      → S
      → Logger × S
  handle_error e callback logger s =
      let logged = log error (error_line e) logger in
      (
        if not (is_empty e.details) then log debug (details_line e) logged else logged,
        elim callback [ none ↦ s | some f ↦ f e s ],
      )

  unfoldable pub handle_standard_exception : Str → Str → Logger → Logger
  handle_standard_exception what_text context = log error (
      format_message time level_to_string error (context ++ (bytes ": " ++ c_str what_text)) file
        42)
