-- ===== src/Tests/Logs.antt =====
-- src/utils/logger.cpp at small inputs.
use blockchain_messaging.Base.{◌≡◌, refl, [], ◌∷◌, ◌++◌, true, false, Str, bytes, decimal}
use blockchain_messaging.Utils.Logger.{
  info, Logger, AsyncLogging, IsAsyncLogging, checking, ended, new_logger, log, accepted, print,
  check, drain, may_wake, write_queue, format_message, logs, prints, checks, wakes, Run, here, next,
}
use blockchain_messaging.Utils.Logger.Delivery.{lines, Run-lines}
use blockchain_messaging.Utils.Logger.Progress.{new_logger-delivers}

abbrev hello : Str
hello = bytes "hello"

format_run :
    format_message (bytes "12:00") (λ level. bytes "INFO") info (bytes "up") (bytes "a.cpp") 7
    ≡ bytes "12:00 [INFO] a.cpp:7 - up"
unfolding format_message decimal
format_run = refl

abbrev empty : Logger
empty = record {
  log_file = [];
  console = [];
  min_level = info;
  console_output = true;
  message_queue = [];
  running = true;
  worker = checking;
  unprinted = [];
}

-- A start runs the thread, and a stop ends it.
abbrev pub asyncs : AsyncLogging
asyncs = record {
  start_async_logging = λ s. record s { running = true; worker = checking };
  stop_async_logging = λ s. record s { running = false; worker = ended };
}

asyncs-IsAsyncLogging : IsAsyncLogging asyncs
asyncs-IsAsyncLogging = record {
  start-log_file = λ s. refl;
  start-message_queue = λ s. refl;
  start-worker = λ s e. cc e;
  stop-log_file = λ s. refl;
  stop-message_queue = λ s. refl;
  stop-running = λ s. refl;
}

empty_lem : new_logger asyncs ≡ empty
unfolding new_logger
empty_lem = refl

-- A message is queued, the thread goes to wait, wakes and writes, and the caller prints.
abbrev written : Logger
written = record empty { log_file = hello ∷ []; console = hello ∷ [] }

delivered : Run asyncs empty (hello ∷ []) written
unfolding log accepted print check drain may_wake write_queue
delivered = next empty _ written (hello ∷ []) [] (logs info hello empty) (
    next _ _ written [] [] (checks _ refl) (
      next _ _ written [] [] (wakes _ refl refl)
        (next _ _ written [] [] (prints [] [] hello _ refl) (here written))))

-- A message that waits.
abbrev waits : Logger
waits = record empty { message_queue = hello ∷ []; unprinted = hello ∷ [] }

queued : Run asyncs (new_logger asyncs) (hello ∷ []) waits
unfolding new_logger log accepted
queued = next empty waits waits (hello ∷ []) [] (logs info hello empty) (here waits)

new_logger-delivers_example :
    (s' : Logger) × Run asyncs waits [] s' × (s'.log_file ≡ hello ∷ []) × (s'.message_queue ≡ [])
new_logger-delivers_example =
    new_logger-delivers asyncs-IsAsyncLogging waits (hello ∷ []) queued refl

Run-lines_example : lines written ≡ lines empty ++ hello ∷ []
Run-lines_example = Run-lines asyncs-IsAsyncLogging delivered
