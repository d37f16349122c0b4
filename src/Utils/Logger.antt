-- ===== src/Utils/Logger.antt =====
-- src/utils/logger.hpp and logger.cpp: class Logger. The callers of `log` and the thread of
-- processLogQueue run side by side; each step below is what one of them does while it holds the
-- mutex of the queue, or between two such parts.
pub mod Delivery
pub mod Progress
pub mod Singleton
use blockchain_messaging.Base.{
  ℕ, ◌≡◌, List, [], ◌∷◌, ◌++◌, Bool, true, false, not, ◌||◌, Str, bytes, decimal, ltb, is_empty,
  if◌then◌else◌,
}

pub data LogLevel : Type 0 where
  debug info warning error critical : LogLevel

-- The order of the enumerators.
abbrev pub level_code : LogLevel → ℕ
level_code debug = 0
level_code info = 1
level_code warning = 2
level_code error = 3
level_code critical = 4

-- Where the thread of processLogQueue stands: at `while (running)`, in `wait`, or at its end.
pub data Worker : Type 0 where
  checking waiting ended : Worker

-- `unprinted` are the messages whose callers have left the queue's mutex and not yet come to the
-- end of `log`. The log file and the console are the lines that this process has written to them.
pub record Logger : Type 0 where
  pub log_file : List Str
  pub console : List Str
  pub min_level : LogLevel
  pub console_output : Bool
  pub message_queue : List Str
  pub running : Bool
  pub worker : Worker
  pub unprinted : List Str

-- The two public methods that start and stop the thread. No file defines them.
pub record AsyncLogging : Type 0 where
  pub start_async_logging : Logger → Logger
  pub stop_async_logging : Logger → Logger

-- What they are expected to do. Both leave the file and the queue. After a start the thread runs,
-- and a stop clears `running`.
pub record IsAsyncLogging (a : AsyncLogging) : Type 0 where
  pub start-log_file : (s : Logger) → (a.start_async_logging s).log_file ≡ s.log_file
  pub start-message_queue : (s : Logger) → (a.start_async_logging s).message_queue ≡ s.message_queue
  pub start-worker : (s : Logger) → ¬ ((a.start_async_logging s).worker ≡ ended)
  pub stop-log_file : (s : Logger) → (a.stop_async_logging s).log_file ≡ s.log_file
  pub stop-message_queue : (s : Logger) → (a.stop_async_logging s).message_queue ≡ s.message_queue
  pub stop-running : (s : Logger) → (a.stop_async_logging s).running ≡ false

-- The constructor.
unfoldable pub new_logger : AsyncLogging → Logger
new_logger a = a.start_async_logging (record {
  log_file = [];
  console = [];
  min_level = info;
  console_output = true;
  message_queue = [];
  running = false;
  worker = ended;
  unprinted = [];
})

-- `level < minLevel`.
abbrev pub is_below : LogLevel → LogLevel → Bool
is_below level min_level = ltb (level_code level) (level_code min_level)

-- The text of std::put_time and of levelToString, which is declared and not defined, are arguments.
unfoldable pub format_message : Str → (LogLevel → Str) → LogLevel → Str → Str → ℕ → Str
format_message time level_to_string level message file line =
    time
    ++ (bytes " ["
        ++ (level_to_string level
            ++ (bytes "] " ++ (file ++ (bytes ":" ++ (decimal line ++ (bytes " - " ++ message)))))))

abbrev pub set_min_level : LogLevel → Logger → Logger
set_min_level level s = record s { min_level = level }

abbrev pub set_console_output : Bool → Logger → Logger
set_console_output enable s = record s { console_output = enable }

-- `log` up to the end of its locked part, on the formatted message.
unfoldable pub log : LogLevel → Str → Logger → Logger
log level message s = if is_below level s.min_level then s else record s {
  message_queue = s.message_queue ++ message ∷ [];
  unprinted = s.unprinted ++ message ∷ [];
}

-- The messages that a call of `log` puts into the queue.
unfoldable pub accepted : LogLevel → Str → Logger → List Str
accepted level message s = if is_below level s.min_level then [] else message ∷ []

-- `if (consoleOutput) std::cout << formattedMessage << std::endl;`
unfoldable pub print : Str → List Str → Logger → Logger
print message others s = record s {
  console = if s.console_output then s.console ++ message ∷ [] else s.console;
  unprinted = others;
}

-- `while (running)`.
unfoldable pub check : Logger → Logger
check s = record s { worker = if s.running then waiting else ended }

-- The condition of `wait`.
unfoldable pub may_wake : Logger → Bool
may_wake s = not (is_empty s.message_queue) || not s.running

-- `while (!messageQueue.empty()) { ... logFile << message << std::endl; }`
unfoldable pub write_queue : List Str → List Str → List Str
write_queue file [] = file
write_queue file (message ∷ queue) = write_queue (file ++ message ∷ []) queue

-- The rest of the loop's body, after `wait`, all under the mutex of the queue.
unfoldable pub drain : Logger → Logger
drain s = record s {
  log_file = write_queue s.log_file s.message_queue;
  message_queue = [];
  worker = checking;
}

module _ (a : AsyncLogging) where
  -- What the threads can do next, with the messages that come into the queue by it.
  pub data Step : Logger → List Str → Logger → Type 0 where
    logs :
        (level : LogLevel) (message : Str) (s : Logger)
        → Step s (accepted level message s) (log level message s)
    prints :
        (before after : List Str) (message : Str) (s : Logger)
        → s.unprinted ≡ before ++ message ∷ after
        → Step s [] (print message (before ++ after) s)
    checks : (s : Logger) → s.worker ≡ checking → Step s [] (check s)
    wakes : (s : Logger) → s.worker ≡ waiting → may_wake s ≡ true → Step s [] (drain s)
    sets_min_level : (level : LogLevel) (s : Logger) → Step s [] (set_min_level level s)
    sets_console_output : (enable : Bool) (s : Logger) → Step s [] (set_console_output enable s)
    starts : (s : Logger) → Step s [] (a.start_async_logging s)
    stops : (s : Logger) → Step s [] (a.stop_async_logging s)

  -- Any number of steps, with the messages accepted on the way, in order.
  pub data Run : Logger → List Str → Logger → Type 0 where
    here : (s : Logger) → Run s [] s
    next :
        (s s' s'' : Logger) (ms ns : List Str) → Step s ms s' → Run s' ns s'' → Run s (ms ++ ns) s''
