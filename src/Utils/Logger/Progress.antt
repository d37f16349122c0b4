-- ===== src/Utils/Logger/Progress.antt =====
-- What the logger's thread can still do while nobody has stopped it.
use blockchain_messaging.Base.{
  ◌≡◌, refl, sym, ap, ap₂, ◌∙◌, List, [], ◌∷◌, ◌++◌, append-nil, true, false, is_empty, Str,
  Bool-cases, inl, inr, ◌⊎◌, arith,
}
use blockchain_messaging.Utils.Logger.{
  Logger, AsyncLogging, IsAsyncLogging, Worker, checking, waiting, ended, new_logger, is_below, log,
  print, check, may_wake, drain, Step, logs, prints, checks, wakes, sets_min_level,
  sets_console_output, starts, stops, Run, here, next,
}
use blockchain_messaging.Utils.Logger.Delivery.{lines, Run-lines, write_queue_lem}

-- The thread ends only after a stop.
abbrev IsAlive : Logger → Type 0
IsAlive s = (s.running ≡ false) ⊎ ¬ (s.worker ≡ ended)

module _ {a : AsyncLogging} (laws : IsAsyncLogging a) where
  Step-IsAlive : {s s' : Logger} {ms : List Str} → Step a s ms s' → IsAlive s → IsAlive s'
  unfolding log print check drain
  Step-IsAlive (logs level m s) l = elim (Bool-cases (is_below level s.min_level)) [
    | inl low ↦ rw low l
    | inr high ↦ rw high l
  ]
  Step-IsAlive (prints before after m s e) l = l
  Step-IsAlive (checks s h) l = elim (Bool-cases s.running) [
    | inl on ↦ inr (rw on (λ e. cc))
    | inr off ↦ inl off
  ]
  Step-IsAlive (wakes s h w) l = inr (λ e. cc)
  Step-IsAlive (sets_min_level level s) l = l
  Step-IsAlive (sets_console_output enable s) l = l
  Step-IsAlive (starts s) l = inr (laws.start-worker s)
  Step-IsAlive (stops s) l = inl (laws.stop-running s)

  Run-IsAlive : {s s' : Logger} {ms : List Str} → Run a s ms s' → IsAlive s → IsAlive s'
  Run-IsAlive (here s) l = l
  Run-IsAlive (next s s' s'' ms ns step run) l = Run-IsAlive run (Step-IsAlive step l)

  -- Steps of the thread that write all that waits.
  record Delivers (s : Logger) : Type 0 where
    after : Logger
    run : Run a s [] after
    written : after.log_file ≡ lines s
    emptied : after.message_queue ≡ []

  none_left {ℓ} : {A : Type ℓ} (l : List A) → is_empty l ≡ true → l ≡ []
  none_left [] h = refl
  none_left (a ∷ l) h = absurd (cc)

  waiting-Delivers : (s : Logger) → s.worker ≡ waiting → Delivers s
  unfolding drain may_wake
  waiting-Delivers s h = elim (Bool-cases (is_empty s.message_queue)) [
    | inl nothing ↦ record {
      after = s;
      run = here s;
      written =
          sym (append-nil s.log_file)
          ∙ ap (λ q. s.log_file ++ q) (sym (none_left s.message_queue nothing));
      emptied = none_left s.message_queue nothing;
    }
    | inr something ↦ record {
      after = drain s;
      run = next s (drain s) (drain s) [] [] (wakes s h ground arith) (here (drain s));
      written = write_queue_lem s.log_file s.message_queue;
      emptied = refl;
    }
  ]

  checking-Delivers : (s : Logger) → s.worker ≡ checking → s.running ≡ true → Delivers s
  unfolding check
  checking-Delivers s h on =
      let d = waiting-Delivers (check s) (rw on refl) in
      record {
        after = d.after;
        run = next s (check s) d.after [] [] (checks s h) d.run;
        written = d.written;
        emptied = d.emptied;
      }

  running-Delivers : (s : Logger) → IsAlive s → s.running ≡ true → Delivers s
  running-Delivers s l on = go s.worker refl
    where
      go : (w : Worker) → s.worker ≡ w → Delivers s
      go checking h = checking-Delivers s h on
      go waiting h = waiting-Delivers s h
      go ended h = elim l [ inl off ↦ cc (sym on ∙ off) | inr alive ↦ absurd (alive h) ]

  -- While it is not stopped, a logger loses nothing: after any interleaving of calls, of starts and
  -- stops, and of its thread from the constructor on, if `running` is set, some further steps, which
  -- accept no message, leave exactly the messages accepted so far in the file, in order, and the queue
  -- empty. (startAsyncLogging and stopAsyncLogging are taken to leave file and queue; after the first the
  -- thread runs, and the second clears `running`.)
  pub new_logger-delivers :
      (s : Logger) (ms : List Str)
      → Run a (new_logger a) ms s
      → s.running ≡ true
      → (s' : Logger) × Run a s [] s' × (s'.log_file ≡ ms) × (s'.message_queue ≡ [])
  unfolding new_logger
  new_logger-delivers s ms r on =
      let d = running-Delivers s (Run-IsAlive r (inr (laws.start-worker _))) on in
      let fresh = ap₂ (◌++◌) (laws.start-log_file _) (laws.start-message_queue _) in
      (d.after, d.run, d.written ∙ Run-lines laws r ∙ ap (λ l. l ++ ms) fresh, d.emptied)
