-- ===== src/Examples/Lines.antt =====
-- The theorems on the lines that log, the formatted date, the streams of bytes and the ports, on concrete states.
use io_scheduler.Files.Streams.{read_stream, write_stream, write_stream-read_stream}
use io_scheduler.Logger.{Appender, Logger}
use io_scheduler.Logger.FileLog.{new_system_logger}
use io_scheduler.Logger.Items.{LogEvent}
use io_scheduler.Logger.Lines.{log_line-received, root_received}
use io_scheduler.Logger.Macros.{Clock, LogState, event_wrap, level_debug, log_line, system_pattern}
use io_scheduler.Logger.Null.{root_line-null}
use io_scheduler.Logger.Wrap.{Wrap}
use io_scheduler.Times.{get_formate_date, now_time}
use io_scheduler.Times.Formats.{get_formate_date-fields, read_numbers}
use io_scheduler.Examples.Logs.{appenders, hello, two_appenders}
use io_scheduler.Examples.Stores.{late_tm}
use io_scheduler.Prelude.{
  OnSome, Option, [], arith, codes, if◌then◌else◌, length, ltb, none, refl, some, true, ℕ, ◌∷◌, ◌≡◌,
}

abbrev noon : Clock
noon = record { month = 5; month_again = 5; day = 1; day_again = 1 }

abbrev wrap_of : Option ℕ → Wrap
wrap_of e = record { list_num = 0; event = e; events = []; recordings = []; month = 5; day = 1 }

abbrev short : LogEvent
short = record hello { func = codes "run" }

abbrev logs : LogState
logs = record {
  wrapper = wrap_of (some 0);
  events = λ a. hello;
  next = 1;
  appenders = appenders;
  root = two_appenders;
}

log_line-received_example :
    OnSome
      (λ (t : LogState).
        (t.appenders 0).written
        ≡ root_received logs (if ltb 2 3 then hello else record short { content = codes "ok" }) 0)
      (log_line (event_wrap 3 noon short (codes "ok")) logs)
log_line-received_example =
    log_line-received 3 noon short (codes "ok") logs 0 0 refl (λ a. refl) (omega arith)

root_line-null_example :
    OnSome
      (λ (made : Logger × (ℕ → Appender)).
        log_line (event_wrap 3 noon short (codes "ok")) (record {
          wrapper = wrap_of none;
          events = λ a. hello;
          next = 0;
          appenders = made.1;
          root = made.0;
        })
        ≡ none)
      (new_system_logger (codes "#system") level_debug system_pattern 0 appenders)
root_line-null_example =
    root_line-null 3 noon short (codes "ok") (codes "#system") 0 appenders (wrap_of none)
      (λ a. hello) 0 refl refl

get_formate_date-fields_example :
    let text =
      (get_formate_date late_tm (now_time (record { second = 0; msecond = 0 }) late_tm)).0 in
    (length text ≡ 19) × (read_numbers 0 text ≡ 2024 ∷ 1 ∷ 32 ∷ 3 ∷ 2 ∷ 1 ∷ [])
get_formate_date-fields_example =
    get_formate_date-fields late_tm (now_time (record { second = 0; msecond = 0 }) late_tm)
      (omega arith) (omega arith) (omega arith) (omega arith) (omega arith) (omega arith)

write_stream-read_stream_example :
    read_stream 2 2
      (write_stream (9 ∷ []) (write_stream (7 ∷ 8 ∷ []) (record { bytes = []; good = true })).0).0
    ≡ some (7 ∷ 8 ∷ [], record { bytes = 9 ∷ []; good = true }, true)
write_stream-read_stream_example = write_stream-read_stream 0 (7 ∷ 8 ∷ []) (9 ∷ [])
