-- ===== src/Logger/Events.antt =====
-- src/manager/logger.cpp: the setters of an event, and `logevent::log`.
use io_scheduler.Logger.{Appender, Logger, log}
use io_scheduler.Logger.Items.{LogEvent}
use io_scheduler.Prelude.{List, Option, u32_mod, ℕ, ◌%◌}

unfoldable pub set_filename : List ℕ → LogEvent → LogEvent
set_filename name e = record e { file_name = name }

unfoldable pub set_threadname : List ℕ → LogEvent → LogEvent
set_threadname name e = record e { thread_name = name }

unfoldable pub set_threadid : ℕ → LogEvent → LogEvent
set_threadid id e = record e { thread_id = id % u32_mod }

unfoldable pub set_coroutineid : ℕ → LogEvent → LogEvent
set_coroutineid id e = record e { coroutine_id = id % u32_mod }

unfoldable pub set_elapsesecond : ℕ → LogEvent → LogEvent
set_elapsesecond second e = record e { elapse_second = second % u32_mod }

unfoldable pub set_time : List ℕ → LogEvent → LogEvent
set_time time e = record e { local_time = time }

unfoldable pub set_level : ℕ → LogEvent → LogEvent
set_level level e = record e { level = level }

-- `logevent::log`, with the logger that the event points to.
unfoldable pub log_event : LogEvent → Logger → (ℕ → Appender) → Option (ℕ → Appender)
log_event e l heap = log e.level e l heap
