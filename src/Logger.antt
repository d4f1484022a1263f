-- ===== src/Logger.antt =====
-- src/manager/logger.cpp and include/logger.h: levels, appenders and loggers. A level is the number of
-- its enumerator, and a write to a stream succeeds. The names of the map of loggers are numbers. The
-- locks make each operation one step.
pub mod Pattern
pub mod RoundTrip
pub mod Termination
pub mod Items
pub mod Wrap
pub mod Writes
pub mod FileLog
pub mod Events
pub mod Explains
pub mod Macros
pub mod Lifetime
pub mod Lines
pub mod Null
use Items.{Item, LogEvent, Output, format_log, new_format}
use io_scheduler.Prelude.{
  Bool, List, Option, [], false, if◌then◌else◌, ltb, none, some, true, update, ℕ, ◌++◌, ◌==◌, ◌∷◌,
}

-- `logger_appender`; `written` is what its stream was given.
pub record Appender : Type 0 where
  pub level : ℕ
  pub format : Option (List Item)
  pub is_empty_format : Bool
  pub written : List Output

-- `console_appender`, at the level `debug`.
unfoldable pub new_appender : Appender
new_appender = record { level = 1; format = none; is_empty_format = true; written = [] }

-- `set_format` of an appender: the first one stays.
unfoldable pub set_appender_format : Option (List Item) → Appender → Appender
set_appender_format f a = record a {
  format = if a.is_empty_format then f else a.format;
  is_empty_format = false;
}

-- `console_appender::log` and `file_appender::log`; `none` is the use of a null format.
unfoldable pub appender_log : ℕ → List ℕ → LogEvent → Appender → Option Appender
appender_log level name event a = if ltb level a.level then some a else (elim a.format [
  | none ↦ none
  | some items ↦ some (record a { written = a.written ++ format_log items name event })
])

pub record Logger : Type 0 where
  pub name : List ℕ
  pub level : ℕ
  pub format : Option (List Item)
  pub appenders : List ℕ

-- `set_format` of a logger; `none` where the pattern reads out of range.
unfoldable pub set_format : List ℕ → Logger → Option Logger
set_format pattern l = elim (new_format pattern) [
  | none ↦ none
  | some items ↦ some (record l { format = some items })
]

-- `logger::logger`.
unfoldable pub new_logger : List ℕ → ℕ → List ℕ → Option Logger
new_logger name level pattern =
    set_format pattern (record { name = name; level = level; format = none; appenders = [] })

-- The loop of `log` over the appenders, on their heap.
unfoldable pub log_all : ℕ → List ℕ → LogEvent → List ℕ → (ℕ → Appender) → Option (ℕ → Appender)
log_all level name event [] heap = some heap
log_all level name event (a ∷ rest) heap = elim (appender_log level name event (heap a)) [
  | none ↦ none
  | some x ↦ log_all level name event rest (update heap a x)
]

-- `logger::log`.
unfoldable pub log : ℕ → LogEvent → Logger → (ℕ → Appender) → Option (ℕ → Appender)
log level event l heap =
    if ltb level l.level then some heap else log_all level l.name event l.appenders heap

-- `add_appender`.
unfoldable pub add_appender : ℕ → Logger → (ℕ → Appender) → Logger × (ℕ → Appender)
add_appender a l heap = (
  record l { appenders = l.appenders ++ a ∷ [] },
  update heap a (set_appender_format l.format (heap a)),
)

-- The loop of `delete_appender`: the first one that is this appender is erased.
unfoldable pub erase_appender : ℕ → List ℕ → List ℕ
erase_appender a [] = []
erase_appender a (b ∷ rest) = let left = erase_appender a rest in if b == a then rest else b ∷ left

unfoldable pub delete_appender : ℕ → Logger → Logger
delete_appender a l = record l { appenders = erase_appender a l.appenders }

unfoldable pub clean_appender : Logger → Logger
clean_appender l = record l { appenders = [] }

-- The map of `logger_manager`, by names that are numbers: `insert` keeps what is there.
unfoldable pub add_logger : ℕ → ℕ → (ℕ → Option ℕ) → ℕ → Option ℕ
add_logger name l loggers =
    update loggers name (elim (loggers name) [ none ↦ some l | some k ↦ some k ])

unfoldable pub delete_logger : ℕ → (ℕ → Option ℕ) → ℕ → Option ℕ
delete_logger name loggers = update loggers name none

unfoldable pub get_logger : ℕ → (ℕ → Option ℕ) → Option ℕ
get_logger name loggers = loggers name

unfoldable pub clean_logger : (ℕ → Option ℕ) → ℕ → Option ℕ
clean_logger loggers name = none

-- `load_root_logger`, with the new logger at `root`, and the constructor of the manager.
unfoldable pub load_root_logger : ℕ → ℕ → (ℕ → Option ℕ) → ℕ → Option ℕ
load_root_logger system root loggers = add_logger system root loggers

unfoldable pub new_logger_manager : ℕ → ℕ → ℕ → Option ℕ
unfolding load_root_logger
new_logger_manager system root = load_root_logger system root (λ name. none)
