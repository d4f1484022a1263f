-- ===== src/Logger/Macros.antt =====
-- include/logger.h: the macros with which the program logs. A line such as
-- `logger_inform_eventstream(g_logger)<<text; ConsoleLog();` is two statements; the fields of its event, and
-- the readings of the clock for the wrapper, are arguments.
use io_scheduler.Logger.{Appender, Logger, log}
use io_scheduler.Logger.Items.{
  Item, LogEvent, Output, text, error_item, logger_name_item, new_log_event, newline_item, tab_item,
}
use io_scheduler.Logger.Wrap.{Wrap, wrap}
use io_scheduler.Prelude.{
  codes, List, Option, [], if◌then◌else◌, ltb, none, some, suc, update, ℕ, ◌++◌, ◌∷◌,
}

-- The numbers of `logger_level::level`.
abbrev pub level_unknow : ℕ
level_unknow = 0

abbrev pub level_debug : ℕ
level_debug = 1

abbrev pub level_inform : ℕ
level_inform = 2

abbrev pub level_warn : ℕ
level_warn = 3

abbrev pub level_error : ℕ
level_error = 4

abbrev pub level_crash : ℕ
level_crash = 5

-- The patterns that `system_logger` and `file_logger` have by default.
abbrev pub system_pattern : List ℕ
system_pattern = codes "%C-%T-%f-%T-%l-%T-%F-%T-%s-%T-%e-%N-%T-%t-%T-%c-%T-%L-%T-%S-%T-%e"

abbrev pub file_pattern : List ℕ
file_pattern = codes "%C-%T-%f-%T-%l-%T-%F-%T-%s-%e-%N-%T-%t-%T-%c-%T-%S-%e"

-- The wrapper, the events and the appenders on their heaps, and the root logger.
pub record LogState : Type 0 where
  pub wrapper : Wrap
  pub events : ℕ → LogEvent
  pub next : ℕ
  pub appenders : ℕ → Appender
  pub root : Logger

-- The readings of the clock in `updata`.
pub record Clock : Type 0 where
  pub month : ℕ
  pub month_again : ℕ
  pub day : ℕ
  pub day_again : ℕ

-- `get_event`, `get_content` and a write to `get_stream`.
unfoldable pub get_event : LogState → Option ℕ
get_event s = s.wrapper.event

unfoldable pub get_content : LogEvent → List ℕ
get_content e = e.content

unfoldable pub put_text : List ℕ → LogEvent → LogEvent
put_text words e = record e { content = e.content ++ words }

-- `logger_eventwrap(logger, level) << words`, for a logger of the level `least`: the whole statement is
-- behind the `if`. `none` where the event is written past its memory.
unfoldable pub event_wrap : ℕ → Clock → LogEvent → List ℕ → LogState → Option LogState
unfolding put_text
event_wrap least c fields words s =
    if ltb fields.level least
    then some s
    else (elim (new_log_event (record fields { content = [] })) [
      | none ↦ none
      | some e ↦ some (record s {
        wrapper = wrap s.next c.month c.month_again c.day c.day_again s.wrapper;
        events = update s.events s.next (put_text words e);
        next = suc s.next;
      })
    ])

-- The five macros.
unfoldable pub logger_debug_eventstream : ℕ → Clock → LogEvent → List ℕ → LogState → Option LogState
unfolding event_wrap
logger_debug_eventstream least c e = event_wrap least c (record e { level = level_debug })

unfoldable pub logger_inform_eventstream :
    ℕ → Clock → LogEvent → List ℕ → LogState → Option LogState
unfolding event_wrap
logger_inform_eventstream least c e = event_wrap least c (record e { level = level_inform })

unfoldable pub logger_warn_eventstream : ℕ → Clock → LogEvent → List ℕ → LogState → Option LogState
unfolding event_wrap
logger_warn_eventstream least c e = event_wrap least c (record e { level = level_warn })

unfoldable pub logger_error_eventstream : ℕ → Clock → LogEvent → List ℕ → LogState → Option LogState
unfolding event_wrap
logger_error_eventstream least c e = event_wrap least c (record e { level = level_error })

unfoldable pub logger_crash_eventstream : ℕ → Clock → LogEvent → List ℕ → LogState → Option LogState
unfolding event_wrap
logger_crash_eventstream least c e = event_wrap least c (record e { level = level_crash })

-- The `log` of an item for a null event: only those that do not read the event return.
unfoldable pub item_log_null : Item → List ℕ → Option (List Output)
item_log_null tab_item name = some (text (codes "\t") ∷ [])
item_log_null newline_item name = some (text (codes "\n") ∷ [])
item_log_null logger_name_item name = some (text name ∷ [])
item_log_null (error_item error) name = some (text error ∷ [])
item_log_null _ name = none

unfoldable pub format_log_null : List Item → List ℕ → Option (List Output)
unfolding item_log_null
format_log_null [] name = some []
format_log_null (i ∷ items) name =
    let rest = format_log_null items name in
    elim (item_log_null i name) [
      | none ↦ none
      | some out ↦ elim rest [ none ↦ none | some more ↦ some (out ++ more) ]
    ]

unfoldable pub appender_log_null : ℕ → List ℕ → Appender → Option Appender
unfolding format_log_null
appender_log_null level name a = if ltb level a.level then some a else (elim a.format [
  | none ↦ none
  | some items ↦ elim (format_log_null items name) [
    | none ↦ none
    | some out ↦ some (record a { written = a.written ++ out })
  ]
])

-- The loop of `logger::log` over the appenders for a null event.
unfoldable pub log_all_null : ℕ → List ℕ → List ℕ → (ℕ → Appender) → Option (ℕ → Appender)
unfolding appender_log_null
log_all_null level name [] heap = some heap
log_all_null level name (a ∷ rest) heap = elim (appender_log_null level name (heap a)) [
  | none ↦ none
  | some x ↦ log_all_null level name rest (update heap a x)
]

unfoldable pub log_null : ℕ → Logger → (ℕ → Appender) → Option (ℕ → Appender)
unfolding log_all_null
log_null level l heap =
    if ltb level l.level then some heap else log_all_null level l.name l.appenders heap

-- `root_logger->log` at the level `debug`, of an event or of null.
abbrev pub log_current : Option ℕ → LogState → Option (ℕ → Appender)
log_current none s = log_null level_debug s.root s.appenders
log_current (some a) s = log level_debug (s.events a) s.root s.appenders

abbrev pub with_appenders : LogState → Option (ℕ → Appender) → Option LogState
with_appenders s none = none
with_appenders s (some heap) = some (record s { appenders = heap })

-- `ConsoleLog()`: the current event of the wrapper is logged, whichever it is.
unfoldable pub console_log : LogState → Option LogState
unfolding log_null get_event
console_log s = with_appenders s (log_current (get_event s) s)

-- The two statements of a line, for a macro.
unfoldable pub log_line : (LogState → Option LogState) → LogState → Option LogState
unfolding console_log
log_line stream s = elim (stream s) [ none ↦ none | some s' ↦ console_log s' ]
