-- ===== src/Logger/Null.antt =====
-- include/logger.h: a line that logs where there is no event.
use io_scheduler.Logger.{
  Appender, Logger, add_appender, new_appender, set_appender_format, set_format,
}
use io_scheduler.Logger.Pattern.{is_alpha}
use io_scheduler.Logger.RoundTrip.{Letters}
use io_scheduler.Logger.FileLog.{new_system_logger}
use io_scheduler.Logger.Items.{
  new_format, new_format-render, command_item, time_item, filename_item, line_number_item,
  func_item, elapse_item, thread_name_item, thread_id_item, coroutine_id_item, level_item,
  content_item, Item, LogEvent, Output, error_item, logger_name_item, newline_item, tab_item,
}
use io_scheduler.Logger.Wrap.{Wrap}
use io_scheduler.Prelude.{
  ◌&&◌, and-right, All, map, ◌||◌, codes, Bool, Bool-cases, List, OnSome, Option, [], arith, false,
  inl, inr, ltb, none, refl, some, true, update, ℕ, ◌++◌, ◌∷◌, ◌≡◌, ==_refl,
}
use io_scheduler.Logger.Macros.{
  system_pattern, Clock, LogState, appender_log_null, console_log, event_wrap, format_log_null,
  get_event, item_log_null, level_debug, log_all_null, log_line, log_null,
}
use io_scheduler.Logger.Lines.{event_wrap-low}

-- An item that reads the event.
abbrev pub reads : Item → Bool
reads i = elim (item_log_null i []) [ none ↦ true | some out ↦ false ]

abbrev pub any_reads : List Item → Bool
any_reads [] = false
any_reads (i ∷ items) = reads i || any_reads items

item_log_null-reads : (i : Item) (name : List ℕ) → reads i ≡ true → item_log_null i name ≡ none
unfolding item_log_null
item_log_null-reads tab_item name h = cc
item_log_null-reads newline_item name h = cc
item_log_null-reads logger_name_item name h = cc
item_log_null-reads (error_item error) name h = cc
item_log_null-reads _ name h = refl

format_log_null-reads :
    (items : List Item) (name : List ℕ) → any_reads items ≡ true → format_log_null items name ≡ none
unfolding format_log_null
format_log_null-reads [] name h = cc
format_log_null-reads (i ∷ items) name h = elim (Bool-cases (reads i)) [
  | inl e ↦ rw (format_log_null, item_log_null-reads i name e) refl
  | inr e ↦
      rest_none (item_log_null i name) (format_log_null items name)
        (format_log_null-reads items name (ground arith))
]
  where
    rest_none :
        (o p : Option (List Output))
        → p ≡ none
        → ◌≡◌ {A = Option (List Output)}
            (elim o [
              | none ↦ none
              | some out ↦ elim p [ none ↦ none | some more ↦ some (out ++ more) ]
            ])
            none
    rest_none none p e = refl
    rest_none (some out) p e = rw e refl

-- A line whose level is below that of its logger, with no event before it, uses a null event, if the root
-- logger takes the level `debug`, and so does its first appender, with an item that reads the event.
pub log_line-null :
    (least : ℕ) (c : Clock) (fields : LogEvent) (words : List ℕ) (s : LogState) (x : ℕ)
    (rest : List ℕ) (items : List Item)
    → ltb fields.level least ≡ true
    → s.wrapper.event ≡ none
    → ltb level_debug s.root.level ≡ false
    → s.root.appenders ≡ x ∷ rest
    → ltb level_debug (s.appenders x).level ≡ false
    → (s.appenders x).format ≡ some items
    → any_reads items ≡ true
    → log_line (event_wrap least c fields words) s ≡ none
unfolding log_line console_log get_event log_null log_all_null appender_log_null
log_line-null least c fields words s x rest items low e r l m f h =
    rw
      (
        log_line,
        event_wrap-low least c fields words s low,
        console_log,
        get_event,
        e,
        log_null,
        r,
        log_all_null,
        l,
        appender_log_null,
        m,
        f,
        format_log_null-reads items s.root.name h,
      )
      refl

abbrev all_alpha : List ℕ → Bool
all_alpha [] = true
all_alpha (c ∷ cs) = is_alpha c && all_alpha cs

single-Letters : (cs : List ℕ) → all_alpha cs ≡ true → All Letters (map (λ c. c ∷ []) cs)
single-Letters [] h = tt
single-Letters (c ∷ cs) h = ((ground arith, tt), single-Letters cs (and-right (is_alpha c) _ h))

-- The commands of the default pattern.
abbrev system_commands : List (List ℕ)
system_commands = map (λ c. c ∷ []) (codes "CTfTlTFTsTeNTtTcTLTSTe")

-- The items of `system_logger` by default.
abbrev pub system_items : List Item
system_items =
    time_item ∷ tab_item ∷ filename_item ∷ tab_item ∷ line_number_item ∷ tab_item ∷ func_item
    ∷ tab_item ∷ elapse_item ∷ tab_item ∷ newline_item ∷ thread_name_item ∷ tab_item
    ∷ thread_id_item ∷ tab_item ∷ coroutine_id_item ∷ tab_item ∷ level_item ∷ tab_item
    ∷ content_item ∷ tab_item ∷ newline_item ∷ []

-- The default pattern is read as it is meant.
pub new_format-system_pattern : new_format system_pattern ≡ some system_items
unfolding command_item
new_format-system_pattern =
    new_format-render b'-' system_commands refl
      (single-Letters (codes "CTfTlTFTsTeNTtTcTLTSTe") refl)

-- With the root logger as the manager makes it, a line whose level is below that of its logger uses a null
-- event, if no event was wrapped before it.
pub root_line-null :
    (least : ℕ) (c : Clock) (fields : LogEvent) (words name : List ℕ) (x : ℕ) (heap : ℕ → Appender)
    (w : Wrap) (events : ℕ → LogEvent) (next : ℕ)
    → ltb fields.level least ≡ true
    → w.event ≡ none
    → OnSome
        (λ (made : Logger × (ℕ → Appender)).
          log_line (event_wrap least c fields words) (record {
            wrapper = w;
            events = events;
            next = next;
            appenders = made.1;
            root = made.0;
          })
          ≡ none)
        (new_system_logger name level_debug system_pattern x heap)
unfolding new_system_logger set_format add_appender set_appender_format new_appender item_log_null
root_line-null least c fields words name x heap w events next low e =
    rw (new_system_logger, set_format, new_format-system_pattern)
      (log_line-null least c fields words
        (record { wrapper = w; events = events; next = next; appenders = made.1; root = made.0 }) x
        [] system_items low e refl refl (rw (==_refl x) refl) (rw (==_refl x) refl) refl)
  where
    made : Logger × (ℕ → Appender)
    made =
        add_appender x
          (record { name = name; level = level_debug; format = some system_items; appenders = [] })
          (update heap x new_appender)
