-- ===== src/Examples/Logs.antt =====
-- The theorems on loggers, on a logger with two appenders and on small patterns.
use io_scheduler.Logger.RoundTrip.{flatten, render}
use io_scheduler.Logger.Explains.{Explains, explain-Explains}
use io_scheduler.Logger.Wrap.{Wrap, insert_new, new_day, new_month, new_wrap, updata, wrap}
use io_scheduler.Logger.Pattern.{explain}
use io_scheduler.Logger.Items.{
  Item, LogEvent, command_item, content_item, new_format, new_format-render, tab_item, time_item,
}
use io_scheduler.Logger.{Appender, Logger}
use io_scheduler.Prelude.{
  List, [], arith, codes, false, if◌then◌else◌, map, refl, some, ℕ, ◌==◌, ◌∷◌, ◌≡◌, ◌≢◌,
}

abbrev items : List Item
items = time_item ∷ tab_item ∷ content_item ∷ []

-- The appender at 1 takes errors only.
abbrev pub appenders : ℕ → Appender
appenders a = record {
  level = if a == 1 then 4 else 1;
  format = some items;
  is_empty_format = false;
  written = [];
}

abbrev pub two_appenders : Logger
two_appenders = record {
  name = codes "root";
  level = 1;
  format = some items;
  appenders = 0 ∷ 1 ∷ [];
}

abbrev pub hello : LogEvent
hello = record {
  file_name = codes "io.cpp";
  line_number = 12;
  thread_name = codes "main";
  thread_id = 9;
  coroutine_id = 2;
  func = codes "idle";
  elapse_second = 0;
  local_time = codes "12:00";
  level = 2;
  content = codes "hello";
}

explain-Explains_example : Explains (codes "%d:%f") [] (explain (codes "%d:%f"))
explain-Explains_example = explain-Explains (codes "%d:%f")

new_format-render_example :
    new_format (render 58 (codes "d" ∷ codes "fm" ∷ []))
    ≡ some (map command_item (flatten (codes "d" ∷ codes "fm" ∷ [])))
new_format-render_example =
    new_format-render 58 (codes "d" ∷ codes "fm" ∷ []) refl ((refl, tt), ((refl, (refl, tt)), tt))

-- Two events on the first day, and one on the second.
abbrev two_days : Wrap
two_days = wrap 3 5 5 2 2 (wrap 1 5 5 1 1 (new_wrap 5 5 1 1))

three_ne_two : 3 ≢ two_days.day
unfolding wrap updata new_month new_day new_wrap insert_new
three_ne_two = λ e. absurd (omega arith)
