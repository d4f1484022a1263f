-- ===== src/Logger/Lines.antt =====
-- include/logger.h: what a line of the program that logs comes to.
use io_scheduler.Logger.{Appender, log}
use io_scheduler.Logger.Items.{LogEvent, Output, new_log_event}
use io_scheduler.Logger.Wrap.{Wrap, wrap, updata, new_month, new_day}
use io_scheduler.Logger.Writes.{Formatted, log-received, received}
use io_scheduler.Prelude.{
  subst, Bool-cases, List, OnSome, Option, [], arith, false, if◌then◌else◌, inl, inr, length, ltb,
  none, refl, some, suc, true, update, ℕ, ◌+◌, ◌≡◌, ◌≤◌, ==_refl, ap, sym, le→leb,
}
use io_scheduler.Logger.Macros.{
  Clock, LogState, console_log, event_wrap, get_event, level_debug, log_current, log_line, put_text,
  with_appenders,
}

with_appenders-OnSome :
    (P : (ℕ → Appender) → Type 0) (s : LogState) (o : Option (ℕ → Appender))
    → OnSome P o
    → OnSome (λ t. P t.appenders) (with_appenders s o)
with_appenders-OnSome P s none h = h
with_appenders-OnSome P s (some heap) h = h

-- The event at `b`, written by the root logger, as the appender at `a` has it then.
abbrev pub root_received : LogState → LogEvent → ℕ → List Output
root_received s e a =
    received level_debug s.root.name e
      (if ltb level_debug s.root.level then [] else s.root.appenders) s.appenders a

console_log-received :
    (s : LogState) (b a : ℕ)
    → s.wrapper.event ≡ some b
    → Formatted s.appenders
    → OnSome
        (λ (t : LogState). (t.appenders a).written ≡ root_received s (s.events b) a)
        (console_log s)
unfolding console_log get_event
console_log-received s b a e f =
    subst
      (λ o.
        OnSome (λ (t : LogState). (t.appenders a).written ≡ root_received s (s.events b) a)
          (with_appenders s (log_current o s)))
      (sym e)
      (with_appenders-OnSome (λ heap. (heap a).written ≡ root_received s (s.events b) a) s
        (log level_debug (s.events b) s.root s.appenders)
        (log-received level_debug (s.events b) s.root s.appenders a f))

wrap-event :
    (b month month' day day' : ℕ) (w : Wrap) → (wrap b month month' day day' w).event ≡ some b
unfolding wrap updata new_month new_day
wrap-event b month month' day day' w = ground arith

-- The state after an event that its logger takes.
abbrev wrapped : Clock → LogEvent → List ℕ → LogState → LogState
wrapped c fields words s = record s {
  wrapper = wrap s.next c.month c.month_again c.day c.day_again s.wrapper;
  events = update s.events s.next (record fields { content = words });
  next = suc s.next;
}

pub event_wrap-low :
    (least : ℕ) (c : Clock) (fields : LogEvent) (words : List ℕ) (s : LogState)
    → ltb fields.level least ≡ true
    → event_wrap least c fields words s ≡ some s
unfolding event_wrap
event_wrap-low least c fields words s h = rw (event_wrap, h) refl

event_wrap-high :
    (least : ℕ) (c : Clock) (fields : LogEvent) (words : List ℕ) (s : LogState)
    → ltb fields.level least ≡ false
    → length fields.func ≤ 3
    → event_wrap least c fields words s ≡ some (wrapped c fields words s)
unfolding event_wrap put_text new_log_event
event_wrap-high least c fields words s h k =
    rw (event_wrap, h, new_log_event, le→leb (length fields.func + 1) 4 (omega arith)) refl

-- A line of the program, on a logger of any level, when there is a current event, the function's name
-- has at most three letters and all appenders have formats: the root logger writes the line's event, with its
-- text, if its level reaches that of its logger; and otherwise it writes the current event once more.
pub log_line-received :
    (least : ℕ) (c : Clock) (fields : LogEvent) (words : List ℕ) (s : LogState) (b a : ℕ)
    → s.wrapper.event ≡ some b
    → Formatted s.appenders
    → length fields.func ≤ 3
    → OnSome
        (λ (t : LogState).
          (t.appenders a).written
          ≡ root_received s
              (if ltb fields.level least then s.events b else record fields { content = words })
              a)
        (log_line (event_wrap least c fields words) s)
unfolding log_line
log_line-received least c fields words s b a e f h = elim (Bool-cases (ltb fields.level least)) [
  | inl low ↦
      rw (log_line, event_wrap-low least c fields words s low, low) (console_log-received s b a e f)
  | inr high ↦
      let t = wrapped c fields words s in
      rw (log_line, event_wrap-high least c fields words s high h, high)
        (subst
          (λ x.
            OnSome (λ (u : LogState). (u.appenders a).written ≡ root_received s x a)
              (console_log t))
          (ap (λ x. if x then record fields { content = words } else s.events s.next)
            (==_refl s.next))
          (console_log-received t s.next a
            (wrap-event s.next c.month c.month_again c.day c.day_again s.wrapper) f))
]
