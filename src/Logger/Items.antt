-- ===== src/Logger/Items.antt =====
-- The items of a format and what they write of an event: lines 88 to 112, 274 to 463 and 542 to 598.
use io_scheduler.Logger.RoundTrip.{Letters, explain-render, flatten, render}
use io_scheduler.Logger.Pattern.{
  Mark, explain, explained, is_separator, legal, no_header, unmatched,
}
use io_scheduler.Prelude.{
  All, List, Option, [], ap, arith, codes, if◌then◌else◌, leb, length, map, none, refl, some, true,
  ℕ, ◌%◌, ◌++◌, ◌+◌, ◌==◌, ◌^◌, ◌↔◌, ◌∷◌, ◌≡◌, ◌≤◌,
}

-- `logevent`, without the logger that it goes to.
pub record LogEvent : Type 0 where
  pub file_name : List ℕ
  pub line_number : ℕ
  pub thread_name : List ℕ
  pub thread_id : ℕ
  pub coroutine_id : ℕ
  pub func : List ℕ
  pub elapse_second : ℕ
  pub local_time : List ℕ
  pub level : ℕ
  pub content : List ℕ

-- What goes to the stream: the escape sequence of a colour, text, or a number in decimal.
pub data Output : Type 0 where
  colour decimal : ℕ → Output
  text : List ℕ → Output

pub data Item : Type 0 where
  filename_item line_number_item thread_name_item thread_id_item coroutine_id_item func_item : Item
  elapse_item time_item tab_item newline_item level_item logger_name_item content_item : Item
  error_item : List ℕ → Item

-- `logger_level::tostring`.
unfoldable pub level_name : ℕ → List ℕ
level_name level =
    if level == 0
    then codes "UNKNOW"
    else if level == 1
    then codes "DEBUG"
    else if level == 2
    then codes "INFOR"
    else if level == 3
    then codes "WARN"
    else if level == 4
    then codes "ERROR"
    else if level == 5
    then codes "CRASH"
    else codes "unknow"

-- `maps` and the switch behind it: the item of a legal character.
unfoldable pub command_item : ℕ → Item
command_item c =
    if c == b'f'
    then filename_item
    else if c == b'N'
    then thread_name_item
    else if c == b't'
    then thread_id_item
    else if c == b'c'
    then coroutine_id_item
    else if c == b's'
    then elapse_item
    else if c == b'C'
    then time_item
    else if c == b'T'
    then tab_item
    else if c == b'e'
    then newline_item
    else if c == b'L'
    then level_item
    else if c == b'R'
    then logger_name_item
    else if c == b'l'
    then line_number_item
    else if c == b'S'
    then content_item
    else if c == b'F'
    then func_item
    else error_item (codes "cmd unlegal!")

unfoldable pub item_of : Mark → Item
item_of (legal c) = command_item c
item_of (no_header c) = error_item (codes "unknow")
item_of (unmatched c) = error_item (codes "unknow")

-- `logger_format::logger_format`, with `explain`; `none` where that reads out of range.
unfoldable pub new_format : List ℕ → Option (List Item)
new_format pattern = elim (explain pattern) [
  | explained marks ↦ some (map item_of marks)
  | _ ↦ none
]

-- The `log` of each item. `get_linenumber` returns 16 bits.
unfoldable pub item_log : Item → List ℕ → LogEvent → List Output
item_log filename_item name e = colour 36 ∷ text e.file_name ∷ []
item_log line_number_item name e = colour 36 ∷ decimal (e.line_number % 2 ^ 16) ∷ []
item_log thread_name_item name e = colour 34 ∷ text e.thread_name ∷ []
item_log thread_id_item name e =
    colour 34
    ∷ text (codes "Thread id:")
    ∷ text (codes "[")
    ∷ decimal e.thread_id
    ∷ text (codes "]")
    ∷ []
item_log coroutine_id_item name e =
    colour 34
    ∷ text (codes "Corroute id:")
    ∷ text (codes "[")
    ∷ decimal e.coroutine_id
    ∷ text (codes "]")
    ∷ []
item_log func_item name e = colour 36 ∷ text (codes "[") ∷ text e.func ∷ text (codes "]") ∷ []
item_log elapse_item name e = decimal e.elapse_second ∷ text (codes "s") ∷ []
item_log time_item name e = colour 36 ∷ text e.local_time ∷ []
item_log tab_item name e = text (codes "\t") ∷ []
item_log newline_item name e = text (codes "\n") ∷ []
item_log level_item name e =
    colour 32 ∷ text (codes "        [") ∷ text (level_name e.level) ∷ text (codes "]") ∷ []
item_log logger_name_item name e = text name ∷ []
item_log content_item name e = colour 37 ∷ text (codes "[") ∷ text e.content ∷ text (codes "]") ∷ []
item_log (error_item error) name e = text error ∷ []

-- `logger_format::log`.
unfoldable pub format_log : List Item → List ℕ → LogEvent → List Output
format_log [] name e = []
format_log (i ∷ items) name e = item_log i name e ++ format_log items name e

-- The 4 bytes that `malloc(sizeof(32))` gives for the name of the function.
abbrev pub func_room : ℕ
func_room = 4

-- The constructor: `none` where `strcpy` writes past them.
unfoldable pub new_log_event : LogEvent → Option LogEvent
new_log_event e = if leb (length e.func + 1) func_room then some e else none

map-item_of : (cs : List ℕ) → map item_of (map legal cs) ≡ map command_item cs
unfolding item_of
map-item_of [] = refl
map-item_of (c ∷ cs) = ap (◌∷◌ (command_item c)) (map-item_of cs)

-- Commands of letters, written with any separator between them, make the format of their items, in
-- their order.
pub new_format-render :
    (s : ℕ) (names : List (List ℕ))
    → is_separator s ≡ true
    → All Letters names
    → new_format (render s names) ≡ some (map command_item (flatten names))
unfolding new_format
new_format-render s names h l =
    rw (new_format, explain-render s names h l) (ap some (map-item_of (flatten names)))

-- The constructor of an event writes past its memory exactly for function names of four bytes or more.
pub new_log_event_overflow : (e : LogEvent) → (new_log_event e ≡ none) ↔ (4 ≤ length e.func)
unfolding new_log_event
new_log_event_overflow e = (λ h. ground arith, λ h. ground arith)
