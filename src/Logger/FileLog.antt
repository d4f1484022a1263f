-- ===== src/Logger/FileLog.antt =====
-- src/manager/logger.cpp and include/logger.h: the appenders and loggers of files and of the console. A file
-- appender keeps a pointer to a stream of the file manager; `stream` is what it points to.
use io_scheduler.Files.{
  FileEntry, FileManager, OpenMode, Stream, add_file, file_at, find_file, get_stream, in_mode,
  in_out_mode, mode_of_access, new_file, open_file, open_index, open_stream, put_file, r_access,
  switched, exist,
}
use io_scheduler.Files.Reading.{find_file-new}
use io_scheduler.Files.Table.{Inv, file_at-put_file, put_file_keeps}
use io_scheduler.Files.Actions.{HasRoom, with_file, with_file-new}
use io_scheduler.Logger.{Appender, Logger, add_appender, new_appender, set_format}
use io_scheduler.Logger.Items.{Item, LogEvent, format_log}
use io_scheduler.Prelude.{
  ap, ◌∙◌, Bool, Bool-cases, List, OnSome, OnSome-some, Option, [], arith, if◌then◌else◌, inl, inr,
  length, lt→ltb, ltb, none, some, true, update, ℕ, ◌++◌, ◌≡◌,
}

-- `file_appender`.
pub record FileAppender : Type 0 where
  pub base : Appender
  pub stream : Option Stream

-- `file_appender::log`: `none` is the use of a null format or of a null stream. A stream that has failed
-- takes nothing.
unfoldable pub file_appender_log : ℕ → List ℕ → LogEvent → FileAppender → Option FileAppender
file_appender_log level name event a =
    let b : Appender = a.base in
    if ltb level b.level then some a else (elim b.format [
      | none ↦ none
      | some items ↦ elim a.stream [
        | none ↦ none
        | some s ↦
            if s.failed
            then some a
            else some (record a {
              base = record b { written = b.written ++ format_log items name event };
            })
      ]
    ])

-- `system_logger`, with its console appender at the new address `a`.
unfoldable pub new_system_logger :
    List ℕ → ℕ → List ℕ → ℕ → (ℕ → Appender) → Option (Logger × (ℕ → Appender))
new_system_logger name level pattern a heap =
    elim (set_format pattern
      (record { name = name; level = level; format = none; appenders = [] })) [
        | none ↦ none
        | some l ↦ some (add_appender a l (update heap a new_appender))
      ]

-- `file_logger`, whose appender is at the new address `a`. The constructor of the base sets the level 0,
-- and the level asked for is not used.
unfoldable pub new_file_logger :
    List ℕ → ℕ → List ℕ → ℕ → (ℕ → Appender) → Option (Logger × (ℕ → Appender))
new_file_logger name level pattern a heap =
    elim (set_format pattern (record { name = name; level = 0; format = none; appenders = [] })) [
      | none ↦ none
      | some l ↦ some (add_appender a l (update heap a new_appender))
    ]

-- A file appender that has got a format.
abbrev pub with_format : List Item → FileAppender → FileAppender
with_format items a =
    let b : Appender = a.base in record a { base = record b { format = some items } }

module _ (openable : ℕ → OpenMode → Bool) where
  -- `file_appender::open`.
  unfoldable pub open_appender : ℕ → FileManager → Option FileManager
  open_appender name m = elim (open_file openable name r_access m) [
    | none ↦ none
    | some opened ↦ some opened.1
  ]

  -- The rest of `file_appender::file_appender`, behind `add_file`.
  unfoldable pub opened_appender : ℕ → FileManager → Option (FileAppender × FileManager)
  opened_appender name m = elim (open_appender name m) [
    | none ↦ none
    | some m' ↦ elim (get_stream name m') [
      | none ↦ none
      | some s ↦ some (record { base = new_appender; stream = s }, m')
    ]
  ]

  -- `file_appender::file_appender` of a name: `none` is a fault of the file manager.
  unfoldable pub new_file_appender : ℕ → FileManager → Option (FileAppender × FileManager)
  new_file_appender name m = elim (add_file openable name m) [
    | none ↦ none
    | some m' ↦ opened_appender name m'
  ]

  opened_twice :
      (name : ℕ)
      → openable name in_mode ≡ openable name in_out_mode
      → (switched openable r_access (new_file openable name)).failed ≡ true
  unfolding switched mode_of_access new_file open_stream
  opened_twice name h = elim (Bool-cases (openable name in_out_mode)) [
    | inl e ↦ rw (h, e)
    | inr e ↦ rw (h, e)
  ]

  get_stream-put_file :
      (name index : ℕ) (f f' : FileEntry) (m : FileManager)
      → find_file name m.catalogue ≡ some index
      → file_at index m ≡ some f
      → get_stream name (put_file index f' m) ≡ some (some f'.file_stream)
  unfolding get_stream
  get_stream-put_file name index f f' m h g =
      ap
        (λ c. elim (find_file name c) [
          | none ↦ some none
          | some i ↦ elim (file_at i (put_file index f' m)) [
            | none ↦ none
            | some x ↦ some (some x.file_stream)
          ]
        ])
        (put_file_keeps index f' m).0
      ∙ rw (h, file_at-put_file index f f' m g)

  abbrev appender_of : Stream → FileAppender
  appender_of s = record { base = new_appender; stream = some s }

  opened_appender-stream :
      (name index : ℕ) (f : FileEntry) (m : FileManager)
      → find_file name m.catalogue ≡ some index
      → file_at index m ≡ some f
      → (m' : FileManager) × (opened_appender name m
          ≡ some (appender_of (switched openable r_access f), m'))
  unfolding opened_appender open_appender open_file open_index get_stream new_appender switched
      put_file
  opened_appender-stream name index f m h g =
      let s = switched openable r_access f in
      let closed_entry : FileEntry = record f { file_stream = s } in
      let open_entry : FileEntry = record f { file_stream = s; opened = true } in
      elim (Bool-cases s.is_open) [
        | inl o ↦ (
          put_file index open_entry m,
          rw (
            opened_appender,
            open_appender,
            open_file,
            h,
            open_index,
            g,
            o,
            get_stream-put_file name index f open_entry m h g,
          ),
        )
        | inr o ↦ (
          put_file index closed_entry m,
          rw (
            opened_appender,
            open_appender,
            open_file,
            h,
            open_index,
            g,
            o,
            get_stream-put_file name index f closed_entry m h g,
          ),
        )
      ]

  silent :
      (level : ℕ) (logger_name : List ℕ) (event : LogEvent) (items : List Item) (s : Stream)
      → s.failed ≡ true
      → file_appender_log level logger_name event (with_format items (appender_of s))
        ≡ some (with_format items (appender_of s))
  unfolding file_appender_log new_appender
  silent level logger_name event items s h = elim (Bool-cases (ltb level 1)) [
    | inl e ↦ rw e
    | inr e ↦ rw (e, h)
  ]

  -- If a manager is not full, its catalogue is in order and has not the name, and the system opens the file
  -- for reading if and only if it does for reading and writing, then a new file appender of that name has a
  -- failed stream: whatever is logged to it, nothing is written.
  pub new_file_appender-silent :
      (name level : ℕ) (logger_name : List ℕ) (event : LogEvent) (items : List Item)
      (m : FileManager)
      → HasRoom m
      → Inv m
      → exist name none m.catalogue ≡ none
      → openable name in_mode ≡ openable name in_out_mode
      → OnSome
          (λ (r : FileAppender × FileManager).
            file_appender_log level logger_name event (with_format items r.0)
            ≡ some (with_format items r.0))
          (new_file_appender name m)
  unfolding new_file_appender add_file
  new_file_appender-silent name level logger_name event items m h v n w =
      let (files, q, l) =
        OnSome-some (λ (files : List (Option FileEntry)). length files ≡ m.max_num) m.files
          v.size in
      let (m', e) =
        opened_appender-stream name m.file_num (new_file openable name)
          (with_file openable name files m) (find_file-new name m.file_num m.catalogue n)
          (with_file-new openable name files m (omega arith)) in
      rw (new_file_appender, add_file, n, q, lt→ltb m.file_num m.max_num h, e)
        (silent level logger_name event items (switched openable r_access (new_file openable name))
          (opened_twice name w))
