-- ===== src/Files.antt =====
-- src/manager/file.cpp and include/file.h: the files that a manager keeps open, by name. A name is a
-- number, and `openable` is a parameter: whether the system opens the file of a name in a mode. A lock
-- makes each operation one step.
pub mod Streams
pub mod ReadWrite
pub mod Table
pub mod Actions
pub mod Reading
pub mod Lines
use io_scheduler.Prelude.{
  Bool, List, Option, [], false, get_elem?, if◌then◌else◌, ltb, none, not, replicate, set, some,
  suc, true, ℕ, ◌++◌, ◌==◌, ◌∷◌,
}

-- `file_s::access`.
pub data Access : Type 0 where
  r_access w_access e_access rw_access re_access we_access rwe_access : Access

-- The flags of `open`.
pub data OpenMode : Type 0 where
  in_mode out_mode in_out_mode in_out_binary_mode : OpenMode

-- A `std::fstream`: whether it has a file, and its failbit.
pub record Stream : Type 0 where
  pub is_open : Bool
  pub failed : Bool

-- `open` on a stream that has a file fails, and one that succeeds clears the failbit.
unfoldable pub open_stream : Bool → Stream → Stream
open_stream ok s =
    if s.is_open
    then record s { failed = true }
    else (if ok then record { is_open = true; failed = false } else record s { failed = true })

unfoldable pub close_stream : Stream → Stream
close_stream s = if s.is_open then record s { is_open = false } else record s { failed = true }

-- `file_s`, and its constructor.
pub record FileEntry : Type 0 where
  pub name : ℕ
  pub file_stream : Stream
  pub fd : ℕ
  pub opened : Bool

-- `files` is `m_files`, `none` when it is null, and a null pointer in it is `none`.
pub record FileManager : Type 0 where
  pub max_num : ℕ
  pub file_num : ℕ
  pub files : Option (List (Option FileEntry))
  pub catalogue : List (ℕ × ℕ)

unfoldable pub new_file_manager : ℕ → FileManager
new_file_manager num = record {
  max_num = num;
  file_num = 0;
  files = some (replicate num none);
  catalogue = [];
}

-- `exist`, whose loop ends with the last entry of the name; `none` stands for -1.
unfoldable pub exist : ℕ → Option ℕ → List (ℕ × ℕ) → Option ℕ
exist name result [] = result
exist name result (entry ∷ rest) =
    exist name (if entry.0 == name then some entry.1 else result) rest

-- `m_catalogue.find`.
unfoldable pub find_file : ℕ → List (ℕ × ℕ) → Option ℕ
find_file name [] = none
find_file name (entry ∷ rest) = if entry.0 == name then some entry.1 else find_file name rest

-- The entry at an index, unless the array or the pointer in it is null.
unfoldable pub file_at : ℕ → FileManager → Option FileEntry
file_at index m = elim m.files [
  | none ↦ none
  | some files ↦ elim (get_elem? files index) [ none ↦ none | some f ↦ f ]
]

unfoldable pub put_file : ℕ → FileEntry → FileManager → FileManager
put_file index f m = elim m.files [
  | none ↦ m
  | some files ↦ record m { files = some (set files index (some f)) }
]

-- The mode that `open_file` takes for an access, if any.
unfoldable pub mode_of_access : Access → Option OpenMode
mode_of_access r_access = some in_mode
mode_of_access w_access = some out_mode
mode_of_access rw_access = some in_out_binary_mode
mode_of_access re_access = some in_mode
mode_of_access we_access = some out_mode
mode_of_access e_access = none
mode_of_access rwe_access = none

-- `close_file` of an index: `none` is a null pointer.
unfoldable pub close_index : ℕ → FileManager → Option (Bool × FileManager)
close_index index m = elim (file_at index m) [
  | none ↦ none
  | some f ↦
      if not f.opened
      then some (false, m)
      else some (true, put_file index (record f { file_stream = close_stream f.file_stream }) m)
]

-- `close_file` of a name.
unfoldable pub close_file : ℕ → FileManager → Option (Bool × FileManager)
close_file name m = elim (find_file name m.catalogue) [
  | none ↦ some (false, m)
  | some index ↦ close_index index m
]

-- `delete_file`.
unfoldable pub delete_file : FileManager → FileManager
delete_file m = record m { files = none }

-- `get_stream`: the outer `none` is a null pointer read, the inner one the null pointer returned.
unfoldable pub get_stream : ℕ → FileManager → Option (Option Stream)
get_stream name m = elim (find_file name m.catalogue) [
  | none ↦ some none
  | some index ↦ elim (file_at index m) [ none ↦ none | some f ↦ some (some f.file_stream) ]
]

module _ (openable : ℕ → OpenMode → Bool) where
  -- The entry that `add_file` makes: `fstream` of a name opens it for reading and writing.
  unfoldable pub new_file : ℕ → FileEntry
  new_file name = record {
    name = name;
    file_stream =
        open_stream (openable name in_out_mode) (record { is_open = false; failed = false });
    fd = 0;
    opened = false;
  }

  -- `add_file`: `none` is a write outside of the array, or to a null array.
  unfoldable pub add_file : ℕ → FileManager → Option FileManager
  add_file name m = elim (exist name none m.catalogue) [
    | some index ↦ some m
    | none ↦ elim m.files [
      | none ↦ none
      | some files ↦
          if not (ltb m.file_num m.max_num)
          then none
          else some (record m {
            files = some (set files m.file_num (some (new_file name)));
            file_num = suc m.file_num;
            catalogue = m.catalogue ++ (name, m.file_num) ∷ [];
          })
    ]
  ]

  -- The stream of a file after the `switch` of `open_file`.
  unfoldable pub switched : Access → FileEntry → Stream
  switched access f = elim (mode_of_access access) [
    | none ↦ f.file_stream
    | some mode ↦ open_stream (openable f.name mode) f.file_stream
  ]

  -- `open_file` of an index.
  unfoldable pub open_index : ℕ → Access → FileManager → Option (Bool × FileManager)
  open_index index access m = elim (file_at index m) [
    | none ↦ none
    | some f ↦
        let s = switched access f in
        if not s.is_open
        then some (false, put_file index (record f { file_stream = s }) m)
        else some (true, put_file index (record f { file_stream = s; opened = true }) m)
  ]

  -- `open_file` of a name.
  unfoldable pub open_file : ℕ → Access → FileManager → Option (Bool × FileManager)
  open_file name access m = elim (find_file name m.catalogue) [
    | none ↦ some (false, m)
    | some index ↦ open_index index access m
  ]
