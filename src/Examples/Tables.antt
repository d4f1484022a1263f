-- ===== src/Examples/Tables.antt =====
-- The theorems on files, on a manager with one file.
use io_scheduler.Logger.FileLog.{
  FileAppender, file_appender_log, new_file_appender, new_file_appender-silent, with_format,
}
use io_scheduler.Logger.Items.{LogEvent, content_item}
use io_scheduler.Files.ReadWrite.{Rw, c_string, reads, rw_file, writes}
use io_scheduler.Files.{FileEntry, FileManager, OpenMode, add_file, exist, file_at, find_file}
use io_scheduler.Files.Table.{Inv}
use io_scheduler.Files.Actions.{adds, perform-Inv}
use io_scheduler.Files.Reading.{rw_file-add_file}
use io_scheduler.Prelude.{Bool, OnSome, [], arith, false, none, refl, some, true, ℕ, ◌∷◌, ◌≡◌}

-- A system that opens every file.
abbrev opens_all : ℕ → OpenMode → Bool
opens_all name mode = true

-- A file that was closed.
abbrev closed_file : FileEntry
closed_file = record {
  name = 7;
  file_stream = record { is_open = false; failed = false };
  fd = 0;
  opened = false;
}

abbrev one_file : FileManager
one_file = record {
  max_num = 2;
  file_num = 1;
  files = some (some closed_file ∷ none ∷ []);
  catalogue = (7, 0) ∷ [];
}

one_file-Inv : Inv one_file
unfolding file_at
one_file-Inv = record { size = refl; listed = ((refl, omega arith), tt) }

perform-Inv_example : OnSome Inv (add_file opens_all 8 one_file)
perform-Inv_example = perform-Inv opens_all (adds 8) one_file (omega arith) one_file-Inv

one_file-find : find_file 7 one_file.catalogue ≡ some 0
unfolding find_file
one_file-find = refl

one_file-at : file_at 0 one_file ≡ some closed_file
unfolding file_at
one_file-at = refl

no_eight : exist 8 none one_file.catalogue ≡ none
unfolding exist
no_eight = refl

rw_file-add_file_example :
    OnSome
      (λ (m' : FileManager).
        (rw_file opens_all 4 8 (1 ∷ []) (9 ∷ 0 ∷ 3 ∷ []) reads m' ≡ none)
        × OnSome
            (λ (result : Rw).
              (result.success ≡ true)
              × (result.buffer ≡ 9 ∷ 0 ∷ 3 ∷ [])
              × (result.written ≡ c_string (9 ∷ 0 ∷ 3 ∷ [])))
            (rw_file opens_all 4 8 (1 ∷ []) (9 ∷ 0 ∷ 3 ∷ []) writes m'))
      (add_file opens_all 8 one_file)
rw_file-add_file_example =
    rw_file-add_file opens_all 4 8 (1 ∷ []) (9 ∷ 0 ∷ 3 ∷ []) one_file (omega arith) one_file-Inv
      no_eight refl

abbrev one_event : LogEvent
one_event = record {
  file_name = [];
  line_number = 1;
  thread_name = [];
  thread_id = 9;
  coroutine_id = 2;
  func = [];
  elapse_second = 0;
  local_time = [];
  level = 2;
  content = 65 ∷ [];
}

new_file_appender-silent_example :
    OnSome
      (λ (r : FileAppender × FileManager).
        file_appender_log 2 [] one_event (with_format (content_item ∷ []) r.0)
        ≡ some (with_format (content_item ∷ []) r.0))
      (new_file_appender opens_all 8 one_file)
new_file_appender-silent_example =
    new_file_appender-silent opens_all 8 2 [] one_event (content_item ∷ []) one_file (omega arith)
      one_file-Inv no_eight refl
