-- ===== src/Files/ReadWrite.antt =====
-- src/manager/file.cpp and include/file.h: reading and writing a whole file. What the file holds is a list
-- of bytes, and the loops take fuel.
use io_scheduler.Files.{
  FileEntry, FileManager, OpenMode, Stream, close_index, close_stream, file_at, find_file,
  open_index, put_file, rw_access,
}
use io_scheduler.Prelude.{
  Bool, List, Option, [], false, if◌then◌else◌, none, not, some, suc, true, zero, ℕ, ◌++◌, ◌==◌,
  ◌∷◌,
}

-- `io_operate`.
pub data IoOperate : Type 0 where
  reads writes : IoOperate

-- `getline` on a good stream: the line, the bytes after it, and whether the end of the file was reached.
pub record Line : Type 0 where
  pub text : List ℕ
  pub rest : List ℕ
  pub eof : Bool

unfoldable pub getline : List ℕ → Line
getline [] = record { text = []; rest = []; eof = true }
getline (c ∷ cs) =
    let after = getline cs in
    if c == 10
    then record { text = []; rest = cs; eof = false }
    else record { text = c ∷ after.text; rest = after.rest; eof = after.eof }

-- The loop that reads, from the line before on: on a stream that has failed `getline` leaves the line
-- as it is and never reaches the end. `none` is fuel that is used up.
unfoldable pub read_lines : ℕ → Bool → List ℕ → List ℕ → List ℕ → Option (List ℕ)
read_lines zero failed line content buffer = none
read_lines (suc fuel) failed line content buffer =
    let got = getline content in
    let stuck = read_lines fuel failed line content (buffer ++ line ++ 10 ∷ []) in
    let on = read_lines fuel failed got.text got.rest (buffer ++ got.text ++ 10 ∷ []) in
    if failed then stuck else (if got.eof then some (buffer ++ got.text ++ 10 ∷ []) else on)

-- The bytes of a buffer up to the first null, which `strlen` counts.
unfoldable pub c_string : List ℕ → List ℕ
c_string [] = []
c_string (c ∷ cs) = let rest = c_string cs in if c == 0 then [] else c ∷ rest

-- What `rw_file` leaves: its answer, the manager, the buffer, and what it wrote.
pub record Rw : Type 0 where
  pub success : Bool
  pub manager : FileManager
  pub buffer : List ℕ
  pub written : List ℕ

module _ (openable : ℕ → OpenMode → Bool) where
  -- `stream.close` and `close_file`.
  unfoldable pub end_rw : ℕ → FileEntry → Stream → List ℕ → List ℕ → FileManager → Option Rw
  end_rw index f s buffer written m =
      elim (close_index index (put_file index (record f { file_stream = close_stream s }) m)) [
        | none ↦ none
        | some closed ↦
            some (record {
              success = closed.0;
              manager = closed.1;
              buffer = buffer;
              written = written;
            })
      ]

  -- The `switch` of `rw_file`, on a stream that has a file.
  unfoldable pub transfer :
      ℕ → ℕ → FileEntry → List ℕ → List ℕ → IoOperate → FileManager → Option Rw
  transfer fuel index f content buffer reads m =
      elim (read_lines fuel f.file_stream.failed [] content buffer) [
        | none ↦ none
        | some read ↦ end_rw index f f.file_stream read [] m
      ]
  transfer fuel index f content buffer writes m =
      let s : Stream = f.file_stream in
      end_rw index f (record s { failed = false }) buffer (c_string buffer) m

  -- `rw_file` from the second `open_file` on.
  unfoldable pub reopened : ℕ → ℕ → List ℕ → List ℕ → IoOperate → FileManager → Option Rw
  reopened fuel index content buffer type m = elim (open_index openable index rw_access m) [
    | none ↦ none
    | some opened ↦ elim (file_at index opened.1) [
      | none ↦ none
      | some f ↦
          if not f.file_stream.is_open
          then some (record { success = false; manager = opened.1; buffer = buffer; written = [] })
          else transfer fuel index f content buffer type opened.1
    ]
  ]

  -- `rw_file`: `none` is a null pointer, or a loop that has used up the fuel.
  unfoldable pub rw_file : ℕ → ℕ → List ℕ → List ℕ → IoOperate → FileManager → Option Rw
  rw_file fuel name content buffer type m = elim (find_file name m.catalogue) [
    | none ↦ some (record { success = false; manager = m; buffer = buffer; written = [] })
    | some index ↦ elim (file_at index m) [
      | none ↦ none
      | some f ↦
          if f.opened
          then (elim (close_index index m) [
            | none ↦ none
            | some closed ↦ reopened fuel index content buffer type closed.1
          ])
          else reopened fuel index content buffer type m
    ]
  ]
