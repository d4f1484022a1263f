-- ===== src/Files/Reading.antt =====
-- What `rw_file` reads, and when it does not come to an end.
use io_scheduler.Files.Lines.{read_lines-content, read_lines-failed}
use io_scheduler.Files.Table.{Inv, file_at-put_file}
use io_scheduler.Files.Actions.{HasRoom, with_file, with_file-new}
use io_scheduler.Files.{
  FileEntry, FileManager, OpenMode, Stream, add_file, close_index, close_stream, exist, file_at,
  find_file, in_out_binary_mode, in_out_mode, mode_of_access, new_file, open_index, open_stream,
  put_file, rw_access, switched,
}
use io_scheduler.Files.ReadWrite.{
  IoOperate, Rw, c_string, end_rw, reads, reopened, rw_file, transfer, writes,
}
use io_scheduler.Prelude.{
  ==_refl, Bool, Bool-cases, List, OnSome, OnSome-some, Option, [], arith, false, inl, inr, length,
  lt→ltb, none, refl, some, true, ℕ, ◌++◌, ◌<◌, ◌==◌, ◌∷◌, ◌≡◌,
}

not_forgotten : (name i : ℕ) (xs : List (ℕ × ℕ)) → exist name (some i) xs ≡ none → ⊥
unfolding exist
not_forgotten name i [] h = cc
not_forgotten name i (x ∷ xs) h = elim (Bool-cases (x.0 == name)) [
  | inl q ↦ not_forgotten name x.1 xs (rw q at h)
  | inr q ↦ not_forgotten name i xs (rw q at h)
]

pub find_file-new :
    (name n : ℕ) (xs : List (ℕ × ℕ))
    → exist name none xs ≡ none
    → find_file name (xs ++ (name, n) ∷ []) ≡ some n
unfolding exist find_file
find_file-new name n [] h = rw (==_refl name)
find_file-new name n (x ∷ xs) h = elim (Bool-cases (x.0 == name)) [
  | inl q ↦ absurd (not_forgotten name x.1 xs (rw q at h))
  | inr q ↦ rw (find_file, q) (find_file-new name n xs (rw q at h))
]

module _ (openable : ℕ → OpenMode → Bool) where
  Ended : List ℕ → List ℕ → Rw → Type 0
  Ended buffer written result =
      (result.success ≡ true) × (result.buffer ≡ buffer) × (result.written ≡ written)

  end_rw-Ended :
      (index : ℕ) (f f' : FileEntry) (s : Stream) (buffer written : List ℕ) (m : FileManager)
      → file_at index m ≡ some f'
      → f.opened ≡ true
      → OnSome (Ended buffer written) (end_rw openable index f s buffer written m)
  unfolding end_rw close_index Ended
  end_rw-Ended index f f' s buffer written m h o =
      rw
        (
          end_rw,
          close_index,
          file_at-put_file index f' (record f { file_stream = close_stream s }) m h,
          o,
        )
        (refl, refl, refl)

  abbrev opened_at : FileEntry → Bool → FileEntry
  opened_at f b = record f { file_stream = record { is_open = true; failed = b }; opened = true }

  reopened-transfer :
      (fuel index : ℕ) (content buffer : List ℕ) (f : FileEntry) (type : IoOperate) (b : Bool)
      (m : FileManager)
      → file_at index m ≡ some f
      → switched openable rw_access f ≡ record { is_open = true; failed = b }
      → reopened openable fuel index content buffer type m
        ≡ transfer openable fuel index
            (opened_at f b)
            content
            buffer
            type
            (put_file index (opened_at f b) m)
  unfolding reopened open_index
  reopened-transfer fuel index content buffer f type b m g o =
      rw (reopened, open_index, g, o, file_at-put_file index f (opened_at f b) m g)

  switched-closed :
      (f : FileEntry)
      → f.file_stream.is_open ≡ false
      → openable f.name in_out_binary_mode ≡ true
      → switched openable rw_access f ≡ record { is_open = true; failed = false }
  unfolding switched mode_of_access open_stream
  switched-closed f s w = rw (switched, open_stream, s, w)

  switched-open :
      (f : FileEntry)
      → f.file_stream.is_open ≡ true
      → switched openable rw_access f ≡ record { is_open = true; failed = true }
  unfolding switched mode_of_access open_stream
  switched-open f s = rw (switched, open_stream, s)

  -- If the stream of a file is not open and the system opens it for reading and writing, `rw_file` appends to
  -- the buffer what the file holds and one more newline, whether or not the file ends in one, and is successful;
  -- one unit of fuel more than there are bytes is enough.
  pub rw_file-read :
      (fuel name index : ℕ) (content buffer : List ℕ) (f : FileEntry) (m : FileManager)
      → find_file name m.catalogue ≡ some index
      → file_at index m ≡ some f
      → f.opened ≡ false
      → f.file_stream.is_open ≡ false
      → openable f.name in_out_binary_mode ≡ true
      → length content < fuel
      → OnSome
          (λ (result : Rw).
            (result.success ≡ true)
            × (result.buffer ≡ buffer ++ content ++ 10 ∷ [])
            × (result.written ≡ []))
          (rw_file openable fuel name content buffer reads m)
  unfolding rw_file transfer Ended
  rw_file-read fuel name index content buffer f m h g o s w l =
      rw
        (
          rw_file,
          h,
          g,
          o,
          reopened-transfer fuel index content buffer f reads false m g (switched-closed f s w),
          transfer,
          read_lines-content fuel [] content buffer l,
        )
        (end_rw-Ended index (opened_at f false) (opened_at f false)
          (record { is_open = true; failed = false }) (buffer ++ content ++ 10 ∷ []) []
          (put_file index (opened_at f false) m) (file_at-put_file index f (opened_at f false) m g)
          refl)

  -- The same on a stream that is open, which fails when it is opened again.
  rw_file_stuck :
      (fuel name index : ℕ) (content buffer : List ℕ) (f : FileEntry) (m : FileManager)
      → find_file name m.catalogue ≡ some index
      → file_at index m ≡ some f
      → f.opened ≡ false
      → f.file_stream.is_open ≡ true
      → (rw_file openable fuel name content buffer reads m ≡ none)
        × OnSome
            (λ (result : Rw).
              (result.success ≡ true)
              × (result.buffer ≡ buffer)
              × (result.written ≡ c_string buffer))
            (rw_file openable fuel name content buffer writes m)
  unfolding rw_file transfer Ended
  rw_file_stuck fuel name index content buffer f m h g o s =
      let e = λ (type : IoOperate).
        reopened-transfer fuel index content buffer f type true m g (switched-open f s) in
      (
        rw (rw_file, h, g, o, e reads, transfer, read_lines-failed fuel [] content buffer),
        rw (rw_file, h, g, o, e writes, transfer)
            (end_rw-Ended index (opened_at f true) (opened_at f true)
              (record { is_open = true; failed = false }) buffer (c_string buffer)
              (put_file index (opened_at f true) m)
              (file_at-put_file index f (opened_at f true) m g) refl),
      )

  -- If a manager is not full, its catalogue is in order and has not the name, and the system opens the file,
  -- then after `add_file` a reading `rw_file` of it does not return on any fuel, whatever the file holds,
  -- and a writing one is successful and writes the buffer up to its first null byte.
  pub rw_file-add_file :
      (fuel name : ℕ) (content buffer : List ℕ) (m : FileManager)
      → HasRoom m
      → Inv m
      → exist name none m.catalogue ≡ none
      → openable name in_out_mode ≡ true
      → OnSome
          (λ (m' : FileManager).
            (rw_file openable fuel name content buffer reads m' ≡ none)
            × OnSome
                (λ (result : Rw).
                  (result.success ≡ true)
                  × (result.buffer ≡ buffer)
                  × (result.written ≡ c_string buffer))
                (rw_file openable fuel name content buffer writes m'))
          (add_file openable name m)
  unfolding add_file
  rw_file-add_file fuel name content buffer m h v n w =
      let (files, q, l) =
        OnSome-some (λ (files : List (Option FileEntry)). length files ≡ m.max_num) m.files
          v.size in
      rw (add_file, n, q, lt→ltb m.file_num m.max_num h)
        (rw_file_stuck fuel name m.file_num content buffer (new_file openable name)
          (with_file openable name files m) (find_file-new name m.file_num m.catalogue n)
          (with_file-new openable name files m (omega arith)) (unfold new_file in refl)
          (unfold new_file in unfold open_stream in rw w refl))
