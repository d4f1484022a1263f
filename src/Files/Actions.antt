-- ===== src/Files/Actions.antt =====
-- What is done with files by name, and what it keeps.
use io_scheduler.Files.{
  Access, FileEntry, FileManager, OpenMode, add_file, close_file, close_index, exist, file_at,
  find_file, new_file, open_file, open_index, switched,
}
use io_scheduler.Prelude.{
  All, Bool, Bool-cases, List, OnSome, OnSome-some, Option, Option-cases, [], arith,
  get_elem?-set_ne, get_elem?-set_self, inl, inr, length, length-set, lt→ltb, none, refl, set, some,
  suc, ℕ, ◌++◌, ◌<◌, ◌∙◌, ◌∷◌, ◌≡◌,
}
use io_scheduler.Files.Table.{Listed, Inv, All-imp, find_file-Listed, put_file-Inv}

-- What may be asked of a manager by name.
pub data Action : Type 0 where
  adds closes : ℕ → Action
  opens : ℕ → Access → Action

-- There is room for one more file.
abbrev pub HasRoom : FileManager → Type 0
HasRoom m = m.file_num < m.max_num

abbrev pub manager_of : Option (Bool × FileManager) → Option FileManager
manager_of none = none
manager_of (some r) = some r.1

module _ (openable : ℕ → OpenMode → Bool) where
  abbrev pub perform : Action → FileManager → Option FileManager
  perform (adds name) m = add_file openable name m
  perform (closes name) m = manager_of (close_file name m)
  perform (opens name access) m = manager_of (open_file openable name access m)

  -- The manager once a file is added that it did not have, in an array that is not null.
  abbrev pub with_file : ℕ → List (Option FileEntry) → FileManager → FileManager
  with_file name files m = record m {
    files = some (set files m.file_num (some (new_file openable name)));
    file_num = suc m.file_num;
    catalogue = m.catalogue ++ (name, m.file_num) ∷ [];
  }

  with_file-at :
      (name index : ℕ) (files : List (Option FileEntry)) (m : FileManager)
      → m.files ≡ some files
      → index < m.file_num
      → file_at index (with_file name files m) ≡ file_at index m
  unfolding file_at
  with_file-at name index files m q h = rw (
    file_at,
    q,
    get_elem?-set_ne files m.file_num index (some (new_file openable name)) (λ e. omega arith),
  )

  pub with_file-new :
      (name : ℕ) (files : List (Option FileEntry)) (m : FileManager)
      → m.file_num < length files
      → file_at m.file_num (with_file name files m) ≡ some (new_file openable name)
  unfolding file_at
  with_file-new name files m h =
      rw (file_at, get_elem?-set_self files m.file_num (some (new_file openable name)) h)

  All-snoc :
      (m : FileManager) (x : ℕ × ℕ) (xs : List (ℕ × ℕ))
      → All (Listed m) xs
      → Listed m x
      → All (Listed m) (xs ++ x ∷ [])
  All-snoc m x [] p q = (q, tt)
  All-snoc m x (y ∷ ys) p q = (p.0, All-snoc m x ys p.1 q)

  with_file-Inv :
      (name : ℕ) (files : List (Option FileEntry)) (m : FileManager)
      → m.files ≡ some files
      → length files ≡ m.max_num
      → HasRoom m
      → Inv m
      → Inv (with_file name files m)
  with_file-Inv name files m q l h v = record {
    size = length-set files m.file_num (some (new_file openable name)) ∙ l;
    listed =
        All-snoc (with_file name files m) (name, m.file_num) m.catalogue
          (All-imp m.catalogue (λ x p. (rw (with_file-at name x.1 files m q p.1) p.0, omega arith))
            v.listed)
          (rw (with_file-new name files m (omega arith)) (unfold new_file in refl), omega arith);
  }

  add_file-Inv :
      (name : ℕ) (m : FileManager) → HasRoom m → Inv m → OnSome Inv (add_file openable name m)
  unfolding add_file
  add_file-Inv name m h v = elim (Option-cases (exist name none m.catalogue)) [
    | inr (index, n) ↦ rw (add_file, n) v
    | inl n ↦
        let (files, q, l) =
          OnSome-some (λ (files : List (Option FileEntry)). length files ≡ m.max_num) m.files
            v.size in
        rw (add_file, n, q, lt→ltb m.file_num m.max_num h) (with_file-Inv name files m q l h v)
  ]

  close_file-Inv :
      (name : ℕ) (m : FileManager)
      → Inv m
      → OnSome (λ (r : Bool × FileManager). Inv r.1) (close_file name m)
  unfolding close_file close_index
  close_file-Inv name m v = elim (Option-cases (find_file name m.catalogue)) [
    | inl n ↦ rw (close_file, n) v
    | inr (index, n) ↦
        let (f, g, e) = find_file-Listed m name index m.catalogue v.listed n in
        elim (Bool-cases f.opened) [
          | inl o ↦ rw (close_file, n, close_index, g, o) (put_file-Inv index f _ m g refl v)
          | inr o ↦ rw (close_file, n, close_index, g, o) v
        ]
  ]

  open_file-Inv :
      (name : ℕ) (access : Access) (m : FileManager)
      → Inv m
      → OnSome (λ (r : Bool × FileManager). Inv r.1) (open_file openable name access m)
  unfolding open_file open_index
  open_file-Inv name access m v = elim (Option-cases (find_file name m.catalogue)) [
    | inl n ↦ rw (open_file, n) v
    | inr (index, n) ↦
        let (f, g, e) = find_file-Listed m name index m.catalogue v.listed n in
        elim (Bool-cases (switched openable access f).is_open) [
          | inl o ↦ rw (open_file, n, open_index, g, o) (put_file-Inv index f _ m g refl v)
          | inr o ↦ rw (open_file, n, open_index, g, o) (put_file-Inv index f _ m g refl v)
        ]
  ]

  manager_of-Inv :
      (o : Option (Bool × FileManager))
      → OnSome (λ (r : Bool × FileManager). Inv r.1) o
      → OnSome Inv (manager_of o)
  manager_of-Inv none h = h
  manager_of-Inv (some r) h = h

  -- If a manager is not full and its catalogue is in order (each name stands for an entry in use with that
  -- name), then adding, opening or closing whatever name reads no null pointer, writes inside the array, and
  -- leaves the catalogue in order.
  pub perform-Inv :
      (action : Action) (m : FileManager) → HasRoom m → Inv m → OnSome Inv (perform action m)
  perform-Inv (adds name) m h v = add_file-Inv name m h v
  perform-Inv (closes name) m h v = manager_of-Inv (close_file name m) (close_file-Inv name m v)
  perform-Inv (opens name access) m h v =
      manager_of-Inv (open_file openable name access m) (open_file-Inv name access m v)
