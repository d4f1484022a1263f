-- ===== src/Files/Table.antt =====
-- The table of a file manager: a name in the catalogue stands for an entry of the array with that name.
use io_scheduler.Files.{FileEntry, FileManager, file_at, find_file, put_file}
use io_scheduler.Prelude.{
  ==→≡, All, Bool-cases, List, OnSome, OnSome-some, Option, Option-cases, [], ap, arith, false,
  get_elem?, get_elem?-set_ne, get_elem?-set_self, inl, inr, length, length-set, lt_of_get_elem?,
  none, set, some, subst, sym, ℕ, ◌<◌, ◌==◌, ◌∙◌, ◌∷◌, ◌≡◌, ◌≢◌,
}

in_array :
    (index : ℕ) (f f' : FileEntry) (files : List (Option FileEntry))
    → (elim (get_elem? files index) [ none ↦ none | some x ↦ x ]) ≡ some f
    → get_elem? (set files index (some f')) index ≡ some (some f')
in_array index f f' files h = elim (Option-cases (get_elem? files index)) [
  | inl n ↦ absurd (none_some (rw n at h))
  | inr (x, n) ↦ get_elem?-set_self files index (some f') (lt_of_get_elem? files index x n)
]
  where
    none_some : none ≡ some f → ⊥
    none_some q = cc

pub file_at-put_file :
    (index : ℕ) (f f' : FileEntry) (m : FileManager)
    → file_at index m ≡ some f
    → file_at index (put_file index f' m) ≡ some f'
unfolding file_at put_file
file_at-put_file index f f' m h = elim (Option-cases m.files) [
  | inl n ↦ cc
  | inr (files, n) ↦ rw (file_at, put_file, n, in_array index f f' files (rw n at h))
]

-- The entry of `file_at`, if it has the name.
abbrev pub Named : ℕ → Option FileEntry → Type 0
Named name = OnSome (λ (f : FileEntry). f.name ≡ name)

abbrev pub Listed : FileManager → ℕ × ℕ → Type 0
Listed m entry = Named entry.0 (file_at entry.1 m) × (entry.1 < m.file_num)

-- Until the files are deleted: the array has its size, and each name of the catalogue stands for an entry
-- in use that has the name.
pub record Inv (m : FileManager) : Type 0 where
  pub size : OnSome (λ (files : List (Option FileEntry)). length files ≡ m.max_num) m.files
  pub listed : All (Listed m) m.catalogue

pub All-imp :
    {P Q : ℕ × ℕ → Type 0} (xs : List (ℕ × ℕ)) → ((x : ℕ × ℕ) → P x → Q x) → All P xs → All Q xs
All-imp [] f p = tt
All-imp (x ∷ xs) f p = (f x p.0, All-imp xs f p.1)

==_false→≢ : (a b : ℕ) → (a == b) ≡ false → a ≢ b
==_false→≢ a b h = λ e. ground arith

put_file_null : (i : ℕ) (f : FileEntry) (m : FileManager) → m.files ≡ none → put_file i f m ≡ m
unfolding put_file
put_file_null i f m n = ground arith

-- What `put_file` leaves alone.
pub put_file_keeps :
    (i : ℕ) (f : FileEntry) (m : FileManager)
    → let m' = put_file i f m in
      (m'.catalogue ≡ m.catalogue) × (m'.file_num ≡ m.file_num) × (m'.max_num ≡ m.max_num)
unfolding put_file
put_file_keeps i f m = (ground arith, ground arith, ground arith)

put_file-size :
    (n i : ℕ) (f : FileEntry) (m : FileManager)
    → OnSome (λ (files : List (Option FileEntry)). length files ≡ n) m.files
    → OnSome (λ (files : List (Option FileEntry)). length files ≡ n) (put_file i f m).files
unfolding put_file
put_file-size n i f m h =
    let (files, q, l) =
      OnSome-some (λ (files : List (Option FileEntry)). length files ≡ n) m.files h in
    rw q (length-set files i (some f) ∙ l)

file_at-put_file_ne :
    (i j : ℕ) (f : FileEntry) (m : FileManager) → i ≢ j → file_at j (put_file i f m) ≡ file_at j m
unfolding file_at put_file
file_at-put_file_ne i j f m h = elim (Option-cases m.files) [
  | inl n ↦ ap (file_at j) (put_file_null i f m n)
  | inr (files, n) ↦ rw (file_at, put_file, n, get_elem?-set_ne files i j (some f) h)
]

put_file-Named :
    (i j n : ℕ) (f f' : FileEntry) (m : FileManager)
    → file_at i m ≡ some f
    → f'.name ≡ f.name
    → Named n (file_at j m)
    → Named n (file_at j (put_file i f' m))
put_file-Named i j n f f' m h e k = elim (Bool-cases (i == j)) [
  | inl q ↦
      let same = ==→≡ i j q in
      rw (← same)
        (rw (file_at-put_file i f f' m h) (e ∙ named_name (subst (Named n) h (rw (same) k))))
  | inr q ↦ rw (file_at-put_file_ne i j f' m (==_false→≢ i j q)) k
]
  where
    named_name : Named n (some f) → f.name ≡ n
    named_name p = p

pub find_file-Listed :
    (m : FileManager) (name index : ℕ) (xs : List (ℕ × ℕ))
    → All (Listed m) xs
    → find_file name xs ≡ some index
    → (f : FileEntry) × (file_at index m ≡ some f) × (f.name ≡ name)
unfolding find_file
find_file-Listed m name index [] p h = cc
find_file-Listed m name index (x ∷ xs) p h = elim (Bool-cases (x.0 == name)) [
  | inl q ↦
      let (f, g, e) = OnSome-some (λ (f : FileEntry). f.name ≡ x.0) (file_at x.1 m) p.0.0 in
      (f, ap (λ i. file_at i m) (sym (some_index (rw q at h))) ∙ g, e ∙ ==→≡ x.0 name q)
  | inr q ↦ find_file-Listed m name index xs p.1 (rw q at h)
]
  where
    some_index : some x.1 ≡ some index → x.1 ≡ index
    some_index q = cc

pub put_file-Inv :
    (index : ℕ) (f f' : FileEntry) (m : FileManager)
    → file_at index m ≡ some f
    → f'.name ≡ f.name
    → Inv m
    → Inv (put_file index f' m)
unfolding put_file
put_file-Inv index f f' m h e v =
    let k = put_file_keeps index f' m in
    record {
      size = rw k.2 (put_file-size m.max_num index f' m v.size);
      listed = rw k.0 (
          All-imp m.catalogue (λ x p. (put_file-Named index x.1 x.0 f f' m h e p.0, rw k.1 p.1))
            v.listed);
    }
