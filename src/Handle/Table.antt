-- ===== src/Handle/Table.antt =====
-- The table of descriptors: where entries stand, and what a lookup meets.
use native.Mathlib.Nat.{add-suc, zero-add}
use io_scheduler.Prelude.{
  Bool, Bool-cases, Option, [], arith, false, get_elem?, get_elem?-set_ne, get_elem?-set_self,
  if◌then◌else◌, inl, inr, leb, length, length-append, length-replicate, length-set, ltb,
  ltb_false→le, ltb→lt, ◌≤◌, none, refl, replicate, set, some, subst, suc, sym, true, zero, ℕ, ◌*◌,
  ◌++◌, ◌+◌, ◌-◌, ◌<◌, ◌∙◌, ◌∷◌, ◌≡◌, ◌≢◌,
}
use io_scheduler.Handle.{
  FdContext, FdType, Lookup, Mode, Table, add_fd, get_fd, grow, init_context, new_fd_context,
  new_handle, null_read, pointer, same_type,
}

-- The entry at each position is null, or for that descriptor.
abbrev pub AtPlace : ℕ → Table → Type 0
AtPlace i [] = Unit {0}
AtPlace i (none ∷ t) = AtPlace (suc i) t
AtPlace i (some c ∷ t) = (c.fd ≡ i) × AtPlace (suc i) t

new_fd_context-fd : (fstat : ℕ → Option Mode) (fd : ℕ) → (new_fd_context fstat fd).fd ≡ fd
unfolding new_fd_context init_context
new_fd_context-fd fstat fd = ground arith

replicate-AtPlace : (i n : ℕ) → AtPlace i (replicate n none)
replicate-AtPlace i zero = tt
replicate-AtPlace i (suc n) = replicate-AtPlace (suc i) n

grown-AtPlace : (i n : ℕ) (t : Table) → AtPlace i t → AtPlace i (t ++ replicate n none)
grown-AtPlace i n [] h = replicate-AtPlace i n
grown-AtPlace i n (none ∷ t) h = grown-AtPlace (suc i) n t h
grown-AtPlace i n (some c ∷ t) h = (h.0, grown-AtPlace (suc i) n t h.1)

set-some-AtPlace :
    (i k : ℕ) (c : FdContext) (t : Table)
    → c.fd ≡ i + k
    → AtPlace i t
    → AtPlace i (set t k (some c))
set-some-AtPlace i k c [] e h = tt
set-some-AtPlace i zero c (none ∷ t) e h = (omega arith, h)
set-some-AtPlace i zero c (some d ∷ t) e h = (omega arith, h.1)
set-some-AtPlace i (suc k) c (none ∷ t) e h = set-some-AtPlace (suc i) k c t (omega arith) h
set-some-AtPlace i (suc k) c (some d ∷ t) e h =
    (h.0, set-some-AtPlace (suc i) k c t (omega arith) h.1)

-- What `AddFd` does: where the table does not reach to the descriptor, it grows to twice its number, by
-- null entries; the entry is written exactly if the file is of the type asked for, and else the place
-- is as it was, or null where it is new.
pub record Added (fstat : ℕ → Option Mode) (fd : ℕ) (type : FdType) (t t' : Table) (done : Bool)
    : Type 0 where
  pub answer : done ≡ same_type (new_fd_context fstat fd).type type
  pub entry : done ≡ true → get_elem? t' fd ≡ some (some (new_fd_context fstat fd))
  pub no_entry :
      done ≡ false → get_elem? t' fd ≡ (if ltb fd (length t) then get_elem? t fd else some none)
  pub others : (i : ℕ) → fd ≢ i → i < length t → get_elem? t' i ≡ get_elem? t i
  pub new_places : (i : ℕ) → fd ≢ i → length t ≤ i → i < length t' → get_elem? t' i ≡ some none
  pub size : length t' ≡ (if ltb fd (length t) then length t else fd * 2)
  pub in_place : AtPlace 0 t'

get_elem?-grown :
    (xs : Table) (n i : ℕ) → i < length xs → get_elem? (xs ++ replicate n none) i ≡ get_elem? xs i
get_elem?-grown [] n i h = elim h [ ]
get_elem?-grown (x ∷ xs) n zero h = refl
get_elem?-grown (x ∷ xs) n (suc i) h = get_elem?-grown xs n i (omega arith)

roomy : ℕ → Table → Table
roomy fd t = if leb (length t) fd then grow (fd * 2) t else t

roomy-length : (fd : ℕ) (t : Table) → 0 < length t → fd < length (roomy fd t)
unfolding roomy grow
roomy-length fd t h = ground (
  arith,
  length-append t (replicate (fd * 2 - length t) none),
  length-replicate {A = Option FdContext} (fd * 2 - length t) none,
)

roomy-old : (fd i : ℕ) (t : Table) → i < length t → get_elem? (roomy fd t) i ≡ get_elem? t i
unfolding roomy grow
roomy-old fd i t h = ground (arith, get_elem?-grown t (fd * 2 - length t) i h)

get_elem?-new :
    (xs : Table) (n i : ℕ)
    → length xs ≤ i
    → i < length xs + n
    → get_elem? (xs ++ replicate n none) i ≡ some none
get_elem?-new [] zero i h k = elim k [ ]
get_elem?-new [] (suc n) zero h k = refl
get_elem?-new [] (suc n) (suc i) h k = get_elem?-new [] n i (omega arith) (omega arith)
get_elem?-new (x ∷ xs) n zero h k = elim h [ ]
get_elem?-new (x ∷ xs) n (suc i) h k = get_elem?-new xs n i (omega arith) (omega arith)

roomy-size :
    (fd : ℕ) (t : Table)
    → 0 < length t
    → length (roomy fd t) ≡ (if ltb fd (length t) then length t else fd * 2)
unfolding roomy grow
roomy-size fd t h = ground (
  arith,
  length-append t (replicate (fd * 2 - length t) none),
  length-replicate {A = Option FdContext} (fd * 2 - length t) none,
)

roomy-new :
    (fd i : ℕ) (t : Table)
    → 0 < length t
    → length t ≤ i
    → i < length (roomy fd t)
    → get_elem? (roomy fd t) i ≡ some none
unfolding roomy grow
roomy-new fd i t h k l = elim (Bool-cases (leb (length t) fd)) [
  | inl e ↦ rw e (
      get_elem?-new t (fd * 2 - length t) i k (
        omega (
          arith,
          rw e at l,
          length-append t (replicate (fd * 2 - length t) none),
          length-replicate {A = Option FdContext} (fd * 2 - length t) none,
        )))
  | inr e ↦ absurd (below (rw e at l))
]
  where
    below : i < length t → ⊥
    below b = omega arith

roomy-there :
    (fd : ℕ) (t : Table)
    → 0 < length t
    → get_elem? (roomy fd t) fd ≡ (if ltb fd (length t) then get_elem? t fd else some none)
roomy-there fd t h = elim (Bool-cases (ltb fd (length t))) [
  | inl e ↦ rw e (roomy-old fd fd t (ltb→lt fd (length t) e))
  | inr e ↦ rw e (roomy-new fd fd t h (ltb_false→le fd (length t) e) (roomy-length fd t h))
]

roomy-AtPlace : (fd : ℕ) (t : Table) → AtPlace 0 t → AtPlace 0 (roomy fd t)
unfolding roomy grow
roomy-AtPlace fd t h = elim (Bool-cases (leb (length t) fd)) [
  | inl e ↦ rw e (grown-AtPlace 0 (fd * 2 - length t) t h)
  | inr e ↦ rw e h
]

-- `AddFd` on a table that is not empty, whose entries are at the place of their descriptors: it grows by null entries
-- to twice the descriptor where that is not inside, and keeps the other entries. It answers whether the file has the
-- type asked for; if so, the place has the new entry, and if not, the place is as it was, or null where it is new.
-- Every entry is at the place of its descriptor.
pub add_fd-Added :
    (fstat : ℕ → Option Mode) (fd : ℕ) (type : FdType) (t : Table)
    → 0 < length t
    → AtPlace 0 t
    → let (t', done) = add_fd fstat fd type t in Added fstat fd type t t' done
unfolding add_fd roomy
add_fd-Added fstat fd type t h p = by_answer (same_type c.type type) refl
  where
    c : FdContext
    c = new_fd_context fstat fd

    by_answer :
        (b : Bool)
        → same_type c.type type ≡ b
        → let r : Table × Bool =
            if b then (set (roomy fd t) fd (some c), true) else (roomy fd t, false) in
          Added fstat fd type t r.0 r.1
    by_answer true e = record {
      answer = sym e;
      entry = λ d. get_elem?-set_self (roomy fd t) fd (some c) (roomy-length fd t h);
      no_entry = λ d. cc;
      new_places = λ i d k l.
          get_elem?-set_ne (roomy fd t) fd i (some c) d
          ∙ roomy-new fd i t h k (rw (length-set (roomy fd t) fd (some c)) at l);
      size = length-set (roomy fd t) fd (some c) ∙ roomy-size fd t h;
      others = λ i d k. get_elem?-set_ne (roomy fd t) fd i (some c) d ∙ roomy-old fd i t k;
      in_place =
          set-some-AtPlace 0 fd c (roomy fd t) (new_fd_context-fd fstat fd ∙ omega arith)
            (roomy-AtPlace fd t p);
    }
    by_answer false e = record {
      answer = sym e;
      entry = λ d. cc;
      no_entry = λ d. roomy-there fd t h;
      new_places = λ i d k l. roomy-new fd i t h k l;
      size = roomy-size fd t h;
      others = λ i d k. roomy-old fd i t k;
      in_place = roomy-AtPlace fd t p;
    }

-- The first `k` entries are there and not null.
abbrev pub is_full : ℕ → Table → Bool
is_full zero t = true
is_full (suc k) [] = false
is_full (suc k) (none ∷ t) = false
is_full (suc k) (some c ∷ t) = is_full k t

abbrev pub entry_read : Option FdContext → Lookup
entry_read none = null_read
entry_read (some c) = pointer (some c)

lookup_from :
    (i k : ℕ) (t : Table) (x : Option FdContext)
    → AtPlace i t
    → get_elem? t k ≡ some x
    → get_fd (i + k) t ≡ (if is_full k t then entry_read x else null_read)
unfolding get_fd
lookup_from i k [] x p h = cc
lookup_from i zero (none ∷ t) none p h = refl
lookup_from i zero (none ∷ t) (some d) p h = cc
lookup_from i zero (some c ∷ t) none p h = cc
lookup_from i zero (some c ∷ t) (some d) p h = ground arith
lookup_from i (suc k) (none ∷ t) x p h = refl
lookup_from i (suc k) (some c ∷ t) x p h =
    ground (arith, lookup_from (suc i) k t x p.1 h, add-suc i k)

-- `GetFd` of a descriptor of the table returns its entry exactly if no entry up to it is null, and
-- reads through a null pointer otherwise.
pub get_fd_lem :
    (fd : ℕ) (t : Table) (x : Option FdContext)
    → AtPlace 0 t
    → get_elem? t fd ≡ some x
    → get_fd fd t ≡ (if is_full fd t then entry_read x else null_read)
get_fd_lem fd t x p h =
    subst (λ k. get_fd k t ≡ (if is_full fd t then entry_read x else null_read)) (zero-add fd)
      (lookup_from 0 fd t x p h)

first_null : (k : ℕ) (t : Table) → get_elem? t 0 ≡ some none → get_fd k t ≡ null_read
unfolding get_fd
first_null k [] h = cc
first_null k (none ∷ t) h = refl
first_null k (some c ∷ t) h = cc

-- On a new handle, adding any descriptor but 0 leaves the first entry null: every lookup then, that of
-- the descriptor added too, reads through a null pointer.
pub get_fd-add_fd_null :
    (fstat : ℕ → Option Mode) (fd : ℕ) (type : FdType) (k : ℕ)
    → fd ≢ 0
    → get_fd k (add_fd fstat fd type new_handle).0 ≡ null_read
unfolding new_handle
get_fd-add_fd_null fstat fd type k n =
    let a = add_fd-Added fstat fd type (replicate 16 none) (omega arith) (replicate-AtPlace 0 16) in
    first_null k (add_fd fstat fd type (replicate 16 none)).0 (a.others 0 n (omega arith))
