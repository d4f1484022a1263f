-- ===== src/Boot.antt =====
-- src/boot/command.cpp, src/boot/io_server.cpp, include/command.h and include/init.h: the program's start. The
-- answers of `fork`, and `strcmp`, are arguments. A process is what it does, in order.
pub mod Daemon
pub mod Serve
pub mod Connections
use io_scheduler.Files.{FileManager, new_file_manager}
use io_scheduler.MemoryPool.{Manager, new_manager}
use io_scheduler.Times.{Time}
use io_scheduler.Prelude.{
  Bool, List, Option, [], codes, eq_ℤ, false, get_elem?, if◌then◌else◌, length, ltb, negsuc, none,
  not, pos, some, suc, true, zero, ℕ, ℤ, ◌&&◌, ◌++◌, ◌-◌, ◌∷◌,
}

-- The objects that the program has one of, the name of the thread, and `hook_state`.
pub record Globals : Type 0 where
  pub time_manager : Option Time
  pub manager : Option Manager
  pub file_manager : Option FileManager
  pub thread_name : List ℕ
  pub hook_state : Bool

-- `GetTimeManager`, `GetMemoryManger` and `GetFileManager`: the object is made at the first call.
abbrev pub get_or_make : {A : Type 0} → A → Option A → A
get_or_make fresh none = fresh
get_or_make fresh (some a) = a

unfoldable pub get_time_manager : Time → Globals → Time × Globals
get_time_manager fresh g =
    let t = get_or_make fresh g.time_manager in (t, record g { time_manager = some t })

unfoldable pub get_memory_manager : Globals → Manager × Globals
get_memory_manager g =
    let m = get_or_make new_manager g.manager in (m, record g { manager = some m })

unfoldable pub get_file_manager : Globals → FileManager × Globals
get_file_manager g =
    let m = get_or_make (new_file_manager 64) g.file_manager in
    (m, record g { file_manager = some m })

unfoldable pub set_hook_state : Bool → Globals → Globals
set_hook_state flag g = record g { hook_state = flag }

unfoldable pub is_enable_hook : Globals → Bool
is_enable_hook g = if g.hook_state then true else false

-- `Thread::set_name` and `get_this_threadname`.
unfoldable pub set_name : List ℕ → Globals → Globals
set_name name g = record g { thread_name = name }

unfoldable pub get_this_threadname : Globals → List ℕ
get_this_threadname g = g.thread_name

-- `load`, with the time manager that a constructor would make; the text is what it prints.
unfoldable pub load : Time → Globals → Globals × List ℕ
unfolding get_time_manager get_memory_manager get_file_manager set_name get_this_threadname
    set_hook_state
load fresh g =
    let g1 = (get_time_manager fresh g).1 in
    let g2 = (get_memory_manager g1).1 in
    let g3 = (get_file_manager g2).1 in
    let g4 = set_name (codes "start server...") g3 in
    (set_hook_state true g4, get_this_threadname g4)

pub data Signal : Type 0 where
  sigttou sigttin sigtstp sighup sigchld : Signal

-- What a process does: `exits` ends it, and `tasks` runs the task.
pub data Act : Type 0 where
  ignores : Signal → Act
  forks : ℤ → Act
  exits : ℕ → Act
  sets_sid changes_directory clears_umask tasks : Act
  closes : ℕ → Act
  prints : List ℕ → Act
  prints_error : Act

-- The loop that closes the descriptors below `n`, from `n - k` on.
unfoldable pub close_from : ℕ → ℕ → List Act
close_from n zero = []
close_from n (suc k) = closes (n - suc k) ∷ close_from n k

-- A test of a number as a condition.
abbrev pub is_set : ℤ → Bool
is_set n = not (eq_ℤ n (pos 0))

-- What follows the second `fork`.
unfoldable pub second_fork : ℤ → List Act
unfolding close_from
second_fork process =
    if is_set process
    then exits 0 ∷ []
    else (if eq_ℤ process (negsuc 0)
        then exits 1 ∷ []
        else close_from 1024 1024
          ++ changes_directory ∷ clears_umask ∷ ignores sigchld ∷ tasks ∷ [])

-- `init_daemon`, with what the two calls of `fork` answer in the process that is followed.
unfoldable pub init_daemon : ℤ → ℤ → List Act
unfolding second_fork
init_daemon first second =
    ignores sigttou
    ∷ ignores sigttin
    ∷ ignores sigtstp
    ∷ ignores sighup
    ∷ forks first
    ∷ (if is_set first
        then exits 0 ∷ []
        else (if eq_ℤ first (negsuc 0)
            then exits 1 ∷ []
            else (if not (is_set first) then sets_sid ∷ forks second ∷ second_fork second else [])))

-- `command`, as far as `implement` reads it.
pub record Command : Type 0 where
  pub number : ℕ
  pub cmd : List ℕ

-- What the constructor leaves: the object and what the process did. `faults` is an access of an argument
-- that is not there.
pub data Constructed : Type 0 where
  faults aborts : Constructed
  constructed : Command → Globals → List Act → Constructed

module _ (strcmp : List ℕ → List ℕ → ℤ) where
  -- `m_cmd` and `value` after the first test.
  abbrev pub read_arguments : List (List ℕ) → Option (List ℕ × ℤ)
  read_arguments argv =
      if ltb 2 (length argv)
      then (elim (get_elem? argv 2) [
        | none ↦ none
        | some cmd ↦ elim (get_elem? argv 1) [
          | none ↦ none
          | some word ↦ some (cmd, strcmp word (codes "start"))
        ]
      ])
      else some ([], negsuc 0)

  -- `command::command`, of `argc` arguments, with the time manager that a constructor would make and the
  -- answers of `fork`.
  unfoldable pub new_command : Time → List (List ℕ) → ℤ → ℤ → Globals → Constructed
  unfolding init_daemon load
  new_command fresh argv first second g = elim (read_arguments argv) [
    | none ↦ faults
    | some (cmd, value) ↦
        let self : Command = record { number = length argv; cmd = cmd } in
        let (g', name) = load fresh g in
        if not (is_set value)
        then (if ltb 2 (length argv)
            then constructed self g' (prints name ∷ init_daemon first second)
            else aborts)
        else constructed self g'
            (prints name ∷ (if is_set value && ltb 1 (length argv) then prints_error ∷ [] else []))
  ]
