-- ===== src/Handle.antt =====
-- src/manager/handle.cpp and include/handle.h: what is known of the open descriptors. `fstat` is a
-- parameter: the kind of the file behind a descriptor, or its failure.
pub mod Table
use io_scheduler.Prelude.{
  Bool, List, Option, [], false, get_elem?, if◌then◌else◌, leb, length, none, not, replicate, set,
  some, true, ℕ, ◌*◌, ◌++◌, ◌-◌, ◌==◌, ◌||◌, ◌∷◌,
}

pub data FdType : Type 0 where
  ordinary device socket link unknown : FdType

pub FdType-discrete : Discrete FdType
FdType-discrete = hlevel

-- The number of the enumerator.
abbrev pub type_number : FdType → ℕ
type_number ordinary = 0
type_number device = 1
type_number socket = 2
type_number link = 3
type_number unknown = 4

abbrev pub same_type : FdType → FdType → Bool
same_type a b = type_number a == type_number b

-- The file modes that `init` tells apart.
pub data Mode : Type 0 where
  regular block_device char_device socket_file symbolic_link other_file : Mode

pub record FdContext : Type 0 where
  pub fd : ℕ
  pub is_init : Bool
  pub closed : Bool
  pub type : FdType
  pub send_timeout : ℕ
  pub receive_timeout : ℕ

unfoldable pub type_of_mode : Mode → FdType
type_of_mode regular = ordinary
type_of_mode block_device = device
type_of_mode char_device = device
type_of_mode socket_file = socket
type_of_mode symbolic_link = link
type_of_mode other_file = unknown

-- `fd_context::init`, with what `fstat` answered.
unfoldable pub init_context : Option Mode → FdContext → FdContext
init_context state c = if c.closed then record c { is_init = false } else (elim state [
  | none ↦ record c { is_init = false }
  | some mode ↦ record c { is_init = true; type = type_of_mode mode }
])

-- `fd_context::fd_context`.
unfoldable pub new_fd_context : (ℕ → Option Mode) → ℕ → FdContext
new_fd_context fstat fd = init_context (fstat fd) (record {
  fd = fd;
  is_init = false;
  closed = false;
  type = unknown;
  send_timeout = 0;
  receive_timeout = 0;
})

-- `close`, with the answer of `fcntl`: whether it was not -1.
unfoldable pub close_context : Bool → FdContext → FdContext
close_context done c = if c.closed || not done then c else record c { closed = true }

-- The two flags that the timeouts know; any other is ignored.
pub data TimeoutFlag : Type 0 where
  so_rcvtimeo so_sndtimeo other_flag : TimeoutFlag

unfoldable pub set_timeout : TimeoutFlag → ℕ → FdContext → FdContext
set_timeout so_rcvtimeo t c = record c { receive_timeout = t }
set_timeout so_sndtimeo t c = record c { send_timeout = t }
set_timeout other_flag t c = c

unfoldable pub get_timeout : TimeoutFlag → FdContext → ℕ
get_timeout so_rcvtimeo c = c.receive_timeout
get_timeout so_sndtimeo c = c.send_timeout
get_timeout other_flag c = 0

-- `handle::m_fds`: an entry may be a null pointer.
abbrev pub Table : Type 0
Table = List (Option FdContext)

-- `handle::handle`.
unfoldable pub new_handle : Table
new_handle = replicate 16 none

unfoldable pub grow : ℕ → Table → Table
grow size t = t ++ replicate (size - length t) none

-- `AddFd`.
unfoldable pub add_fd : (ℕ → Option Mode) → ℕ → FdType → Table → Table × Bool
add_fd fstat fd type t =
    let roomy = if leb (length t) fd then grow (fd * 2) t else t in
    let c = new_fd_context fstat fd in
    if same_type c.type type then (set roomy fd (some c), true) else (roomy, false)

-- `CancelFd`: `none` is an access out of range.
unfoldable pub cancel_entry : ℕ → FdType → Option FdContext → Table → Table × Bool
cancel_entry fd type none t = (t, false)
cancel_entry fd type (some c) t =
    if same_type c.type type then (set t fd none, true) else (t, false)

unfoldable pub cancel_fd : ℕ → FdType → Table → Option (Table × Bool)
cancel_fd fd type t =
    if leb (length t) (type_number type)
    then some (t, false)
    else (elim (get_elem? t fd) [ none ↦ none | some entry ↦ some (cancel_entry fd type entry t) ])

-- What `GetFd` does: a pointer returned, or a read through a null one.
pub data Lookup : Type 0 where
  pointer : Option FdContext → Lookup
  null_read : Lookup

unfoldable pub get_fd : ℕ → Table → Lookup
get_fd fd [] = pointer none
get_fd fd (none ∷ t) = null_read
get_fd fd (some c ∷ t) = if c.fd == fd then pointer (some c) else get_fd fd t
