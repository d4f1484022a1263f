-- ===== src/Socket.antt =====
-- src/net/socket.cpp and include/socket.h: sockets. What the kernel answers to each call is an argument:
-- a descriptor or none for -1, whether a call succeeded, or the count of a transfer. An operation returns the
-- calls that it makes, in their order. An address is its family and a number that stands for the rest;
-- `create` of an address from a text is an argument too. `dump` and `BreakConnect` do nothing here.
pub mod Descriptors
use io_scheduler.Prelude.{
  Bool, List, Option, [], false, if◌then◌else◌, ltb, negsuc, none, not, pos, some, true, u32_mod, ℕ,
  ℤ, ◌%◌, ◌++◌, ◌-◌, ◌^◌, ◌||◌, ◌∷◌,
}
use io_scheduler.Handle.{Mode, Table, add_fd, socket}

pub data Domain : Type 0 where
  ipv4 ipv6 : Domain

pub data Kind : Type 0 where
  tcp udp : Kind

pub data IoMode : Type 0 where
  block_mode no_block_mode : IoMode

abbrev pub same_domain : Domain → Domain → Bool
same_domain ipv4 ipv4 = true
same_domain ipv6 ipv6 = true
same_domain _ _ = false

pub record NetAddress : Type 0 where
  pub domain : Domain
  pub place : ℕ

-- `ipv4_address()` and `ipv6_address()`.
abbrev pub default_address : Domain → NetAddress
default_address d = record { domain = d; place = 0 }

-- `fd` is none for -1. `is_bind` is never set.
pub record Socket : Type 0 where
  pub local_address : Option NetAddress
  pub remote_address : Option NetAddress
  pub is_connected : Bool
  pub is_bind : Bool
  pub fd : Option ℕ
  pub domain : Domain
  pub kind : Kind
  pub protocol : ℕ
  pub mode : IoMode

pub data Call : Type 0 where
  socket_call fcntl_call listen_call accept_call close_call : Option ℕ → Call
  bind_call connect_call : Option ℕ → Option NetAddress → Call
  send_call recv_call : Option ℕ → ℕ → Call

abbrev pub mode_calls : IoMode → Option ℕ → List Call
mode_calls block_mode fd = []
mode_calls no_block_mode fd = fcntl_call fd ∷ []

-- `Socket::Socket`; `fd` is the answer of `socket`, which the first call records.
unfoldable pub new_socket : Kind → Domain → ℕ → IoMode → Option ℕ → Socket × List Call
new_socket kind domain protocol mode fd = (
  record {
    local_address = none;
    remote_address = none;
    is_connected = false;
    is_bind = false;
    fd = fd;
    domain = domain;
    kind = kind;
    protocol = protocol;
    mode = mode;
  },
  socket_call fd ∷ mode_calls mode fd,
)

abbrev pub or_default : Domain → Option NetAddress → Option NetAddress
or_default d none = some (default_address d)
or_default d (some a) = some a

-- `GetLocalAddress`, which returns the field that it leaves.
unfoldable pub get_local_address : Socket → Socket
get_local_address s = record s { local_address = or_default s.domain s.local_address }

-- `GetRemoteAddress`: of a remote address that is there, the local one is returned.
unfoldable pub get_remote_address : Socket → Socket × Option NetAddress
get_remote_address s = elim s.remote_address [
  | some a ↦ (s, s.local_address)
  | none ↦ (
    record s { remote_address = some (default_address s.domain) },
    some (default_address s.domain),
  )
]

-- `InitSocket()`.
unfoldable pub init_socket : Socket → Socket
init_socket s = record s { local_address = none; remote_address = none }

-- `InitSocket(fd)`: the table of descriptors takes it if it is a socket.
unfoldable pub init_socket_fd : (ℕ → Option Mode) → ℕ → Table → Socket → Socket × Table × Bool
init_socket_fd fstat fd table s =
    let (table', done) = add_fd fstat fd socket table in
    let t = (get_remote_address (get_local_address (record s { fd = some fd }))).0 in
    if done then (record t { is_connected = true }, table', true) else (s, table', false)

-- The end of both `Bind`: `bound` is the answer of `bind`.
unfoldable pub bind_local : Bool → Socket → Socket × Bool × List Call
bind_local bound s = (s, bound, bind_call s.fd s.local_address ∷ [])

-- `Bind(ip, port)`, with the address created from its arguments.
unfoldable pub bind_text : NetAddress → Bool → Socket → Socket × Bool × List Call
bind_text created bound s = bind_local bound (record s { local_address = some created })

abbrev pub is_some {ℓ} : {A : Type ℓ} → Option A → Bool
is_some none = false
is_some (some a) = true

-- `Bind(address)`.
unfoldable pub bind_address : Option NetAddress → Bool → Socket → Socket × Bool × List Call
bind_address none bound s = bind_local bound (get_local_address s)
bind_address (some a) bound s =
    if is_some s.local_address || s.is_connected
    then (s, false, [])
    else (if not (same_domain a.domain s.domain)
        then (s, false, [])
        else bind_local bound (record s { local_address = some a }))

-- `Connect`, for an address that is not null.
unfoldable pub connect : NetAddress → Bool → Socket → Socket × Bool × List Call
connect a connected s = if not (same_domain a.domain s.domain) then (s, false, []) else (
  record s { remote_address = some a; is_connected = connected || s.is_connected },
  connected,
  connect_call s.fd (some a) ∷ [],
)

unfoldable pub listen : Socket → List Call
listen s = listen_call s.fd ∷ []

-- `close`.
unfoldable pub close : Socket → Socket × Bool × List Call
close s =
    if s.is_connected
    then (record s { is_connected = false }, true, close_call s.fd ∷ [])
    else (s, false, [])

-- What `Accept` leaves: the listener, the new socket if there is one, the table and the calls.
pub record Accepted : Type 0 where
  pub listener : Socket
  pub client : Option Socket
  pub table : Table
  pub calls : List Call

-- The new socket of `Accept`, made by the constructor, with the answer `own` of its `socket`, and then
-- given the accepted descriptor. One that is not initialised is destroyed.
unfoldable pub accept_client : (ℕ → Option Mode) → ℕ → Option ℕ → Table → Socket → Accepted
accept_client fstat fd own table s =
    let (fresh, calls) = new_socket s.kind s.domain 0 no_block_mode own in
    let (client, table', done) = init_socket_fd fstat fd table fresh in
    if done
    then record {
      listener = record s { is_connected = true };
      client = some client;
      table = table';
      calls = calls;
    }
    else record { listener = s; client = none; table = table'; calls = calls ++ (close client).2 }

-- `Accept`, with the answers of `accept` and of `socket`.
unfoldable pub accept : (ℕ → Option Mode) → Option ℕ → Option ℕ → Table → Socket → Accepted
accept fstat none own table s = record {
  listener = s;
  client = none;
  table = table;
  calls = accept_call none ∷ [];
}
accept fstat (some fd) own table s =
    let r = accept_client fstat fd own table s in
    record r { calls = accept_call (some fd) ∷ r.calls }

-- `Send`: the answer of the kernel is not looked at.
unfoldable pub send : ℕ → Socket → Bool × List Call
send size s = if s.is_connected then (true, send_call s.fd size ∷ []) else (false, [])

-- `Receive`: neither is the state.
unfoldable pub receive : ℕ → Socket → Bool × List Call
receive size s = (true, recv_call s.fd size ∷ [])

pub data Actor : Type 0 where
  server client_actor : Actor

-- A count as `uint32_t`, and that as `int32_t`.
unfoldable pub to_u32 : ℤ → ℕ
to_u32 (pos n) = n % u32_mod
to_u32 (negsuc n) = u32_mod - 1 - n % u32_mod

unfoldable pub to_i32 : ℕ → ℤ
to_i32 n = if ltb n (2 ^ 31) then pos n else negsuc (u32_mod - 1 - n)

abbrev pub actor_fd : Actor → ℕ → Socket → Option ℕ
actor_fd server fd s = some fd
actor_fd client_actor fd s = s.fd

-- `Write` and `Read`: the count of the hooked call on a descriptor of the caller's or on the own one.
unfoldable pub write_socket : ℤ → ℕ → Actor → ℕ → Socket → ℤ × List Call
write_socket count size actor fd s =
    if s.is_connected
    then (to_i32 (to_u32 count), send_call (actor_fd actor fd s) size ∷ [])
    else (negsuc 0, [])

unfoldable pub read_socket : ℤ → ℕ → Actor → ℕ → Socket → ℤ × List Call
read_socket count size actor fd s =
    if s.is_connected
    then (to_i32 (to_u32 count), recv_call (actor_fd actor fd s) size ∷ [])
    else (negsuc 0, [])
