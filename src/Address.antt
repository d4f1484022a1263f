-- ===== src/Address.antt =====
-- src/net/address.cpp and include/address.h: socket addresses. A value in network order is what
-- `htons` and `htonl` make of it: here on a little-endian machine, its bytes reversed.
pub mod Subnets
pub mod Broadcast
pub mod Families
use io_scheduler.Prelude.{
  Bool, List, Option, [], false, if◌then◌else◌, none, not, some, suc, true, zero, ℕ, ◌%◌, ◌&&◌, ◌*◌,
  ◌++◌, ◌+◌, ◌-◌, ◌/◌, ◌==◌, ◌^◌, ◌∷◌,
}

unfoldable pub htons : ℕ → ℕ
htons x = x % 256 * 256 + x / 256 % 256

unfoldable pub htonl : ℕ → ℕ
htonl x = x % 256 * 16777216 + x / 256 % 256 * 65536 + x / 65536 % 256 * 256 + x / 16777216 % 256

pub data Family : Type 0 where
  inet inet6 unix other_family : Family

-- `sockaddr_in`.
pub record SockaddrIn : Type 0 where
  pub family : Family
  pub port : ℕ
  pub addr : ℕ

-- `ipv4_address::ipv4_address` of a 32-bit address and a port, in host order.
unfoldable pub ipv4_address : ℕ → ℕ → SockaddrIn
ipv4_address addr port = record { family = inet; port = htons port; addr = htonl addr }

unfoldable pub get_port : SockaddrIn → ℕ
get_port a = htons a.port

unfoldable pub set_port : ℕ → SockaddrIn → SockaddrIn
set_port port a = record a { port = htons port }

-- What `print` writes: numbers and characters.
pub data Piece : Type 0 where
  number : ℕ → Piece
  hex : ℕ → Piece
  open_bracket close_bracket dot colon endl : Piece

-- The loop of `ipv4_address::print`, from the octet `i` on.
unfoldable pub print_octets : ℕ → ℕ → List Piece
print_octets address zero = []
print_octets address (suc n) =
    number (address / 2 ^ (8 * n) % 256) ∷ (if n == 0 then [] else dot ∷ [])
    ++ print_octets address n

-- `ipv4_address::print`.
unfoldable pub print : SockaddrIn → List Piece
print a =
    open_bracket ∷ print_octets (htonl a.addr) 4
    ++ (close_bracket ∷ colon ∷ number (htons a.port) ∷ endl ∷ [])

-- `0xffffffff >> prefix_len`. A shift by 32 or more is undefined in the source, and here 0.
unfoldable pub host_mask : ℕ → ℕ
host_mask prefix_len = 4294967295 / 2 ^ prefix_len

-- `|=` with a mask of low bits: those bits become ones.
unfoldable pub or_low : ℕ → ℕ → ℕ
or_low addr mask = addr - addr % (mask + 1) + mask

-- `get_subnetmask`; the port of the local it fills stays as the stack had it, `junk`.
unfoldable pub get_subnetmask : ℕ → ℕ → SockaddrIn
get_subnetmask junk prefix_len = record {
  family = inet;
  port = junk;
  addr = htonl (4294967295 - host_mask prefix_len);
}

-- `get_boardaddress`, in the same way.
unfoldable pub get_boardaddress : ℕ → ℕ → SockaddrIn → SockaddrIn
get_boardaddress junk prefix_len a = record {
  family = inet;
  port = junk;
  addr = htonl (or_low (htonl a.addr) (host_mask prefix_len));
}

-- The loop of `ipv6_address::print` over the groups: the group before, if any, and whether a run of
-- zeros was left out already.
unfoldable pub print_groups : Option ℕ → Bool → List ℕ → List Piece
print_groups before use_zeros [] = []
print_groups before use_zeros (group ∷ rest) =
    let after_zero : Bool = elim before [ none ↦ false | some g ↦ g == 0 && not use_zeros ] in
    let first : Bool = elim before [ none ↦ true | some g ↦ false ] in
    let skipped = print_groups (some group) use_zeros rest in
    let printed = print_groups (some group) (if after_zero then true else use_zeros) rest in
    if group == 0 && not use_zeros
    then skipped
    else (if after_zero then colon ∷ [] else [])
      ++ (if first then [] else colon ∷ [])
      ++ hex group ∷ printed

-- `ipv6_address::print`, of the groups as the machine reads them.
unfoldable pub print6 : List ℕ → ℕ → List Piece
print6 groups port =
    open_bracket ∷ print_groups none false groups
    ++ (close_bracket ∷ colon ∷ number (htons port) ∷ endl ∷ [])

-- What `net_address::create` makes of a `sockaddr`: IPv6 for AF_UNIX, and null for AF_INET6.
pub data Created : Type 0 where
  null_address ipv4_created ipv6_created : Created

unfoldable pub create : Option Family → Created
create none = null_address
create (some inet) = ipv4_created
create (some inet6) = null_address
create (some unix) = ipv6_created
create (some other_family) = null_address
