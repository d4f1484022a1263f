-- ===== src/Address/Families.antt =====
-- src/net/address.cpp: IPv6 addresses, addresses made from texts, and what the two classes share. `inet_pton` is
-- a parameter: the address of a text, or none where it fails; `junk` is what the stack held.
use io_scheduler.Address.{Family, SockaddrIn, get_port, htons, inet, inet6, ipv4_address, set_port}
use io_scheduler.Address.Subnets.{htons-htons}
use io_scheduler.Prelude.{
  ==→≡, Bool-cases, inl, inr, Bool, List, Option, arith, false, if◌then◌else◌, none, replicate,
  some, true, ℕ, ◌<◌, ◌==◌, ◌≡◌, ◌≢◌,
}

-- `sockaddr_in6`, as far as it is not zero: the 16 bytes of the address.
pub record SockaddrIn6 : Type 0 where
  pub family6 : Family
  pub port6 : ℕ
  pub addr6 : List ℕ

-- `ipv6_address()`.
unfoldable pub ipv6_address : SockaddrIn6
ipv6_address = record { family6 = inet6; port6 = 0; addr6 = replicate 16 0 }

-- `ipv6_address(const sockaddr_in6&)`: the family is its own.
unfoldable pub ipv6_of_sockaddr : SockaddrIn6 → SockaddrIn6
ipv6_of_sockaddr a = record { family6 = inet6; port6 = a.port6; addr6 = a.addr6 }

-- `ipv6_address(uint8_t[16], port)`.
unfoldable pub ipv6_of_bytes : List ℕ → ℕ → SockaddrIn6
ipv6_of_bytes addr port = record { family6 = inet6; port6 = htons port; addr6 = addr }

-- `ipv6_address::create`: whether `inet_pton` succeeded is not looked at.
unfoldable pub create_ipv6 : (List ℕ → Option (List ℕ)) → List ℕ → List ℕ → ℕ → SockaddrIn6
unfolding ipv6_of_sockaddr
create_ipv6 inet_pton junk ip port = ipv6_of_sockaddr (record {
  family6 = inet6;
  port6 = htons port;
  addr6 = elim (inet_pton ip) [ none ↦ junk | some a ↦ a ];
})

-- `ipv4_address(const sockaddr_in&)`: the family is copied.
unfoldable pub ipv4_of_sockaddr : SockaddrIn → SockaddrIn
ipv4_of_sockaddr a = record { family = a.family; port = a.port; addr = a.addr }

-- `ipv4_address(const std::string&, port)`, with `inet_addr`.
unfoldable pub ipv4_of_text : (List ℕ → ℕ) → List ℕ → ℕ → SockaddrIn
ipv4_of_text inet_addr text port = record {
  family = inet;
  port = htons port;
  addr = inet_addr text;
}

-- `ipv4_address::create`, in the same way.
unfoldable pub create_ipv4 : (List ℕ → Option ℕ) → ℕ → List ℕ → ℕ → SockaddrIn
unfolding ipv4_of_sockaddr
create_ipv4 inet_pton junk ip port = ipv4_of_sockaddr (record {
  family = inet;
  port = htons port;
  addr = elim (inet_pton ip) [ none ↦ junk | some a ↦ a ];
})

-- An object of a class under `net_address`.
pub data NetObject : Type 0 where
  ipv4_object : SockaddrIn → NetObject
  ipv6_object : SockaddrIn6 → NetObject

-- The virtual `get_family`, which reads no field, and the family in what `get_addr` points to.
unfoldable pub get_family : NetObject → Family
get_family (ipv4_object a) = inet
get_family (ipv6_object a) = inet6

unfoldable pub sa_family : NetObject → Family
sa_family (ipv4_object a) = a.family
sa_family (ipv6_object a) = a.family6

-- `get_length`: the sizes of the two structures.
unfoldable pub get_length : NetObject → ℕ
get_length (ipv4_object a) = 16
get_length (ipv6_object a) = 28

unfoldable pub get_object_port : NetObject → ℕ
unfolding get_port
get_object_port (ipv4_object a) = get_port a
get_object_port (ipv6_object a) = htons a.port6

unfoldable pub set_object_port : ℕ → NetObject → NetObject
unfolding set_port
set_object_port port (ipv4_object a) = ipv4_object (set_port port a)
set_object_port port (ipv6_object a) = ipv6_object (record a { port6 = htons port })

-- The number of a family.
abbrev pub family_number : Family → ℕ
family_number inet = 2
family_number inet6 = 10
family_number Family.unix = 1
family_number Family.other_family = 0

-- `operator==`. The arrays `sa_data` are compared as pointers: `here` is the place of the local copy and
-- `there` that of the other address.
unfoldable pub equals : ℕ → ℕ → NetObject → NetObject → Bool
unfolding get_family sa_family
equals here there a b =
    if family_number (sa_family a) == family_number (get_family b)
    then (if here == there then true else false)
    else false

-- `get_boardaddress` and `get_subnetmask` of an IPv6 address are null.
unfoldable pub get_boardaddress6 : ℕ → SockaddrIn6 → Option NetObject
get_boardaddress6 prefix_len a = none

unfoldable pub get_subnetmask6 : ℕ → SockaddrIn6 → Option NetObject
get_subnetmask6 prefix_len a = none

-- `lookup` finds nothing and answers that it did.
unfoldable pub lookup : List NetObject → List ℕ → ℕ → ℕ → ℕ → List NetObject × Bool
lookup hub host family type protocol = (hub, true)

-- The port that an address is made with, or is set, is the port that it has, if it fits in 16 bits: of
-- every constructor that takes one, whether the text is an address or not.
pub get_object_port-made :
    (a : NetObject) (port : ℕ) (bytes ip : List ℕ) (addr : ℕ) (inet_addr : List ℕ → ℕ)
    (pton4 : List ℕ → Option ℕ) (pton6 : List ℕ → Option (List ℕ))
    → port < 65536
    → (get_object_port (set_object_port port a) ≡ port)
      × (get_object_port (ipv4_object (ipv4_address addr port)) ≡ port)
      × (get_object_port (ipv4_object (ipv4_of_text inet_addr ip port)) ≡ port)
      × (get_object_port (ipv4_object (create_ipv4 pton4 addr ip port)) ≡ port)
      × (get_object_port (ipv6_object (ipv6_of_bytes bytes port)) ≡ port)
      × (get_object_port (ipv6_object (create_ipv6 pton6 bytes ip port)) ≡ port)
unfolding get_object_port set_object_port get_port set_port ipv4_address ipv4_of_text create_ipv4
    ipv4_of_sockaddr ipv6_of_bytes create_ipv6 ipv6_of_sockaddr
get_object_port-made (ipv4_object a) port bytes ip addr inet_addr pton4 pton6 h =
    let e = htons-htons port h in (e, e, e, e, e, e)
get_object_port-made (ipv6_object a) port bytes ip addr inet_addr pton4 pton6 h =
    let e = htons-htons port h in (e, e, e, e, e, e)

-- As the copy stands at a place of its own, no address equals any, itself included.
pub equals_never : (here there : ℕ) (a b : NetObject) → here ≢ there → equals here there a b ≡ false
unfolding equals
equals_never here there a b h = elim (Bool-cases (here == there)) [
  | inl e ↦ absurd (h (==→≡ here there e))
  | inr e ↦ ground (arith, e)
]
