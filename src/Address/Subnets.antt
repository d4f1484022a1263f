-- ===== src/Address/Subnets.antt =====
-- Addresses and ports in network order, and how an address is printed.
use io_scheduler.Address.{
  close_bracket, colon, dot, endl, get_port, htonl, htons, ipv4_address, number, open_bracket,
  print, print_octets, set_port,
}
use io_scheduler.Prelude.{[], arith, ℕ, ◌%◌, ◌/◌, ◌<◌, ◌∷◌, ◌≡◌}

pub htons-htons : (x : ℕ) → x < 65536 → htons (htons x) ≡ x
unfolding htons
htons-htons x h = omega arith

pub htonl-htonl : (x : ℕ) → x < 4294967296 → htonl (htonl x) ≡ x
unfolding htonl
htonl-htonl x h = omega arith

-- An address made of a number and a port prints the four octets of the number and the port, in decimal,
-- and has that port, until another is set.
pub ipv4_address-print :
    (addr port port' : ℕ)
    → addr < 4294967296
    → port < 65536
    → port' < 65536
    → (print (ipv4_address addr port)
        ≡ open_bracket
          ∷ number (addr / 16777216 % 256)
          ∷ dot
          ∷ number (addr / 65536 % 256)
          ∷ dot
          ∷ number (addr / 256 % 256)
          ∷ dot
          ∷ number (addr % 256)
          ∷ close_bracket
          ∷ colon
          ∷ number port
          ∷ endl
          ∷ [])
      × (get_port (ipv4_address addr port) ≡ port)
      × (get_port (set_port port' (ipv4_address addr port)) ≡ port')
unfolding print ipv4_address get_port set_port print_octets
ipv4_address-print addr port port' h k l = (
  rw (htonl-htonl addr h, htons-htons port k) (ground arith),
  htons-htons port k,
  htons-htons port' l,
)
