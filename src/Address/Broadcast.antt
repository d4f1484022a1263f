-- ===== src/Address/Broadcast.antt =====
-- The subnet mask and the broadcast address, against the split of an address into network and host.
use io_scheduler.Address.Subnets.{htonl-htonl}
use io_scheduler.Address.{get_boardaddress, get_subnetmask, host_mask, htonl, ipv4_address, or_low}
use io_scheduler.Prelude.{
  ==→≡, Bool, Bool-cases, and-right, ap, arith, false, inl, inr, le_or_lt, refl, suc, true, zero, ℕ,
  ◌%◌, ◌&&◌, ◌*◌, ◌+◌, ◌-◌, ◌/◌, ◌<◌, ◌==◌, ◌^◌, ◌∙◌, ◌≡◌, ◌≤◌,
}
use native.Mathlib.Nat.{
  add-mul-div_right, mul-add-mod_self_right, mod-eq_of_lt, div-eq_of_lt, mul-le-mul_right,
  div-add-mod', suc-mul,
}

-- A test of all numbers below `n`.
abbrev all_below : (ℕ → Bool) → ℕ → Bool
all_below p zero = true
all_below p (suc n) = p n && all_below p n

and-left : (a b : Bool) → (a && b) ≡ true → a ≡ true
and-left a b h = ground arith

smaller : (a b : ℕ) → a < suc b → (a == b) ≡ false → a < b
smaller a b l h = ground arith

below : (p : ℕ → Bool) (n : ℕ) → all_below p n ≡ true → (i : ℕ) → i < n → p i ≡ true
below p zero h i l = absurd (omega arith)
below p (suc n) h i l = elim (Bool-cases (i == n)) [
  | inl e ↦ rw (==→≡ i n e) (and-left (p n) (all_below p n) h)
  | inr e ↦ below p n (and-right (p n) (all_below p n) h) i (smaller i n l e)
]

-- With `prefix_len` network bits, the mask is one below the number of hosts, which divides all addresses.
is_mask : ℕ → Bool
is_mask prefix_len =
    (host_mask prefix_len + 1 == 2 ^ (32 - prefix_len))
    && (2 ^ prefix_len * 2 ^ (32 - prefix_len) == 2 ^ 32)

is_mask_below : (prefix_len : ℕ) → prefix_len < 32 → is_mask prefix_len ≡ true
unfolding is_mask host_mask
is_mask_below prefix_len h = below is_mask 32 refl prefix_len h

hosts_of :
    (prefix_len : ℕ)
    → prefix_len < 32
    → (host_mask prefix_len + 1 ≡ 2 ^ (32 - prefix_len))
      × (2 ^ prefix_len * 2 ^ (32 - prefix_len) ≡ 2 ^ 32)
unfolding is_mask
hosts_of prefix_len h =
    let masks = host_mask prefix_len + 1 == 2 ^ (32 - prefix_len) in
    let divides = 2 ^ prefix_len * 2 ^ (32 - prefix_len) == 2 ^ 32 in
    let e = is_mask_below prefix_len h in
    (==→≡ _ _ (and-left masks divides e), ==→≡ _ _ (and-right masks divides e))

-- A mask of one less than `hosts` makes ones of the host part.
or_low-hosts :
    (addr mask hosts : ℕ) → mask + 1 ≡ hosts → or_low addr mask ≡ addr / hosts * hosts + mask
unfolding or_low
or_low-hosts addr mask hosts h = rw h (omega (arith, div-add-mod' addr hosts))

div-block : (q mask hosts : ℕ) → mask + 1 ≡ hosts → (q * hosts + mask) / hosts ≡ q
div-block q mask hosts h =
    ap (λ n. n / hosts) (omega arith)
    ∙ (add-mul-div_right mask q (omega arith)
        ∙ ap (λ n. n + q) (div-eq_of_lt (omega arith))
        ∙ omega arith)

mod-block : (q mask hosts : ℕ) → mask + 1 ≡ hosts → (q * hosts + mask) % hosts ≡ mask
mod-block q mask hosts h = mul-add-mod_self_right q hosts mask ∙ mod-eq_of_lt (omega arith)

-- The last address of a block is in the range of the addresses.
block-bound :
    (addr networks mask hosts : ℕ)
    → mask + 1 ≡ hosts
    → addr < networks * hosts
    → addr / hosts * hosts + mask < networks * hosts
block-bound addr networks mask hosts h l = elim (le_or_lt networks (addr / hosts)) [
  | inl w ↦ absurd (omega (arith, mul-le-mul_right hosts w, div-add-mod' addr hosts))
  | inr w ↦
      let k : suc (addr / hosts) * hosts ≤ networks * hosts = mul-le-mul_right hosts w in
      omega (arith, suc-mul (addr / hosts) hosts, k)
]

-- For a prefix length below 32 and an address of 32 bits, in numbers of the host's order: the broadcast
-- address has the network part of the address and a host part of ones only, and the subnet mask is the
-- number of addresses less the number of hosts of the network.
pub get_boardaddress_lem :
    (junk prefix_len addr port : ℕ)
    → prefix_len < 32
    → addr < 4294967296
    → let board = htonl (get_boardaddress junk prefix_len (ipv4_address addr port)).addr in
      let hosts = 2 ^ (32 - prefix_len) in
      (board / hosts ≡ addr / hosts)
      × (board % hosts ≡ hosts - 1)
      × (htonl (get_subnetmask junk prefix_len).addr ≡ 4294967296 - hosts)
unfolding get_boardaddress get_subnetmask ipv4_address
get_boardaddress_lem junk prefix_len addr port p h =
    let mask = host_mask prefix_len in
    let hosts = 2 ^ (32 - prefix_len) in
    let (m, n) = hosts_of prefix_len p in
    let e = ap (λ a. or_low a mask) (htonl-htonl addr h) ∙ or_low-hosts addr mask hosts m in
    let l = block-bound addr (2 ^ prefix_len) mask hosts m (rw n h) in
    let board =
      ap (λ a. htonl (htonl a)) e ∙ htonl-htonl (addr / hosts * hosts + mask) (rw n at l) in
    (
      ap (λ a. a / hosts) board ∙ div-block (addr / hosts) mask hosts m,
      ap (λ a. a % hosts) board ∙ (mod-block (addr / hosts) mask hosts m ∙ omega arith),
      htonl-htonl (4294967295 - mask) (omega arith) ∙ omega arith,
    )
