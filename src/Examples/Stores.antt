-- ===== src/Examples/Stores.antt =====
-- The theorems on descriptors, the pool, addresses and dates, on concrete states.
use io_scheduler.Address.Broadcast.{get_boardaddress_lem}
use io_scheduler.Handle.Table.{Added, AtPlace, add_fd-Added}
use io_scheduler.MemoryPool.{Manager, allocate, index, new_manager, new_object, roundup}
use io_scheduler.MemoryPool.Fill.{Supplied, allocate-Supplied}
use io_scheduler.MemoryPool.Invariant.{PoolInv, new_manager-PoolInv}
use io_scheduler.MemoryPool.Queues.{new_object-queue}
use io_scheduler.MemoryPool.Runs.{
  PoolOp, creates, deletes, pool_steps, pool_steps-new_manager, recycles,
}
use io_scheduler.Times.{Time, Tm, now_time}
use io_scheduler.Handle.{Mode, Table, add_fd, init_context, new_fd_context, socket, socket_file}
use io_scheduler.Address.{get_boardaddress, get_subnetmask, htonl, ipv4_address}
use io_scheduler.Prelude.{
  List, OnSome, Option, [], arith, ◌+◌, ◌*◌, ◌<◌, ◌≤◌, get_elem?, none, refl, some, ℕ, ◌%◌, ◌-◌,
  ◌/◌, ◌^◌, ◌∷◌, ◌≡◌,
}

-- Every open file is a socket.
abbrev sockets : ℕ → Option Mode
sockets fd = some socket_file

abbrev one_entry : Table
one_entry = some (new_fd_context sockets 0) ∷ none ∷ []

one_entry-AtPlace : AtPlace 0 one_entry
unfolding new_fd_context init_context
one_entry-AtPlace = (refl, tt)

add_fd-Added_example :
    let (t', done) = add_fd sockets 5 socket one_entry in Added sockets 5 socket one_entry t' done
add_fd-Added_example = add_fd-Added sockets 5 socket one_entry (omega arith) one_entry-AtPlace

-- A `malloc` that answers one address for every size.
abbrev fixed : ℕ → ℕ → ℕ
fixed n size = 4096

allocate-Supplied_example :
    OnSome (Supplied fixed 24 16 new_manager) (allocate fixed 2 24 16 new_manager)
unfolding new_manager
allocate-Supplied_example =
    allocate-Supplied fixed 24 16 new_manager (omega arith) (omega arith) (omega arith)
      (omega arith) refl

-- An object of 24 bytes and one of 200 are made, and a first one deleted and another recycled.
abbrev pool_ops : List PoolOp
pool_ops = creates 24 ∷ creates 200 ∷ deletes 4096 ∷ creates 8 ∷ recycles 5000 ∷ []

pool_steps-new_manager_example : OnSome PoolInv (pool_steps fixed pool_ops new_manager)
pool_steps-new_manager_example =
    pool_steps-new_manager fixed pool_ops
      (omega arith, (omega arith, (tt, (omega arith, (tt, tt)))))

empty_queue : get_elem? new_manager.free_list (index 24) ≡ some 0
unfolding new_manager index
empty_queue = refl

new_object-queue_example :
    OnSome
      (λ (r : ℕ × Manager).
        ((nums : ℕ) × (0 < nums) × (nums ≤ 16) × (r.1.begin ≡ r.0 + roundup 24 * nums))
        × (get_elem? r.1.free_list (index 24) ≡ some 0))
      (new_object fixed 24 new_manager)
new_object-queue_example =
    new_object-queue fixed 24 new_manager new_manager-PoolInv (omega arith) (omega arith)
      empty_queue

abbrev pub late_tm : Tm
late_tm = record {
  tm_sec = 1;
  tm_min = 2;
  tm_hour = 12;
  tm_mday = 31;
  tm_wday = 6;
  tm_mon = 0;
  tm_year = 124;
}

abbrev midnight : Time
midnight = now_time (record { second = 0; msecond = 0 }) late_tm

-- 192.168.1.10 in a network of 24 bits.
get_boardaddress_lem_example :
    (htonl (get_boardaddress 0 24 (ipv4_address 3232235786 80)).addr / 2 ^ (32 - 24)
      ≡ 3232235786 / 2 ^ (32 - 24))
    × (htonl (get_boardaddress 0 24 (ipv4_address 3232235786 80)).addr % 2 ^ (32 - 24)
        ≡ 2 ^ (32 - 24) - 1)
    × (htonl (get_subnetmask 0 24).addr ≡ 4294967296 - 2 ^ (32 - 24))
get_boardaddress_lem_example = get_boardaddress_lem 0 24 3232235786 80 (omega arith) (omega arith)
