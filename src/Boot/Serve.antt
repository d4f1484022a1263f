-- ===== src/Boot/Serve.antt =====
-- src/boot/command.cpp: `command::implement`, the server. The loop is followed for as many calls of `Accept` as
-- there are answers; `stoi` is a parameter, which is none where it throws.
use io_scheduler.Boot.{Command}
use io_scheduler.Coroutine.{Fibers}
use io_scheduler.Handle.{Mode, Table}
use io_scheduler.IoSchedule.{Io, Kernel}
use io_scheduler.IoSchedule.Construct.{new_io_schedule}
use io_scheduler.Schedule.{Machine, start}
use io_scheduler.Socket.{
  Call, Socket, accept, bind_address, block_mode, close, ipv4, listen, new_socket, tcp,
}
use io_scheduler.Timer.{Timer}
use io_scheduler.Prelude.{
  negsuc, pos, u64_mod, ◌%◌, ◌-◌, ◌==◌, Bool, List, Option, [], false, if◌then◌else◌, none, some, ℕ,
  ℤ, ◌++◌, ◌∷◌,
}

-- The listening socket: its constructor, `Bind()` and `Listen()`, with the answers of `socket` and `bind`.
unfoldable pub open_listener : Option ℕ → Bool → Socket × List Call
open_listener fd bound =
    let (s, made) = new_socket tcp ipv4 0 block_mode fd in
    let (t, done, binds) = bind_address none bound s in (t, made ++ binds ++ listen t)

-- What the kernel answers in a round of the loop: the descriptor accepted, and the answer of `socket` to
-- the constructor of the new socket.
pub record Arrival : Type 0 where
  pub accepted : Option ℕ
  pub own : Option ℕ

-- `if(test.get()) test->close()`.
abbrev pub close_client : Option Socket → List Call
close_client none = []
close_client (some c) = (close c).2

module _ (fstat : ℕ → Option Mode) where
  -- The rounds of `while(1)`: what they do, and the listener and the table after them.
  unfoldable pub serve : List Arrival → Table → Socket → Socket × Table × List Call
  serve [] table s = (s, table, [])
  serve (a ∷ rest) table s =
      let r = accept fstat a.accepted a.own table s in
      let (s', table', calls) = serve rest r.table r.listener in
      (s', table', r.calls ++ close_client r.client ++ calls)

-- What `implement` comes to: `stoi` throws, an assertion fails, or it serves.
pub data Service (E : Type 0) : Type 0 where
  throws aborts : List Call → Service E
  serves : Machine E → Table → List Call → Service E

-- An `int` as a `size_t`.
unfoldable pub to_size : ℤ → ℕ
to_size (pos n) = n % u64_mod
to_size (negsuc n) = u64_mod - 1 - n % u64_mod

module _ (kernel : Kernel) where
  open kernel use {Epoll}

  -- `implement`. The scheduler is built with the answers of the system that its constructor reads, and
  -- started with the ids that its threads get; the arrivals are what the loop gets.
  unfoldable pub implement :
      (List ℕ → Option ℤ)
      → (ℕ → Option Mode)
      → Epoll
      → ℕ
      → ℕ
      → (ℕ → Timer)
      → ℕ
      → ℕ
      → Fibers
      → List ℕ
      → Option ℕ
      → Bool
      → List Arrival
      → Table
      → Command
      → Service (Io Epoll)
  unfolding open_listener serve to_size
  implement stoi fstat epoll pipe unset heap clock tid fibers ids fd bound arrivals table self =
      let (s, calls) = open_listener fd bound in
      let (s', table', served) = serve fstat arrivals table s in
      elim (stoi self.cmd) [
        | none ↦ throws calls
        | some n ↦
            if to_size n == 0
            then aborts calls
            else (elim (new_io_schedule kernel epoll pipe unset heap clock (to_size n) false tid
                fibers) [
                  | none ↦ aborts calls
                  | some m ↦
                      serves (record m { sched = start ids m.sched }) table' (calls ++ served)
                ])
      ]
