-- ===== src/Lib.antt =====
-- An asynchronous io scheduler: coroutines, a thread pool that runs them, timers, and an epoll
-- loop that turns readiness of file descriptors into tasks.
--
-- How the parts work together. A worker thread runs `schedule::run`: it takes tasks (coroutines
-- or callbacks) from one queue, switches to each, and looks at the state that it comes back in.
-- With no task it switches to the idle coroutine, which runs `io_schedule::idle`: that waits in
-- `epoll_wait` for as long as the first timer allows, puts the callbacks of the timers due and of
-- the descriptors ready into the queue, and switches back. `RegisterEvent` and `AddTimer` are how
-- other code asks for both.
--
-- Timer, Timer/OrderedSet: src/concurrent/timer.cpp, include/timer.h. Timers are objects on a
-- heap, a `shared_ptr` is an address or null, and the `std::set` is the sequence that its tree
-- holds, searched and extended with the comparator given (one that is not a strict order, so the
-- sequence is what the library's tree does with it). `AddTimer` of a pointer is for one that is
-- not null. A reading of the clock is an argument.
--
-- Coroutine: src/concurrent/coroutine.cpp, include/coroutine.h. A switch of context is the change
-- of the running coroutine; what the other context does is a value of `Leave` (it yields, returns
-- or throws) or a parameter. `swapcontext` is taken to succeed.
--
-- Schedule, Schedule/Run: src/concurrent/schedule.cpp, include/schedule.h. `Machine` is one
-- thread's view of the scheduler; `run_round` is a round of the loop of `run`, with `notify` and
-- the code of the coroutine entered as parameters; it goes on only where that code gives control
-- to the scheduler's main coroutine. Schedule/Pool is the pool of threads on one scheduler: a
-- relation of steps on the shared queue and the task that each thread runs, in every order.
-- Schedule/Lifetime is the destructor.
--
-- Event, IoSchedule, IoSchedule/Idle: src/concurrent/event.cpp, include/event.h, src/io/io.cpp,
-- include/io.h. The kernel's epoll instance is a parameter (`Kernel`): what it keeps, and the
-- result of each `epoll_ctl`. `idle_round` is a round of the loop of `idle`, given what
-- `epoll_wait` delivers. The union `epoll_data` is a sum: an entry is the pipe's, null, or an
-- event's. The pipe's entry carries what `m_pipefds[0]` held when the constructor read it, which
-- is before `pipe` writes it; an entry whose data are not the pipe's descriptor is taken for a
-- pointer. Reading the pipe empties it. There is one scheduler. Descriptors are below 2 ^ 30.
--
-- Handle: src/manager/handle.cpp, include/handle.h. MemoryPool (MemoryPool/Teardown for the
-- destructors, MemoryPool/Runs for sequences of its operations; a word that `fill` writes past
-- its chunk is listed in `overruns`): src/manager/memory_pool.cpp, include/memory_pool.h. Times:
-- src/manager/times.cpp, include/times.h. Address, Address/Families: src/net/address.cpp,
-- include/address.h. What `fstat`, `malloc`, `localtime` and the clocks answer is a parameter or
-- an argument in each.
--
-- Hook: src/manager/hook.cpp, include/hook.h. The original calls are parameters, and so is the
-- value of the local that `read` and `write` return; Hook/Originals has the variables of the
-- originals, over a `dlsym` that is a parameter. Thread: src/concurrent/thread.cpp,
-- include/thread.h: the semaphore, and the constructor and the new thread as a relation of steps
-- that interleave; Thread/Join is the end of a thread object.
--
-- Logger: src/manager/logger.cpp, include/logger.h. Logger/Pattern is the parser of a format
-- string, which is a list of bytes, Logger/Items what its items write of an event, Logger/Wrap
-- the record of the events of a day, Logger the appenders and loggers, Logger/Lifetime the two
-- single objects and the destructors, and Logger/Macros the macros with which the program logs a
-- line, for an event or for null. What a stream is given is a list of `Output`.
--
-- Socket: src/net/socket.cpp, include/socket.h. What the kernel answers is an argument, and each
-- operation returns the calls that it makes. Files: src/manager/file.cpp, include/file.h: the
-- table of files, Files/ReadWrite reading and writing one, and Files/Streams the templates on
-- streams of bytes. Whether the system opens a file is a parameter; a name is a number.
--
-- IoSchedule/Operations puts the operations of the scheduler together: `Operation` is what other
-- code and the idle coroutine do, `Allowed` what the code relies on for it, and `Runs` a sequence
-- of them; IoSchedule/Construct is the constructor, and Schedule/Stop is `stop`. Logger/FileLog
-- puts the logger and the file manager together.
--
-- Boot: src/boot/command.cpp, src/boot/io_server.cpp, include/command.h, include/init.h: the
-- objects that the program has one of, the command line, and the daemon, as the acts of a process
-- over the answers of `fork`. Boot/Serve is the server: its loop is followed for as many calls of
-- `Accept` as there are answers.
--
-- Integers are natural numbers with the wrap-around of `uint32_t` and `uint64_t` written out
-- (Prelude/Words). Fuel: `MemoryPool.allocate` takes 2, its first call and the one that it makes
-- of itself after a new chunk; `Times.digits` takes 20, one for each decimal digit of a 64-bit
-- number; `Logger.Pattern.explain` takes one more than the length of the pattern, and each round
-- of its loop reads a character at least; `Files.ReadWrite.read_lines` takes its fuel as an
-- argument, and one more than the bytes of the file is enough on a stream that has not failed.
-- `Files.Streams.read_stream` takes its fuel as an argument, and 2 is enough on a stream that is
-- good. `Hook.usleep` calls itself on fuel, and does not return where it does so. All other loops
-- are structural. A mutex or a read-write lock makes the code under it one step.
--
-- Not modelled: reference counts and freed memory, and `malloc_memory`, which does not compile
-- where it is used; and failures of the kernel other than those of `epoll_ctl`, `fstat`, `fork`
-- and the calls of a socket.
--
-- Examples applies each theorem to a small concrete state.
pub mod Prelude
pub mod Timer
pub mod Handle
pub mod Coroutine
pub mod Schedule
pub mod Event
pub mod IoSchedule
pub mod MemoryPool
pub mod Hook
pub mod Thread
pub mod Logger
pub mod Socket
pub mod Files
pub mod Times
pub mod Boot
pub mod Address
pub mod Examples
