-- ===== src/Examples/Sockets.antt =====
-- The theorems on sockets, on concrete uses of one.
use io_scheduler.Socket.{Socket, accept, block_mode, ipv4, new_socket, tcp}
use io_scheduler.Handle.{
  Mode, Table, add_fd, init_context, new_fd_context, socket, socket_file, type_of_mode,
}
use io_scheduler.Socket.Descriptors.{
  Action, accept-life, binds, closed, closes, life, listens, opened,
}
use io_scheduler.Prelude.{All, List, OnSome, Option, [], none, refl, some, true, ℕ, ◌++◌, ◌∷◌, ◌≡◌}

abbrev listens_then_closes : List Action
listens_then_closes = binds none true ∷ listens ∷ closes ∷ []

abbrev server : Socket
server = (new_socket tcp ipv4 0 block_mode (some 3)).0

-- Every descriptor is a socket.
abbrev sockets : ℕ → Option Mode
sockets fd = some socket_file

abbrev two_entries : Table
two_entries = none ∷ none ∷ none ∷ none ∷ none ∷ none ∷ none ∷ none ∷ none ∷ none ∷ []

entered : (add_fd sockets 4 socket two_entries).1 ≡ true
unfolding add_fd io_scheduler.Handle.new_fd_context io_scheduler.Handle.init_context
    io_scheduler.Handle.type_of_mode
entered = refl

accept-life_example :
    OnSome
      (λ c.
        (opened (accept sockets (some 4) (some 5) two_entries server).calls ≡ some 5 ∷ [])
        × All
            (λ x. x ≡ some 4)
            (closed (
              (accept sockets (some 4) (some 5) two_entries server).calls ++ life (closes ∷ []) c)))
      (accept sockets (some 4) (some 5) two_entries server).client
accept-life_example = accept-life sockets 4 (some 5) two_entries server (closes ∷ []) entered
