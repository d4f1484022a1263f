-- ===== src/Socket/Descriptors.antt =====
-- Which descriptors a socket opens and closes.
use io_scheduler.Handle.{Mode, Table, add_fd, socket}
use io_scheduler.Socket.{
  Actor, Call, Domain, IoMode, Kind, NetAddress, Socket, accept, accept_client, bind_address,
  bind_call, bind_local, bind_text, block_mode, close, close_call, get_local_address,
  get_remote_address, init_socket_fd, is_some, listen, new_socket, no_block_mode, read_socket,
  receive, same_domain, send, socket_call, write_socket,
}
use io_scheduler.Prelude.{
  All, Bool, List, OnSome, Option, [], ap, false, if◌then◌else◌, none, not, refl, some, subst, sym,
  true, ℕ, ℤ, ◌++◌, ◌||◌, ◌∙◌, ◌∷◌, ◌≡◌,
}

-- What may be done with a socket, but for `Connect` and `Accept`.
pub data Action : Type 0 where
  binds : Option NetAddress → Bool → Action
  binds_text : NetAddress → Bool → Action
  listens closes : Action
  sends receives : ℕ → Action
  writes reads : ℤ → ℕ → Actor → ℕ → Action

abbrev pub act : Action → Socket → Socket × List Call
act (binds a bound) s = let (t, done, calls) = bind_address a bound s in (t, calls)
act (binds_text a bound) s = let (t, done, calls) = bind_text a bound s in (t, calls)
act listens s = (s, listen s)
act closes s = let (t, done, calls) = close s in (t, calls)
act (sends size) s = (s, (send size s).1)
act (receives size) s = (s, (receive size s).1)
act (writes count size actor fd) s = (s, (write_socket count size actor fd s).1)
act (reads count size actor fd) s = (s, (read_socket count size actor fd s).1)

-- The calls of a socket that is used in this way and then destroyed.
abbrev pub life : List Action → Socket → List Call
life [] s = (close s).2
life (a ∷ rest) s = (act a s).1 ++ life rest (act a s).0

abbrev pub opened : List Call → List (Option ℕ)
opened [] = []
opened (socket_call fd ∷ calls) = fd ∷ opened calls
opened (_ ∷ calls) = opened calls

abbrev pub closed : List Call → List (Option ℕ)
closed [] = []
closed (close_call fd ∷ calls) = fd ∷ closed calls
closed (_ ∷ calls) = closed calls

pub closed-append : (xs ys : List Call) → closed (xs ++ ys) ≡ closed xs ++ closed ys
closed-append [] ys = refl
closed-append (close_call fd ∷ xs) ys = ap (◌∷◌ fd) (closed-append xs ys)
closed-append (_ ∷ xs) ys = closed-append xs ys

-- What one action keeps: the descriptor, no connection is made, and only a connected socket is closed.
record Kept (s t : Socket) (calls : List Call) : Type 0 where
  same_fd : t.fd ≡ s.fd
  no_connection : s.is_connected ≡ false → t.is_connected ≡ false
  none_closed : s.is_connected ≡ false → closed calls ≡ []
  own_closed : All (λ fd. fd ≡ s.fd) (closed calls)

-- An action that closes nothing and leaves the descriptor and the connection alone.
silent-Kept :
    (s t : Socket) (calls : List Call)
    → t.fd ≡ s.fd
    → t.is_connected ≡ s.is_connected
    → closed calls ≡ []
    → Kept s t calls
silent-Kept s t calls f c e = record {
  same_fd = f;
  no_connection = λ h. c ∙ h;
  none_closed = λ h. e;
  own_closed = subst (All (λ fd. fd ≡ s.fd)) (sym e) tt;
}

closed-if :
    {A : Type 0} (b : Bool) (x y : A) (c : Call)
    → closed (c ∷ []) ≡ []
    → closed (if◌then◌else◌ {A = A × List Call} b (x, c ∷ []) (y, [])).1 ≡ []
closed-if true x y c e = e
closed-if false x y c e = refl

bind_address-Kept :
    (a : NetAddress) (bound b d : Bool) (s : Socket)
    → let result =
        if◌then◌else◌ {A = Socket × Bool × List Call} b
          (s, false, [])
          (if d then (s, false, []) else bind_local bound (record s { local_address = some a })) in
      Kept s result.0 result.2
unfolding bind_local
bind_address-Kept a bound true d s = silent-Kept s s [] refl refl refl
bind_address-Kept a bound false true s = silent-Kept s s [] refl refl refl
bind_address-Kept a bound false false s =
    silent-Kept s _ (bind_call s.fd (some a) ∷ []) refl refl refl

close-Kept :
    (s : Socket) (b : Bool)
    → s.is_connected ≡ b
    → let result =
        if◌then◌else◌ {A = Socket × Bool × List Call} b
          (record s { is_connected = false }, true, close_call s.fd ∷ [])
          (s, false, []) in
      Kept s result.0 result.2
close-Kept s true e = record {
  same_fd = refl;
  no_connection = λ h. refl;
  none_closed = λ h. cc;
  own_closed = (refl, tt);
}
close-Kept s false e = silent-Kept s s [] refl refl refl

act-Kept : (a : Action) (s : Socket) → Kept s (act a s).0 (act a s).1
unfolding bind_address bind_text bind_local get_local_address listen close send receive write_socket
    read_socket
act-Kept (binds none bound) s = silent-Kept s _ _ refl refl refl
act-Kept (binds (some a) bound) s =
    bind_address-Kept a bound (is_some s.local_address || s.is_connected)
      (not (same_domain a.domain s.domain)) s
act-Kept (binds_text a bound) s = silent-Kept s _ _ refl refl refl
act-Kept listens s = silent-Kept s s _ refl refl refl
act-Kept closes s = close-Kept s s.is_connected refl
act-Kept (sends size) s = silent-Kept s s _ refl refl (closed-if s.is_connected true false _ refl)
act-Kept (receives size) s = silent-Kept s s _ refl refl refl
act-Kept (writes count size actor fd) s =
    silent-Kept s s _ refl refl (closed-if s.is_connected _ _ _ refl)
act-Kept (reads count size actor fd) s =
    silent-Kept s s _ refl refl (closed-if s.is_connected _ _ _ refl)

life-none :
    (actions : List Action) (s : Socket) → s.is_connected ≡ false → closed (life actions s) ≡ []
life-none [] s h = (act-Kept closes s).none_closed h
life-none (a ∷ actions) s h =
    let k = act-Kept a s in
    rw (closed-append (act a s).1 (life actions (act a s).0), k.none_closed h)
      (life-none actions (act a s).0 (k.no_connection h))

All-closed :
    (fd : Option ℕ) (xs ys : List (Option ℕ))
    → All (λ x. x ≡ fd) xs
    → All (λ x. x ≡ fd) ys
    → All (λ x. x ≡ fd) (xs ++ ys)
All-closed fd [] ys h k = k
All-closed fd (x ∷ xs) ys h k = (h.0, All-closed fd xs ys h.1 k)

life-own : (actions : List Action) (s : Socket) → All (λ fd. fd ≡ s.fd) (closed (life actions s))
life-own [] s = (act-Kept closes s).own_closed
life-own (a ∷ actions) s =
    let k = act-Kept a s in
    rw (closed-append (act a s).1 (life actions (act a s).0)) (
      All-closed s.fd _ _ k.own_closed (
        subst (λ f. All (λ fd. fd ≡ f) (closed (life actions (act a s).0))) k.same_fd
          (life-own actions (act a s).0)))

-- A socket that neither connects nor accepts opens one descriptor and never closes it, whatever else is
-- done with it, `close` included.
pub new_socket-life :
    (kind : Kind) (domain : Domain) (protocol : ℕ) (mode : IoMode) (fd : Option ℕ)
    (actions : List Action)
    → let (s, calls) = new_socket kind domain protocol mode fd in
      (opened calls ≡ fd ∷ []) × (closed (calls ++ life actions s) ≡ [])
unfolding new_socket
new_socket-life kind domain protocol block_mode fd actions = (refl, life-none actions _ refl)
new_socket-life kind domain protocol no_block_mode fd actions = (refl, life-none actions _ refl)

-- `Accept` of a descriptor that is a socket opens another one, `own`, in the constructor: whatever is done
-- with the new socket, only the accepted descriptor is ever closed.
pub accept-life :
    (fstat : ℕ → Option Mode) (fd : ℕ) (own : Option ℕ) (table : Table) (s : Socket)
    (actions : List Action)
    → (add_fd fstat fd socket table).1 ≡ true
    → OnSome
        (λ c.
          (opened (accept fstat (some fd) own table s).calls ≡ own ∷ [])
          × All
              (λ x. x ≡ some fd)
              (closed ((accept fstat (some fd) own table s).calls ++ life actions c)))
        (accept fstat (some fd) own table s).client
unfolding accept accept_client init_socket_fd new_socket get_remote_address get_local_address
accept-life fstat fd own table s actions h =
    rw (accept, accept_client, init_socket_fd, h) (refl, life-own actions _)
