-- ===== src/Boot/Connections.antt =====
-- Which descriptors the server opens and closes.
use io_scheduler.Handle.{Mode}
use io_scheduler.Socket.{Call, Socket}
use io_scheduler.Timer.{Timer}
use io_scheduler.Prelude.{Bool, List, Option, [], false, none, some, true, ℕ, ◌++◌, ◌∷◌, ◌≡◌}
use io_scheduler.Boot.Serve.{Arrival, Service, aborts, serves, throws}

-- The calls made, and whether the loop was reached.
abbrev pub service_calls : {E : Type 0} → Service E → List Call
service_calls (throws calls) = calls
service_calls (aborts calls) = calls
service_calls (serves m table calls) = calls

abbrev pub is_serving : {E : Type 0} → Service E → Bool
is_serving (serves m table calls) = true
is_serving _ = false

-- The answers of `socket` to the constructors of the new sockets, and the descriptors accepted.
abbrev pub owns : List Arrival → List (Option ℕ)
owns [] = []
owns (a ∷ rest) = elim a.accepted [ none ↦ owns rest | some fd ↦ a.own ∷ owns rest ]

abbrev pub arrived : List Arrival → List (Option ℕ)
arrived [] = []
arrived (a ∷ rest) = elim a.accepted [ none ↦ arrived rest | some fd ↦ some fd ∷ arrived rest ]

-- One list is another with some elements left out.
pub data Within {A : Type 0} : List A → List A → Type 0 where
  within_nil : Within [] []
  keeps : {x : A} {xs ys : List A} → Within xs ys → Within (x ∷ xs) (x ∷ ys)
  drops : {x : A} {xs ys : List A} → Within xs ys → Within xs (x ∷ ys)

module _ (fstat : ℕ → Option Mode) where
  -- What a round opens and closes: a connection that the table refuses is not closed at all.
  record Round (a : Arrival) (opens closes : List (Option ℕ)) : Type 0 where
    opens_own : opens ≡ owns (a ∷ [])
    closes_accepted :
        (rest all : List (Option ℕ))
        → Within rest all
        → Within (closes ++ rest) (arrived (a ∷ []) ++ all)
