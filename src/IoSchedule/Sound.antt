-- ===== src/IoSchedule/Sound.antt =====
-- Which events the scheduler can hold: each at the place of its descriptor, with contexts that a trigger
-- can follow.
use io_scheduler.Prelude.{
  All, Bool-cases, List, Option, [], ap, arith, false, get_elem?, inl, inr, length, ltb, none, refl,
  set, some, subst, suc, sym, zero, ℕ, ◌*◌, ◌++◌, ◌+◌, ◌∙◌, ◌∷◌, ◌≡◌,
}
use io_scheduler.Event.{
  Event, EventContext, EventType, get_context, new_context, new_event, none_type, read_type,
  set_context, write_type,
}
use io_scheduler.IoSchedule.{new_events, resize, with_room}
use io_scheduler.IoSchedule.Events.{InPlace, resize-InPlace}

-- A context that holds something knows its scheduler.
abbrev pub Armed : EventContext → Type 0
Armed c = c.scheduler ≡ false → (c.function ≡ none) × (c.coroutine ≡ none)

abbrev pub EventArmed : Event → Type 0
EventArmed e = Armed e.read × Armed e.write

-- Each event is at the place of its descriptor, and its contexts are armed.
pub record Sound (fds : List Event) : Type 0 where
  pub in_place : InPlace 0 fds
  pub armed : All EventArmed fds

All-set :
    (xs : List Event) (i : ℕ) (v : Event)
    → All EventArmed xs
    → EventArmed v
    → All EventArmed (set xs i v)
All-set [] i v p q = tt
All-set (x ∷ xs) zero v p q = (q, p.1)
All-set (x ∷ xs) (suc i) v p q = (p.0, All-set xs i v p.1 q)

pub All-get :
    (xs : List Event) (i : ℕ) (e : Event)
    → All EventArmed xs
    → get_elem? xs i ≡ some e
    → EventArmed e
All-get [] i e p h = cc
All-get (x ∷ xs) zero e p h = subst EventArmed (some_inj h) p.0
  where
    some_inj : some x ≡ some e → x ≡ e
    some_inj q = cc
All-get (x ∷ xs) (suc i) e p h = All-get xs i e p.1 h

All-join : (xs ys : List Event) → All EventArmed xs → All EventArmed ys → All EventArmed (xs ++ ys)
All-join [] ys p q = q
All-join (x ∷ xs) ys p q = (p.0, All-join xs ys p.1 q)

InPlace-get :
    (j : ℕ) (xs : List Event) (i : ℕ) (e : Event)
    → InPlace j xs
    → get_elem? xs i ≡ some e
    → e.fd ≡ j + i
InPlace-get j [] i e p h = cc
InPlace-get j (x ∷ xs) zero e p h =
    ap (λ (o : Option Event). elim o [ none ↦ 0 | some y ↦ y.fd ]) (sym h) ∙ (p.0 ∙ omega arith)
InPlace-get j (x ∷ xs) (suc i) e p h = omega (arith, InPlace-get (suc j) xs i e p.1 h)

InPlace-set :
    (j : ℕ) (xs : List Event) (i : ℕ) (v : Event)
    → InPlace j xs
    → v.fd ≡ j + i
    → InPlace j (set xs i v)
InPlace-set j [] i v p h = tt
InPlace-set j (x ∷ xs) zero v p h = (omega arith, p.1)
InPlace-set j (x ∷ xs) (suc i) v p h = (p.0, InPlace-set (suc j) xs i v p.1 (omega arith))

-- An event that takes the place of one of the same descriptor.
pub set-Sound :
    (fds : List Event) (i : ℕ) (e v : Event)
    → Sound fds
    → get_elem? fds i ≡ some e
    → v.fd ≡ e.fd
    → EventArmed v
    → Sound (set fds i v)
set-Sound fds i e v s h k a = record {
  in_place = InPlace-set 0 fds i v s.in_place (k ∙ InPlace-get 0 fds i e s.in_place h);
  armed = All-set fds i v s.armed a;
}

new_events-Armed : (n i : ℕ) → All EventArmed (new_events n i)
unfolding new_event new_context
new_events-Armed zero i = tt
new_events-Armed (suc n) i =
    (((λ h. (refl, refl)), (λ h. (refl, refl))), new_events-Armed n (suc i))

resize-Armed : (size : ℕ) (fds : List Event) → All EventArmed fds → All EventArmed (resize size fds)
unfolding resize
resize-Armed size fds s = elim (Bool-cases (ltb size (length fds))) [
  | inl e ↦ rw e s
  | inr e ↦ rw e (All-join fds _ s (new_events-Armed _ _))
]

resize-Sound : (size : ℕ) (fds : List Event) → Sound fds → Sound (resize size fds)
resize-Sound size fds s = record {
  in_place = resize-InPlace size fds s.in_place;
  armed = resize-Armed size fds s.armed;
}

pub with_room-Sound : (fd : ℕ) (fds : List Event) → Sound fds → Sound (with_room fd fds)
unfolding with_room
with_room-Sound fd fds s = elim (Bool-cases (ltb fd (length fds))) [
  | inl e ↦ rw e s
  | inr e ↦ rw e (resize-Sound (fd * 2) fds s)
]

pub get_context-Armed : (t : EventType) (e : Event) → EventArmed e → Armed (get_context t e)
unfolding get_context new_context
get_context-Armed none_type e a = λ h. (refl, refl)
get_context-Armed read_type e a = a.0
get_context-Armed write_type e a = a.1

pub set_context-Armed :
    (t : EventType) (c : EventContext) (e : Event)
    → EventArmed e
    → Armed c
    → EventArmed (set_context t c e)
unfolding set_context
set_context-Armed none_type c e a b = a
set_context-Armed read_type c e a b = (b, a.1)
set_context-Armed write_type c e a b = (a.0, b)

pub set_context-fd : (t : EventType) (c : EventContext) (e : Event) → (set_context t c e).fd ≡ e.fd
unfolding set_context
set_context-fd none_type c e = refl
set_context-fd read_type c e = refl
set_context-fd write_type c e = refl
