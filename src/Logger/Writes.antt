-- ===== src/Logger/Writes.antt =====
-- Where a logged event is written, and what.
use io_scheduler.Logger.{Appender, Logger, appender_log, log, log_all}
use io_scheduler.Logger.Items.{Item, LogEvent, Output, format_log}
use mathlib.Core.List.{append_assoc, append-nil}
use io_scheduler.Prelude.{
  ==_refl, Bool, Bool-cases, List, OnSome, Option, [], arith, false, if◌then◌else◌, inl, inr, ltb,
  none, refl, some, subst, sym, true, update, ℕ, ◌++◌, ◌==◌, ◌∷◌, ◌≡◌,
}

-- The output, once for each time that the appender stands in the list.
abbrev pub copies : ℕ → List Output → List ℕ → List Output
copies a out [] = []
copies a out (b ∷ rest) = if b == a then out ++ copies a out rest else copies a out rest

abbrev pub has_format : Appender → Bool
has_format a = elim a.format [ none ↦ false | some items ↦ true ]

abbrev pub Formatted : (ℕ → Appender) → Type 0
Formatted heap = (a : ℕ) → has_format (heap a) ≡ true

eq_of_test : (a b : ℕ) → (a == b) ≡ true → a ≡ b
eq_of_test a b h = ground arith

module _ (level : ℕ) (name : List ℕ) (event : LogEvent) where
  -- The event in the format of an appender.
  abbrev pub emitted : Appender → List Output
  emitted a = elim a.format [ none ↦ [] | some items ↦ format_log items name event ]

  -- What the appender at `a` has after the event was logged to this list.
  abbrev pub received : List ℕ → (ℕ → Appender) → ℕ → List Output
  received xs heap a =
      (heap a).written ++ (if ltb level (heap a).level then [] else copies a (emitted (heap a)) xs)

  logged : Appender → Appender
  logged a = record a { written = if ltb level a.level then a.written else a.written ++ emitted a }

  log-logged :
      (a : Appender) → has_format a ≡ true → appender_log level name event a ≡ some (logged a)
  unfolding appender_log logged
  log-logged a h = by_level (ltb level a.level) a.format h
    where
      by_level :
          (b : Bool) (f : Option (List Item))
          → has_format (record a { format = f }) ≡ true
          → (if b then some (record a { format = f }) else (elim f as (λ x. Option Appender) [
            | none ↦ none
            | some g ↦
                some (record a { format = f; written = a.written ++ format_log g name event })
          ]))
            ≡ some (record a {
              format = f;
              written = if b then a.written else a.written ++ emitted (record a { format = f });
            })
      by_level true f h = refl
      by_level false none h = cc
      by_level false (some g) h = refl

  logged-Formatted :
      (x : ℕ) (heap : ℕ → Appender) → Formatted heap → Formatted (update heap x (logged (heap x)))
  unfolding logged
  logged-Formatted x heap h a = elim (Bool-cases (x == a)) [
    | inl e ↦ rw e (h x)
    | inr e ↦ rw e (h a)
  ]

  received_self :
      (rest : List ℕ) (heap : ℕ → Appender) (a : ℕ)
      → received rest (update heap a (logged (heap a))) a ≡ received (a ∷ rest) heap a
  unfolding logged
  received_self rest heap a = rw ==_refl (by_level (ltb level (heap a).level))
    where
      by_level :
          (b : Bool)
          → (if b then (heap a).written else (heap a).written ++ emitted (heap a))
              ++ (if b then [] else copies a (emitted (heap a)) rest)
            ≡ (heap a).written
              ++ (if b then [] else emitted (heap a) ++ copies a (emitted (heap a)) rest)
      by_level true = refl
      by_level false =
          append_assoc (heap a).written (emitted (heap a)) (copies a (emitted (heap a)) rest)

  received-logged :
      (x : ℕ) (rest : List ℕ) (heap : ℕ → Appender) (a : ℕ)
      → received rest (update heap x (logged (heap x))) a ≡ received (x ∷ rest) heap a
  received-logged x rest heap a = elim (Bool-cases (x == a)) [
    | inl e ↦
        subst (λ y. received rest (update heap y (logged (heap y))) a ≡ received (y ∷ rest) heap a)
          (sym (eq_of_test x a e)) (received_self rest heap a)
    | inr e ↦ rw e refl
  ]

  log_all-received :
      (xs : List ℕ) (heap : ℕ → Appender)
      → Formatted heap
      → (a : ℕ)
      → OnSome (λ heap'. (heap' a).written ≡ received xs heap a) (log_all level name event xs heap)
  unfolding log_all
  log_all-received [] heap h a = elim (Bool-cases (ltb level (heap a).level)) [
    | inl e ↦ rw (e, append-nil) refl
    | inr e ↦ rw (e, append-nil) refl
  ]
  log_all-received (x ∷ rest) heap h a =
      rw (log_all, log-logged (heap x) (h x))
        (subst
          (λ w.
            OnSome (λ heap'. (heap' a).written ≡ w)
              (log_all level name event rest (update heap x (logged (heap x)))))
          (received-logged x rest heap a)
          (log_all-received rest (update heap x (logged (heap x))) (logged-Formatted x heap h) a))

-- If all appenders have formats, an event is written in the format of the appender, as often as it is in
-- the list, to each appender whose level it reaches, if it reaches the level of the logger, and to no
-- other.
pub log-received :
    (level : ℕ) (event : LogEvent) (l : Logger) (heap : ℕ → Appender) (a : ℕ)
    → Formatted heap
    → OnSome
        (λ (heap' : ℕ → Appender).
          (heap' a).written
          ≡ received level l.name event (if ltb level l.level then [] else l.appenders) heap a)
        (log level event l heap)
unfolding log log_all
log-received level event l heap a h = by_level (ltb level l.level)
  where
    by_level :
        (b : Bool)
        → OnSome
            (λ (heap' : ℕ → Appender).
              (heap' a).written
              ≡ received level l.name event (if b then [] else l.appenders) heap a)
            (if b then some heap else log_all level l.name event l.appenders heap)
    by_level true = log_all-received level l.name event [] heap h a
    by_level false = log_all-received level l.name event l.appenders heap h a
