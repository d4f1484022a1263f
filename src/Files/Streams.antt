-- ===== src/Files/Streams.antt =====
-- include/file.h: the templates `read_stream` and `write_stream`, of bytes. A stream is what is left in it, and whether
-- it is good; `istream::read` takes what there is, and fails where that is too little.
use io_scheduler.Prelude.{
  Bool, List, Option, [], ap, arith, false, if◌then◌else◌, inl, inr, le_or_lt, leb, length, ltb,
  none, refl, some, suc, true, zero, ℕ, ◌&&◌, ◌++◌, ◌-◌, ◌==◌, ◌<◌, ◌≤◌, ◌∷◌, ◌≡◌, ◌∙◌, ==_refl,
  lt→ltb, le→leb, lt→leb_false, ltb_irrefl, length-append,
}

pub record ByteStream : Type 0 where
  pub bytes : List ℕ
  pub good : Bool

abbrev pub take : ℕ → List ℕ → List ℕ
take zero xs = []
take (suc n) [] = []
take (suc n) (x ∷ xs) = x ∷ take n xs

abbrev pub drop : ℕ → List ℕ → List ℕ
drop zero xs = xs
drop (suc n) [] = []
drop (suc n) (x ∷ xs) = drop n xs

-- `in.read(data, n)`: the bytes got, as many as `gcount` says, and the stream after it.
abbrev pub stream_read : ℕ → ByteStream → List ℕ × ByteStream
stream_read n s =
    if s.good
    then (take n s.bytes, record { bytes = drop n s.bytes; good = leb n (length s.bytes) })
    else ([], s)

-- The loop of `read_stream` from `position` on, on fuel: the bytes got so far, and the stream. `none` is no
-- fuel left.
unfoldable pub read_loop : ℕ → ℕ → List ℕ → ByteStream → Option (List ℕ × ByteStream)
read_loop zero size got s = none
read_loop (suc fuel) size got s =
    let (more, s') = stream_read (size - length got) s in
    let rest = read_loop fuel size (got ++ more) s' in
    if s.good && ltb (length got) size then rest else some (got, s)

-- `read_stream`: the bytes, the stream after it, and whether all were got.
unfoldable pub read_stream : ℕ → ℕ → ByteStream → Option (List ℕ × ByteStream × Bool)
read_stream fuel size s = elim (read_loop fuel size [] s) [
  | none ↦ none
  | some (got, s') ↦ some (got, s', length got == size)
]

-- `write_stream`, to a stream that is read from its start: the bytes go to the end.
unfoldable pub write_stream : List ℕ → ByteStream → ByteStream × Bool
write_stream xs s = if s.good then (record s { bytes = s.bytes ++ xs }, true) else (s, false)

length-take : (n : ℕ) (xs : List ℕ) → n ≤ length xs → length (take n xs) ≡ n
length-take zero xs h = refl
length-take (suc n) [] h = absurd (omega arith)
length-take (suc n) (x ∷ xs) h = omega (arith, length-take n xs (omega arith))

take_all : (n : ℕ) (xs : List ℕ) → length xs ≤ n → take n xs ≡ xs
take_all zero [] h = refl
take_all zero (x ∷ xs) h = absurd (omega arith)
take_all (suc n) [] h = refl
take_all (suc n) (x ∷ xs) h = ap (◌∷◌ x) (take_all n xs (omega arith))

and-false : (b : Bool) → (b && false) ≡ false
and-false true = refl
and-false false = refl

few_not_all : (a b : ℕ) → a < b → (a == b) ≡ false
few_not_all a b h = ground arith

loop_stops :
    (fuel size : ℕ) (got : List ℕ) (s : ByteStream)
    → (s.good && ltb (length got) size) ≡ false
    → read_loop (suc fuel) size got s ≡ some (got, s)
unfolding read_loop
loop_stops fuel size got s e = rw (read_loop, e) refl

loop_goes :
    (fuel size : ℕ) (got : List ℕ) (s : ByteStream)
    → (s.good && ltb (length got) size) ≡ true
    → let (more, s') = stream_read (size - length got) s in
      read_loop (suc fuel) size got s ≡ read_loop fuel size (got ++ more) s'
unfolding read_loop
loop_goes fuel size got s e = rw (read_loop, e) refl

-- After one round there is either enough, or the stream has failed.
one_round_stops :
    (size : ℕ) (xs : List ℕ) → (leb size (length xs) && ltb (length (take size xs)) size) ≡ false
one_round_stops size xs = elim (le_or_lt size (length xs)) [
  | inl enough ↦ rw (length-take size xs enough, ltb_irrefl) (and-false (leb size (length xs)))
  | inr few ↦ rw (lt→leb_false size (length xs) few) refl
]

loop_once :
    (fuel size : ℕ) (xs : List ℕ)
    → 0 < size
    → read_loop (suc (suc fuel)) size [] (record { bytes = xs; good = true })
      ≡ some (take size xs, record { bytes = drop size xs; good = leb size (length xs) })
loop_once fuel size xs h =
    loop_goes (suc fuel) size [] (record { bytes = xs; good = true }) (lt→ltb 0 size h)
    ∙ ap
        (λ k.
          read_loop (suc fuel) size (take k xs)
            (record { bytes = drop k xs; good = leb k (length xs) }))
        (omega arith)
    ∙ loop_stops fuel size (take size xs)
        (record { bytes = drop size xs; good = leb size (length xs) }) (one_round_stops size xs)

-- On a good stream `read_stream` ends after one round of its loop, or none: it gets all the bytes asked for if
-- they are there, and otherwise what there is, answers false, and leaves the stream failed.
pub read_stream-good :
    (fuel size : ℕ) (xs : List ℕ)
    → read_stream (suc (suc fuel)) size (record { bytes = xs; good = true }) ≡ (
        if leb size (length xs)
        then some (take size xs, record { bytes = drop size xs; good = true }, true)
        else some (xs, record { bytes = drop size xs; good = false }, false))
unfolding read_stream read_loop
read_stream-good fuel zero xs = rw (le→leb 0 (length xs) (omega arith)) refl
read_stream-good fuel (suc n) xs = elim (le_or_lt (suc n) (length xs)) [
  | inl enough ↦
      rw
        (
          read_stream,
          loop_once fuel (suc n) xs (omega arith),
          le→leb (suc n) (length xs) enough,
          length-take (suc n) xs enough,
          ==_refl,
        )
        refl
  | inr few ↦
      rw
        (
          read_stream,
          loop_once fuel (suc n) xs (omega arith),
          lt→leb_false (suc n) (length xs) few,
          take_all (suc n) xs (omega arith),
          few_not_all (length xs) (suc n) few,
        )
        refl
]

take-append : (xs ys : List ℕ) → take (length xs) (xs ++ ys) ≡ xs
take-append [] ys = refl
take-append (x ∷ xs) ys = ap (◌∷◌ x) (take-append xs ys)

drop-append : (xs ys : List ℕ) → drop (length xs) (xs ++ ys) ≡ ys
drop-append [] ys = refl
drop-append (x ∷ xs) ys = drop-append xs ys

-- What two calls of `write_stream` put on an empty good stream, a call of `read_stream` for the size of the
-- first takes from it: the bytes of the first, with those of the second left.
pub write_stream-read_stream :
    (fuel : ℕ) (xs ys : List ℕ)
    → let s = (write_stream xs (record { bytes = []; good = true })).0 in
      read_stream (suc (suc fuel)) (length xs) (write_stream ys s).0
      ≡ some (xs, record { bytes = ys; good = true }, true)
unfolding write_stream
write_stream-read_stream fuel xs ys =
    read_stream-good fuel (length xs) (xs ++ ys)
    ∙ rw
        (
          le→leb (length xs) (length (xs ++ ys)) (omega (arith, length-append xs ys)),
          take-append xs ys,
          drop-append xs ys,
        )
        refl
