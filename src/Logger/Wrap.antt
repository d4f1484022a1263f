-- ===== src/Logger/Wrap.antt =====
-- `logevent_wrap`: the current event, those of the day, and the record of the days before. Events are
-- numbers; each reading of the clock is an argument.
use io_scheduler.Logger.Pattern.{is_empty}
use io_scheduler.Prelude.{
  Bool, List, Option, [], arith, false, if◌then◌else◌, none, refl, some, true, ℕ, ◌++◌, ◌==◌, ◌∷◌,
  ◌≡◌, ◌≢◌,
}

pub record Wrap : Type 0 where
  pub list_num : ℕ
  pub event : Option ℕ
  pub events : List ℕ
  pub recordings : List (ℕ × List ℕ)
  pub month : ℕ
  pub day : ℕ

-- `insert` of a `std::map`: an entry with the key stays.
unfoldable pub insert_new : ℕ → List ℕ → List (ℕ × List ℕ) → List (ℕ × List ℕ)
insert_new k v [] = (k, v) ∷ []
insert_new k v ((j, w) ∷ m) =
    let rest = insert_new k v m in if j == k then (j, w) ∷ m else (j, w) ∷ rest

unfoldable pub new_month : ℕ → ℕ → Wrap → Wrap
new_month now again w = if now == w.month then w else record w { recordings = []; month = again }

unfoldable pub new_day : ℕ → ℕ → Wrap → Wrap
new_day now again w = if now == w.day then w else record w {
  recordings =
      if is_empty w.events then w.recordings else insert_new w.list_num w.events w.recordings;
  events = [];
  day = again;
}

-- `updata`, with its readings of month, month again, day and day again.
unfoldable pub updata : ℕ → ℕ → ℕ → ℕ → Wrap → Wrap
updata month month' day day' w = new_day day day' (new_month month month' w)

-- The constructor, for no event.
unfoldable pub new_wrap : ℕ → ℕ → ℕ → ℕ → Wrap
new_wrap month month' day day' =
    updata month month' day day'
      (record { list_num = 0; event = none; events = []; recordings = []; month = 0; day = 0 })

-- `wrap`.
unfoldable pub wrap : ℕ → ℕ → ℕ → ℕ → ℕ → Wrap → Wrap
wrap event month month' day day' w =
    let u = updata month month' day day' (record w { event = some event }) in
    record u { events = u.events ++ event ∷ [] }

-- The states of the wrapper that some events lead to.
pub data Wraps : Wrap → Type 0 where
  constructed : (month month' day day' : ℕ) → Wraps (new_wrap month month' day day')
  wrapped :
      (event month month' day day' : ℕ) {w : Wrap}
      → Wraps w
      → Wraps (wrap event month month' day day' w)

-- The record has no entry, or one, under the number 0.
abbrev pub HasOne : List (ℕ × List ℕ) → Type 0
HasOne [] = Unit
HasOne ((k, v) ∷ []) = k ≡ 0
HasOne _ = ⊥

insert_new-HasOne :
    (n : ℕ) (v : List ℕ) (m : List (ℕ × List ℕ)) → n ≡ 0 → HasOne m → HasOne (insert_new n v m)
unfolding insert_new
insert_new-HasOne n v [] e h = e
insert_new-HasOne n v ((k, w) ∷ []) e h = rw (e, h) refl
insert_new-HasOne n v ((k, w) ∷ x ∷ m) e h = absurd h

abbrev IsShort : Wrap → Type 0
IsShort w = (w.list_num ≡ 0) × HasOne w.recordings

new_month-IsShort : (now again : ℕ) (w : Wrap) → IsShort w → IsShort (new_month now again w)
unfolding new_month
new_month-IsShort now again w h = by_test (now == w.month)
  where
    by_test : (b : Bool) → IsShort (if b then w else record w { recordings = []; month = again })
    by_test true = h
    by_test false = (h.0, tt)

new_day-IsShort : (now again : ℕ) (w : Wrap) → IsShort w → IsShort (new_day now again w)
unfolding new_day
new_day-IsShort now again w h = by_tests (now == w.day) (is_empty w.events)
  where
    by_tests :
        (b c : Bool)
        → IsShort (
            if b then w else record w {
              recordings = if c then w.recordings else insert_new w.list_num w.events w.recordings;
              events = [];
              day = again;
            })
    by_tests true c = h
    by_tests false true = h
    by_tests false false = (h.0, insert_new-HasOne w.list_num w.events w.recordings h.0 h.1)

updata-IsShort :
    (month month' day day' : ℕ) (w : Wrap) → IsShort w → IsShort (updata month month' day day' w)
unfolding updata
updata-IsShort month month' day day' w h =
    new_day-IsShort day day' (new_month month month' w) (new_month-IsShort month month' w h)

Wraps-IsShort : {w : Wrap} → Wraps w → IsShort w
unfolding new_wrap wrap
Wraps-IsShort (constructed month month' day day') =
    updata-IsShort month month' day day' _ (refl, tt)
Wraps-IsShort (wrapped event month month' day day' {w} r) =
    updata-IsShort month month' day day' (record w { event = some event }) (Wraps-IsShort r)

insert_new_same :
    (n : ℕ) (v : List ℕ) (m : List (ℕ × List ℕ)) → n ≡ 0 → HasOne m → m ≢ [] → insert_new n v m ≡ m
unfolding insert_new
insert_new_same n v [] e h f = absurd (f refl)
insert_new_same n v ((k, w) ∷ []) e h f = rw (e, h) refl
insert_new_same n v ((k, w) ∷ x ∷ m) e h f = absurd h

-- In every state that events lead to: at the turn of a day in a month whose record has an entry, the
-- record stays as it is, and the events of the day before are gone.
pub wrap-later_day :
    (event month month' day day' : ℕ) (w : Wrap)
    → Wraps w
    → month ≡ w.month
    → day ≢ w.day
    → w.recordings ≢ []
    → let w' = wrap event month month' day day' w in
      (w'.recordings ≡ w.recordings) × (w'.events ≡ event ∷ [])
unfolding wrap updata new_month new_day
wrap-later_day event month month' day day' w r e d n =
    let (zero_num, one) = Wraps-IsShort r in
    ground (arith, insert_new_same w.list_num w.events w.recordings zero_num one n)
