-- ===== src/Hook/Originals.antt =====
-- src/manager/hook.cpp and include/hook.h: the pointers to the original calls. `dlsym` is a parameter: the address
-- that it answers for a name, and 0 is the null pointer.
use io_scheduler.Prelude.{refl, ℕ, ◌≡◌, ◌≢◌}

-- The names of `HOOK`.
pub data Symbol : Type 0 where
  sleep_name usleep_name read_name write_name : Symbol

-- The four variables.
pub record Originals : Type 0 where
  pub sleep_func : ℕ
  pub usleep_func : ℕ
  pub read_func : ℕ
  pub write_func : ℕ

-- Before the initialisers of the file run, all are null.
unfoldable pub unset_originals : Originals
unset_originals = record { sleep_func = 0; usleep_func = 0; read_func = 0; write_func = 0 }

-- The initialisers of the four variables.
unfoldable pub load_originals : (Symbol → ℕ) → Originals
load_originals dlsym = record {
  sleep_func = dlsym sleep_name;
  usleep_func = dlsym usleep_name;
  read_func = dlsym read_name;
  write_func = dlsym write_name;
}

-- `hook::InitHook`: the macro declares four locals, which take what `dlsym` answers, and they are gone at the end.
unfoldable pub init_hook : (Symbol → ℕ) → Originals → Originals × Originals
unfolding load_originals
init_hook dlsym originals = let locals = load_originals dlsym in (locals, originals)

-- Where `dlsym` knows `sleep`, a call of `InitHook` before the initialisers leaves the variable other than the
-- local that hides it: it is still null.
init_hook-unset :
    (dlsym : Symbol → ℕ)
    → dlsym sleep_name ≢ 0
    → let (locals, originals) = init_hook dlsym unset_originals in
      (originals.sleep_func ≡ 0) × (locals.sleep_func ≢ 0)
unfolding init_hook unset_originals
init_hook-unset dlsym h = (refl, h)
