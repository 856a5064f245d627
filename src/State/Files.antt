-- ===== src/State/Files.antt =====
-- writeJSON of internal/state/store.go over a file system in which any call may fail. A file is
-- named by its path and holds a whole document, or less of it while it is written.
pub mod Atomic
mod Examples
use conduitvpn.Base.{
  ℕ, zero, suc, ◌+◌, ◌-◌, ◌*◌, ◌/◌, ◌%◌, ◌^◌, ◌≤◌, ◌<◌, ◌≡◌, refl, sym, ap, ◌∙◌, subst, ◌≢◌, ◌↔◌,
  ◌⊎◌, inl, inr, Bool, true, false, not, ◌&&◌, ◌||◌, Option, none, some, List, [], ◌∷◌, ◌++◌, map,
  arith, ltb, leb, ◌==◌, if◌then◌else◌, is_some, ==_iff, Bool-cases, Option-cases, length,
  get_elem?, set, take, drop, any, keep, All, Elem, length-append, length-drop, length-take,
  length-set, All-Elem, Elem-append_left, Elem-append_last, Str, codes, is_empty, str_eq,
  str_eq_iff, str_eq_refl, trim_space, trim, to_upper, to_lower, has_prefix, trim_prefix, contains,
  split, fields, join, one_of, one_of_sound, one_of_complete, to_upper_idem, Dict, lookup, insert,
  delete, keys, lookup-insert, lookup-delete, ℤ, pos, negsuc, ltb_ℤ, leb_ℤ, add_ℕ, sort_stable,
  IsSorted, atoi, sprint, parse_ip, to4, is_loopback,
}

pub data Content (V : Type 0) : Type 0 where
  partial : Content V
  whole : V → Content V

abbrev pub Files : Type 0 → Type 0
Files V = Dict (Content V)

-- The calls of `writeJSON`, in its order; `remove` is the deferred one.
pub data Syscall : Type 0 where
  marshal mkdir chmod_dir create_temp chmod_temp write close rename chmod_file : Syscall
  remove : Syscall

abbrev pub syscalls : List Syscall
syscalls =
    marshal ∷ mkdir ∷ chmod_dir ∷ create_temp ∷ chmod_temp ∷ write ∷ close ∷ rename ∷ chmod_file
    ∷ []

-- A write of document `v` to `path` by way of the temporary file `tmp`.
pub record Job (V : Type 0) : Type 0 where
  pub path : Str
  pub tmp : Str
  pub v : V

abbrev pub creates : Syscall → Bool
creates create_temp = true
creates _ = false

-- The calls one by one until one fails: all states on the way, newest first, whether the deferred
-- removal of the temporary file was registered, and whether all calls succeeded.
pub record Run (V : Type 0) : Type 0 where
  pub states : List (Files V)
  pub last : Files V
  pub deferred : Bool
  pub ok : Bool

module _ {V : Type 0} where
  -- The rename moves what the temporary file holds.
  abbrev move : Str → Str → Option (Content V) → Files V → Files V
  move tmp path none fs = fs
  move tmp path (some c) fs = insert path c (delete tmp fs)

  -- The files after a call that succeeds, and after one that fails; a failed write may have begun.
  unfoldable pub succeed : Job V → Syscall → Files V → Files V
  succeed j create_temp fs = insert j.tmp partial fs
  succeed j write fs = insert j.tmp (whole j.v) fs
  succeed j rename fs = move j.tmp j.path (lookup j.tmp fs) fs
  succeed j _ fs = fs

  unfoldable pub failed : Job V → Syscall → Files V → Files V
  failed j write fs = insert j.tmp partial fs
  failed j _ fs = fs

  abbrev pub advance : Job V → (Syscall → Bool) → Syscall → Run V → Run V
  advance j faults c r =
      if not r.ok
      then r
      else if faults c
      then record r { states = failed j c r.last ∷ r.states; last = failed j c r.last; ok = false }
      else record r {
        states = succeed j c r.last ∷ r.states;
        last = succeed j c r.last;
        deferred = r.deferred || creates c;
      }

  unfoldable pub run_calls : Job V → (Syscall → Bool) → List Syscall → Run V → Run V
  unfolding succeed failed
  run_calls j faults [] r = r
  run_calls j faults (c ∷ cs) r = run_calls j faults cs (advance j faults c r)

  -- `defer os.Remove(tmpName)`, whose error is ignored; a file that is not there stays so.
  abbrev pub clean_up : Job V → (Syscall → Bool) → Run V → Run V
  clean_up j faults r =
      if r.deferred && not (faults remove)
      then record r { states = delete j.tmp r.last ∷ r.states; last = delete j.tmp r.last }
      else r

  unfoldable pub write_json : Job V → (Syscall → Bool) → Files V → Run V
  unfolding run_calls
  write_json j faults fs =
      clean_up j faults (
        run_calls j faults syscalls
          (record { states = []; last = fs; deferred = false; ok = true }))
