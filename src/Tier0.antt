-- ===== src/Tier0.antt =====
-- chimera/core/tier0.py: the destruction of CHIMERA's own secrets. The directory is the list of its
-- files in the order of the walk, each with the error that unlinking it raises, if any; what the
-- privileged shim answers to `evict` is a parameter.
pub mod Destruction
use macbastion.Prelude.{ℕ, ◌+◌, String, Bool, true, false, Option, none, some, List, [], ◌∷◌, ◌++◌}
use macbastion.Prelude.Text.{concat}
use macbastion.Errors.{Exn}
use macbastion.Exec.{Result, ok, err}
use macbastion.Prelude.Int.{pos}
use macbastion.Prelude.Json.{Json, bool, int, arr, Fields, end, field, str_items}

pub record StateFile : Type 0 where
  pub name : String
  pub unlink_error : Option String

-- what was done, in order
pub data Deed : Type 0 where
  evict : Deed
  unlink : String → Deed

pub record Wipe : Type 0 where
  pub removed : ℕ
  pub errors : List String
  pub left : List StateFile
  pub deeds : List Deed

-- the body of the loop in `_wipe_state_dir`, in front of what the rest of the loop does
abbrev pub wipe_file : StateFile → Option String → Wipe → Wipe
wipe_file f none w = record w { removed = w.removed + 1; deeds = unlink f.name ∷ w.deeds }
wipe_file f (some reason) w = record w {
  errors = concat "state file " (concat f.name (concat ": " reason)) ∷ w.errors;
  left = f ∷ w.left;
  deeds = unlink f.name ∷ w.deeds;
}

-- `_wipe_state_dir`; a directory that does not exist has no files
unfoldable pub wipe_state_dir : List StateFile → Wipe
wipe_state_dir [] = record { removed = 0; errors = []; left = []; deeds = [] }
wipe_state_dir (f ∷ files) = wipe_file f f.unlink_error (wipe_state_dir files)

-- the outcome of `shim.evict()`: done, a `ShimError`, or another exception (an `OSError`, a timeout, an
-- answer that is no JSON), which `run_tier0` does not catch
pub data Eviction : Type 0 where
  evicted : Eviction
  refused : String → Eviction
  broke : Exn → Eviction

pub record Report : Type 0 where
  pub keychain_evicted : Bool
  pub state_files_removed : ℕ
  pub errors : List String

abbrev pub report_fields : Report → Fields
report_fields r = field "keychain_evicted" (bool r.keychain_evicted) (
    field "state_files_removed" (int (pos r.state_files_removed))
      (field "errors" (arr (str_items r.errors)) end))

abbrev pub report_of : Bool → List String → Wipe → Report
report_of keychain_evicted errors w = record {
  keychain_evicted = keychain_evicted;
  state_files_removed = w.removed;
  errors = errors ++ w.errors;
}

-- `run_tier0`: the report or what it raises, the files that are left, and the deeds in order
unfoldable pub run_tier0 : Eviction → List StateFile → Result Report × List StateFile × List Deed
run_tier0 evicted files =
    let w = wipe_state_dir files in (ok (report_of true [] w), w.left, evict ∷ w.deeds)
run_tier0 (refused reason) files =
    let w = wipe_state_dir files in
    (ok (report_of false (concat "keychain evict: " reason ∷ []) w), w.left, evict ∷ w.deeds)
run_tier0 (broke x) files = (err x, files, evict ∷ [])
