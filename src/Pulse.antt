-- ===== src/Pulse.antt =====
-- chimera/modules/pulse/pulse: the idle tracker (idle.py), the chronotype (chronotype.py) and the
-- registry of danger actions (registry.py). Idle times are whole seconds; the night share is compared
-- by cross multiplication, which agrees with the floats for fewer than 2 ^ 50 samples. The children model
-- the rest of the module.
pub mod Habits
pub mod Scoring
pub mod Scores
pub mod Store
pub mod Retention
pub mod Client
pub mod Dispatch
pub mod Quiet
pub mod Inert
use macbastion.Prelude.{
  ℕ, zero, suc, ◌+◌, ◌*◌, String, Bool, true, false, Option, none, some, List, [], ◌∷◌, ◌++◌,
  str_eq, ltb, leb, if◌then◌else◌,
}
use macbastion.Prelude.Text.{mem_str}
use macbastion.Errors.{Exn, value_error}
use macbastion.Exec.{Result, ok, err, Exec}

-- `IDLE_GAP_THRESHOLD_S`
abbrev pub idle_gap_threshold_s : ℕ
idle_gap_threshold_s = 300

pub record IdleTracker : Type 0 where
  pub in_gap : Bool
  pub last_idle_end : Option String

-- `IdleTracker.observe`
unfoldable pub observe : String → ℕ → IdleTracker → IdleTracker
observe now idle_seconds t =
    if leb idle_gap_threshold_s idle_seconds
    then record t { in_gap = true }
    else if t.in_gap
    then record { in_gap = false; last_idle_end = some now }
    else t

-- `NIGHT_HOURS`
abbrev pub night_hours : List ℕ
night_hours = 22 ∷ 23 ∷ 0 ∷ 1 ∷ 2 ∷ 3 ∷ 4 ∷ 5 ∷ 6 ∷ []

abbrev pub repeat : ℕ → List ℕ
repeat zero = []
repeat (suc n) = 0 ∷ repeat n

-- `empty_histogram`
unfoldable pub empty_histogram : List ℕ
empty_histogram = repeat 24

-- `hist[hour] += 1`, of a histogram that has the slot
abbrev pub increment : List ℕ → ℕ → List ℕ
increment [] hour = []
increment (n ∷ hist) zero = (n + 1) ∷ hist
increment (n ∷ hist) (suc hour) = n ∷ increment hist hour

-- `bump`, of a histogram with 24 slots
unfoldable pub bump : List ℕ → ℕ → List ℕ
bump hist hour = if ltb hour 24 then increment hist hour else hist

abbrev pub sum : List ℕ → ℕ
sum [] = 0
sum (n ∷ ns) = n + sum ns

-- `hist[h] if h < len(hist)`, and nothing otherwise
abbrev pub slot : List ℕ → ℕ → ℕ
slot [] h = 0
slot (n ∷ hist) zero = n
slot (n ∷ hist) (suc h) = slot hist h

abbrev pub night_sum : List ℕ → List ℕ → ℕ
night_sum hist [] = 0
night_sum hist (h ∷ hours) = slot hist h + night_sum hist hours

abbrev pub classify_present : List ℕ → String
classify_present hist =
    if ltb (sum hist) 600
    then "typical"
    else if leb (3 * sum hist) (10 * night_sum hist night_hours)
    then "night_owl"
    else "typical"

-- `classify_chronotype` with the thresholds of the module, 600 samples and 0.30
unfoldable pub classify_chronotype : Option (List ℕ) → String
classify_chronotype none = "typical"
classify_chronotype (some []) = "typical"
classify_chronotype (some (n ∷ hist)) = classify_present (n ∷ hist)

-- `DEFAULT_DANGERS`
abbrev pub default_dangers : List String
default_dangers =
    "rm:$HOME" ∷ "purge.trigger" ∷ "vault.unlock:out-of-window" ∷ "browser.post:financial"
    ∷ "git:push --force" ∷ "send:high-stakes" ∷ []

-- the registry's file: absent, no JSON, JSON that is no list, or the texts of a list
pub data DangerFile : Type 0 where
  absent_file broken_file other_file : DangerFile
  listed : List String → DangerFile

-- `DangerRegistry.__init__`
unfoldable pub open_registry : DangerFile → DangerFile
open_registry absent_file = listed default_dangers
open_registry file = file

-- `_read`
unfoldable pub read_dangers : Exec DangerFile (List String)
read_dangers absent_file = (ok default_dangers, absent_file)
read_dangers broken_file = (err (value_error "no JSON"), broken_file)
read_dangers other_file = (ok default_dangers, other_file)
read_dangers (listed items) = (ok items, listed items)

-- `items.remove(signature)`: the first one
abbrev pub remove_first : String → List String → List String
remove_first s [] = []
remove_first s (x ∷ xs) = let rest = remove_first s xs in if str_eq x s then xs else x ∷ rest

abbrev pub add_to : String → List String → Exec DangerFile (List String)
add_to signature items file =
    if mem_str signature items
    then (ok items, file)
    else (ok (items ++ signature ∷ []), listed (items ++ signature ∷ []))

abbrev remove_from : String → List String → Exec DangerFile (List String)
remove_from signature items file =
    if mem_str signature items
    then (ok (remove_first signature items), listed (remove_first signature items))
    else (ok items, file)

abbrev with_items :
    Result (List String) × DangerFile
    → (List String → Exec DangerFile (List String))
    → Result (List String) × DangerFile
with_items (err x, file) f = (err x, file)
with_items (ok items, file) f = f items file

-- `DangerRegistry.add`
unfoldable pub add_danger : String → Exec DangerFile (List String)
add_danger signature file = with_items (read_dangers file) (add_to signature)

-- `DangerRegistry.remove`
unfoldable pub remove_danger : String → Exec DangerFile (List String)
remove_danger signature file = with_items (read_dangers file) (remove_from signature)
