-- ===== src/Audit.antt =====
-- chimera/core/audit.py: the trail of actuated reflexes. The state is the file: absent, or its lines,
-- a line being what `json.loads` makes of it (`none` for a corrupt one), and whether the operating
-- system lets it be written and read at present. Timestamps are texts.
pub mod Trail
use macbastion.Prelude.{
  ℕ, ◌-◌, String, Bool, true, false, ◌&&◌, not, Option, none, some, List, [], ◌∷◌, ◌++◌, map,
  str_eq, length, take, drop, leb, ◌==◌, if◌then◌else◌,
}
use macbastion.Prelude.Json.{Json, str, arr, obj, float, Fields, end, field, get_field, str_items}
use macbastion.Errors.{Exn, os_error}
use macbastion.Exec.{Exec, Result, ok, err}

abbrev pub Line : Type 0
Line = Option Json

pub record AuditLog : Type 0 where
  pub max_entries : ℕ
  pub file : Option (List Line)
  -- the last line is half-written, without its end: what `json.loads` makes of it with an entry behind
  pub torn : Option (Fields → Line)
  pub write_fault : Option String
  pub read_fault : Bool

-- `xs[-n:]`, which is all of `xs` for n = 0
abbrev pub last_n {ℓ} : {A : Type ℓ} → ℕ → List A → List A
last_n n xs = if n == 0 then xs else drop (length xs - n) xs

-- the entry that `record` builds
abbrev pub audit_entry : String → String → List String → String → Fields
audit_entry ts topic commands outcome = field "ts" (float ts) (
    field "topic" (str topic)
      (field "commands" (arr (str_items commands)) (field "outcome" (str outcome) end)))

abbrev pub lines_of : Option (List Line) → List Line
lines_of none = []
lines_of (some lines) = lines

-- `_trim`, with the lines of the file
unfoldable pub trim : List Line → AuditLog → AuditLog
trim lines a =
    if a.read_fault
    then a
    else if leb (length lines) a.max_entries
    then a
    else record a { file = some (last_n a.max_entries lines) }

-- the entry written behind the end of the file, which may be in the middle of a line
abbrev pub with_entry : Option (Fields → Line) → Fields → List Line → List Line
with_entry none entry lines = lines ++ some (obj entry) ∷ []
with_entry (some merge) entry lines = take (length lines - 1) lines ++ merge entry ∷ []

-- the part of `record` that has opened the file
unfoldable pub append_line : Fields → AuditLog → AuditLog
unfolding trim
append_line entry a =
    let lines = with_entry a.torn entry (lines_of a.file) in
    trim lines (record a { file = some lines; torn = none })

-- `AuditLog.record` at the clock reading `ts`
unfoldable pub record_entry : String → String → List String → String → Exec AuditLog Fields
record_entry ts topic commands outcome a = elim a.write_fault [
  | some reason ↦ (err (os_error reason), a)
  | none ↦ let entry = audit_entry ts topic commands outcome in (ok entry, append_line entry a)
]

-- `parsed.get("outcome") == "ok"`
abbrev is_ok_text : Option Json → Bool
is_ok_text (some (str s)) = str_eq s "ok"
is_ok_text _ = false

abbrev pub is_ok_entry : Fields → Bool
is_ok_entry fs = is_ok_text (get_field fs "outcome")

-- the loop of `recent`
unfoldable pub scan : Bool → List Line → List Fields
scan failures_only [] = []
scan failures_only (some (obj fs) ∷ lines) =
    let rest = scan failures_only lines in
    if failures_only && is_ok_entry fs then rest else fs ∷ rest
scan failures_only (_ ∷ lines) = scan failures_only lines

-- `AuditLog.recent`
unfoldable pub recent : ℕ → Bool → AuditLog → List Fields
recent n failures_only a = elim a.file [
  | none ↦ []
  | some lines ↦
      if a.read_fault
      then []
      else if failures_only
      then last_n n (scan true lines)
      else scan false (last_n n lines)
]
