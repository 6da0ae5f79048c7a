-- ===== src/Audit/Trail.antt =====
-- What the trail keeps and what a query finds.
use macbastion.Prelude.{
  ℕ, zero, suc, ◌-◌, ◌≤◌, ◌<◌, String, true, false, not, ◌≡◌, refl, ap, ◌∙◌, Option, Bool, str_eq,
  take, inl, inr, none, some, List, [], ◌∷◌, ◌++◌, arith, length, drop, leb, ◌==◌, keep_if,
  Bool-cases, length-drop,
}
use mathlib.Core.Path.{subst}
use macbastion.Prelude.Json.{Json, str, obj, Fields, get_field}
use macbastion.Exec.{ok}
use macbastion.Audit.{
  Line, AuditLog, last_n, audit_entry, lines_of, is_ok_entry, trim, append_line, record_entry, scan,
  recent, with_entry,
}

pub length-last_n {ℓ} : {A : Type ℓ} (n : ℕ) (xs : List A) → 0 < n → length (last_n n xs) ≤ n
length-last_n n xs h = ground (arith, length-drop (length xs - n) xs)

last_n-drop {ℓ} : {A : Type ℓ} (n : ℕ) (xs : List A) → 0 < n → last_n n xs ≡ drop (length xs - n) xs
last_n-drop n xs h = ground arith

drop_append {ℓ} :
    {A : Type ℓ} (n : ℕ) (xs ys : List A) → n ≤ length xs → drop n (xs ++ ys) ≡ drop n xs ++ ys
drop_append zero xs ys h = refl
drop_append (suc n) [] ys h = ground arith
drop_append (suc n) (x ∷ xs) ys h = drop_append n xs ys (ground arith)

-- The failures among the lines, read off one by one.
abbrev pub entries_of : List Line → List Fields
entries_of [] = []
entries_of (some (obj fs) ∷ lines) = fs ∷ entries_of lines
entries_of (_ ∷ lines) = entries_of lines

scan_lem :
    (lines : List Line)
    → (scan true lines ≡ keep_if (λ fs. not (is_ok_entry fs)) (entries_of lines))
      × (scan false lines ≡ entries_of lines)
unfolding scan
scan_lem [] = (refl, refl)
scan_lem (none ∷ lines) = scan_lem lines
scan_lem (some (obj fs) ∷ lines) = ground (arith, scan_lem lines)
scan_lem (some _ ∷ lines) = scan_lem lines

last_n_all {ℓ} : {A : Type ℓ} (n : ℕ) (xs : List A) → leb (length xs) n ≡ true → last_n n xs ≡ xs
last_n_all n xs h =
    let e : length xs - n ≡ 0 = ground arith in
    elim (Bool-cases (n == 0)) [ inl z ↦ rw z refl | inr z ↦ rw (z, e) refl ]

trim_lem :
    (lines : List Line) (a : AuditLog)
    → a.file ≡ some lines
    → a.read_fault ≡ false
    → lines_of (trim lines a).file ≡ last_n a.max_entries lines
unfolding trim
trim_lem lines a f r = elim (Bool-cases (leb (length lines) a.max_entries)) [
  | inl small ↦ rw (r, small, f, last_n_all a.max_entries lines small) refl
  | inr big ↦ rw (r, big) refl
]

record_entry-writes :
    (ts topic : String) (commands : List String) (outcome : String) (a : AuditLog)
    → a.write_fault ≡ none
    → let entry = audit_entry ts topic commands outcome in
      record_entry ts topic commands outcome a ≡ (ok entry, append_line entry a)
unfolding record_entry
record_entry-writes ts topic commands outcome a w = ground arith

-- the lines with an entry behind them; a half-written last line is lost in one line with the entry
abbrev pub written : Option (Fields → Line) → Fields → List Line → List Line
written none entry old = old ++ some (obj entry) ∷ []
written (some merge) entry old = take (length old - 1) old ++ merge entry ∷ []

with_entry-written :
    (torn : Option (Fields → Line)) (entry : Fields) (old : List Line)
    → with_entry torn entry old ≡ written torn entry old
with_entry-written none entry old = refl
with_entry-written (some merge) entry old = refl

-- After an entry is recorded, in a trail of a cap above 0 whose file can be written and read, the
-- file holds at most the cap, and its lines are the last of the old ones with the entry behind them;
-- only where the last line was half-written, the entry is merged into that line.
pub record_entry-capped :
    (ts topic : String) (commands : List String) (outcome : String) (a : AuditLog)
    → 0 < a.max_entries
    → a.write_fault ≡ none
    → a.read_fault ≡ false
    → let entry = audit_entry ts topic commands outcome in
      let lines = written a.torn entry (lines_of a.file) in
      let (r, t) = record_entry ts topic commands outcome a in
      (r ≡ ok entry)
      × (length (lines_of t.file) ≤ a.max_entries)
      × (lines_of t.file ≡ drop (length lines - a.max_entries) lines)
unfolding append_line
record_entry-capped ts topic commands outcome a h w r =
    let entry = audit_entry ts topic commands outcome in
    let lines = with_entry a.torn entry (lines_of a.file) in
    let kept = trim_lem lines (record a { file = some lines; torn = none }) refl r in
    let dropped = kept ∙ last_n-drop a.max_entries lines h in
    rw (record_entry-writes ts topic commands outcome a w) (
      refl,
      rw kept (length-last_n a.max_entries lines h),
      subst
          (λ ls.
            lines_of (trim lines (record a { file = some lines; torn = none })).file
            ≡ drop (length ls - a.max_entries) ls)
          (with_entry-written a.torn entry (lines_of a.file)) dropped,
    )

-- the entry's outcome is the text `ok`
abbrev says_ok : Option Json → Bool
says_ok (some (str s)) = str_eq s "ok"
says_ok _ = false

abbrev pub failures_of : List Line → List Fields
failures_of lines = keep_if (λ fs. not (says_ok (get_field fs "outcome"))) (entries_of lines)

-- A query for the failures in a readable trail gives the last `n` entries whose outcome is not `ok`,
-- wherever in the trail they are, and a query for all the entries of the last `n` lines, for `n` above
-- 0. A query for the last 0 gives all of them.
pub recent_lem :
    (n : ℕ) (a : AuditLog) (lines : List Line)
    → a.file ≡ some lines
    → a.read_fault ≡ false
    → 0 < n
    → let failures = failures_of lines in
      (recent n true a ≡ drop (length failures - n) failures)
      × (recent n false a ≡ entries_of (drop (length lines - n) lines))
      × (recent 0 true a ≡ failures)
      × (recent 0 false a ≡ entries_of lines)
unfolding recent
recent_lem n a lines f r h =
    let found = (scan_lem lines).0 in
    (
      rw (f, r) (ap (last_n n) found ∙ last_n-drop n (failures_of lines) h),
      rw (f, r) ((scan_lem (last_n n lines)).1 ∙ ap entries_of (last_n-drop n lines h)),
      rw (f, r) found,
      rw (f, r) (scan_lem lines).1,
    )
