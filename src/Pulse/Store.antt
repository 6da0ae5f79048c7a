-- ===== src/Pulse/Store.antt =====
-- chimera/modules/pulse/pulse: the baseline store (baseline.py) and the assessment that reads it
-- (assess.py). The two tables of the database are a list of rows, the oldest first, and a dictionary.
-- Fernet over JSON is the parameter `cipher`; a token that was tampered with raises.
use macbastion.Prelude.{
  ℕ, zero, suc, ◌+◌, ◌-◌, ◌/◌, String, Bool, true, false, not, ◌&&◌, Option, none, some, List, [],
  ◌∷◌, ◌++◌, map, length, keep_if, leb, ◌==◌, if◌then◌else◌,
}
use Prim.Native.Nat.{◌%◌}
use macbastion.Prelude.Int.{pos}
use macbastion.Prelude.Text.{prefix, sorted_set}
use macbastion.Prelude.Order.{before, from}
use macbastion.Prelude.Dict
use macbastion.Prelude.Dict.{Dict}
use macbastion.Prelude.Floats.{FloatOps}
use macbastion.Cipher.{Cipher}
use macbastion.Exec.{Result, ok, err, and_then}
use macbastion.Pulse.Scoring.{Datetime, Weights, normalize_delta, score_and_mode}

-- a row of `buckets`
pub record Bucket : Type 0 where
  pub ts : String
  pub gated : Bool
  pub signals_json : String

-- `row_count` is what AUTOINCREMENT remembers
pub record BaselineStore : Type 0 where
  pub buckets : List Bucket
  pub row_count : ℕ
  pub baseline_meta : Dict String

-- `RETENTION_DAYS` and `CALIBRATION_DAYS`
abbrev pub retention_days : ℕ
retention_days = 14

abbrev pub calibration_required : ℕ
calibration_required = 14

-- `get_meta`
unfoldable pub get_meta : BaselineStore → String → Option String
get_meta store key = Dict.get store.baseline_meta key

-- `set_meta`
unfoldable pub set_meta : String → String → BaselineStore → BaselineStore
set_meta key value store = record store { baseline_meta = Dict.put store.baseline_meta key value }

-- `ts >= cutoff AND ts < now`
abbrev pub in_window : String → String → Bucket → Bool
in_window cutoff now b = from cutoff b.ts && before b.ts now

abbrev pub is_recent : String → Bucket → Bool
is_recent cutoff b = not (before b.ts cutoff)

-- `purge`: the count of the rows that went
unfoldable pub purge_before : String → BaselineStore → ℕ × BaselineStore
purge_before cutoff store =
    let kept = keep_if (is_recent cutoff) store.buckets in
    (length store.buckets - length kept, record store { buckets = kept })

-- `bucket_count`
unfoldable pub bucket_count : BaselineStore → ℕ
bucket_count store = length store.buckets

-- `clear`
unfoldable pub clear_buckets : BaselineStore → ℕ × BaselineStore
clear_buckets store = (length store.buckets, record store { buckets = [] })

abbrev pub day_of : Bucket → String
day_of b = prefix 10 b.ts

abbrev pub days_in : String → String → BaselineStore → ℕ
days_in cutoff now store =
    length (sorted_set (map day_of (keep_if (in_window cutoff now) store.buckets)))

module _ {F : Type 0} (ops : FloatOps F) (cipher : Cipher (Dict F)) (datetime : Datetime F) where
  -- `_cutoff`
  unfoldable pub cutoff : String → Result String
  cutoff now = datetime.days_before retention_days now

  -- `purge`
  unfoldable pub purge : String → BaselineStore → Result ℕ × BaselineStore
  purge now store = elim (cutoff now) [
    | err x ↦ (err x, store)
    | ok cut ↦ let (n, store') = purge_before cut store in (ok n, store')
  ]

  -- `calibration_days`
  unfoldable pub calibration_days : String → BaselineStore → Result ℕ
  calibration_days now store = and_then (cutoff now) (λ cut. ok (days_in cut now store))

  -- `baseline_ready`
  unfoldable pub baseline_ready : String → BaselineStore → Result Bool
  baseline_ready now store =
      and_then (calibration_days now store) (λ days. ok (leb calibration_required days))

  -- `record_bucket`
  unfoldable pub record_bucket : String → Dict F → Bool → BaselineStore → ℕ × BaselineStore
  record_bucket ts signals gated store = (
    store.row_count + 1,
    record store {
      buckets =
          store.buckets
          ++ record { ts = ts; gated = gated; signals_json = cipher.seal signals } ∷ [];
      row_count = store.row_count + 1;
    },
  )

  -- a float in its place in an ascending list
  abbrev pub insert_float : F → List F → List F
  insert_float x [] = x ∷ []
  insert_float x (y ∷ ys) = if ops.ltb y x then y ∷ insert_float x ys else x ∷ y ∷ ys

  abbrev pub sort_floats : List F → List F
  sort_floats [] = []
  sort_floats (x ∷ xs) = insert_float x (sort_floats xs)

  abbrev pub item : F → List F → ℕ → F
  item default [] i = default
  item default (x ∷ xs) zero = x
  item default (x ∷ xs) (suc i) = item default xs i

  -- `statistics.median`, of a list that is not empty
  abbrev pub middle : List F → F
  middle sorted =
      let n = length sorted in
      let high = item (ops.of_text "0.0") sorted (n / 2) in
      if n % 2 == 1
      then high
      else ops.div (ops.add (item (ops.of_text "0.0") sorted (n / 2 - 1)) high) (ops.of_ℤ (pos 2))

  abbrev pub median : List F → Option F
  median [] = none
  median (x ∷ xs) = some (middle (sort_floats (x ∷ xs)))

  -- `ts >= ? AND ts < ? AND gated = 0`
  abbrev pub usable : String → String → Bucket → Bool
  usable cut now b = in_window cut now b && not b.gated

  abbrev with_value_of : Option F → List F → List F
  with_value_of none values = values
  with_value_of (some v) values = v ∷ values

  -- the values of a key in the rows; the first row that does not decrypt raises
  abbrev pub values_of : String → List Bucket → Result (List F)
  values_of key [] = ok []
  values_of key (b ∷ rows) =
      let rest = values_of key rows in
      and_then (cipher.unseal b.signals_json)
        λ signals. and_then rest λ values. ok (with_value_of (Dict.get signals key) values)

  -- `baseline`
  unfoldable pub baseline : String → String → BaselineStore → Result (Option F)
  baseline key now store = and_then (cutoff now) λ cut.
      and_then (values_of key (keep_if (usable cut now) store.buckets)) λ values. ok (median values)

  -- `GROUP_A_DIRECTIONS`
  abbrev pub group_a_directions : List (String × Bool)
  group_a_directions = ("typing_speed", false) ∷ ("error_rate", true) ∷ ("mouse_ineff", true) ∷ []

  abbrev with_delta : F → Bool → Option F → List F → List F
  with_delta current up none deltas = deltas
  with_delta current up (some base) deltas = normalize_delta ops current base up ∷ deltas

  -- the sub-deltas of the signals that have a reading and a baseline
  abbrev pub deltas_of : BaselineStore → String → Dict F → List (String × Bool) → Result (List F)
  deltas_of store now group_a [] = ok []
  deltas_of store now group_a ((name, up) ∷ names) =
      let rest = deltas_of store now group_a names in
      elim (Dict.get group_a name) [
        | none ↦ rest
        | some current ↦
            and_then (baseline name now store)
              λ base. and_then rest λ deltas. ok (with_delta current up base deltas)
      ]

  abbrev pub mean : List F → Option F
  mean [] = none
  mean (x ∷ xs) = some (ops.div (ops.total (x ∷ xs)) (ops.of_ℤ (pos (length (x ∷ xs)))))

  -- `_group_a_delta`
  unfoldable pub group_a_delta : BaselineStore → String → Option (Dict F) → Result (Option F)
  group_a_delta store now none = ok none
  group_a_delta store now (some group_a) =
      and_then (deltas_of store now group_a group_a_directions) (λ deltas. ok (mean deltas))

  -- `assess`
  unfoldable pub assess :
      BaselineStore
      → String
      → Option (Dict F)
      → Option F
      → Option F
      → Weights F
      → Result (F × String)
  assess store now group_a temporal drift weights =
      and_then (group_a_delta store now group_a) λ delta.
        and_then (baseline_ready now store) λ ready.
          score_and_mode ops (record { input_delta = delta; temporal = temporal; drift = drift })
            weights ready
