-- ===== src/Oracle/Store.antt =====
-- chimera/modules/oracle/oracle/baseline.py: the store of the observed events. The two tables of the
-- database are a list of rows, the oldest first, whose id is their place from 1, and a dictionary; no
-- row is ever deleted. `GROUP BY` is taken in the order of the keys.
use macbastion.Prelude.{
  ℕ, zero, suc, ◌+◌, String, Bool, true, ◌&&◌, Option, none, some, List, [], ◌∷◌, ◌++◌, map, length,
  take, keep_if, str_eq, if◌then◌else◌,
}
use mathlib.Core.List.{reverse}
use macbastion.Prelude.Int.{pos}
use macbastion.Prelude.Text.{prefix, suffix, sorted_set}
use macbastion.Prelude.Order.{before, from}
use macbastion.Prelude.Dict
use macbastion.Prelude.Dict.{Dict}
use macbastion.Prelude.Json.{Fields}
use macbastion.Cipher.{Cipher}
use macbastion.Errors.{key_error, show_ℤ}
use macbastion.Exec.{Result, ok, err, and_then}

-- a row of `events`
pub record EventRow : Type 0 where
  pub ts : String
  pub source : String
  pub kind : String
  pub payload_json : String
  pub ctx_json : Option String

pub record BaselineStore : Type 0 where
  pub events : List EventRow
  pub baseline_meta : Dict String

-- an event as it is read back
pub record StoredEvent : Type 0 where
  pub ts : String
  pub source : String
  pub kind : String
  pub payload : Fields
  pub context : Option Fields

-- `get_meta`
unfoldable pub get_meta : BaselineStore → String → Option String
get_meta store key = Dict.get store.baseline_meta key

-- `set_meta`
unfoldable pub set_meta : String → String → BaselineStore → BaselineStore
set_meta key value store = record store { baseline_meta = Dict.put store.baseline_meta key value }

-- `SELECT key, COUNT(*) ... GROUP BY key`
abbrev pub count_of : String → List String → ℕ
count_of k [] = 0
count_of k (x ∷ xs) = (if str_eq x k then 1 else 0) + count_of k xs

abbrev pub with_counts : List String → List String → Dict ℕ
with_counts xs [] = []
with_counts xs (k ∷ ks) = (k, count_of k xs) ∷ with_counts xs ks

unfoldable pub group_counts : List String → Dict ℕ
group_counts xs = with_counts xs (sorted_set xs)

pub record Summary : Type 0 where
  pub total : ℕ
  pub by_source : Dict ℕ
  pub by_type : Dict ℕ

abbrev pub summary_of : List EventRow → Summary
summary_of rows = record {
  total = length rows;
  by_source = group_counts (map (λ (e : EventRow). e.source) rows);
  by_type = group_counts (map (λ (e : EventRow). e.kind) rows);
}

-- `summary`; the counts by hour are the second part
unfoldable pub summary : BaselineStore → Summary × Dict ℕ
summary store = (
  summary_of store.events,
  group_counts (map (λ (e : EventRow). prefix 2 (suffix 11 e.ts)) store.events),
)

-- `days_observed`
unfoldable pub days_observed : BaselineStore → ℕ
days_observed store = length (sorted_set (map (λ (e : EventRow). prefix 10 e.ts) store.events))

-- `ts >= start AND ts < end`
abbrev pub in_period : String → String → EventRow → Bool
in_period start stop e = from start e.ts && before e.ts stop

-- `period_summary`
unfoldable pub period_summary : String → String → BaselineStore → Summary
period_summary start stop store = summary_of (keep_if (in_period start stop) store.events)

abbrev is_kind : Option String → EventRow → Bool
is_kind none e = true
is_kind (some kind) e = str_eq e.kind kind

-- `source = ?`, and `type = ?` where a type is given
abbrev pub is_of : String → Option String → EventRow → Bool
is_of source kind e = str_eq e.source source && is_kind kind e

-- `MIN(ts)` of the rows that pass
abbrev pub earlier : String → Option String → String
earlier ts none = ts
earlier ts (some m) = if before m ts then m else ts

abbrev pub min_ts : (EventRow → Bool) → List EventRow → Option String
min_ts test [] = none
min_ts test (e ∷ rows) = let m = min_ts test rows in if test e then some (earlier e.ts m) else m

-- `first_seen`
unfoldable pub first_seen : String → Option String → BaselineStore → Option String
first_seen source kind store = min_ts (is_of source kind) store.events

abbrev pub row_at : ℕ → List EventRow → Option EventRow
row_at n [] = none
row_at zero (e ∷ rows) = none
row_at (suc zero) (e ∷ rows) = some e
row_at (suc (suc n)) (e ∷ rows) = row_at (suc n) rows

abbrev pub inserted : EventRow → BaselineStore → BaselineStore
inserted row store = record store { events = store.events ++ row ∷ [] }

-- the transaction after the `INSERT`: the count, or the exception of reading it
abbrev pub counted_up : Result ℕ → BaselineStore → Result ℕ × BaselineStore
counted_up (err x) store = (err x, store)
counted_up (ok n) store =
    (ok (length store.events), set_meta "event_count" (show_ℤ (pos (n + 1))) store)

-- `int_of_text` is `int(value)`
module _ (cipher : Cipher Fields) (int_of_text : String → Result ℕ) where
  -- `event_count`
  unfoldable pub event_count : BaselineStore → Result ℕ
  event_count store = elim (get_meta store "event_count") [ none ↦ ok 0 | some n ↦ int_of_text n ]

  abbrev new_row : String → String → String → Fields → Option Fields → EventRow
  new_row ts source kind payload context = record {
    ts = ts;
    source = source;
    kind = kind;
    payload_json = cipher.seal payload;
    ctx_json = elim context [ none ↦ none | some c ↦ some (cipher.seal c) ];
  }

  -- `record_event`: the row's id
  unfoldable pub record_event :
      String → String → String → Fields → Option Fields → BaselineStore → Result ℕ × BaselineStore
  record_event ts source kind payload context store =
      let row = new_row ts source kind payload context in
      counted_up (event_count store) (inserted row store)

  abbrev unseal_context : Option String → Result (Option Fields)
  unseal_context none = ok none
  unseal_context (some token) = and_then (cipher.unseal token) (λ c. ok (some c))

  abbrev pub read_row : EventRow → Result StoredEvent
  read_row e = and_then (cipher.unseal e.payload_json) λ payload.
      and_then (unseal_context e.ctx_json) λ context. ok (record {
        ts = e.ts;
        source = e.source;
        kind = e.kind;
        payload = payload;
        context = context;
      })

  -- `load_event`
  unfoldable pub load_event : ℕ → BaselineStore → Result StoredEvent
  load_event event_id store = elim (row_at event_id store.events) [
    | none ↦ err (key_error (show_ℤ (pos event_id)))
    | some e ↦ read_row e
  ]

  abbrev pub read_rows : List EventRow → Result (List StoredEvent)
  read_rows [] = ok []
  read_rows (e ∷ rows) =
      let rest = read_rows rows in
      and_then (read_row e) λ event. and_then rest λ events. ok (event ∷ events)

  -- `recent_events`
  unfoldable pub recent_events : ℕ → BaselineStore → Result (List StoredEvent)
  recent_events limit store = read_rows (take limit (reverse store.events))

  -- the metadata that `__init__` writes
  unfoldable pub open_store : BaselineStore → BaselineStore
  open_store store =
      let store' = set_meta "schema_version" "1" store in
      elim (get_meta store' "event_count") [
        | none ↦ set_meta "event_count" "0" store'
        | some n ↦ store'
      ]
