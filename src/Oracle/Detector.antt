-- ===== src/Oracle/Detector.antt =====
-- chimera/modules/oracle/oracle/detector.py: one event scored by a language model. The model, the text
-- of the prompt, `json.loads`, `float(x)`, `str(x)` and the two regular expressions are parameters.
use macbastion.Prelude.{
  ℕ, String, Bool, true, false, ◌&&◌, ◌||◌, Option, none, some, List, map, take, keep_if, str_eq,
  is_some, ◌==◌, if◌then◌else◌,
}
use Prim.Native.Char.{code}
use macbastion.Prelude.Int.{pos}
use macbastion.Prelude.Text.{prefix, suffix}
use macbastion.Prelude.Dict
use macbastion.Prelude.Dict.{Dict}
use macbastion.Prelude.Floats.{FloatOps, zero_float, one_float, clamp01}
use macbastion.Prelude.Json.{
  Json, null, bool, int, float, str, arr, obj, Items, nil, cons, Fields, end, field, get_field,
}
use macbastion.Cipher.{Cipher}
use macbastion.Errors.{
  Exn, value_error, key_error, type_error, rpc_code, rpc_message, chimera_code, precondition_failed,
  internal_error, invalid_params,
}
use macbastion.Exec.{Result, ok, err, and_then}
use macbastion.Oracle.Store.{
  EventRow, BaselineStore, StoredEvent, Summary, summary, days_observed, recent_events, get_meta,
  set_meta,
}

pub record OracleEnv (F : Type 0) : Type 0 where
  pub ops : FloatOps F
  pub cipher : Cipher Fields
  pub int_of_text : String → Result ℕ
  -- `json.loads`, `float(x)` and `str(x)` of a value, and `str(exc)`
  pub loads : String → Option Json
  pub float_of : Json → Result F
  pub text_of_json : Json → String
  -- what the patterns for the score and for the reasoning find
  pub score_match : String → Option F
  pub reasoning_match : String → Option String
  -- `build_prompt` of the event, the baseline and the factors; the prompt of a question
  pub build_prompt : Fields → Summary × Dict ℕ → List StoredEvent → Fields → String
  pub intent_prompt : String → String
  -- `generate`: nothing if the model cannot be reached
  pub generate : String → Option String
  -- what the worker threads of other tasks record between a thread's `record_event` and its
  -- `event_count`, which hold the lock one after the other
  pub others : List EventRow
  -- the time of the next event that is recorded
  pub utc_now : String

-- an earlier event that is alike
pub record Similar : Type 0 where
  pub ts : String
  pub source : String
  pub kind : String

pub record Verdict (F : Type 0) : Type 0 where
  pub score : F
  pub reasoning : String
  pub context_factors : Items
  pub similar_events : List Similar

-- `raw[raw.find("{") :]`
abbrev pub from_brace : String → Option String
from_brace String.[] = none
from_brace (String.◌∷◌ x s) = if code x == b'{' then some (String.◌∷◌ x s) else from_brace s

-- `s[: s.rfind("}") + 1]`
abbrev pub to_brace : String → Option String
to_brace String.[] = none
to_brace (String.◌∷◌ x s) = elim (to_brace s) [
  | some r ↦ some (String.◌∷◌ x r)
  | none ↦ if code x == b'}' then some (String.◌∷◌ x "") else none
]

-- the text from the first opening brace to the last closing one
unfoldable pub outermost : String → Option String
outermost raw = elim (from_brace raw) [ none ↦ none | some s ↦ to_brace s ]

abbrev all_texts : Items → Bool
all_texts nil = true
all_texts (cons (str s) xs) = all_texts xs
all_texts (cons _ xs) = false

-- a list of texts, or else the empty list
abbrev pub clean_factors : Json → Items
clean_factors (arr xs) = if all_texts xs then xs else nil
clean_factors _ = nil

abbrev default_items : Option Json → Json
default_items none = arr nil
default_items (some j) = j

-- `isinstance(x, (list, dict))`: what `in` of a dictionary refuses
abbrev is_unhashable : Option Json → Bool
is_unhashable (some (arr xs)) = true
is_unhashable (some (obj fs)) = true
is_unhashable _ = false

abbrev pub is_text : Option Json → String → Bool
is_text (some (str s)) t = str_eq s t
is_text _ t = false

abbrev key_in : Option Json → Dict ℕ → Bool
key_in (some (str s)) d = is_some (Dict.get d s)
key_in _ d = false

abbrev hour_of : Option Json → Option String
hour_of (some (str ts)) = if str_eq (suffix 12 ts) "" then none else some (prefix 2 (suffix 11 ts))
hour_of _ = none

abbrev hour_fields : Dict ℕ → Option String → ℕ → Fields
hour_fields by_hour none days =
    field "event_hour" null
      (field "hour_frequency" null (field "days_observed" (int (pos days)) end))
hour_fields by_hour (some h) days = field "event_hour" (str h) (
    field "hour_frequency" (int (pos (elim (Dict.get by_hour h) [ none ↦ 0 | some n ↦ n ])))
      (field "days_observed" (int (pos days)) end))

-- `_derive_factors`
unfoldable pub derive_factors : Fields → Summary × Dict ℕ → ℕ → Result Fields
derive_factors event (s, by_hour) days =
    let source = get_field event "source" in
    let kind = get_field event "type" in
    if is_unhashable source || is_unhashable kind
    then err type_error
    else ok (
        field "source_seen_before" (bool (key_in source s.by_source)) (
          field "type_seen_before" (bool (key_in kind s.by_type))
            (hour_fields by_hour (hour_of (get_field event "ts")) days)))

abbrev is_alike : Option Json → Option Json → StoredEvent → Bool
is_alike source kind e = is_text source e.source && is_text kind e.kind

abbrev similar_of : StoredEvent → Similar
similar_of e = record { ts = e.ts; source = e.source; kind = e.kind }

-- `_similar`
unfoldable pub similar : Fields → List StoredEvent → List Similar
similar event recent =
    take 3 (
      map similar_of
        (keep_if (is_alike (get_field event "source") (get_field event "type")) recent))

module _ {F : Type 0} (env : OracleEnv F) where
  open env use {ops, cipher, loads, float_of, text_of_json, generate}

  abbrev score_of : Option Json → Result F
  score_of none = err (key_error "score")
  score_of (some j) = float_of j

  abbrev reasoning_of : Option Json → Result String
  reasoning_of none = err (key_error "reasoning")
  reasoning_of (some j) = ok (text_of_json j)

  -- the first attempt of `_parse`
  abbrev pub strict : Option Json → Result (F × String × Json)
  strict none = err (value_error "no JSON")
  strict (some (obj fs)) = and_then (score_of (get_field fs "score")) λ score.
      and_then (reasoning_of (get_field fs "reasoning"))
        λ text. ok (score, text, default_items (get_field fs "context_factors"))
  strict (some _) = err type_error

  -- the attempt of `_salvage` on the outermost braces
  abbrev pub lenient : Option Json → Result (F × String × Json)
  lenient (some (obj fs)) = and_then (score_of (get_field fs "score")) λ score. ok (
    score,
    elim (get_field fs "reasoning") [ none ↦ "" | some j ↦ text_of_json j ],
    default_items (get_field fs "context_factors"),
  )
  lenient _ = err type_error

  -- `except (json.JSONDecodeError, KeyError, TypeError, ValueError)`
  abbrev pub is_caught : Exn → Bool
  is_caught (key_error text) = true
  is_caught (value_error text) = true
  is_caught type_error = true
  is_caught _ = false

  -- the score that the pattern finds
  abbrev matched : String → Result (Option (F × String × Json))
  matched raw = elim (env.score_match raw) [
    | none ↦ ok none
    | some score ↦ ok (
        some (
          score,
          elim (env.reasoning_match raw) [
            | none ↦ "(recovered from truncated output)"
            | some t ↦ t
          ],
          arr nil,
        ))
  ]

  abbrev or_matched : String → Result (F × String × Json) → Result (Option (F × String × Json))
  or_matched raw (ok t) = ok (some t)
  or_matched raw (err x) = if is_caught x then matched raw else err x

  -- `_salvage`
  unfoldable pub salvage : String → Result (Option (F × String × Json))
  salvage raw = elim (outermost raw) [
    | none ↦ matched raw
    | some inner ↦ or_matched raw (lenient (loads inner))
  ]

  abbrev malformed : Exn
  malformed = rpc_message internal_error "LLM returned malformed output"

  abbrev found : Result (Option (F × String × Json)) → Result (F × String × Json)
  found (err x) = err x
  found (ok none) = err malformed
  found (ok (some t)) = ok t

  abbrev or_salvaged : String → Result (F × String × Json) → Result (F × String × Json)
  or_salvaged raw (ok t) = ok t
  or_salvaged raw (err x) = if is_caught x then found (salvage raw) else err x

  abbrev pub shaped : List Similar → F × String × Json → Verdict F
  shaped alike (score, reasoning, factors) = record {
    score = clamp01 ops score;
    reasoning = reasoning;
    context_factors = clean_factors factors;
    similar_events = alike;
  }

  -- `_parse`, with the events that are alike put in
  unfoldable pub parse_verdict : List Similar → String → Result (Verdict F)
  parse_verdict alike raw =
      and_then (or_salvaged raw (strict (loads raw))) (λ t. ok (shaped alike t))

  abbrev pub unreachable : Exn
  unreachable = rpc_code (chimera_code precondition_failed)

  abbrev or_unreachable : Option String → Result String
  or_unreachable none = err unreachable
  or_unreachable (some raw) = ok raw

  -- `classify`, with `RECENT_LIMIT`
  unfoldable pub classify : Fields → BaselineStore → Result (Verdict F)
  classify event store =
      let all = summary store in
      and_then (recent_events cipher env.int_of_text 50 store) λ recent.
        and_then (derive_factors event all (days_observed store)) λ factors.
          and_then (or_unreachable (generate (env.build_prompt event all recent factors)))
            (parse_verdict (similar event recent))

  -- `get_threshold`, where `seed` is what the detector was made with
  unfoldable pub get_threshold : F → BaselineStore → F
  get_threshold seed store = elim (get_meta store "threshold") [
    | none ↦ seed
    | some text ↦ ops.of_text text
  ]

  -- `set_threshold`
  unfoldable pub set_threshold : F → BaselineStore → Result Fields × BaselineStore
  set_threshold value store =
      if ops.leb (zero_float ops) value && ops.leb value (one_float ops)
      then (
        ok (field "threshold" (float (ops.to_text value)) end),
        set_meta "threshold" (ops.to_text value) store,
      )
      else (err (rpc_message invalid_params "threshold must be in 0..1"), store)
