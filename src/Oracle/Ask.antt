-- ===== src/Oracle/Ask.antt =====
-- chimera/modules/oracle/oracle: the structured queries (query.py), and a question in plain language
-- mapped to one of them by a language model (ask.py).
use macbastion.Prelude.{ℕ, String, Bool, ◌||◌, Option, none, some, [], ◌∷◌, if◌then◌else◌}
use macbastion.Prelude.Int.{pos}
use macbastion.Prelude.Text.{concat}
use macbastion.Prelude.Dict.{Dict}
use macbastion.Prelude.Json.{Json, null, int, str, obj, Fields, end, field, get_field}
use macbastion.Errors.{rpc_code, chimera_code, precondition_failed, show_ℤ}
use macbastion.Exec.{Result, ok, err}
use macbastion.Oracle.Store.{BaselineStore, Summary, first_seen, period_summary}
use macbastion.Oracle.Detector.{OracleEnv, outermost, is_text}

abbrev pub text_or_null : Option String → Json
text_or_null none = null
text_or_null (some s) = str s

abbrev count_fields : Dict ℕ → Fields
count_fields [] = end
count_fields ((k, n) ∷ d) = field k (int (pos n)) (count_fields d)

-- `TimeMachine.first_seen`
unfoldable pub query_first_seen : String → Option String → BaselineStore → Fields
query_first_seen source kind store = field "source" (str source) (
    field "event_type" (text_or_null kind)
      (field "first_seen" (text_or_null (first_seen source kind store)) end))

abbrev pub period_fields : String → String → Summary → Fields
period_fields start stop s = field "start" (str start) (
    field "end" (str stop) (
      field "total" (int (pos s.total)) (
        field "by_source" (obj (count_fields s.by_source))
          (field "by_type" (obj (count_fields s.by_type)) end))))

-- `TimeMachine.period_summary`
unfoldable pub query_period : String → String → BaselineStore → Fields
query_period start stop store = period_fields start stop (period_summary start stop store)

-- the answers of `_shape`
abbrev no_answer : String
no_answer = "I couldn't map that question to a supported query (first_seen or period)."

abbrev seen_answer : String → Option String → String
seen_answer source (some ts) =
    concat "'" (concat source (concat "' was first seen at " (concat ts ".")))
seen_answer source none = concat "No '" (concat source "' events in the baseline yet.")

abbrev period_answer : String → String → ℕ → String
period_answer start stop total = concat "Between " (
    concat start (
      concat " and "
        (concat stop (concat " there were " (concat (show_ℤ (pos total)) " events.")))))

abbrev pub shape : String → String → Json → Fields
shape answer query_used raw_result =
    field "answer" (str answer)
      (field "query_used" (str query_used) (field "raw_result" raw_result end))

-- the query that an intent stands for
pub data Query : Type 0 where
  seen_query : String → Option String → Query
  period_query : String → String → Query
  unknown_query : Query

abbrev pub as_text : Option Json → Option String
as_text (some (str s)) = some s
as_text _ = none

abbrev seen_or : Option String → Option String → Query
seen_or none kind = unknown_query
seen_or (some source) kind = seen_query source kind

abbrev period_or : Option String → Option String → Query
period_or (some start) (some stop) = period_query start stop
period_or _ _ = unknown_query

-- the tests of `ask`
unfoldable pub query_of : Fields → Query
query_of intent =
    if is_text (get_field intent "query_type") "first_seen"
    then seen_or (as_text (get_field intent "source")) (as_text (get_field intent "event_type"))
    else if is_text (get_field intent "query_type") "period"
    then period_or (as_text (get_field intent "start")) (as_text (get_field intent "end"))
    else unknown_query

-- the rest of `ask`, with `_shape`
unfoldable pub answer_query : Query → BaselineStore → Fields
answer_query (seen_query source kind) store =
    shape (seen_answer source (first_seen source kind store)) "first_seen"
      (obj (query_first_seen source kind store))
answer_query (period_query start stop) store =
    shape (period_answer start stop (period_summary start stop store).total) "period"
      (obj (query_period start stop store))
answer_query unknown_query store = shape no_answer "unknown" null

abbrev unknown_intent : Fields
unknown_intent = field "query_type" (str "unknown") end

abbrev is_known : Fields → Bool
is_known fs =
    let q = get_field fs "query_type" in
    is_text q "first_seen" || is_text q "period" || is_text q "unknown"

abbrev checked_intent : Option Json → Fields
checked_intent (some (obj fs)) = if is_known fs then fs else unknown_intent
checked_intent _ = unknown_intent

module _ {F : Type 0} (env : OracleEnv F) where
  -- `_salvage_object`
  unfoldable pub salvage_object : String → Option Json
  salvage_object raw = elim (outermost raw) [ none ↦ none | some inner ↦ env.loads inner ]

  -- `_parse_intent`
  unfoldable pub parse_intent : String → Fields
  parse_intent raw = elim (env.loads raw) [
    | none ↦ checked_intent (salvage_object raw)
    | some j ↦ checked_intent (some j)
  ]

  -- `ask`
  unfoldable pub ask : String → BaselineStore → Result Fields
  ask question store = elim (env.generate (env.intent_prompt question)) [
    | none ↦ err (rpc_code (chimera_code precondition_failed))
    | some raw ↦ ok (answer_query (query_of (parse_intent raw)) store)
  ]
