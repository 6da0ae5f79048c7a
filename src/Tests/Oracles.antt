-- ===== src/Tests/Oracles.antt =====
-- The theorems on ORACLE, applied: a model that answers with one score.
use macbastion.Prelude.{
  str_eq, ◌&&◌, some, ◌++◌, ℕ, ◌+◌, String, true, false, ◌≡◌, refl, none, some, List, [], ◌∷◌,
  length,
}
use macbastion.Prelude.Int.{pos}
use macbastion.Prelude.Dict
use macbastion.Prelude.Json.{float, str, obj, end, field}
use macbastion.Errors.{show_ℤ}
use macbastion.Exec.{ok}
use macbastion.Envelope.{int_id, dict_params, null_params, Parsed, parsed, request, notification}
use macbastion.Oracle.Store.{BaselineStore, EventRow, first_seen, period_summary}
use macbastion.Oracle.Detector.{OracleEnv}
use macbastion.Oracle.Client.{Client, Input, command_frame, event_frame, observe, run_inputs}
use macbastion.Oracle.Counts.{IsCounted, ReadsCounts, announced, row_of, observe_lem}
use macbastion.Oracle.Edges.{Sound}
use macbastion.Oracle.Trace.{run_inputs-Sound}
use macbastion.Oracle.Windows.{counted, IsMin, period_summary-split, first_seen-IsMin}
use macbastion.Tests.Decimal.{read_decimal, read_decimal-show}
use macbastion.Tests.Minds.{ops}

abbrev row : String → EventRow
row ts = record {
  ts = ts;
  source = "chaff";
  kind = "request.sent";
  payload_json = "token";
  ctx_json = none;
}

-- an environment in which the model gives the score of this text
abbrev answering : String → OracleEnv ℕ
answering score = record {
  ops = ops;
  cipher = record { seal = λ fs. "token"; unseal = λ token. ok end };
  int_of_text = read_decimal;
  loads = λ raw. some (obj (field "score" (float raw) (field "reasoning" (str "odd") end)));
  float_of = λ j. elim j [ float t ↦ ok (ops.of_text t) | _ ↦ ok 0 ];
  text_of_json = λ j. "odd";
  score_match = λ raw. none;
  reasoning_match = λ raw. none;
  build_prompt = λ event baseline recent factors. "prompt";
  intent_prompt = λ question. "prompt";
  generate = λ prompt. some score;
  others = row "2026-01-16" ∷ [];
  utc_now = "2026-01-16T03:00:00";
}

reads : (score : String) → ReadsCounts (answering score)
reads score n = read_decimal-show n

abbrev store : BaselineStore
store = record {
  events = row "2026-01-03" ∷ row "2026-01-01" ∷ row "2026-01-05" ∷ [];
  baseline_meta = ("event_count", "3") ∷ [];
}

period_summary-split_example :
    let both = period_summary "2026-01-01" "2026-01-06" store in
    let first = period_summary "2026-01-01" "2026-01-03" store in
    let second = period_summary "2026-01-03" "2026-01-06" store in
    (both.total ≡ first.total + second.total)
    × (counted both.by_source "chaff"
        ≡ counted first.by_source "chaff" + counted second.by_source "chaff")
    × (counted both.by_type "chaff"
        ≡ counted first.by_type "chaff" + counted second.by_type "chaff")
period_summary-split_example =
    period_summary-split "2026-01-01" "2026-01-03" "2026-01-06" (refl, refl) "chaff" store

first_seen-IsMin_example :
    IsMin (λ e. str_eq e.source "chaff") (first_seen "chaff" none store) store.events
    × IsMin
        (λ e. str_eq e.source "chaff" && str_eq e.kind "error")
        (first_seen "chaff" (some "error") store)
        store.events
first_seen-IsMin_example = first_seen-IsMin "chaff" "error" store

abbrev client : Client ℕ
client = record {
  store = store;
  detector = some 70;
  has_asker = false;
  baseline_every = 2;
  model = "qwen";
  classifications_today = 0;
  anomalous = false;
  connected = true;
  sent = [];
}

three : IsCounted store
unfolding show_ℤ Dict.get
three = refl

observe_lem_example :
    (after : BaselineStore) × IsCounted after
    × (after.events
        ≡ store.events
          ++ row_of (answering "0.9") (reads "0.9") "chaff.error" end ∷ (answering "0.9").others)
    × (observe (answering "0.9") "chaff.error" end client ≡ (
      ok tt,
      record client {
        store = after;
        sent = announced (answering "0.9") (reads "0.9") (length after.events) client;
      },
    ))
observe_lem_example =
    observe_lem (answering "0.9") (reads "0.9") "chaff.error" end client three refl refl refl

abbrev classify_request : Parsed
classify_request = parsed (
    request (record {
      id = int_id (pos 1);
      method = "oracle.classify";
      params = dict_params (field "event" (obj (field "source" (str "chaff") end)) end);
    }))

abbrev inputs : List (Input ℕ)
inputs =
    command_frame (answering "0.9") classify_request
    ∷ event_frame (answering "0.9")
        (parsed (notification (record { method = "chaff.error"; params = null_params })))
    ∷ command_frame (answering "0.4") classify_request
    ∷ []

run_inputs-Sound_example : Sound (run_inputs inputs client).1
run_inputs-Sound_example =
    run_inputs-Sound inputs client (reads "0.9", (reads "0.9", (reads "0.4", tt)))
      (record { up = refl; counted = three; traced = refl })
