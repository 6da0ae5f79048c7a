-- ===== src/Tests/Minds.antt =====
-- The theorems on PULSE and ORACLE, applied. Floats are hundredths here, as natural numbers.
use macbastion.Prelude.{
  ℕ, ◌+◌, ◌-◌, ◌*◌, ◌/◌, ◌≤◌, String, Bool, true, false, ◌≡◌, refl, inl, inr, none, some, List, [],
  ◌∷◌, arith, str_eq, ltb, leb, ◌==◌, length, if◌then◌else◌,
}
use macbastion.Prelude.Int.{pos, pos_part}
use macbastion.Prelude.Dict.{Dict}
use macbastion.Prelude.Floats.{FloatOps, FloatLaws}
use macbastion.Prelude.Json.{float, end, field}
use macbastion.Cipher.{Cipher}
use macbastion.Exec.{ok}
use macbastion.Envelope.{int_id, dict_params, null_params, parsed, request, notification}
use macbastion.Gate.{allow, decide}
use macbastion.Pulse.Scoring.{Weights, Signals, Datetime, mode_for_score, score_and_mode}
use macbastion.Pulse.Scores.{
  level, Bounded, decide-mode_for_score, score_and_mode_bounds, decide-score_and_mode,
}
use macbastion.Pulse.Store
use macbastion.Pulse.Client
use macbastion.Pulse.Client.{PulseEnv}
use macbastion.Pulse.Dispatch
use macbastion.Pulse.Dispatch.{tick_due, command_frame, event_frame}
use macbastion.Pulse.Retention.{purge_lem}
use macbastion.Pulse.Quiet.{Quiet}
use macbastion.Pulse.Inert.{run_inputs-Quiet}

abbrev pub hundredths : String → ℕ
hundredths s =
    if str_eq s "1.0"
    then 100
    else if str_eq s "0.9"
    then 90
    else if str_eq s "0.7"
    then 70
    else if str_eq s "0.4"
    then 40
    else if str_eq s "0.1"
    then 10
    else 0

abbrev pub sum : List ℕ → ℕ
sum [] = 0
sum (x ∷ xs) = x + sum xs

abbrev pub ops : FloatOps ℕ
ops = record {
  of_text = hundredths;
  of_ℤ = λ n. 100 * pos_part n;
  to_text = λ x. "1.0";
  add = λ a b. a + b;
  sub = λ a b. a - b;
  mul = λ a b. a * b / 100;
  div = λ a b. a * 100 / b;
  floor_div = λ a b. a * 100 / b;
  total = sum;
  ltb = ltb;
  leb = leb;
  eqb = λ a b. a == b;
  is_finite = λ a. true;
  is_close = λ a b. a == b;
}

laws : FloatLaws ops
laws = record {
  leb_of_ltb = λ a b h. ground arith;
  ltb_of_leb_ltb = λ a b c h k. ground arith;
  leb_zero = refl;
  leb_one = refl;
  leb_zero_one = refl;
  total_nil = refl;
}

abbrev danger : List String
danger = "purge.trigger" ∷ []

decide-mode_for_score_example :
    level (decide "purge.trigger" (some (mode_for_score ops 50)) danger false).decision
    ≤ level (decide "purge.trigger" (some (mode_for_score ops 95)) danger false).decision
decide-mode_for_score_example = decide-mode_for_score ops laws 50 95 "purge.trigger" danger refl

abbrev weights : Weights ℕ
weights = record { w_a = 55; w_b = 30; w_c = 15 }

abbrev signals : Signals ℕ
signals = record { input_delta = some 90; temporal = some 40; drift = none }

score_and_mode_bounds_example :
    (r : ℕ × String) × (score_and_mode ops signals weights true ≡ ok r) × Bounded ops laws r
score_and_mode_bounds_example = score_and_mode_bounds ops laws signals weights true refl

decide-score_and_mode_example :
    (r : ℕ × String) × (score_and_mode ops signals weights false ≡ ok r)
    × ((action : String) (danger : List String) (override_ok : Bool)
        → (decide action (some r.1) danger override_ok).decision ≡ allow)
decide-score_and_mode_example =
    decide-score_and_mode ops laws weights signals false refl (inr (inr refl))

abbrev datetime : Datetime ℕ
datetime = record {
  hour = λ now. ok 3;
  seconds_between = λ now earlier. ok 60;
  days_before = λ days now. ok "2026-01-02";
}

abbrev cipher : Cipher (Dict ℕ)
cipher = record { seal = λ d. "token"; unseal = λ token. ok (("typing_speed", 50) ∷ []) }

abbrev bucket : String → Store.Bucket
bucket ts = record { ts = ts; gated = false; signals_json = "token" }

abbrev pulse_store : Store.BaselineStore
pulse_store = record {
  buckets = bucket "2026-01-01" ∷ bucket "2026-01-03" ∷ [];
  row_count = 2;
  baseline_meta = [];
}

purge_lem_example :
    (n : ℕ) × (left : Store.BaselineStore) × (Store.purge ops cipher datetime "2026-01-16"
        pulse_store
      ≡ (ok n, left))
    × (n + length left.buckets ≡ 2)
    × (Store.baseline ops cipher datetime "typing_speed" "2026-01-16" left
        ≡ Store.baseline ops cipher datetime "typing_speed" "2026-01-16" pulse_store)
    × (Store.calibration_days ops cipher datetime "2026-01-16" left
        ≡ Store.calibration_days ops cipher datetime "2026-01-16" pulse_store)
    × (Store.baseline_ready ops cipher datetime "2026-01-16" left
        ≡ Store.baseline_ready ops cipher datetime "2026-01-16" pulse_store)
unfolding Store.cutoff
purge_lem_example =
    purge_lem ops cipher datetime "2026-01-16" "2026-01-16" "2026-01-02" "2026-01-02" "typing_speed"
      pulse_store refl refl refl

abbrev pulse_env : PulseEnv ℕ
pulse_env = record {
  ops = ops;
  cipher = cipher;
  datetime = datetime;
  float_of = λ j. ok 90;
  int_of = λ j. ok (pos 40);
  int_of_float = λ x. ok (pos 1);
  dump_histogram = λ hist. "[]";
  exn_text = λ x. "exception";
}

abbrev pulse : Client.Client ℕ
pulse = record {
  store = record { buckets = []; row_count = 0; baseline_meta = [] };
  session_start = some "2026-01-16";
  chronotype = "typical";
  activity_hist = [];
  weights = weights;
  danger_registry = none;
  idle = record { in_gap = false; last_idle_end = none };
  group_a = none;
  drift = record { ts = none; score = 0 };
  enabled = true;
  last_mode = none;
  connected = true;
  sent = [];
}

abbrev inputs : List Dispatch.Input
inputs =
    event_frame "2026-01-16" (
      parsed (
        notification (record {
          method = "oracle.anomaly.detected";
          params = dict_params (field "score" (float "0.95") end);
        })))
    ∷ tick_due "2026-01-16" (some 0)
    ∷ command_frame "2026-01-16" none (
        parsed
          (request (record { id = int_id (pos 1); method = "pulse.status"; params = null_params })))
    ∷ tick_due "2026-01-17" none
    ∷ []

run_inputs-Quiet_example : Quiet (Dispatch.run_inputs pulse_env inputs pulse).1
run_inputs-Quiet_example =
    run_inputs-Quiet pulse_env inputs pulse
      (record { no_bucket = refl; normal_mode = inl refl; no_change = tt })
