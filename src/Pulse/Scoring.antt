-- ===== src/Pulse/Scoring.antt =====
-- chimera/modules/pulse/pulse: the fatigue score and its mode (scoring.py), and the live producers of
-- its signals (input.py, drift.py, temporal.py). What `datetime` makes of a timestamp is a parameter.
use macbastion.Prelude.{
  ℕ, zero, suc, String, Bool, not, ◌&&◌, ◌||◌, Option, none, some, List, [], ◌∷◌, ◌++◌, map, str_eq,
  any, ◌==◌, if◌then◌else◌,
}
use macbastion.Prelude.Int.{ℤ, pos, ltb_ℤ}
use macbastion.Prelude.Dict.{Dict}
use macbastion.Prelude.Floats.{FloatOps, zero_float, clamp01}
use macbastion.Errors.{value_error}
use macbastion.Exec.{Result, ok, err, and_then}
use macbastion.Pulse.{night_hours}

abbrev pub mode_normal : String
mode_normal = "normal"

abbrev pub mode_caution : String
mode_caution = "caution"

abbrev pub mode_tired : String
mode_tired = "tired"

abbrev pub mode_exhausted : String
mode_exhausted = "exhausted"

pub record Weights (F : Type 0) : Type 0 where
  pub w_a : F
  pub w_b : F
  pub w_c : F

pub record Signals (F : Type 0) : Type 0 where
  pub input_delta : Option F
  pub temporal : Option F
  pub drift : Option F

-- `DriftTracker`
pub record DriftTracker (F : Type 0) : Type 0 where
  pub ts : Option String
  pub score : F

-- what the code takes of `datetime`: the hour of a timestamp, the seconds from the second to the first
-- of two, and the timestamp that is so many days before; a text may be no timestamp
pub record Datetime (F : Type 0) : Type 0 where
  pub hour : String → Result ℕ
  pub seconds_between : String → String → Result F
  pub days_before : ℕ → String → Result String

module _ {F : Type 0} (ops : FloatOps F) where
  open ops use {of_text, of_ℤ, add, sub, mul, div, total, ltb, eqb, is_finite, is_close}

  -- `Weights()`
  unfoldable pub default_weights : Weights F
  default_weights = record { w_a = of_text "0.55"; w_b = of_text "0.30"; w_c = of_text "0.15" }

  unfoldable pub normalize_delta : F → F → Bool → F
  normalize_delta current baseline higher_is_fatigue =
      if eqb baseline (zero_float ops) || not (is_finite baseline) || not (is_finite current)
      then zero_float ops
      else clamp01 ops
          (div (if higher_is_fatigue then sub current baseline else sub baseline current) baseline)

  unfoldable pub mode_for_score : F → String
  mode_for_score score =
      if ltb score (of_text "0.4")
      then mode_normal
      else if ltb score (of_text "0.7")
      then mode_caution
      else if ltb score (of_text "0.9")
      then mode_tired
      else mode_exhausted

  -- the pairs of a weight and a signal that is there
  abbrev pub present_pair : F → Option F → List (F × F)
  present_pair w none = []
  present_pair w (some v) = (w, v) ∷ []

  abbrev pub present_of : Weights F → Signals F → List (F × F)
  present_of w s =
      present_pair w.w_a s.input_delta
      ++ (present_pair w.w_b s.temporal ++ present_pair w.w_c s.drift)

  abbrev pub broken : F × F → Bool
  broken (w, v) = not (is_finite v)

  abbrev scaled : F → F × F → F
  scaled present_w (w, v) = mul (div w present_w) v

  abbrev pub present_weight : List (F × F) → F
  present_weight present = total (map (λ (p : F × F). p.0) present)

  -- `present_w == 0 or any(not math.isfinite(v) for _, v in present)`
  abbrev pub unusable : List (F × F) → Bool
  unusable present = eqb (present_weight present) (zero_float ops) || any broken present

  abbrev pub with_mode : F → Bool → F × String
  with_mode score baseline_ready =
      (score, (if baseline_ready then mode_for_score score else mode_normal))

  -- `score_and_mode` once the weights sum to 1
  abbrev pub score_present : List (F × F) → Bool → F × String
  score_present present baseline_ready =
      if unusable present
      then (zero_float ops, mode_normal)
      else with_mode (clamp01 ops (total (map (scaled (present_weight present)) present)))
          baseline_ready

  abbrev pub total_weight : Weights F → F
  total_weight w = add (add w.w_a w.w_b) w.w_c

  unfoldable pub score_and_mode : Signals F → Weights F → Bool → Result (F × String)
  score_and_mode signals weights baseline_ready =
      if not (is_close (total_weight weights) (of_text "1.0"))
      then err (value_error "weights must sum to 1.0")
      else ok (score_present (present_of weights signals) baseline_ready)

  abbrev mouse_signal : Option F → Dict F
  mouse_signal none = []
  mouse_signal (some r) = ("mouse_ineff", r) ∷ []

  -- `input_signals`
  unfoldable pub input_signals : ℤ → ℤ → Option F → Dict F
  input_signals chars deletes mouse_path_ratio =
      if ltb_ℤ (pos 0) chars
      then ("typing_speed", of_ℤ chars)
        ∷ ("error_rate", div (of_ℤ deletes) (of_ℤ chars))
        ∷ mouse_signal mouse_path_ratio
      else mouse_signal mouse_path_ratio

  -- `DriftTracker.observe`
  unfoldable pub observe_drift : String → F → DriftTracker F → DriftTracker F
  observe_drift now score t = record { ts = some now; score = score }

  -- `DriftTracker.drift`
  unfoldable pub drift : Datetime F → String → DriftTracker F → Result (Option F)
  drift datetime now t = elim t.ts [
    | none ↦ ok none
    | some ts ↦
        if ops.leb t.score (of_text "0.3")
        then ok none
        else and_then (datetime.seconds_between now ts)
            (λ elapsed. ok (if ltb elapsed (of_text "300.0") then some t.score else none))
  ]

  -- `_HOUR_CURVE`
  abbrev pub hour_curve : List String
  hour_curve =
      "0.70" ∷ "0.80" ∷ "0.90" ∷ "1.00" ∷ "0.95" ∷ "0.80" ∷ "0.60" ∷ "0.40" ∷ "0.20" ∷ "0.10"
      ∷ "0.05" ∷ "0.05" ∷ "0.10" ∷ "0.10" ∷ "0.05" ∷ "0.10" ∷ "0.15" ∷ "0.20" ∷ "0.25" ∷ "0.30"
      ∷ "0.35" ∷ "0.40" ∷ "0.50" ∷ "0.60" ∷ []

  -- `_HOUR_CURVE[hour]`; `datetime` gives no hour above 23
  abbrev pub curve_at : List String → ℕ → F
  curve_at [] hour = zero_float ops
  curve_at (w ∷ curve) zero = of_text w
  curve_at (w ∷ curve) (suc hour) = curve_at curve hour

  -- `_hours_between`
  unfoldable pub hours_between : Datetime F → String → Option String → Result F
  hours_between datetime now none = ok (zero_float ops)
  hours_between datetime now (some earlier) =
      and_then (datetime.seconds_between now earlier) (λ s. ok (div s (of_text "3600.0")))

  abbrev pub hour_weight : String → ℕ → F
  hour_weight chronotype hour =
      if str_eq chronotype "night_owl" && any (λ h. h == hour) night_hours
      then mul (curve_at hour_curve hour) (of_text "0.4")
      else curve_at hour_curve hour

  -- `temporal_signal`
  unfoldable pub temporal_signal :
      Datetime F → String → Option String → Option String → String → Result F
  temporal_signal datetime now session_start last_idle_end chronotype =
      and_then (datetime.hour now) λ hour.
        and_then (hours_between datetime now last_idle_end) λ idle_h.
          and_then (hours_between datetime now session_start) λ session_h. ok (
            clamp01 ops (
              add
                (add (mul (of_text "0.5") (hour_weight chronotype hour))
                  (mul (of_text "0.25") (clamp01 ops (div idle_h (of_text "6.0")))))
                (mul (of_text "0.25") (clamp01 ops (div session_h (of_text "12.0"))))))
