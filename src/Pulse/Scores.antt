-- ===== src/Pulse/Scores.antt =====
-- What the fatigue score promises to core's gate.
use macbastion.Prelude.{
  ℕ, ◌≤◌, String, Bool, true, false, ◌≡◌, refl, ◌⊎◌, inl, inr, none, some, List, ◌||◌, arith, any,
  if◌then◌else◌,
}
use macbastion.Prelude.Floats.{FloatOps, FloatLaws, zero_float, one_float, clamp01_bounds}
use macbastion.Prelude.Text.{mem_str}
use macbastion.Exec.{ok, if_rule}
use macbastion.Gate.{Friction, allow, confirm, delay, block, decide}
use macbastion.Pulse.Scoring.{
  Weights, Signals, broken, unusable, present_of, score_present, mode_for_score, score_and_mode,
  mode_normal, mode_caution, mode_tired, mode_exhausted, total_weight,
}

-- how much friction a decision is
abbrev pub level : Friction → ℕ
level allow = 0
level confirm = 1
level delay = 2
level block = 3

decide-normal :
    (action : String) (danger : List String) (override_ok : Bool)
    → (decide action (some mode_normal) danger override_ok).decision ≡ allow
unfolding decide
decide-normal action danger override_ok = ground arith

-- the level of core's decision, from the tests by which the score's mode is chosen
level-decide :
    (action : String) (danger : List String) (x y z : Bool)
    → level
        (decide action
          (some (
            if x
            then mode_normal
            else if y
            then mode_caution
            else if z
            then mode_tired
            else mode_exhausted))
          danger
          false).decision
      ≡ (if mem_str action danger then if x then 0 else if y then 1 else if z then 2 else 3 else 0)
unfolding decide
level-decide action danger true y z = ground arith
level-decide action danger false true z = ground arith
level-decide action danger false false true = ground arith
level-decide action danger false false false = ground arith

module _ {F : Type 0} (ops : FloatOps F) (laws : FloatLaws ops) where
  open ops use {of_text, ltb, leb, is_finite, is_close}

  -- Of two scores, the higher one never gets the weaker decision of core's gate, whatever the action
  -- and the danger actions are, as long as no override was verified.
  pub decide-mode_for_score :
      (a b : F) (action : String) (danger : List String)
      → leb a b ≡ true
      → level (decide action (some (mode_for_score ops a)) danger false).decision
        ≤ level (decide action (some (mode_for_score ops b)) danger false).decision
  unfolding mode_for_score
  decide-mode_for_score a b action danger h = ground (
    arith,
    level-decide action danger (ltb a (of_text "0.4")) (ltb a (of_text "0.7"))
        (ltb a (of_text "0.9")),
    level-decide action danger (ltb b (of_text "0.4")) (ltb b (of_text "0.7"))
        (ltb b (of_text "0.9")),
    laws.ltb_of_leb_ltb a b (of_text "0.4") h,
    laws.ltb_of_leb_ltb a b (of_text "0.7") h,
    laws.ltb_of_leb_ltb a b (of_text "0.9") h,
  )

  abbrev pub Bounded : F × String → Type 0
  Bounded r = (leb (zero_float ops) r.0 ≡ true) × (leb r.0 (one_float ops) ≡ true)

  score_present-Bounded :
      (present : List (F × F)) (ready : Bool) → Bounded (score_present ops present ready)
  score_present-Bounded present ready =
      if_rule Bounded (unusable ops present) _ _ (λ _. (laws.leb_zero, laws.leb_zero_one))
        (λ _. clamp01_bounds ops laws _)

  -- A score is refused only for weights that do not sum to 1; else it is computed, and lies between 0
  -- and 1 whatever the signals and the weights are, NaN included.
  pub score_and_mode_bounds :
      (signals : Signals F) (weights : Weights F) (ready : Bool)
      → is_close (total_weight ops weights) (of_text "1.0") ≡ true
      → (r : F × String) × (score_and_mode ops signals weights ready ≡ ok r) × Bounded r
  unfolding score_and_mode
  score_and_mode_bounds signals weights ready h = (
    score_present ops (present_of ops weights signals) ready,
    rw h refl,
    score_present-Bounded (present_of ops weights signals) ready,
  )

  abbrev pub silent : Signals F
  silent = record { input_delta = none; temporal = none; drift = none }

  -- no group is present, a value that is present is not finite, or the calibration goes on
  abbrev pub FailsSafe : Weights F → Signals F → Bool → Type 0
  FailsSafe weights signals ready =
      (signals ≡ silent)
      ⊎ ((any (broken ops) (present_of ops weights signals) ≡ true) ⊎ (ready ≡ false))

  unusable-silent : (weights : Weights F) → unusable ops (present_of ops weights silent) ≡ true
  unusable-silent weights = rw (laws.total_nil, ◌||◌) refl

  fails_safe :
      (weights : Weights F) (signals : Signals F) (ready : Bool)
      → FailsSafe weights signals ready
      → (score_present ops (present_of ops weights signals) ready).1 ≡ mode_normal
  fails_safe weights signals ready (inl e) = rw (e, unusable-silent weights) refl
  fails_safe weights signals ready (inr (inl e)) = ground arith
  fails_safe weights signals ready (inr (inr e)) = ground arith

  -- With no signal, with a signal that is no finite number, or before the calibration is over, the mode
  -- is such that core's gate lets every action through: a broken sensor locks nobody out.
  pub decide-score_and_mode :
      (weights : Weights F) (signals : Signals F) (ready : Bool)
      → is_close (total_weight ops weights) (of_text "1.0") ≡ true
      → FailsSafe weights signals ready
      → (r : F × String) × (score_and_mode ops signals weights ready ≡ ok r)
        × ((action : String) (danger : List String) (override_ok : Bool)
            → (decide action (some r.1) danger override_ok).decision ≡ allow)
  unfolding score_and_mode
  decide-score_and_mode weights signals ready h safe = (
    score_present ops (present_of ops weights signals) ready,
    rw h refl,
    λ action danger override_ok.
        rw (fails_safe weights signals ready safe) (decide-normal action danger override_ok),
  )
