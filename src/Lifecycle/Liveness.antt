-- ===== src/Lifecycle/Liveness.antt =====
-- The heartbeat sweep: what it makes of every record, and which silence means which state.
use text.Mathlib.TextPositions.{eq_refl}
use mathlib.Core.Option
use macbastion.Prelude.{
  ℕ, ◌+◌, ◌*◌, ◌/◌, ◌-◌, ◌≤◌, ◌<◌, String, true, false, ◌≡◌, ◌↔◌, refl, Option, none, some, [], ◌∷◌,
  arith, leb, ◌∙◌, str_eq, eq_iff, inl, inr, if◌then◌else◌, Bool-cases, Option-cases,
}
use macbastion.Prelude.Int.{ℤ, pos, sub_ℕ, leb_ℤ, floor_div}
use macbastion.Prelude.Dict
use macbastion.Prelude.Dict.{Dict, get-put}
use macbastion.Exec.{ok}
use macbastion.Config.{CoreConfig}
use macbastion.Lifecycle.{
  ModuleState, unregistered, starting, registered, healthy, degraded, stopping, stopped, failed,
  permanently_failed, same_state, is_live, can_transition, ModuleRecord, Lifecycle, move,
  transition, desired_state, missed_beats, ticks, sweep_seen, sweep_record, sweep_records, values,
  sweep_once,
}

abbrev swept_from : CoreConfig → ℕ → ModuleRecord → Option ℕ → ModuleRecord
swept_from config now rec none = rec
swept_from config now rec (some seen) =
    if is_live rec.state
    then record rec { state = desired_state config (missed_beats config now seen) }
    else rec

-- what one sweep makes of a record: a live module that has been heard of gets the state that its
-- silence calls for, any other record is kept.
swept : CoreConfig → ℕ → ModuleRecord → ModuleRecord
swept config now rec = swept_from config now rec rec.last_seen

-- The records are those of a Python dict: each under its own name, no name twice.
abbrev pub IsKeyed : Dict ModuleRecord → Type 0
IsKeyed [] = Unit
IsKeyed ((k, rec) ∷ d) = (rec.name ≡ k) × (Dict.get d k ≡ none) × IsKeyed d

same_state-eq : (a b : ModuleState) → same_state a b ≡ true → a ≡ b
same_state-eq a b h = ground arith

-- the sweep only asks for allowed edges
desired_state-allowed :
    (config : CoreConfig) (missed : ℤ) (a : ModuleState)
    → is_live a ≡ true
    → same_state (desired_state config missed) a ≡ false
    → can_transition a (desired_state config missed) ≡ true
unfolding desired_state
desired_state-allowed config missed a live other = ground arith

module _ (now : ℕ) (rec : ModuleRecord) (s : Lifecycle) (k : String)
    (found : Dict.get s.records rec.name ≡ some rec) where
  -- a record that the round leaves alone
  kept : Dict.get s.records k ≡ (if str_eq rec.name k then some rec else Dict.get s.records k)
  kept = ground (arith, eq_iff rec.name k)

  sweep_seen_lem :
      (seen : Option ℕ)
      → is_live rec.state ≡ true
      → 0 < s.config.heartbeat_interval_s
      → ((sweep_seen now rec seen s).0 ≡ ok tt)
        × ((sweep_seen now rec seen s).1.config ≡ s.config)
        × (Dict.get (sweep_seen now rec seen s).1.records k ≡ (
            if str_eq rec.name k
            then some (swept_from s.config now rec seen)
            else Dict.get s.records k))
  unfolding sweep_seen transition move
  sweep_seen_lem none live pos_interval = (refl, refl, kept)
  sweep_seen_lem (some seen) live pos_interval =
      let desired : ModuleState = desired_state s.config (missed_beats s.config now seen) in
      let rec' : ModuleRecord = record rec { state = desired } in
      ground (
        arith,
        kept,
        same_state-eq desired rec.state,
        desired_state-allowed s.config (missed_beats s.config now seen) rec.state live,
        get-put s.records rec.name k rec',
      )

  -- one round of the loop
  sweep_record_lem :
      0 < s.config.heartbeat_interval_s
      → ((sweep_record now rec s).0 ≡ ok tt)
        × ((sweep_record now rec s).1.config ≡ s.config)
        × (Dict.get (sweep_record now rec s).1.records k
            ≡ (if str_eq rec.name k then some (swept s.config now rec) else Dict.get s.records k))
  unfolding sweep_record swept
  sweep_record_lem pos_interval = elim (Bool-cases (is_live rec.state)) [
    | inl live ↦ rw (live, sweep_record) (sweep_seen_lem rec.last_seen live pos_interval)
    | inr dead ↦ elim (Option-cases rec.last_seen) [
      | inl unseen ↦ ground (arith, kept)
      | inr (seen, e) ↦ ground (arith, kept)
    ]
  ]

abbrev sweep_result :
    Option ModuleRecord → CoreConfig → ℕ → Option ModuleRecord → Option ModuleRecord
sweep_result none config now o = o
sweep_result (some rec) config now o = some (swept config now rec)

-- the loop over the records that are left
sweep_records_lem :
    (now : ℕ) (d : Dict ModuleRecord) (s : Lifecycle)
    → IsKeyed d
    → 0 < s.config.heartbeat_interval_s
    → ((k : String) (rec : ModuleRecord)
        → Dict.get d k ≡ some rec
        → Dict.get s.records k ≡ some rec)
    → ((sweep_records now (values d) s).0 ≡ ok tt)
      × ((k : String)
          → Dict.get (sweep_records now (values d) s).1.records k
            ≡ sweep_result (Dict.get d k) s.config now (Dict.get s.records k))
unfolding sweep_records values Dict.get
sweep_records_lem now [] s keyed pos_interval sub = (refl, λ k. refl)
sweep_records_lem now ((j, rec) ∷ d) s (named, fresh, keyed) pos_interval sub =
    let found : Dict.get s.records rec.name ≡ some rec =
      simp named (sub j rec (ground (arith, eq_refl j))) in
    let t = (sweep_record now rec s).1 in
    let (done, same, _) = sweep_record_lem now rec s j found pos_interval in
    let round = λ (k : String). (sweep_record_lem now rec s k found pos_interval).2 in
    let (rest_done, rest) =
      sweep_records_lem now d t keyed (ground arith)
        (λ k r e. ground (arith, round k, sub k r, eq_iff j k)) in
    (ground arith, λ k. ground (arith, round k, rest k, eq_iff j k, sub k))

le-div_iff : (t n d : ℕ) → 0 < d → (t ≤ n / d) ↔ (t * d ≤ n)
le-div_iff t n d h = grind arith

silent_for_iff :
    (t now seen d : ℕ)
    → 0 < d
    → 0 < t
    → (leb_ℤ (pos t) (floor_div (sub_ℕ now seen) d) ≡ true) ↔ (seen + t * d ≤ now)
silent_for_iff t now seen d pos_d pos_t = ground (arith, le-div_iff t (now - seen) d pos_d)

-- FAILED means: silent for the dead threshold's number of intervals, or longer.
pub desired_state-failed_iff :
    (config : CoreConfig) (now seen : ℕ)
    → 0 < config.heartbeat_interval_s
    → 0 < config.heartbeat_dead_threshold
    → (desired_state config (missed_beats config now seen) ≡ failed)
      ↔ (seen + config.heartbeat_dead_threshold * (config.heartbeat_interval_s * ticks) ≤ now)
unfolding desired_state
desired_state-failed_iff config now seen i d = ground (
  arith,
  silent_for_iff config.heartbeat_dead_threshold now seen (config.heartbeat_interval_s * ticks)
      (omega arith) d,
)

pred-mul-le : (t d : ℕ) → (t - 1) * d ≤ t * d
pred-mul-le t d = grind arith

-- HEALTHY means: silent for less than one interval short of that, for a dead threshold above 1.
pub desired_state-healthy_iff :
    (config : CoreConfig) (now seen : ℕ)
    → 0 < config.heartbeat_interval_s
    → 1 < config.heartbeat_dead_threshold
    → (desired_state config (missed_beats config now seen) ≡ healthy)
      ↔ (now < seen + (config.heartbeat_dead_threshold - 1) * (config.heartbeat_interval_s * ticks))
unfolding desired_state
desired_state-healthy_iff config now seen i d =
    let t = config.heartbeat_dead_threshold in
    let ivl = config.heartbeat_interval_s * ticks in
    ground (
      arith,
      silent_for_iff t now seen ivl (omega arith) (omega arith),
      silent_for_iff (t - 1) now seen ivl (omega arith) (omega arith),
      pred-mul-le t ivl,
    )

-- the state that a silence calls for: FAILED from the dead threshold's number of intervals on, DEGRADED
-- from one interval less on
abbrev silence_state : CoreConfig → ℕ → ℕ → ModuleState
silence_state config now seen =
    let interval = config.heartbeat_interval_s * 1_000_000 in
    if leb (seen + config.heartbeat_dead_threshold * interval) now
    then failed
    else if leb (seen + (config.heartbeat_dead_threshold - 1) * interval) now
    then degraded
    else healthy

desired_state-silence :
    (config : CoreConfig) (now seen : ℕ)
    → 0 < config.heartbeat_interval_s
    → 1 < config.heartbeat_dead_threshold
    → desired_state config (missed_beats config now seen) ≡ silence_state config now seen
unfolding desired_state
desired_state-silence config now seen i d =
    let t = config.heartbeat_dead_threshold in
    let ivl = config.heartbeat_interval_s * ticks in
    ground (
      arith,
      silent_for_iff t now seen ivl (omega arith) (omega arith),
      silent_for_iff (t - 1) now seen ivl (omega arith) (omega arith),
    )

-- what a sweep has to make of a record, by when it was heard of and its state
abbrev judged : CoreConfig → ℕ → ModuleRecord → Option ℕ → ModuleState → ModuleRecord
judged config now rec none state = rec
judged config now rec (some seen) healthy = record rec { state = silence_state config now seen }
judged config now rec (some seen) degraded = record rec { state = silence_state config now seen }
judged config now rec (some seen) _ = rec

abbrev pub judged_record : CoreConfig → ℕ → ModuleRecord → ModuleRecord
judged_record config now rec = judged config now rec rec.last_seen rec.state

swept-judged :
    (config : CoreConfig) (now : ℕ) (rec : ModuleRecord)
    → 0 < config.heartbeat_interval_s
    → 1 < config.heartbeat_dead_threshold
    → swept config now rec ≡ judged_record config now rec
unfolding swept
swept-judged config now rec i d = by_silence rec.last_seen
  where
    by_state :
        (seen : ℕ) (state : ModuleState)
        → rec.state ≡ state
        → swept_from config now rec (some seen) ≡ judged config now rec (some seen) state
    by_state seen healthy e = ground (arith, e, desired_state-silence config now seen i d)
    by_state seen degraded e = ground (arith, e, desired_state-silence config now seen i d)
    by_state seen unregistered e = ground (arith, e)
    by_state seen starting e = ground (arith, e)
    by_state seen registered e = ground (arith, e)
    by_state seen stopping e = ground (arith, e)
    by_state seen stopped e = ground (arith, e)
    by_state seen failed e = ground (arith, e)
    by_state seen permanently_failed e = ground (arith, e)

    by_silence : (o : Option ℕ) → swept_from config now rec o ≡ judged config now rec o rec.state
    by_silence none = refl
    by_silence (some seen) = by_state seen rec.state refl

-- One sweep, at a working interval and a dead threshold above 1, returns, and judges every module by its
-- silence: a HEALTHY or DEGRADED module that has been heard of goes to FAILED if it has been silent for
-- the threshold's number of intervals or longer, else to DEGRADED if it lacks at most one interval of
-- that, else to HEALTHY. Every other module stays as it is, and none is added or lost.
pub sweep_once_lem :
    (now : ℕ) (s : Lifecycle) (k : String)
    → IsKeyed s.records
    → 0 < s.config.heartbeat_interval_s
    → 1 < s.config.heartbeat_dead_threshold
    → ((sweep_once now s).0 ≡ ok tt)
      × (Dict.get (sweep_once now s).1.records k
          ≡ Option.map (judged_record s.config now) (Dict.get s.records k))
unfolding sweep_once
sweep_once_lem now s k keyed pos_interval pos_threshold =
    let (done, all) = sweep_records_lem now s.records s keyed pos_interval (λ k r e. e) in
    let swept_all : Dict.get (sweep_once now s).1.records k
        ≡ Option.map (swept s.config now) (Dict.get s.records k) =
      ground (arith, all k) in
    (
      done,
      swept_all ∙ (λ j.
          Option.map (λ rec. swept-judged s.config now rec pos_interval pos_threshold j)
            (Dict.get s.records k)),
    )
