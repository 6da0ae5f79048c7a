-- ===== src/Lifecycle.antt =====
-- chimera/core/lifecycle.py: the nine states of a module, the allow-list of transitions, the
-- heartbeat sweep and the restart policy. A time is a number of clock ticks since the epoch.
pub mod Machine
pub mod Steps
pub mod Liveness
pub mod Budget
pub mod Hour
use macbastion.Prelude.{
  ℕ, suc, ◌+◌, ◌-◌, ◌*◌, ◌/◌, ◌^◌, String, Bool, true, false, Option, none, some, List, [], ◌∷◌,
  ◌++◌, ltb, leb, ◌==◌, str_eq, length, keep_if, if◌then◌else◌,
}
use macbastion.Prelude.Int.{ℤ, pos, negsuc, sub_ℕ, leb_ℤ, floor_div}
use macbastion.Prelude.Text.{concat}
use macbastion.Prelude.Dict
use macbastion.Prelude.Dict.{Dict}
use macbastion.Prelude.Json.{str, end, field}
use macbastion.Errors.{Exn, invalid_transition, value_error, key_error, zero_division}
use macbastion.Exec.{Result, ok, err, Exec, pure, modify, with_value, ◌>>=◌, ◌>>◌}
use macbastion.Broker.{Event, EventBroker, publish}
use macbastion.Config.{CoreConfig}

pub data ModuleState : Type 0 where
  unregistered starting registered healthy degraded stopping : ModuleState
  stopped failed permanently_failed : ModuleState

pub ModuleState-discrete : Discrete ModuleState
ModuleState-discrete = hlevel

-- the text of the `StrEnum` value
abbrev pub state_text : ModuleState → String
state_text unregistered = "unregistered"
state_text starting = "starting"
state_text registered = "registered"
state_text healthy = "healthy"
state_text degraded = "degraded"
state_text stopping = "stopping"
state_text stopped = "stopped"
state_text failed = "failed"
state_text permanently_failed = "permanently_failed"

-- `(src, dst) in ALLOWED_TRANSITIONS`
abbrev pub can_transition : ModuleState → ModuleState → Bool
can_transition unregistered starting = true
can_transition starting registered = true
can_transition starting failed = true
can_transition registered healthy = true
can_transition registered failed = true
can_transition registered stopping = true
can_transition healthy degraded = true
can_transition degraded healthy = true
can_transition healthy stopping = true
can_transition degraded stopping = true
can_transition healthy failed = true
can_transition degraded failed = true
can_transition stopping stopped = true
can_transition stopping failed = true
can_transition failed starting = true
can_transition failed permanently_failed = true
can_transition _ _ = false

-- `==` on states
abbrev pub same_state : ModuleState → ModuleState → Bool
same_state unregistered unregistered = true
same_state starting starting = true
same_state registered registered = true
same_state healthy healthy = true
same_state degraded degraded = true
same_state stopping stopping = true
same_state stopped stopped = true
same_state failed failed = true
same_state permanently_failed permanently_failed = true
same_state _ _ = false

pub record ModuleRecord : Type 0 where
  pub name : String
  pub state : ModuleState
  pub last_seen : Option ℕ
  pub restart_count : ℕ
  pub restart_times : List ℕ

pub record Lifecycle : Type 0 where
  pub config : CoreConfig
  pub broker : EventBroker
  pub records : Dict ModuleRecord

-- Clock ticks in a second: `time.time()` is read to the microsecond.
abbrev pub ticks : ℕ
ticks = 1_000_000

abbrev pub restart_window : ℕ
restart_window = 3600 * ticks

-- `Lifecycle.record`
unfoldable pub record_of : String → Exec Lifecycle ModuleRecord
record_of name s = with_value (Dict.get s.records name) (key_error name) pure s

-- `Lifecycle.state_of`
unfoldable pub state_of : String → Exec Lifecycle ModuleState
state_of name s = with_value (Dict.get s.records name) (key_error name) (λ rec. pure rec.state) s

abbrev pub new_record : String → ModuleRecord
new_record name = record {
  name = name;
  state = unregistered;
  last_seen = none;
  restart_count = 0;
  restart_times = [];
}

-- a record is mutated in place: written back under its name
abbrev pub write_record : String → ModuleRecord → Lifecycle → Lifecycle
write_record name rec s = record s { records = Dict.put s.records name rec }

-- `Lifecycle.track`
unfoldable pub track : String → Exec Lifecycle (Unit {0})
track name s =
    if str_eq name ""
    then (err (value_error "module name must be non-empty"), s)
    else elim (Dict.get s.records name) [
      | some rec ↦ (err (value_error (concat "module already tracked: " name)), s)
      | none ↦ (ok tt, write_record name (new_record name) s)
    ]

-- `_emit`
abbrev pub state_changed : String → ModuleState → ModuleState → Event
state_changed name src dst = record {
  topic = "module.state_changed";
  payload =
      field "module" (str name)
        (field "from" (str (state_text src)) (field "to" (str (state_text dst)) end));
}

-- the part of `transition` that has found the record
unfoldable pub move : String → ModuleRecord → ModuleState → Exec Lifecycle (Unit {0})
move name rec to_state s =
    if can_transition rec.state to_state
    then (
      ok tt,
      record s {
        records = Dict.put s.records name (record rec { state = to_state });
        broker = publish (state_changed name rec.state to_state) s.broker;
      },
    )
    else (err invalid_transition, s)

-- `Lifecycle.transition`
unfoldable pub transition : String → ModuleState → Exec Lifecycle (Unit {0})
transition name to_state s =
    with_value (Dict.get s.records name) (key_error name) (λ rec. move name rec to_state) s

-- `Lifecycle.heartbeat` at the clock reading `now`
unfoldable pub heartbeat : ℕ → String → Exec Lifecycle (Unit {0})
heartbeat now name s =
    with_value (Dict.get s.records name) (key_error name)
      (λ rec. modify (write_record name (record rec { last_seen = some now }))) s

-- `_LIVENESS_STATES`
abbrev pub is_live : ModuleState → Bool
is_live healthy = true
is_live degraded = true
is_live _ = false

-- `_desired_state`; `degraded_threshold` is one below the dead threshold, so -1 where that is 0
unfoldable pub desired_state : CoreConfig → ℤ → ModuleState
desired_state config missed =
    if leb_ℤ (pos config.heartbeat_dead_threshold) missed
    then failed
    else if leb_ℤ (sub_ℕ config.heartbeat_dead_threshold 1) missed
    then degraded
    else healthy

-- `int((now - rec.last_seen) // interval)`; the clock may have been set back
abbrev pub missed_beats : CoreConfig → ℕ → ℕ → ℤ
missed_beats config now last_seen =
    floor_div (sub_ℕ now last_seen) (config.heartbeat_interval_s * ticks)

-- the loop body of `sweep_once` for a live record, by its `last_seen`
unfoldable pub sweep_seen : ℕ → ModuleRecord → Option ℕ → Exec Lifecycle (Unit {0})
sweep_seen now rec none s = (ok tt, s)
sweep_seen now rec (some last_seen) s =
    if s.config.heartbeat_interval_s == 0
    then (err zero_division, s)
    else let desired : ModuleState = desired_state s.config (missed_beats s.config now last_seen) in
      if same_state desired rec.state then (ok tt, s) else transition rec.name desired s

-- the loop body of `sweep_once`
unfoldable pub sweep_record : ℕ → ModuleRecord → Exec Lifecycle (Unit {0})
unfolding sweep_seen
sweep_record now rec s =
    if is_live rec.state then sweep_seen now rec rec.last_seen s else (ok tt, s)

-- the loop over the records that were there when the sweep began
unfoldable pub sweep_records : ℕ → List ModuleRecord → Exec Lifecycle (Unit {0})
sweep_records now [] = pure tt
sweep_records now (rec ∷ recs) = do sweep_record now rec; sweep_records now recs

-- `list(self._records.values())`
unfoldable pub values : Dict ModuleRecord → List ModuleRecord
values [] = []
values ((_, rec) ∷ d) = rec ∷ values d

-- `Lifecycle.sweep_once` at the clock reading `now`
unfoldable pub sweep_once : ℕ → Exec Lifecycle (Unit {0})
unfolding sweep_records values
sweep_once now s = sweep_records now (values s.records) s

-- the restarts of the last hour; `now - t < 3600`
abbrev pub recent_restarts : ℕ → List ℕ → List ℕ
recent_restarts now times = keep_if (λ t. ltb (now - t) restart_window) times

-- the part of `restart` that has found the record, with the recent restarts
abbrev pub restart_within : ℕ → String → ModuleRecord → List ℕ → Exec Lifecycle (Unit {0})
restart_within now name rec recent s =
    if leb s.config.restart_max_per_hour (length recent)
    then transition name permanently_failed
        (write_record name (record rec { restart_times = recent }) s)
    else transition name starting (
        write_record name
          (record rec { restart_times = recent ++ now ∷ []; restart_count = rec.restart_count + 1 })
          s)

-- `Lifecycle.restart` at the clock reading `now`
unfoldable pub restart : ℕ → String → Exec Lifecycle (Unit {0})
restart now name s =
    with_value (Dict.get s.records name) (key_error name)
      (λ rec. restart_within now name rec (recent_restarts now rec.restart_times)) s

-- `backoff_delay`, in whole seconds
unfoldable pub backoff_delay : ℕ → Result ℕ
backoff_delay attempt =
    if ltb attempt 1
    then err (value_error "attempt must be >= 1")
    else if leb attempt 4
    then ok (2 ^ (attempt - 1))
    else ok 30
