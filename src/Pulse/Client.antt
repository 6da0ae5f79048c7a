-- ===== src/Pulse/Client.antt =====
-- chimera/modules/pulse/pulse/client.py: the state of PULSE's daemon, its ticks and the events that it
-- consumes. A frame that is sent is kept in `sent`; `now` and the idle reading, in whole seconds, are
-- arguments. Tasks and sockets are not modelled.
use macbastion.Prelude.{
  ℕ, String, Bool, Option, none, some, List, [], ◌∷◌, ◌++◌, str_eq, ltb, leb, if◌then◌else◌,
}
use macbastion.Prelude.Int.{ℤ, pos}
use macbastion.Prelude.Dict.{Dict}
use macbastion.Prelude.Floats.{FloatOps}
use macbastion.Prelude.Json.{Json, null, int, float, str, Fields, end, field, get_field}
use macbastion.Errors.{Exn, value_error, type_error}
use macbastion.Cipher.{Cipher}
use macbastion.Exec.{Result, ok, err, Exec, pure, modify, catch, and_then, ◌>>=◌, ◌>>◌}
use macbastion.Envelope.{
  dict_params, Message, notification, Parsed, bad_json, bad_message, parsed, request, response,
  Notification,
}
use macbastion.Server.Command.{payload_of}
use macbastion.Pulse.{IdleTracker, observe, bump, sum, classify_chronotype, DangerFile}
use macbastion.Pulse.Scoring.{
  Datetime, Weights, DriftTracker, observe_drift, drift, temporal_signal, input_signals,
}
use macbastion.Pulse.Store.{BaselineStore, set_meta, assess}

-- What the code takes from Python and its libraries: floats, `datetime`, Fernet, `float(x)` and
-- `int(x)` of a JSON value, `int(x)` of a float, `json.dumps` of a histogram, and `str(exc)`.
pub record PulseEnv (F : Type 0) : Type 0 where
  pub ops : FloatOps F
  pub cipher : Cipher (Dict F)
  pub datetime : Datetime F
  pub float_of : Json → Result F
  pub int_of : Json → Result ℤ
  pub int_of_float : F → Result ℤ
  pub dump_histogram : List ℕ → String
  pub exn_text : Exn → String

-- `PulseClient`; `connected` tells that there is a command writer
pub record Client (F : Type 0) : Type 0 where
  pub store : BaselineStore
  pub session_start : Option String
  pub chronotype : String
  pub activity_hist : List ℕ
  pub weights : Weights F
  pub danger_registry : Option DangerFile
  pub idle : IdleTracker
  pub group_a : Option (Dict F)
  pub drift : DriftTracker F
  pub enabled : Bool
  pub last_mode : Option String
  pub connected : Bool
  pub sent : List Message

-- `METHODS`
abbrev pub methods : List String
methods =
    "pulse.status" ∷ "pulse.weights.set" ∷ "pulse.enable" ∷ "pulse.disable" ∷ "pulse.danger.add"
    ∷ "pulse.danger.remove" ∷ "pulse.danger.list" ∷ "pulse.calibrate.start"
    ∷ "pulse.calibrate.reset" ∷ []

-- `_send_cmd`
unfoldable pub send_cmd : {F : Type 0} → Message → Client F → Client F
send_cmd message c = if c.connected then record c { sent = c.sent ++ message ∷ [] } else c

abbrev pub notice : String → Fields → Message
notice method fs = notification (record { method = method; params = dict_params fs })

module _ {F : Type 0} (env : PulseEnv F) where
  open env use {ops, cipher, datetime, float_of, int_of, dump_histogram, exn_text}

  -- a computed result handed on, or its exception raised
  abbrev pub lift : {A : Type 0} → Result A → Exec (Client F) A
  lift r c = (r, c)

  -- `_observe_activity`
  unfoldable pub observe_activity : String → Exec (Client F) (Unit {0})
  observe_activity now c = elim (datetime.hour now) [
    | err x ↦ (err x, c)
    | ok hour ↦
        let hist = bump c.activity_hist hour in
        (
          ok tt,
          record c {
            activity_hist = hist;
            store = set_meta "activity_hist" (dump_histogram hist) c.store;
          },
        )
  ]

  -- `_effective_chronotype`, with `MIN_SAMPLES`
  unfoldable pub effective_chronotype : Client F → String
  effective_chronotype c =
      if leb 600 (sum c.activity_hist)
      then classify_chronotype (some c.activity_hist)
      else c.chronotype

  -- what `_compute` does with the idle reading, and `ACTIVE_IDLE_THRESHOLD_S`
  abbrev pub observe_idle : String → Option ℕ → Exec (Client F) (Unit {0})
  observe_idle now none c = (ok tt, c)
  observe_idle now (some idle_seconds) c =
      let c' = record c { idle = observe now idle_seconds c.idle } in
      if ltb idle_seconds 300 then observe_activity now c' else (ok tt, c')

  -- the two awaited computations of `_compute`; they change nothing
  abbrev pub assess_now : String → Client F → Result (F × String)
  assess_now now c =
      and_then
        (temporal_signal ops datetime now c.session_start c.idle.last_idle_end
          (effective_chronotype c))
        λ temporal. and_then (drift ops datetime now c.drift) λ drifted.
          assess ops cipher datetime c.store now c.group_a (some temporal) drifted c.weights

  -- `_compute`: the primary signal is always `temporal`
  unfoldable pub compute : String → Option ℕ → Exec (Client F) (F × String)
  compute now idle = do observe_idle now idle; c ← λ c. (ok c, c); lift (assess_now now c)

  abbrev pub mode_changed : String → String → F → Message
  mode_changed old new score = notice "pulse.mode.changed" (
      field "old_mode" (str old) (
        field "new_mode" (str new) (
          field "score" (float (ops.to_text score)) (field "primary_signal" (str "temporal") end))))

  -- the notification of a tick, if there is one
  abbrev pub announce : Option String → String → F → Client F → Client F
  announce none mode score c = c
  announce (some old) mode score c =
      if str_eq mode old then c else send_cmd (mode_changed old mode score) c

  -- `_tick` after `_compute`
  abbrev pub settle_mode : F × String → Exec (Client F) (Unit {0})
  settle_mode (score, mode) c =
      (ok tt, record (announce c.last_mode mode score c) { last_mode = some mode })

  -- `_tick`
  unfoldable pub tick : String → Option ℕ → Exec (Client F) (Unit {0})
  tick now idle = compute now idle >>= settle_mode

  abbrev pub error_notice : Exn → Message
  error_notice x =
      notice "pulse.error" (field "where" (str "tick") (field "message" (str (exn_text x)) end))

  -- the handler of `_safe_tick`
  abbrev pub report_error : Exn → Exec (Client F) (Unit {0})
  report_error x c = (ok tt, send_cmd (error_notice x) c)

  -- `_safe_tick`
  unfoldable pub safe_tick : String → Option ℕ → Exec (Client F) (Unit {0})
  safe_tick now idle = catch (tick now idle) report_error

  abbrev pub default_zero : Option Json → Json
  default_zero none = int (pos 0)
  default_zero (some j) = j

  -- `float(mouse_path_ratio)`, if there is one
  abbrev pub ratio_of : Option Json → Result (Option F)
  ratio_of none = ok none
  ratio_of (some null) = ok none
  ratio_of (some j) = elim (float_of j) [ err x ↦ err x | ok r ↦ ok (some r) ]

  -- `_on_input_aggregates` of the parameters of an event
  abbrev pub on_input_aggregates : Fields → Exec (Client F) (Unit {0})
  on_input_aggregates fs = do
    chars ← lift (int_of (default_zero (get_field fs "chars")))
    deletes ← lift (int_of (default_zero (get_field fs "deletes")))
    ratio ← lift (ratio_of (get_field fs "mouse_path_ratio"))
    modify (λ (c : Client F). record c { group_a = some (input_signals ops chars deletes ratio) })

  -- `except (TypeError, ValueError): return`
  abbrev pub tolerate : Exn → Exec (Client F) (Unit {0})
  tolerate type_error c = (ok tt, c)
  tolerate (value_error text) c = (ok tt, c)
  tolerate x c = (err x, c)

  abbrev pub observe_score : String → Json → Exec (Client F) (Unit {0})
  observe_score now j = do
    score ← lift (float_of j)
    modify (λ (c : Client F). record c { drift = observe_drift ops now score c.drift })

  -- `isinstance(score, (int, float)) and not isinstance(score, bool)`
  abbrev pub on_anomaly : String → Option Json → Exec (Client F) (Unit {0})
  on_anomaly now (some (int n)) = observe_score now (int n)
  on_anomaly now (some (float t)) = observe_score now (float t)
  on_anomaly now _ = pure tt

  abbrev pub on_event : String → Notification → Exec (Client F) (Unit {0})
  on_event now n c =
      if str_eq n.method "mirror.input.minute"
      then catch (on_input_aggregates (payload_of n.params)) tolerate c
      else if str_eq n.method "oracle.anomaly.detected"
      then on_anomaly now (get_field (payload_of n.params) "score") c
      else (ok tt, c)

  -- `_on_event_frame`, of what `parse_frame` made of the line
  unfoldable pub on_event_frame : String → Parsed → Exec (Client F) (Unit {0})
  on_event_frame now bad_json = pure tt
  on_event_frame now bad_message = pure tt
  on_event_frame now (parsed (request r)) = pure tt
  on_event_frame now (parsed (response r)) = pure tt
  on_event_frame now (parsed (notification n)) = on_event now n
