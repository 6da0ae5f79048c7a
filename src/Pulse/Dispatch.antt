-- ===== src/Pulse/Dispatch.antt =====
-- chimera/modules/pulse/pulse/client.py: the handlers of `pulse.*`, the dispatch and its frames.
use macbastion.Prelude.{
  ℕ, String, Bool, true, false, not, Option, none, some, List, [], ◌∷◌, str_eq, if◌then◌else◌,
}
use macbastion.Prelude.Int.{ℤ, pos, negsuc}
use macbastion.Prelude.Json.{
  Json, null, bool, int, float, str, arr, obj, Fields, end, field, get_field, str_items,
}
use macbastion.Errors.{
  Exn, rpc, rpc_code, rpc_message, to_dict, chimera_code, precondition_failed, invalid_params,
  method_not_found, internal_error, value_error, type_error, key_error,
}
use macbastion.Exec.{Result, ok, err, Exec, pure, gets, raise, modify, ◌>>=◌, ◌>>◌}
use macbastion.Envelope.{
  RequestId, Params, dict_params, Request, Response, request, response, Parsed, bad_json,
  bad_message, parsed, notification,
}
use macbastion.Server.Params.{error_of}
use macbastion.Pulse.{DangerFile, read_dangers, add_danger, remove_danger}
use macbastion.Pulse.Scoring.{Weights, total_weight}
use macbastion.Pulse.Store.{
  baseline_ready, calibration_days, calibration_required, clear_buckets, get_meta, set_meta,
}
use macbastion.Pulse.Client.{PulseEnv, Client, lift, compute, send_cmd, safe_tick, on_event_frame}

-- the object of a request's parameters
abbrev pub need_object : {S : Type 0} → Params → Exec S Fields
need_object (dict_params fs) = pure fs
need_object _ = raise (rpc_message invalid_params "params must be object")

module _ {F : Type 0} (env : PulseEnv F) where
  open env use {ops, cipher, datetime, float_of, int_of_float}

  abbrev pub weights_required : Exn
  weights_required = rpc_message invalid_params "w_a/w_b/w_c required"

  -- `except (KeyError, TypeError, ValueError)` of `_handle_weights_set`
  abbrev refuse_weights : {A : Type 0} → Exn → Result A
  refuse_weights (key_error text) = err weights_required
  refuse_weights type_error = err weights_required
  refuse_weights (value_error text) = err weights_required
  refuse_weights x = err x

  abbrev checked_float : Result F → Result F
  checked_float (ok w) = ok w
  checked_float (err x) = refuse_weights x

  -- `float(params[key])`
  abbrev pub weight_of : Option Json → Result F
  weight_of none = err weights_required
  weight_of (some j) = checked_float (float_of j)

  abbrev weight_fields : Weights F → Fields
  weight_fields w =
      field "w_a" (float (ops.to_text w.w_a))
        (field "w_b" (float (ops.to_text w.w_b)) (field "w_c" (float (ops.to_text w.w_c)) end))

  abbrev pub put_weights : Weights F → Exec (Client F) Fields
  put_weights w c =
      if not (ops.is_close (total_weight ops w) (ops.of_text "1.0"))
      then (err (rpc_message invalid_params "weights must sum to 1.0"), c)
      else (ok (field "config" (obj (weight_fields w)) end), record c { weights = w })

  -- `_handle_weights_set`
  unfoldable pub handle_weights_set : Params → Exec (Client F) Fields
  handle_weights_set params = do
    fs ← need_object params
    a ← lift env (weight_of (get_field fs "w_a"))
    b ← lift env (weight_of (get_field fs "w_b"))
    c ← lift env (weight_of (get_field fs "w_c"))
    put_weights (record { w_a = a; w_b = b; w_c = c })

  abbrev pub enabled_fields : Bool → Fields
  enabled_fields b = field "ok" (bool true) (field "enabled" (bool b) end)

  -- `_handle_enable` and `_handle_disable`
  unfoldable pub set_enabled : Bool → Exec (Client F) Fields
  set_enabled b c = (ok (enabled_fields b), record c { enabled = b })

  abbrev at_least_zero : ℤ → ℤ
  at_least_zero (pos n) = pos n
  at_least_zero (negsuc n) = pos 0

  -- `_session_minutes`
  unfoldable pub session_minutes : String → Client F → Result ℤ
  session_minutes now c = elim c.session_start [
    | none ↦ ok (pos 0)
    | some start ↦ elim (datetime.seconds_between now start) [
      | err x ↦ err x
      | ok seconds ↦ elim (int_of_float (ops.floor_div seconds (ops.of_ℤ (pos 60)))) [
        | err x ↦ err x
        | ok minutes ↦ ok (at_least_zero minutes)
      ]
    ]
  ]

  abbrev status_fields : F × String → Bool → ℤ → Bool → Fields
  status_fields (score, mode) ready minutes enabled = field "score" (float (ops.to_text score)) (
      field "mode" (str mode) (
        field "baseline_ready" (bool ready)
          (field "session_minutes" (int minutes) (field "enabled" (bool enabled) end))))

  -- `_handle_status`
  unfoldable pub handle_status : String → Option ℕ → Exec (Client F) Fields
  handle_status now idle = do
    r ← compute env now idle
    ready ← λ c. (baseline_ready ops cipher datetime now c.store, c)
    minutes ← λ c. (session_minutes now c, c)
    gets (λ (c : Client F). status_fields r ready minutes c.enabled)

  abbrev signature_of : Option Json → Result String
  signature_of (some (str s)) = ok s
  signature_of _ = err (rpc_message invalid_params "action_signature required")

  -- `_danger_sig`
  abbrev pub danger_sig : Params → Result String
  danger_sig (dict_params fs) = signature_of (get_field fs "action_signature")
  danger_sig _ = signature_of none

  abbrev registry_fields : List String → Fields
  registry_fields items = field "registry" (arr (str_items items)) end

  abbrev pub reply_registry :
      Result (List String) × DangerFile → Client F → Result Fields × Client F
  reply_registry (err x, file) c = (err x, record c { danger_registry = some file })
  reply_registry (ok items, file) c =
      (ok (registry_fields items), record c { danger_registry = some file })

  abbrev pub on_file : Exec DangerFile (List String) → Option DangerFile → Exec (Client F) Fields
  on_file m none c = (err (rpc_code (chimera_code precondition_failed)), c)
  on_file m (some file) c = reply_registry (m file) c

  -- a method of the registry of danger actions, which may be absent
  abbrev pub on_registry : Exec DangerFile (List String) → Exec (Client F) Fields
  on_registry m c = on_file m c.danger_registry c

  abbrev pub with_signature :
      Result String → (String → Exec DangerFile (List String)) → Exec DangerFile (List String)
  with_signature (err x) f file = (err x, file)
  with_signature (ok s) f file = f s file

  -- `_handle_danger_list`
  unfoldable pub handle_danger_list : Exec (Client F) Fields
  handle_danger_list = on_registry read_dangers

  -- `_handle_danger_add`
  unfoldable pub handle_danger_add : Params → Exec (Client F) Fields
  handle_danger_add params = on_registry (with_signature (danger_sig params) add_danger)

  -- `_handle_danger_remove`
  unfoldable pub handle_danger_remove : Params → Exec (Client F) Fields
  handle_danger_remove params = on_registry (with_signature (danger_sig params) remove_danger)

  -- `if not started`: the stamp of the first call
  abbrev pub stamp_now : String → Exec (Client F) String
  stamp_now now c = (ok now, record c { store = set_meta "calibration_started_at" now c.store })

  abbrev pub stamp : String → Option String → Exec (Client F) String
  stamp now none c = stamp_now now c
  stamp now (some at) c = if str_eq at "" then stamp_now now c else (ok at, c)

  abbrev pub calibration_fields : ℕ → Bool → String → Fields
  calibration_fields days ready started = field "days_observed" (int (pos days)) (
      field "days_required" (int (pos calibration_required))
        (field "ready" (bool ready) (field "started_at" (str started) end)))

  -- `_handle_calibrate_start`
  unfoldable pub handle_calibrate_start : String → Exec (Client F) Fields
  handle_calibrate_start now = do
    days ← λ c. (calibration_days ops cipher datetime now c.store, c)
    ready ← λ c. (baseline_ready ops cipher datetime now c.store, c)
    started ← gets (λ (c : Client F). get_meta c.store "calibration_started_at")
    at ← stamp now started
    pure (calibration_fields days ready at)

  -- `_handle_calibrate_reset`
  unfoldable pub handle_calibrate_reset : Exec (Client F) Fields
  handle_calibrate_reset c = (
    ok (field "ok" (bool true) (field "days_observed" (int (pos 0)) end)),
    record c { store = set_meta "calibration_started_at" "" (clear_buckets c.store).1 },
  )

  -- the chain of tests in `_dispatch`
  unfoldable pub handle : String → Option ℕ → String → Params → Exec (Client F) Fields
  handle now idle method params c =
      if str_eq method "pulse.status"
      then handle_status now idle c
      else if str_eq method "pulse.weights.set"
      then handle_weights_set params c
      else if str_eq method "pulse.enable"
      then set_enabled true c
      else if str_eq method "pulse.disable"
      then set_enabled false c
      else if str_eq method "pulse.danger.add"
      then handle_danger_add params c
      else if str_eq method "pulse.danger.remove"
      then handle_danger_remove params c
      else if str_eq method "pulse.danger.list"
      then handle_danger_list c
      else if str_eq method "pulse.calibrate.start"
      then handle_calibrate_start now c
      else if str_eq method "pulse.calibrate.reset"
      then handle_calibrate_reset c
      else (err (rpc_code method_not_found), c)

-- a result, or an exception, as the response of `_dispatch`; only `RpcError` shows what it is
abbrev pub answer : {S : Type 0} → RequestId → Result Fields × S → Response × S
answer id (ok fs, c) = (record { id = id; result = obj fs; error = none }, c)
answer id (err (rpc e), c) = (record { id = id; result = null; error = some (to_dict e) }, c)
answer id (err x, c) =
    (record { id = id; result = null; error = some (error_of "internal error" internal_error) }, c)

-- `_dispatch`
unfoldable pub dispatch :
    {F : Type 0} → PulseEnv F → String → Option ℕ → Request → Client F → Response × Client F
dispatch env now idle req c = answer req.id (handle env now idle req.method req.params c)

abbrev pub send_answer : {F : Type 0} → Response × Client F → Client F
send_answer (r, c) = send_cmd (response r) c

-- `_on_command_frame`, of what `parse_frame` made of the line
unfoldable pub on_command_frame :
    {F : Type 0} → PulseEnv F → String → Option ℕ → Parsed → Client F → Client F
on_command_frame env now idle bad_json c = c
on_command_frame env now idle bad_message c = c
on_command_frame env now idle (parsed (request r)) c = send_answer (dispatch env now idle r c)
on_command_frame env now idle (parsed (response r)) c = c
on_command_frame env now idle (parsed (notification n)) c = c

-- what reaches the daemon, in the order in which its tasks take it, with the clock and the idle reading
pub data Input : Type 0 where
  tick_due : String → Option ℕ → Input
  command_frame : String → Option ℕ → Parsed → Input
  event_frame : String → Parsed → Input

-- one turn of `_tick_loop`, `_serve_command_conn` or `_consume_events_conn`
unfoldable pub react : {F : Type 0} → PulseEnv F → Input → Exec (Client F) (Unit {0})
react env (tick_due now idle) = safe_tick env now idle
react env (command_frame now idle line) = modify (on_command_frame env now idle line)
react env (event_frame now line) = on_event_frame env now line

-- the turns of `run`: an exception that leaves one task ends them all
unfoldable pub run_inputs : {F : Type 0} → PulseEnv F → List Input → Exec (Client F) (Unit {0})
run_inputs env [] = pure tt
run_inputs env (input ∷ inputs) = react env input >> run_inputs env inputs
