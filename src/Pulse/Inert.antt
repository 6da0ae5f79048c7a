-- ===== src/Pulse/Inert.antt =====
-- PULSE as it is run, whole: what its ticks, its handlers and its events keep.
use macbastion.Prelude.{
  ℕ, String, Bool, true, false, Option, none, some, List, [], ◌∷◌, arith, str_eq,
}
use macbastion.Prelude.Json.{Json, int, float, Fields, get_field}
use macbastion.Exec.{Result, ok, err, Exec, Keeps, Keeps-read, Keeps-bind, Keeps-catch, if_rule}
use macbastion.Errors.{Exn, rpc, type_error, value_error}
use macbastion.Envelope.{
  RequestId, Params, dict_params, null_params, list_params, request, response, notification, Parsed,
  bad_json, bad_message, parsed,
}
use macbastion.Server.Command.{payload_of}
use macbastion.Pulse.{DangerFile}
use macbastion.Pulse.Scoring.{Weights}
use macbastion.Pulse.Store.{set_meta, get_meta, clear_buckets, baseline_ready, calibration_days}
use macbastion.Pulse.Client.{
  PulseEnv, Client, on_input_aggregates, default_zero, ratio_of, tolerate, observe_score,
  on_anomaly, on_event_frame,
}
use macbastion.Pulse.Dispatch.{
  session_minutes, weight_of, need_object, put_weights, handle_weights_set, set_enabled,
  handle_status, on_registry, on_file, reply_registry, handle_danger_list, handle_danger_add,
  handle_danger_remove, stamp, stamp_now, calibration_fields, handle_calibrate_start,
  handle_calibrate_reset, handle, answer, dispatch, on_command_frame, Input, tick_due,
  command_frame, event_frame, react, run_inputs,
}
use macbastion.Pulse.Quiet.{Quiet, LeavesQuiet, send_cmd-Quiet, compute-Quiet, safe_tick-Quiet}

module _ {F : Type 0} (env : PulseEnv F) where
  open env use {ops, cipher, datetime, float_of, int_of}

  abbrev KeepsQuiet : {A : Type 0} → Exec (Client F) A → Type 0
  KeepsQuiet m = Keeps (Quiet {F = F}) m

  need_object-Quiet : (params : Params) → KeepsQuiet (need_object params)
  need_object-Quiet null_params = Keeps-read _
  need_object-Quiet (list_params xs) = Keeps-read _
  need_object-Quiet (dict_params fs) = Keeps-read _

  put_weights-Quiet : (w : Weights F) → KeepsQuiet (put_weights env w)
  put_weights-Quiet w = record { at = λ c q. ground arith }

  weights_set-Quiet : (params : Params) → KeepsQuiet (handle_weights_set env params)
  unfolding handle_weights_set
  weights_set-Quiet params = Keeps-bind (need_object-Quiet params) λ fs.
      Keeps-bind (Keeps-read (λ _. weight_of env (get_field fs "w_a"))) λ a.
        Keeps-bind (Keeps-read (λ _. weight_of env (get_field fs "w_b"))) λ b.
          Keeps-bind (Keeps-read (λ _. weight_of env (get_field fs "w_c")))
            λ c. put_weights-Quiet (record { w_a = a; w_b = b; w_c = c })

  set_enabled-Quiet : (b : Bool) → KeepsQuiet (set_enabled env b)
  unfolding set_enabled
  set_enabled-Quiet b = record { at = λ c q. ground arith }

  status-Quiet : (now : String) (idle : Option ℕ) → KeepsQuiet (handle_status env now idle)
  unfolding handle_status
  status-Quiet now idle = Keeps-bind (compute-Quiet env now idle) λ r.
      Keeps-bind (Keeps-read (λ c. baseline_ready ops cipher datetime now c.store))
        λ ready. Keeps-bind (Keeps-read (session_minutes env now)) λ minutes. Keeps-read _

  reply_registry-Quiet :
      (r : Result (List String) × DangerFile) (c : Client F)
      → Quiet c
      → Quiet (reply_registry env r c).1
  reply_registry-Quiet (ok items, file) c q = ground arith
  reply_registry-Quiet (err x, file) c q = ground arith

  on_file-Quiet :
      (m : Exec DangerFile (List String)) (file : Option DangerFile) (c : Client F)
      → Quiet c
      → Quiet (on_file env m file c).1
  on_file-Quiet m none c q = q
  on_file-Quiet m (some file) c q = reply_registry-Quiet (m file) c q

  on_registry-Quiet : (m : Exec DangerFile (List String)) → KeepsQuiet (on_registry env m)
  on_registry-Quiet m = record { at = λ c q. on_file-Quiet m c.danger_registry c q }

  stamp_now-Quiet : (now : String) → KeepsQuiet (stamp_now env now)
  unfolding set_meta
  stamp_now-Quiet now = record { at = λ c q. ground arith }

  stamp-Quiet : (now : String) (started : Option String) → KeepsQuiet (stamp env now started)
  stamp-Quiet now none = stamp_now-Quiet now
  stamp-Quiet now (some at) = record {
    at = λ c q. if_rule LeavesQuiet (str_eq at "") _ _ (λ _. (stamp_now-Quiet now).at c q) (λ _. q);
  }

  calibrate_start-Quiet : (now : String) → KeepsQuiet (handle_calibrate_start env now)
  unfolding handle_calibrate_start
  calibrate_start-Quiet now =
      Keeps-bind (Keeps-read (λ c. calibration_days ops cipher datetime now c.store)) λ days.
        Keeps-bind (Keeps-read (λ c. baseline_ready ops cipher datetime now c.store)) λ ready.
          Keeps-bind (Keeps-read (λ c. ok (get_meta c.store "calibration_started_at"))) λ started.
            Keeps-bind (stamp-Quiet now started)
              λ at. Keeps-read (λ _. ok (calibration_fields env days ready at))

  calibrate_reset-Quiet : KeepsQuiet (handle_calibrate_reset env)
  unfolding handle_calibrate_reset set_meta clear_buckets
  calibrate_reset-Quiet = record { at = λ c q. ground arith }

  handle-Quiet :
      (now : String) (idle : Option ℕ) (method : String) (params : Params) (c : Client F)
      → Quiet c
      → Quiet (handle env now idle method params c).1
  unfolding handle handle_danger_list handle_danger_add handle_danger_remove
  handle-Quiet now idle method params c q =
      if_rule LeavesQuiet (str_eq method "pulse.status") _ _ (λ _. (status-Quiet now idle).at c q)
        λ _.
          if_rule LeavesQuiet (str_eq method "pulse.weights.set") _ _
            (λ _. (weights_set-Quiet params).at c q)
            λ _.
              if_rule LeavesQuiet (str_eq method "pulse.enable") _ _
                (λ _. (set_enabled-Quiet true).at c q)
                λ _.
                  if_rule LeavesQuiet (str_eq method "pulse.disable") _ _
                    (λ _. (set_enabled-Quiet false).at c q)
                    λ _.
                      if_rule LeavesQuiet (str_eq method "pulse.danger.add") _ _
                        (λ _. (on_registry-Quiet _).at c q)
                        λ _.
                          if_rule LeavesQuiet (str_eq method "pulse.danger.remove") _ _
                            (λ _. (on_registry-Quiet _).at c q)
                            λ _.
                              if_rule LeavesQuiet (str_eq method "pulse.danger.list") _ _
                                (λ _. (on_registry-Quiet _).at c q)
                                λ _.
                                  if_rule LeavesQuiet (str_eq method "pulse.calibrate.start") _ _
                                    (λ _. (calibrate_start-Quiet now).at c q)
                                    λ _.
                                      if_rule LeavesQuiet (str_eq method "pulse.calibrate.reset") _
                                        _ (λ _. calibrate_reset-Quiet.at c q) (λ _. q)

  answer-Quiet : (id : RequestId) (r : Result Fields × Client F) → Quiet r.1 → Quiet (answer id r).1
  answer-Quiet id (ok fs, c) q = q
  answer-Quiet id (err (rpc e), c) q = q
  answer-Quiet id (err x, c) q = q

  command-Quiet :
      (now : String) (idle : Option ℕ) (line : Parsed) (c : Client F)
      → Quiet c
      → Quiet (on_command_frame env now idle line c)
  unfolding on_command_frame dispatch
  command-Quiet now idle bad_json c q = q
  command-Quiet now idle bad_message c q = q
  command-Quiet now idle (parsed (response r)) c q = q
  command-Quiet now idle (parsed (notification n)) c q = q
  command-Quiet now idle (parsed (request r)) c q =
      let (reply, c') = dispatch env now idle r c in
      send_cmd-Quiet (response reply) c' tt (
        answer-Quiet r.id (handle env now idle r.method r.params c)
          (handle-Quiet now idle r.method r.params c q))

  aggregates-Quiet : (fs : Fields) → KeepsQuiet (on_input_aggregates env fs)
  aggregates-Quiet fs =
      Keeps-bind (Keeps-read (λ _. int_of (default_zero env (get_field fs "chars")))) λ chars.
        Keeps-bind (Keeps-read (λ _. int_of (default_zero env (get_field fs "deletes")))) λ deletes.
          Keeps-bind (Keeps-read (λ _. ratio_of env (get_field fs "mouse_path_ratio")))
            λ ratio. record { at = λ c q. ground arith }

  score-Quiet : (now : String) (j : Json) → KeepsQuiet (observe_score env now j)
  score-Quiet now j =
      Keeps-bind (Keeps-read (λ _. float_of j)) λ score. record { at = λ c q. ground arith }

  anomaly-Quiet : (now : String) (score : Option Json) → KeepsQuiet (on_anomaly env now score)
  anomaly-Quiet now (some (int n)) = score-Quiet now (int n)
  anomaly-Quiet now (some (float t)) = score-Quiet now (float t)
  anomaly-Quiet now _ = Keeps-read _

  tolerate-Quiet : (x : Exn) → KeepsQuiet (tolerate env x)
  tolerate-Quiet type_error = Keeps-read _
  tolerate-Quiet (value_error text) = Keeps-read _
  tolerate-Quiet _ = Keeps-read _

  event-Quiet :
      (now : String) (line : Parsed) (c : Client F)
      → Quiet c
      → Quiet (on_event_frame env now line c).1
  unfolding on_event_frame
  event-Quiet now bad_json c q = q
  event-Quiet now bad_message c q = q
  event-Quiet now (parsed (request r)) c q = q
  event-Quiet now (parsed (response r)) c q = q
  event-Quiet now (parsed (notification n)) c q =
      if_rule LeavesQuiet (str_eq n.method "mirror.input.minute") _ _
        (λ _.
          (Keeps-catch {handler = tolerate env} (aggregates-Quiet (payload_of n.params))
              tolerate-Quiet).at
            c q)
        λ _.
          if_rule LeavesQuiet (str_eq n.method "oracle.anomaly.detected") _ _
            (λ _. (anomaly-Quiet now (get_field (payload_of n.params) "score")).at c q) (λ _. q)

  react-Quiet : (input : Input) → KeepsQuiet (react env input)
  unfolding react
  react-Quiet (tick_due now idle) = safe_tick-Quiet env now idle
  react-Quiet (command_frame now idle line) = record { at = command-Quiet now idle line }
  react-Quiet (event_frame now line) = record { at = event-Quiet now line }

  -- From a client whose store has no bucket, that has no mode but `normal` and that sent no mode change,
  -- no ticks, commands and events, in whatever order, lead to one that has a bucket or another mode, or
  -- sends a mode change: nothing that the daemon does ends its calibration.
  pub run_inputs-Quiet :
      (inputs : List Input) (c : Client F) → Quiet c → Quiet (run_inputs env inputs c).1
  unfolding run_inputs
  run_inputs-Quiet [] c q = q
  run_inputs-Quiet (input ∷ inputs) c q =
      (Keeps-bind (react-Quiet input) (λ _. record { at = run_inputs-Quiet inputs })).at c q
