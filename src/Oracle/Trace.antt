-- ===== src/Oracle/Trace.antt =====
-- ORACLE's daemon, whole: what every frame on its connections keeps.
use macbastion.Prelude.{
  ℕ, String, Bool, true, false, ◌&&◌, refl, Option, none, some, List, [], ◌∷◌, length, str_eq, ◌==◌,
  All,
}
use Prim.Native.Nat.{◌%◌}
use macbastion.Prelude.Text.{starts_with}
use macbastion.Prelude.Dict
use macbastion.Prelude.Floats.{zero_float, one_float}
use macbastion.Prelude.Json.{Fields, get_field}
use macbastion.Errors.{rpc}
use macbastion.Exec.{Result, ok, err, Exec, Keeps, Keeps-read, Keeps-bind, if_rule}
use macbastion.Envelope.{
  RequestId, Params, null_params, list_params, dict_params, request, response, notification, Parsed,
  bad_json, bad_message, parsed,
}
use macbastion.Server.Command.{payload_of}
use macbastion.Pulse.Dispatch.{need_object, answer}
use macbastion.Oracle.Store.{BaselineStore, set_meta, event_count}
use macbastion.Oracle.Detector.{OracleEnv, set_threshold}
use macbastion.Oracle.Ask.{as_text, query_first_seen, query_period}
use macbastion.Oracle.Client.{
  Client, updated, announce_count, observe, status_of, handle_status, topic_of, payload_in,
  handle_observe, with_detector, put_threshold, threshold_in, handle_threshold_set, handle_classify,
  event_of, text_in, optional_text, option_in, handle_query_first_seen, handle_query_period, ask_if,
  handle_ask, handle, dispatch, on_command_frame, on_event_frame, Input, command_frame, event_frame,
  react, run_inputs, done,
}
use macbastion.Oracle.Counts.{IsCounted, ReadsCounts, recorded-IsCounted, record_sync-eq, recorded}
use macbastion.Oracle.Edges.{Sound, send_cmd-Sound, detector-Sound}

-- what a method leaves is sound
abbrev LeavesSound : {F A : Type 0} → Result A × Client F → Type 0
LeavesSound r = Sound r.1

abbrev LeavesCounted : Result Fields × BaselineStore → Type 0
LeavesCounted r = IsCounted r.1

module _ {F : Type 0} (env : OracleEnv F) (reads : ReadsCounts env) where
  open env use {cipher, int_of_text}

  abbrev KeepsSound : {A : Type 0} → Exec (Client F) A → Type 0
  KeepsSound m = Keeps (Sound {F = F}) m

  announce_count-Sound : (n : ℕ) (c : Client F) → Sound c → Sound (announce_count env n c).1
  announce_count-Sound n c s =
      if_rule LeavesSound (c.baseline_every == 0) _ _ (λ _. s)
        λ _.
          if_rule LeavesSound (n % c.baseline_every == 0) _ _
            (λ _. send_cmd-Sound (updated env n) c.anomalous c s.up s.counted s.traced refl)
            (λ _. s)

  recorded-Sound :
      (topic : String) (payload : Fields) (c : Client F)
      → Sound c
      → Sound (record c { store = recorded env reads topic payload c.store })
  recorded-Sound topic payload c s = record {
    up = s.up;
    counted = (recorded-IsCounted env reads topic payload c.store s.counted).0;
    traced = s.traced;
  }

  observe-Sound : (topic : String) (payload : Fields) → KeepsSound (observe env topic payload)
  unfolding observe
  observe-Sound topic payload = record {
    at = λ c s.
        if_rule LeavesSound (starts_with topic "oracle.") _ _ (λ _. s)
          λ _. rw (record_sync-eq env reads topic payload c s.counted) (
            announce_count-Sound (length (recorded env reads topic payload c.store).events) _
              (recorded-Sound topic payload c s));
  }

  need_object-Sound : (params : Params) → KeepsSound (need_object params)
  need_object-Sound null_params = Keeps-read _
  need_object-Sound (list_params xs) = Keeps-read _
  need_object-Sound (dict_params fs) = Keeps-read _

  handle_observe-Sound : (params : Params) → KeepsSound (handle_observe env params)
  unfolding handle_observe
  handle_observe-Sound params = Keeps-bind (need_object-Sound params) λ fs.
      Keeps-bind
        (Keeps-read (λ _.
          topic_of env (as_text (get_field fs "source")) (as_text (get_field fs "event_type"))))
        λ topic.
          Keeps-bind (Keeps-read (λ _. payload_in env (get_field fs "payload")))
            λ payload. Keeps-bind (observe-Sound topic payload) λ _. Keeps-read (λ _. ok (done env))

  status_of-Sound : (r : Result ℕ) (c : Client F) → Sound c → Sound (status_of env r c).1
  status_of-Sound (ok n) c s = s
  status_of-Sound (err x) c s = s

  set_meta-IsCounted :
      (text : String) (store : BaselineStore)
      → IsCounted store
      → IsCounted (set_meta "threshold" text store)
  unfolding set_meta
  set_meta-IsCounted text store h = rw Dict.get-put h

  set_threshold-IsCounted :
      (value : F) (store : BaselineStore)
      → IsCounted store
      → IsCounted (set_threshold env value store).1
  unfolding set_threshold
  set_threshold-IsCounted value store h =
      let ops = env.ops in
      if_rule LeavesCounted (ops.leb (zero_float ops) value && ops.leb value (one_float ops)) _ _
        (λ _. set_meta-IsCounted (ops.to_text value) store h) (λ _. h)

  put_threshold-Sound : (r : Result F) (c : Client F) → Sound c → Sound (put_threshold env r c).1
  put_threshold-Sound (err x) c s = s
  put_threshold-Sound (ok value) c s = record {
    up = s.up;
    counted = set_threshold-IsCounted value c.store s.counted;
    traced = s.traced;
  }

  with_threshold-Sound :
      (detector : Option F) (r : Result F) (c : Client F)
      → Sound c
      → Sound (with_detector env detector (λ _. put_threshold env r) c).1
  with_threshold-Sound none r c s = s
  with_threshold-Sound (some seed) r c s = put_threshold-Sound r c s

  first_seen-Sound : (params : Params) → KeepsSound (handle_query_first_seen env params)
  unfolding handle_query_first_seen
  first_seen-Sound params =
      Keeps-bind (Keeps-read (λ _. text_in env "source required" params "source")) λ source.
        Keeps-bind (Keeps-read (λ _. optional_text env (option_in env params "event_type")))
          λ kind. Keeps-read (λ c. ok (query_first_seen source kind c.store))

  period-Sound : (params : Params) → KeepsSound (handle_query_period env params)
  unfolding handle_query_period
  period-Sound params = Keeps-bind (need_object-Sound params) λ _.
      Keeps-bind (Keeps-read (λ _. text_in env "start/end required" params "start")) λ start.
        Keeps-bind (Keeps-read (λ _. text_in env "start/end required" params "end"))
          λ stop. Keeps-read (λ c. ok (query_period start stop c.store))

  ask_if-Sound :
      (has : Bool) (question : Result String) (c : Client F)
      → Sound c
      → Sound (ask_if env has question c).1
  ask_if-Sound false question c s = s
  ask_if-Sound true (ok question) c s = s
  ask_if-Sound true (err x) c s = s

  handle-Sound :
      (method : String) (params : Params) (c : Client F)
      → Sound c
      → Sound (handle env method params c).1
  unfolding handle handle_status handle_classify handle_threshold_set handle_ask
  handle-Sound method params c s =
      if_rule LeavesSound (str_eq method "oracle.status") _ _
        (λ _. status_of-Sound (event_count cipher int_of_text c.store) c s)
        λ _.
          if_rule LeavesSound (str_eq method "oracle.observe") _ _
            (λ _. (handle_observe-Sound params).at c s)
            λ _.
              if_rule LeavesSound (str_eq method "oracle.classify") _ _
                (λ _. detector-Sound env c.detector (event_of env params) c s)
                λ _.
                  if_rule LeavesSound (str_eq method "oracle.threshold.set") _ _
                    (λ _. with_threshold-Sound c.detector (threshold_in env params) c s)
                    λ _.
                      if_rule LeavesSound (str_eq method "oracle.query.first_seen") _ _
                        (λ _. (first_seen-Sound params).at c s)
                        λ _.
                          if_rule LeavesSound (str_eq method "oracle.query.period") _ _
                            (λ _. (period-Sound params).at c s)
                            λ _.
                              if_rule LeavesSound (str_eq method "oracle.ask") _ _
                                (λ _.
                                  ask_if-Sound c.has_asker
                                    (text_in env "question required" params "question") c s)
                                (λ _. s)

  answer-Sound : (id : RequestId) (r : Result Fields × Client F) → Sound r.1 → Sound (answer id r).1
  answer-Sound id (ok fs, c) s = s
  answer-Sound id (err (rpc e), c) s = s
  answer-Sound id (err x, c) s = s

  command-Sound : (line : Parsed) (c : Client F) → Sound c → Sound (on_command_frame env line c)
  unfolding on_command_frame dispatch
  command-Sound bad_json c s = s
  command-Sound bad_message c s = s
  command-Sound (parsed (response r)) c s = s
  command-Sound (parsed (notification n)) c s = s
  command-Sound (parsed (request r)) c s =
      let (reply, c') = dispatch env r c in
      let s' : Sound c' =
        answer-Sound r.id (handle env r.method r.params c) (handle-Sound r.method r.params c s) in
      send_cmd-Sound (response reply) c'.anomalous c' s'.up s'.counted s'.traced refl

  event-Sound : (line : Parsed) → KeepsSound (on_event_frame env line)
  unfolding on_event_frame
  event-Sound bad_json = Keeps-read _
  event-Sound bad_message = Keeps-read _
  event-Sound (parsed (request r)) = Keeps-read _
  event-Sound (parsed (response r)) = Keeps-read _
  event-Sound (parsed (notification n)) = observe-Sound n.method (payload_of n.params)

-- the library reads back the counts that the store writes
abbrev pub IsLawful : {F : Type 0} → Input F → Type 0
IsLawful (command_frame env line) = ReadsCounts env
IsLawful (event_frame env line) = ReadsCounts env

react-Sound : {F : Type 0} (input : Input F) → IsLawful input → Keeps Sound (react input)
unfolding react
react-Sound (command_frame env line) h = record { at = command-Sound env h line }
react-Sound (event_frame env line) h = event-Sound env h line

-- While the connection to core is up, whatever comes on ORACLE's two connections, and whatever the
-- language model answers: the frames that it sends never take an anomaly back that is not announced, a
-- listener that follows them knows what ORACLE takes the state to be, and the count of events in the
-- metadata is the count of the rows.
pub run_inputs-Sound :
    {F : Type 0} (inputs : List (Input F)) (c : Client F)
    → All IsLawful inputs
    → Sound c
    → Sound (run_inputs inputs c).1
unfolding run_inputs
run_inputs-Sound [] c h s = s
run_inputs-Sound (input ∷ inputs) c h s =
    (Keeps-bind (react-Sound input h.0)
        (λ _. record { at = λ c s. run_inputs-Sound inputs c h.1 s })).at
      c s
