-- ===== src/Oracle/Client.antt =====
-- chimera/modules/oracle/oracle: the daemon's client (client.py) and the observer it drives
-- (observer.py). A frame that is sent is kept in `sent`. Tasks, sockets, the startup probe of the model
-- and heartbeats are not modelled; each method runs whole, as if no other one ran meanwhile.
use macbastion.Prelude.{
  ℕ, ◌+◌, String, Bool, true, false, ◌&&◌, Option, none, some, List, [], ◌∷◌, ◌++◌, str_eq, ◌==◌,
  if◌then◌else◌,
}
use Prim.Native.Nat.{◌%◌}
use Prim.Native.Char.{code}
use macbastion.Prelude.Int.{pos}
use macbastion.Prelude.Text.{before_dot, concat, starts_with}
use macbastion.Prelude.Json.{
  Json, null, bool, int, float, str, arr, obj, Items, nil, cons, Fields, end, field, get_field,
}
use macbastion.Errors.{
  Exn, zero_division, rpc_code, rpc_message, chimera_code, precondition_failed, invalid_params,
  method_not_found,
}
use macbastion.Exec.{Result, ok, err, Exec, pure, gets, modify, within, ◌>>=◌, ◌>>◌}
use macbastion.Envelope.{
  Params, dict_params, Request, Response, Message, request, response, notification, Parsed,
  bad_json, bad_message, parsed,
}
use macbastion.Server.Command.{payload_of}
use macbastion.Pulse.Client.{notice}
use macbastion.Pulse.Dispatch.{answer, need_object}
use macbastion.Oracle.Store.{
  EventRow, counted_up, inserted, BaselineStore, record_event, event_count,
}
use macbastion.Oracle.Detector.{OracleEnv, Similar, Verdict, classify, get_threshold, set_threshold}
use macbastion.Oracle.Ask.{query_first_seen, query_period, ask, as_text}

-- `OracleClient`; a detector is the threshold it was made with, and `connected` tells that there is a
-- command writer
pub record Client (F : Type 0) : Type 0 where
  pub store : BaselineStore
  pub detector : Option F
  pub has_asker : Bool
  pub baseline_every : ℕ
  pub model : String
  pub classifications_today : ℕ
  pub anomalous : Bool
  pub connected : Bool
  pub sent : List Message

-- `METHODS`
abbrev pub methods : List String
methods =
    "oracle.status" ∷ "oracle.observe" ∷ "oracle.classify" ∷ "oracle.threshold.set"
    ∷ "oracle.query.first_seen" ∷ "oracle.query.period" ∷ "oracle.ask" ∷ []

-- `_send_cmd`
unfoldable pub send_cmd : {F : Type 0} → Message → Client F → Client F
send_cmd message c = if c.connected then record c { sent = c.sent ++ message ∷ [] } else c

-- `topic.partition(".")[2]`
abbrev pub after_dot : String → String
after_dot String.[] = ""
after_dot (String.◌∷◌ x s) = if code x == b'.' then s else after_dot s

abbrev pub invalid : String → Exn
invalid message = rpc_message invalid_params message

abbrev pub unavailable : Exn
unavailable = rpc_code (chimera_code precondition_failed)

module _ {F : Type 0} (env : OracleEnv F) where
  open env use {ops, cipher, int_of_text, float_of}

  -- a computed result handed on, or its exception raised
  abbrev pub lift : {A : Type 0} → Result A → Exec (Client F) A
  lift r c = (r, c)

  abbrev pub on_store : {A : Type 0} → Exec BaselineStore A → Exec (Client F) A
  on_store = within (λ (c : Client F). c.store) (λ c s. record c { store = s })

  abbrev pub updated : ℕ → Message
  updated count = notice "oracle.baseline.updated" (
      field "event_count" (int (pos count))
        (field "baseline_summary" (obj (field "events" (int (pos count)) end)) end))

  -- rows that other threads record
  abbrev pub with_others : List EventRow → BaselineStore → BaselineStore
  with_others [] store = store
  with_others (row ∷ rows) store =
      with_others rows (counted_up (event_count cipher int_of_text store) (inserted row store)).1

  abbrev pub others_record : Exec (Client F) (Unit {0})
  others_record c = (ok tt, record c { store = with_others env.others c.store })

  -- `_record_sync`
  unfoldable pub record_sync : String → Fields → Exec (Client F) ℕ
  record_sync topic payload = do
    on_store (
        record_event cipher int_of_text env.utc_now (before_dot topic) (after_dot topic) payload
          none)
    others_record
    λ c. (event_count cipher int_of_text c.store, c)

  -- the callback of `Observer.record`, `_emit_baseline_updated`
  abbrev pub announce_count : ℕ → Exec (Client F) (Unit {0})
  announce_count count c =
      if c.baseline_every == 0
      then (err zero_division, c)
      else if count % c.baseline_every == 0
      then (ok tt, send_cmd (updated count) c)
      else (ok tt, c)

  -- `Observer.record`
  unfoldable pub observe : String → Fields → Exec (Client F) (Unit {0})
  observe topic payload c =
      if starts_with topic "oracle."
      then (ok tt, c)
      else (record_sync topic payload >>= announce_count) c

  abbrev status_fields : Client F → ℕ → Fields
  status_fields c count = field "observing" (bool true) (
      field "event_count" (int (pos count)) (
        field "baseline_events" (int (pos count)) (
          field "model" (str c.model)
            (field "classifications_today" (int (pos c.classifications_today)) end))))

  abbrev pub status_of : Result ℕ → Exec (Client F) Fields
  status_of (err x) c = (err x, c)
  status_of (ok count) c = (ok (status_fields c count), c)

  -- `_handle_status`
  unfoldable pub handle_status : Exec (Client F) Fields
  handle_status c = status_of (event_count cipher int_of_text c.store) c

  abbrev pub done : Fields
  done = field "ok" (bool true) end

  abbrev pub payload_in : Option Json → Result Fields
  payload_in none = ok end
  payload_in (some (obj fs)) = ok fs
  payload_in (some _) = err (invalid "payload must be object")

  abbrev pub topic_of : Option String → Option String → Result String
  topic_of (some source) (some kind) = ok (concat source (concat "." kind))
  topic_of _ _ = err (invalid "source/event_type required")

  -- `_handle_observe`
  unfoldable pub handle_observe : Params → Exec (Client F) Fields
  handle_observe params = do
    fs ← need_object params
    topic ← lift (topic_of (as_text (get_field fs "source")) (as_text (get_field fs "event_type")))
    payload ← lift (payload_in (get_field fs "payload"))
    observe topic payload
    pure done

  abbrev similar_items : List Similar → Items
  similar_items [] = nil
  similar_items (s ∷ rest) =
      cons
        (obj
          (field "ts" (str s.ts) (field "source" (str s.source) (field "type" (str s.kind) end))))
        (similar_items rest)

  abbrev verdict_fields : Verdict F → Fields
  verdict_fields v = field "score" (float (ops.to_text v.score)) (
      field "reasoning" (str v.reasoning) (
        field "context_factors" (arr v.context_factors)
          (field "similar_events" (arr (similar_items v.similar_events)) end)))

  abbrev or_null : Option Json → Json
  or_null none = null
  or_null (some j) = j

  -- an edge of the anomaly signal
  abbrev pub edge : String → Fields → Verdict F → F → Message
  edge method event v threshold = notice method (
      field "score" (float (ops.to_text v.score)) (
        field "threshold" (float (ops.to_text threshold)) (
          field "source" (or_null (get_field event "source")) (
            field "type" (or_null (get_field event "type"))
              (field "reasoning" (str v.reasoning) end)))))

  -- the score is below the band under the threshold, `ANOMALY_HYSTERESIS` wide
  abbrev pub has_passed : F → F → Bool
  has_passed score threshold = ops.ltb score (ops.sub threshold (ops.of_text "0.1"))

  -- `_handle_classify` once the score is there
  abbrev pub signal : Fields → F → Verdict F → Client F → Client F
  signal event threshold v c =
      if ops.leb threshold v.score
      then send_cmd (edge "oracle.anomaly.detected" event v threshold)
          (record c { anomalous = true })
      else if c.anomalous && has_passed v.score threshold
      then send_cmd (edge "oracle.anomaly.cleared" event v threshold)
          (record c { anomalous = false })
      else c

  abbrev pub judge : F → Fields → Result (Verdict F) → Exec (Client F) Fields
  judge seed event (err x) c = (err x, c)
  judge seed event (ok v) c = (
    ok (verdict_fields v),
    signal event (get_threshold env seed c.store) v
        (record c { classifications_today = c.classifications_today + 1 }),
  )

  abbrev pub event_of : Params → Option Json
  event_of (dict_params fs) = get_field fs "event"
  event_of _ = none

  abbrev pub classify_event : F → Option Json → Exec (Client F) Fields
  classify_event seed (some (obj event)) c = judge seed event (classify env event c.store) c
  classify_event seed _ c = (err (invalid "event object required"), c)

  abbrev pub with_detector : Option F → (F → Exec (Client F) Fields) → Exec (Client F) Fields
  with_detector none f c = (err unavailable, c)
  with_detector (some seed) f c = f seed c

  -- `_handle_classify`
  unfoldable pub handle_classify : Params → Exec (Client F) Fields
  handle_classify params c =
      with_detector c.detector (λ seed. classify_event seed (event_of params)) c

  abbrev number_in : Option Json → Result F
  number_in (some (int n)) = float_of (int n)
  number_in (some (float t)) = float_of (float t)
  number_in (some (bool b)) = float_of (bool b)
  number_in _ = err (invalid "threshold number required")

  abbrev pub threshold_in : Params → Result F
  threshold_in (dict_params fs) = number_in (get_field fs "threshold")
  threshold_in _ = number_in none

  abbrev pub put_threshold : Result F → Exec (Client F) Fields
  put_threshold (err x) c = (err x, c)
  put_threshold (ok value) c = on_store (set_threshold env value) c

  -- `_handle_threshold_set`; a Boolean is an `int` in Python
  unfoldable pub handle_threshold_set : Params → Exec (Client F) Fields
  handle_threshold_set params c =
      with_detector c.detector (λ seed. put_threshold (threshold_in params)) c

  abbrev pub optional_text : Option Json → Result (Option String)
  optional_text none = ok none
  optional_text (some null) = ok none
  optional_text (some (str s)) = ok (some s)
  optional_text (some _) = err (invalid "event_type must be a string")

  abbrev pub text_in : String → Params → String → Result String
  text_in message (dict_params fs) key = elim (as_text (get_field fs key)) [
    | none ↦ err (invalid message)
    | some s ↦ ok s
  ]
  text_in message _ key = err (invalid message)

  abbrev pub option_in : Params → String → Option Json
  option_in (dict_params fs) key = get_field fs key
  option_in _ key = none

  -- `_handle_query_first_seen`
  unfoldable pub handle_query_first_seen : Params → Exec (Client F) Fields
  handle_query_first_seen params = do
    source ← lift (text_in "source required" params "source")
    kind ← lift (optional_text (option_in params "event_type"))
    gets (λ (c : Client F). query_first_seen source kind c.store)

  -- `_handle_query_period`
  unfoldable pub handle_query_period : Params → Exec (Client F) Fields
  handle_query_period params = do
    need_object params
    start ← lift (text_in "start/end required" params "start")
    stop ← lift (text_in "start/end required" params "end")
    gets (λ (c : Client F). query_period start stop c.store)

  abbrev pub ask_if : Bool → Result String → Exec (Client F) Fields
  ask_if false question c = (err unavailable, c)
  ask_if true (err x) c = (err x, c)
  ask_if true (ok question) c = (ask env question c.store, c)

  -- `_handle_ask`
  unfoldable pub handle_ask : Params → Exec (Client F) Fields
  handle_ask params c = ask_if c.has_asker (text_in "question required" params "question") c

  -- the chain of tests in `_dispatch`
  unfoldable pub handle : String → Params → Exec (Client F) Fields
  handle method params c =
      if str_eq method "oracle.status"
      then handle_status c
      else if str_eq method "oracle.observe"
      then handle_observe params c
      else if str_eq method "oracle.classify"
      then handle_classify params c
      else if str_eq method "oracle.threshold.set"
      then handle_threshold_set params c
      else if str_eq method "oracle.query.first_seen"
      then handle_query_first_seen params c
      else if str_eq method "oracle.query.period"
      then handle_query_period params c
      else if str_eq method "oracle.ask"
      then handle_ask params c
      else (err (rpc_code method_not_found), c)

  -- `_dispatch`, whose handlers of exceptions are those of PULSE's
  unfoldable pub dispatch : Request → Client F → Response × Client F
  dispatch req c = answer req.id (handle req.method req.params c)

  abbrev pub send_answer : Response × Client F → Client F
  send_answer (r, c) = send_cmd (response r) c

  -- `_on_command_frame`, of what `parse_frame` made of the line
  unfoldable pub on_command_frame : Parsed → Client F → Client F
  on_command_frame bad_json c = c
  on_command_frame bad_message c = c
  on_command_frame (parsed (request r)) c = send_answer (dispatch r c)
  on_command_frame (parsed (response r)) c = c
  on_command_frame (parsed (notification n)) c = c

  -- `_on_event_frame`
  unfoldable pub on_event_frame : Parsed → Exec (Client F) (Unit {0})
  on_event_frame bad_json = pure tt
  on_event_frame bad_message = pure tt
  on_event_frame (parsed (request r)) = pure tt
  on_event_frame (parsed (response r)) = pure tt
  on_event_frame (parsed (notification n)) = observe n.method (payload_of n.params)

-- what reaches the daemon on its two connections, each with what the model, the clock and the libraries
-- answer at that time
pub data Input (F : Type 0) : Type 0 where
  command_frame : OracleEnv F → Parsed → Input F
  event_frame : OracleEnv F → Parsed → Input F

-- one turn of `_serve_command_conn` or `_consume_events_conn`
unfoldable pub react : {F : Type 0} → Input F → Exec (Client F) (Unit {0})
react (command_frame env line) = modify (on_command_frame env line)
react (event_frame env line) = on_event_frame env line

-- the turns of `run`: an exception that leaves one task ends them all
unfoldable pub run_inputs : {F : Type 0} → List (Input F) → Exec (Client F) (Unit {0})
run_inputs [] = pure tt
run_inputs (input ∷ inputs) = react input >> run_inputs inputs
