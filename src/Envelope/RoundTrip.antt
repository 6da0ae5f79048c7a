-- ===== src/Envelope/RoundTrip.antt =====
-- Messages of chimera/core/envelope.py written and read back.
use macbastion.Prelude.{String, true, ◌≡◌, refl, ◌≢◌, Option, none, some, arith}
use macbastion.Prelude.Json.{Json, null, bool, int, float, str, arr, obj, get_field, Fields}
use macbastion.Envelope.{
  RequestId, null_id, int_id, str_id, Params, null_params, list_params, dict_params, Request,
  Response, Notification, request, response, notification, bad_message, parsed, exactly_one,
  validate_request, validate_response, validate_notification, parse_object, parse, serialize,
  serialize_response,
}

request_back :
    (i : RequestId) (m : String) (p : Params)
    → i ≢ null_id
    → let r = request (record { id = i; method = m; params = p }) in
      parse (some (obj (serialize r))) ≡ parsed r
unfolding parse parse_object validate_request serialize get_field
request_back null_id m p h = absurd (h refl)
request_back (int_id n) m null_params h = refl
request_back (int_id n) m (list_params q) h = refl
request_back (int_id n) m (dict_params q) h = refl
request_back (str_id n) m null_params h = refl
request_back (str_id n) m (list_params q) h = refl
request_back (str_id n) m (dict_params q) h = refl

-- A request with an id is read back as it was written.
pub parse-serialize_request :
    (r : Request) → r.id ≢ null_id → parse (some (obj (serialize (request r)))) ≡ parsed (request r)
parse-serialize_request r h = request_back r.id r.method r.params h

notification_back :
    (m : String) (p : Params)
    → let n = notification (record { method = m; params = p }) in
      parse (some (obj (serialize n))) ≡ parsed n
unfolding parse parse_object validate_notification serialize get_field
notification_back m null_params = refl
notification_back m (list_params q) = refl
notification_back m (dict_params q) = refl

-- A notification is read back as it was written.
pub parse-serialize_notification :
    (n : Notification) → parse (some (obj (serialize (notification n)))) ≡ parsed (notification n)
parse-serialize_notification n = notification_back n.method n.params

response_back :
    (i : RequestId) (j : Json) (e : Option Fields)
    → let r : Response = record { id = i; result = j; error = e } in
      exactly_one r ≡ true → parse (some (obj (serialize_response r))) ≡ parsed (response r)
unfolding parse parse_object validate_response serialize serialize_response exactly_one get_field
response_back i null none h = ground arith
response_back null_id null (some e) h = refl
response_back (int_id n) null (some e) h = refl
response_back (str_id n) null (some e) h = refl
response_back null_id (bool b) none h = refl
response_back (int_id n) (bool b) none h = refl
response_back (str_id n) (bool b) none h = refl
response_back i (bool b) (some e) h = ground arith
response_back null_id (int b) none h = refl
response_back (int_id n) (int b) none h = refl
response_back (str_id n) (int b) none h = refl
response_back i (int b) (some e) h = ground arith
response_back null_id (float b) none h = refl
response_back (int_id n) (float b) none h = refl
response_back (str_id n) (float b) none h = refl
response_back i (float b) (some e) h = ground arith
response_back null_id (str b) none h = refl
response_back (int_id n) (str b) none h = refl
response_back (str_id n) (str b) none h = refl
response_back i (str b) (some e) h = ground arith
response_back null_id (arr b) none h = refl
response_back (int_id n) (arr b) none h = refl
response_back (str_id n) (arr b) none h = refl
response_back i (arr b) (some e) h = ground arith
response_back null_id (obj b) none h = refl
response_back (int_id n) (obj b) none h = refl
response_back (str_id n) (obj b) none h = refl
response_back i (obj b) (some e) h = ground arith

-- What the server writes of a response that holds exactly one of result and error, whatever its id,
-- is read back as it was.
pub parse-serialize_response :
    (r : Response)
    → exactly_one r ≡ true
    → parse (some (obj (serialize_response r))) ≡ parsed (response r)
parse-serialize_response r h = response_back r.id r.result r.error h

-- A message read from an object that lacks `method` and both `result` and `error` does not exist:
-- such an object is refused as malformed.
pub parse_refuses_shapeless :
    (fs : Fields)
    → get_field fs "method" ≡ none
    → get_field fs "result" ≡ none
    → get_field fs "error" ≡ none
    → parse (some (obj fs)) ≡ bad_message
unfolding parse parse_object validate_request
parse_refuses_shapeless fs m r e = ground arith
