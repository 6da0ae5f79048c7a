-- ===== src/Envelope.antt =====
-- chimera/core/envelope.py: the JSON-RPC messages. `json.loads` and `json.dumps` are not modelled:
-- a frame is the JSON value it holds. Python's `None` is `null` where a field is of type `Any`.
pub mod RoundTrip
use macbastion.Prelude.{
  ℕ, String, Bool, true, false, not, ◌&&◌, ◌||◌, Option, none, some, List, [], ◌∷◌, str_eq, is_some,
  if◌then◌else◌,
}
use macbastion.Prelude.Int.{ℤ}
use macbastion.Prelude.Text.{mem_str}
use macbastion.Prelude.Json.{
  Json, null, bool, int, float, str, arr, obj, Items, Fields, end, field, get_field,
}

-- `StrictInt | StrictStr | None`
pub data RequestId : Type 0 where
  null_id : RequestId
  int_id : ℤ → RequestId
  str_id : String → RequestId

-- `dict[str, Any] | list[Any] | None`
pub data Params : Type 0 where
  null_params : Params
  list_params : Items → Params
  dict_params : Fields → Params

pub record Request : Type 0 where
  pub id : RequestId
  pub method : String
  pub params : Params

pub record Response : Type 0 where
  pub id : RequestId
  pub result : Json
  pub error : Option Fields

pub record Notification : Type 0 where
  pub method : String
  pub params : Params

pub data Message : Type 0 where
  request : Request → Message
  response : Response → Message
  notification : Notification → Message

-- what `parse` does: `json.JSONDecodeError`, another `ValueError`, or a message
pub data Parsed : Type 0 where
  bad_json : Parsed
  bad_message : Parsed
  parsed : Message → Parsed

abbrev pub is_null : Json → Bool
is_null null = true
is_null _ = false

-- `_exactly_one_of_result_or_error`
unfoldable pub exactly_one : Response → Bool
exactly_one r = elim r.error [ none ↦ not (is_null r.result) | some e ↦ is_null r.result ]

-- `ConfigDict(extra="forbid")`
abbrev pub only_keys : List String → Fields → Bool
only_keys names end = true
only_keys names (field k v fs) = mem_str k names && only_keys names fs

abbrev is_version : Option Json → Bool
is_version (some (str s)) = str_eq s "2.0"
is_version _ = false

abbrev as_id : Json → Option RequestId
as_id (int n) = some (int_id n)
as_id (str s) = some (str_id s)
as_id _ = none

abbrev as_null_id : Json → Option RequestId
as_null_id null = some null_id
as_null_id j = as_id j

abbrev as_method : Option Json → Option String
as_method (some (str s)) = some s
as_method _ = none

abbrev as_params : Option Json → Option Params
as_params none = some null_params
as_params (some null) = some null_params
as_params (some (arr xs)) = some (list_params xs)
as_params (some (obj fs)) = some (dict_params fs)
as_params (some _) = none

abbrev as_error : Option Json → Option (Option Fields)
as_error none = some none
as_error (some null) = some none
as_error (some (obj fs)) = some (some fs)
as_error (some _) = none

abbrev or_null : Option Json → Json
or_null none = null
or_null (some j) = j

abbrev pub bind : {A B : Type 0} → Option A → (A → Option B) → Option B
bind none f = none
bind (some a) f = f a

abbrev guard : Bool → Option (Unit {0})
guard true = some tt
guard false = none

-- `Request.model_validate`
unfoldable pub validate_request : Fields → Option Message
validate_request fs = bind (guard (only_keys ("jsonrpc" ∷ "id" ∷ "method" ∷ "params" ∷ []) fs)) λ _.
    bind (guard (is_version (get_field fs "jsonrpc"))) λ _.
      bind (bind (get_field fs "id") as_id) λ id. bind (as_method (get_field fs "method")) λ method.
        bind (as_params (get_field fs "params"))
          λ params. some (request (record { id = id; method = method; params = params }))

-- `Response.model_validate`
unfoldable pub validate_response : Fields → Option Message
validate_response fs = bind (guard (only_keys ("jsonrpc" ∷ "id" ∷ "result" ∷ "error" ∷ []) fs)) λ _.
    bind (guard (is_version (get_field fs "jsonrpc"))) λ _.
      bind (bind (get_field fs "id") as_null_id) λ id.
        bind (as_error (get_field fs "error")) λ error.
          let r : Response = record {
            id = id;
            result = or_null (get_field fs "result");
            error = error;
          } in
          bind (guard (exactly_one r)) λ _. some (response r)

-- `Notification.model_validate`
unfoldable pub validate_notification : Fields → Option Message
validate_notification fs = bind (guard (only_keys ("jsonrpc" ∷ "method" ∷ "params" ∷ []) fs)) λ _.
    bind (guard (is_version (get_field fs "jsonrpc"))) λ _.
      bind (as_method (get_field fs "method")) λ method.
        bind (as_params (get_field fs "params"))
          λ params. some (notification (record { method = method; params = params }))

abbrev checked : Option Message → Parsed
checked none = bad_message
checked (some m) = parsed m

-- the choice of the shape, by the keys of the object
unfoldable pub parse_object : Fields → Parsed
parse_object fs =
    let has_id = is_some (get_field fs "id") in
    let has_method = is_some (get_field fs "method") in
    let has_payload = is_some (get_field fs "result") || is_some (get_field fs "error") in
    if has_payload && not has_method
    then checked (validate_response fs)
    else if has_method && has_id && not has_payload
    then checked (validate_request fs)
    else if has_method && not has_id && not has_payload
    then checked (validate_notification fs)
    else checked (validate_request fs)

-- `parse`, of what `json.loads` made of the text
unfoldable pub parse : Option Json → Parsed
parse none = bad_json
parse (some (obj fs)) = parse_object fs
parse (some _) = bad_message

-- `parse_frame`: `blank` tells that the line holds white space only
unfoldable pub parse_frame : Bool → Option Json → Parsed
parse_frame blank loaded = if blank then bad_message else parse loaded

abbrev id_fields : RequestId → Fields → Fields
id_fields null_id rest = rest
id_fields (int_id n) rest = field "id" (int n) rest
id_fields (str_id s) rest = field "id" (str s) rest

abbrev params_fields : Params → Fields
params_fields null_params = end
params_fields (list_params xs) = field "params" (arr xs) end
params_fields (dict_params fs) = field "params" (obj fs) end

abbrev error_fields : Option Fields → Fields
error_fields none = end
error_fields (some fs) = field "error" (obj fs) end

abbrev result_fields : Json → Fields → Fields
result_fields null rest = rest
result_fields j rest = field "result" j rest

-- `serialize`: `model_dump_json(exclude_none=True)`
unfoldable pub serialize : Message → Fields
serialize (request r) =
    field "jsonrpc" (str "2.0")
      (id_fields r.id (field "method" (str r.method) (params_fields r.params)))
serialize (response r) =
    field "jsonrpc" (str "2.0") (id_fields r.id (result_fields r.result (error_fields r.error)))
serialize (notification n) =
    field "jsonrpc" (str "2.0") (field "method" (str n.method) (params_fields n.params))

-- `Server._serialize_response` of server.py: the id is put back where it is `None`
abbrev with_id : Fields → RequestId → Fields
with_id fs null_id = field "id" null fs
with_id fs _ = fs

unfoldable pub serialize_response : Response → Fields
serialize_response r = with_id (serialize (response r)) r.id
