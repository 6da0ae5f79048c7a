-- ===== src/Server/Params.antt =====
-- The parameters of a request, and the error responses, in chimera/core/server.py.
use macbastion.Prelude.{String, Option, none, some, str_eq, is_some, if◌then◌else◌}
use macbastion.Prelude.Text.{concat}
use macbastion.Prelude.Json.{Json, null, str, arr, Items, nil, Fields, get_field, drop_field}
use macbastion.Prelude.Int.{ℤ}
use macbastion.Errors.{
  Exn, rpc, invalid_transition, value_error, rpc_message, to_dict, show_ℤ, chimera_code,
  precondition_failed, invalid_params, internal_error,
}
use macbastion.Exec.{Result, ok, err}
use macbastion.Envelope.{RequestId, Response, Params, dict_params}

-- `params.get(key)` of a dict; a list, or no params, has no keys
abbrev pub param : Params → String → Option Json
param (dict_params fs) key = get_field fs key
param _ key = none

abbrev need_str : String → Option Json → Result String
need_str key none = err (rpc_message invalid_params (concat "missing param: " key))
need_str key (some (str s)) = ok s
need_str key (some _) = err (rpc_message invalid_params (concat "param not a string: " key))

-- `_require_str`
unfoldable pub require_str : Params → String → Result String
require_str params key = need_str key (param params key)

abbrev need_list : String → Option Json → Result Items
need_list key none = ok nil
need_list key (some (arr xs)) = ok xs
need_list key (some _) = err (rpc_message invalid_params (concat "param not a list: " key))

-- `_opt_list`
unfoldable pub opt_list : Params → String → Result Items
opt_list params key = need_list key (param params key)

-- `_strip_override`
unfoldable pub strip_override : Params → Params
strip_override (dict_params fs) =
    if is_some (get_field fs "_override")
    then dict_params (drop_field fs "_override")
    else dict_params fs
strip_override params = params

abbrev pub error_of : String → ℤ → Fields
error_of message code = to_dict (record { code = code; message = message; detail = none })

-- `str(exc)`
unfoldable pub exn_text : (Exn → String) → Exn → String
exn_text other (rpc e) = concat "[" (concat (show_ℤ e.code) (concat "] " e.message))
exn_text other (value_error text) = text
exn_text other x = other x

-- the mapping in `_to_error_response`
unfoldable pub error_fields : Exn → Fields
error_fields (rpc e) = to_dict e
error_fields invalid_transition = error_of "precondition failed" (chimera_code precondition_failed)
error_fields (value_error text) =
    error_of (if str_eq text "" then "invalid params" else text) invalid_params
error_fields _ = error_of "internal error" internal_error

-- `_to_error_response`
unfoldable pub to_error_response : Exn → RequestId → Response
to_error_response exn id = record { id = id; result = null; error = some (error_fields exn) }
