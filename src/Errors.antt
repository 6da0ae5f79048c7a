-- ===== src/Errors.antt =====
-- chimera/core/errors.py: the error codes, their messages and `RpcError`; and the Python exceptions
-- that core's operations raise, as values.
use macbastion.Prelude.{
  ℕ, zero, suc, ◌+◌, ◌/◌, String, Option, none, some, List, [], ◌∷◌, ltb, if◌then◌else◌,
}
use Prim.Native.Nat.{◌%◌}
use Prim.Native.Char.{Char}
use macbastion.Prelude.Int.{ℤ, pos, negsuc, eqb_ℤ}
use macbastion.Prelude.Text.{concat}
use macbastion.Prelude.Json.{Json, int, str, Fields, end, field}

abbrev pub parse_error : ℤ
parse_error = negsuc 32699

abbrev pub invalid_request : ℤ
invalid_request = negsuc 32599

abbrev pub method_not_found : ℤ
method_not_found = negsuc 32600

abbrev pub invalid_params : ℤ
invalid_params = negsuc 32601

abbrev pub internal_error : ℤ
internal_error = negsuc 32602

-- `ChimeraError`
pub data ChimeraError : Type 0 where
  module_offline module_timeout capability_missing denied_by_policy : ChimeraError
  precondition_failed fail_closed rate_limited not_authorized : ChimeraError

-- the value of the `IntEnum`
abbrev pub chimera_code : ChimeraError → ℤ
chimera_code module_offline = negsuc 30999
chimera_code module_timeout = negsuc 31000
chimera_code capability_missing = negsuc 31001
chimera_code denied_by_policy = negsuc 31002
chimera_code precondition_failed = negsuc 31003
chimera_code fail_closed = negsuc 31004
chimera_code rate_limited = negsuc 31005
chimera_code not_authorized = negsuc 31006

-- `ERROR_MESSAGES`
abbrev pub error_messages : List (ℤ × String)
error_messages =
    (parse_error, "parse error")
    ∷ (invalid_request, "invalid request")
    ∷ (method_not_found, "method not found")
    ∷ (invalid_params, "invalid params")
    ∷ (internal_error, "internal error")
    ∷ (chimera_code module_offline, "module offline")
    ∷ (chimera_code module_timeout, "module timeout")
    ∷ (chimera_code capability_missing, "capability missing")
    ∷ (chimera_code denied_by_policy, "denied by policy")
    ∷ (chimera_code precondition_failed, "precondition failed")
    ∷ (chimera_code fail_closed, "fail-closed")
    ∷ (chimera_code rate_limited, "rate limited")
    ∷ (chimera_code not_authorized, "not authorized")
    ∷ []

abbrev pub message_for : List (ℤ × String) → ℤ → Option String
message_for [] code = none
message_for ((c, m) ∷ table) code = if eqb_ℤ c code then some m else message_for table code

pub record RpcError : Type 0 where
  pub code : ℤ
  pub message : String
  pub detail : Option Json

-- The exceptions that core's code raises or catches. `value_error` carries `str(exc)`.
pub data Exn : Type 0 where
  rpc : RpcError → Exn
  invalid_transition : Exn
  value_error : String → Exn
  key_error : String → Exn
  not_registered : String → Exn
  zero_division : Exn
  type_error : Exn
  overflow_error : Exn
  subscription_closed : Exn
  queue_empty : Exn
  os_error : String → Exn
  shim_error : String → Exn

abbrev pub digit : ℕ → Char
digit zero = "0"
digit (suc zero) = "1"
digit (suc (suc zero)) = "2"
digit (suc (suc (suc zero))) = "3"
digit (suc (suc (suc (suc zero)))) = "4"
digit (suc (suc (suc (suc (suc zero))))) = "5"
digit (suc (suc (suc (suc (suc (suc zero)))))) = "6"
digit (suc (suc (suc (suc (suc (suc (suc zero))))))) = "7"
digit (suc (suc (suc (suc (suc (suc (suc (suc zero)))))))) = "8"
digit _ = "9"

-- Decimal digits in front of `rest`; a number is larger than the count of its digits, so fuel
-- `n + 1` is enough.
unfoldable pub show_digits : ℕ → ℕ → String → String
show_digits zero n rest = rest
show_digits (suc fuel) n rest =
    let here = String.◌∷◌ (digit (n % 10)) rest in
    let more = show_digits fuel (n / 10) here in if ltb n 10 then here else more

unfoldable pub show_ℤ : ℤ → String
unfolding show_digits
show_ℤ (pos n) = show_digits (n + 1) n ""
show_ℤ (negsuc n) = concat "-" (show_digits (n + 2) (n + 1) "")

-- `RpcError(code, message, data)`: without a message the code must be in the table, else the
-- constructor itself raises `ValueError`.
abbrev pub new_rpc_error : ℤ → Option String → Option Json → Exn
new_rpc_error code (some message) detail =
    rpc (record { code = code; message = message; detail = detail })
new_rpc_error code none detail = elim (message_for error_messages code) [
  | none ↦ value_error (concat "unknown error code: " (show_ℤ code))
  | some message ↦ rpc (record { code = code; message = message; detail = detail })
]

-- `RpcError(code=...)`, `RpcError(code=..., message=...)`
abbrev pub rpc_code : ℤ → Exn
rpc_code code = new_rpc_error code none none

abbrev pub rpc_message : ℤ → String → Exn
rpc_message code message = rpc (record { code = code; message = message; detail = none })

-- `RpcError.to_dict`
unfoldable pub to_dict : RpcError → Fields
to_dict e =
    field "code" (int e.code)
      (field "message" (str e.message) (elim e.detail [ none ↦ end | some d ↦ field "data" d end ]))
