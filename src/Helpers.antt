-- ===== src/Helpers.antt =====
-- chimera/core/shim_client.py and echo_shaper_client.py: core's clients to its two privileged helpers.
-- They differ in their words only, which are the parameter `words`. A call opens a connection of its
-- own; what comes of it is a function of the request, which holds the number of the call.
pub mod Secrets
use macbastion.Prelude.{
  ℕ, ◌+◌, String, Bool, true, false, ◌||◌, Option, none, some, List, [], ◌∷◌, ◌++◌, str_eq,
}
use macbastion.Prelude.Int.{ℤ, pos, negsuc}
use macbastion.Prelude.Text.{concat}
use macbastion.Prelude.Json.{Json, null, int, str, obj, Fields, end, field, get_field}
use macbastion.Errors.{Exn, shim_error, os_error, value_error, type_error, show_ℤ}
use macbastion.Exec.{Result, ok, err, Exec, pure, raise, ◌>>=◌, ◌>>◌}

-- the words of a client: its name in messages, and its methods
pub record Words : Type 0 where
  pub error_prefix : String
  pub unreachable : String
  pub closed : String
  pub no_secret : String
  pub handshake_method : String

abbrev pub shim_words : Words
shim_words = record {
  error_prefix = "shim error ";
  unreachable = "cannot reach shim at /var/run/chimera-shim.sock: ";
  closed = "shim closed the connection without responding";
  no_secret = "shim.handshake returned no secret";
  handshake_method = "shim.handshake";
}

abbrev pub shaper_words : Words
shaper_words = record {
  error_prefix = "echo-shaper error ";
  unreachable = "cannot reach echo-shaper at /var/run/chimera-echo-shaper.sock: ";
  closed = "echo-shaper closed the connection without responding";
  no_secret = "shaper.handshake returned no secret";
  handshake_method = "shaper.handshake";
}

-- a request to the helper
pub record Asked : Type 0 where
  pub id : ℕ
  pub method : String
  pub params : Option Fields

-- what comes of it: no connection, an `OSError` (a timeout is one) after that, the end of the stream, a
-- line that is no JSON, or a JSON value
pub data Outcome : Type 0 where
  no_connection broken : String → Outcome
  hung_up garbled : Outcome
  replied : Json → Outcome

-- `ShimClient`, `EchoShaperClient`; `asked` holds what was sent, the last one last
pub record HelperClient : Type 0 where
  pub last_id : ℕ
  pub secret : Option String
  pub asked : List Asked

-- a call of one of the operations
pub data Operation : Type 0 where
  plain_call : String → Operation
  secret_call : String → Fields → Operation

abbrev pub ping : Operation
ping = plain_call "shim.ping"

abbrev pub lock : Operation
lock = plain_call "shim.lock"

abbrev pub evict : Operation
evict = secret_call "shim.evict" end

abbrev pub reboot : Operation
reboot = secret_call "shim.reboot" end

abbrev pub killall : Operation
killall = secret_call "shim.killall" end

abbrev pub ping_shaper : Operation
ping_shaper = plain_call "shaper.ping"

abbrev pub unshape : Operation
unshape = secret_call "shaper.anchor.remove" end

-- the rate comes first among the parameters
abbrev pub shape : ℤ → Operation
shape rate_kbps = secret_call "shaper.anchor.load" (field "rate_kbps" (int rate_kbps) end)

-- `{..., "secret": secret}`
abbrev pub with_secret : Fields → String → Fields
with_secret end secret = field "secret" (str secret) end
with_secret (field k v fs) secret = field k v (with_secret fs secret)

abbrev pub next_request : String → Option Fields → HelperClient → Asked
next_request method params c = record { id = c.last_id + 1; method = method; params = params }

-- `int_of` is `int(x)`, `text_of` is `str(x)` of a JSON value
module _ (words : Words) (int_of : Json → Result ℤ) (text_of : Json → String)
    (outcome_of : Asked → Outcome) where
  -- the exception's text
  abbrev pub helper_error : ℤ → String → Exn
  helper_error code message =
      shim_error (concat words.error_prefix (concat (show_ℤ code) (concat ": " message)))

  abbrev code_in : Option Json → Result ℤ
  code_in none = ok (negsuc 31999)
  code_in (some j) = int_of j

  abbrev message_in : Option Json → String
  message_in none = ""
  message_in (some j) = text_of j

  abbrev raised_by : Result ℤ → String → Exn
  raised_by (err x) message = x
  raised_by (ok code) message = helper_error code message

  -- `err.get(...)` of something that is no dictionary raises `AttributeError`
  abbrev error_in : Json → Exn
  error_in (obj fs) =
      raised_by (code_in (get_field fs "code")) (message_in (get_field fs "message"))
  error_in _ = type_error

  abbrev result_in : Option Json → Fields
  result_in (some (obj fs)) = fs
  result_in _ = end

  abbrev reply_in : Option Json → Fields → Result Fields
  reply_in none msg = ok (result_in (get_field msg "result"))
  reply_in (some null) msg = ok (result_in (get_field msg "result"))
  reply_in (some e) msg = err (error_in e)

  -- `call` from the connection on
  unfoldable pub read_outcome : Outcome → Result Fields
  read_outcome (no_connection text) =
      err (helper_error (negsuc 31999) (concat words.unreachable text))
  read_outcome (broken text) = err (os_error text)
  read_outcome hung_up = err (helper_error (negsuc 31999) words.closed)
  read_outcome garbled = err (value_error "no JSON")
  read_outcome (replied (obj msg)) = reply_in (get_field msg "error") msg
  read_outcome (replied _) = err type_error

  -- `call`
  unfoldable pub call : String → Option Fields → Exec HelperClient Fields
  call method params c = (
    read_outcome (outcome_of (next_request method params c)),
    record c { last_id = c.last_id + 1; asked = c.asked ++ next_request method params c ∷ [] },
  )

  abbrev pub keep_secret : Option Json → Exec HelperClient String
  keep_secret (some (str secret)) c = (ok secret, record c { secret = some secret })
  keep_secret _ c = (err (helper_error (negsuc 31999) words.no_secret), c)

  -- `handshake`
  unfoldable pub handshake : Exec HelperClient String
  handshake = do fs ← call words.handshake_method none; keep_secret (get_field fs "secret")

  abbrev pub secret_or_handshake : Option String → Exec HelperClient String
  secret_or_handshake none = handshake
  secret_or_handshake (some secret) = pure secret

  -- `_ensure_secret`
  unfoldable pub ensure_secret : Exec HelperClient String
  ensure_secret c = secret_or_handshake c.secret c

  -- `ping`, `lock`, `evict`, `reboot`, `killall`; `shape`, `unshape`
  unfoldable pub operate : Operation → Exec HelperClient Fields
  operate (plain_call method) = call method none
  operate (secret_call method fs) = do
    secret ← ensure_secret
    call method (some (with_secret fs secret))

  -- operations one after the other, whether they succeed or raise
  unfoldable pub operate_all : List Operation → HelperClient → HelperClient
  operate_all [] c = c
  operate_all (o ∷ os) c = operate_all os (operate o c).1
