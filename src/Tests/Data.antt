-- ===== src/Tests/Data.antt =====
-- The test data: a core with a healthy vault, a failed pulse and a stopped chaff.
use macbastion.Prelude.{ℕ, String, true, false, none, some, List, [], ◌∷◌, ◌*◌}
use macbastion.Prelude.Dict.{Dict}
use macbastion.Prelude.Int.{pos}
use macbastion.Prelude.Json.{str, obj, Fields, end, field, nil}
use macbastion.Exec.{ok}
use macbastion.Config.{default_config}
use macbastion.Broker.{Event, EventBroker}
use macbastion.Lifecycle.{ModuleState, healthy, failed, stopped, ModuleRecord, Lifecycle}
use macbastion.Registry.{ModuleEntry, Registration, Registry}
use macbastion.Override.{PhraseFile}
use macbastion.Tokens.{Crypto, token_payload}
use macbastion.Audit.{AuditLog}
use macbastion.Tier0.{StateFile, evicted}
use macbastion.Envelope.{Request, Response, int_id, dict_params, null_params, Notification}
use macbastion.Server.{Env, Connection, Server}
use macbastion.Server.Handlers.{Session, core_methods}

abbrev pub record_in : String → ModuleState → ModuleRecord
record_in name state = record {
  name = name;
  state = state;
  last_seen = some 5;
  restart_count = 0;
  restart_times = [];
}

abbrev pub records : Dict ModuleRecord
records =
    ("vault", record_in "vault" healthy)
    ∷ ("pulse", record_in "pulse" failed)
    ∷ ("chaff", record_in "chaff" stopped)
    ∷ []

abbrev pub broker : EventBroker
broker = record { default_buffer_size = 8; subscriptions = []; next_sub = 0 }

abbrev pub lifecycle : Lifecycle
lifecycle = record { config = default_config; broker = broker; records = records }

abbrev pub vault_entry : ModuleEntry
vault_entry = record { version = "1"; methods = "vault.lock" ∷ []; events = []; depends_on = [] }

abbrev pub registry : Registry
registry = record { lifecycle = lifecycle; entries = ("vault", vault_entry) ∷ [] }

abbrev pub registration : Registration
registration = record { version = "1"; methods = nil; events = nil; depends_on = nil }

abbrev pub explain : Registration → String
explain a = "invalid entry"

abbrev pub hash : String → String → ℕ → String
hash phrase salt n = phrase

abbrev pub phrase_file : PhraseFile
phrase_file = some (some (record { salt = "s"; hash = "sesame"; iterations = 200000 }))

-- an encoding that knows one payload
abbrev pub payload : Fields
payload = token_payload "surface" core_methods 0 3600

abbrev pub crypto : Crypto
crypto = record {
  encode = λ fs. "payload";
  decode = λ s. some (obj payload);
  sign = λ s. "signature";
}

abbrev pub env : Env
env = record {
  crypto = crypto;
  pbkdf2 = hash;
  explain = explain;
  exn_text = λ x. "exception";
  json_text = λ j. "value";
  time_text = λ t. "0.0";
  float_truth = λ s. true;
}

abbrev pub audit_log : AuditLog
audit_log = record {
  max_entries = 2;
  torn = none;
  file = some (none ∷ none ∷ []);
  write_fault = none;
  read_fault = false;
}

abbrev pub state_files : List StateFile
state_files =
    record { name = "pulse.db"; unlink_error = none }
    ∷ record { name = "oracle.db"; unlink_error = some "permission denied" }
    ∷ []

abbrev pub server : Server
server = record {
  registry = registry;
  override_store = some phrase_file;
  shim = some (record { lock_reply = ok end; eviction = evicted });
  echo_shaper = none;
  audit_log = audit_log;
  state_files = state_files;
  module_writers = ("vault", 7) ∷ [];
  pending = [];
  next_internal_id = 4;
  next_sub_id = 0;
  pulse_mode = some "exhausted";
  danger_set = "vault.lock" ∷ [];
  start_time = some 0;
  now = 4000 * 1_000_000;
  salt = "s";
  lost = λ w. false;
  sent = [];
  shim_calls = [];
}

abbrev pub module_conn : Connection
module_conn = record { token = "t"; subject = "vault"; is_module = true; subscription = none }

abbrev pub surface_conn : Connection
surface_conn = record {
  token = "payload.signature";
  subject = "surface";
  is_module = false;
  subscription = none;
}

abbrev pub module_session : Session
module_session = record { server = server; conn = module_conn }

abbrev pub surface_session : Session
surface_session = record { server = server; conn = surface_conn }

abbrev pub lock_request : Request
lock_request = record {
  id = int_id (pos 1);
  method = "vault.lock";
  params = dict_params (field "_override" (str "sesame") end);
}

abbrev pub status_request : Request
status_request = record { id = int_id (pos 2); method = "core.status"; params = null_params }

abbrev pub lock_reply : Response
lock_reply = record { id = int_id (pos 5); result = str "locked"; error = none }

abbrev pub event : String → Fields → Event
event topic payload = record { topic = topic; payload = payload }

abbrev pub opened_note : Notification
opened_note = record { method = "vault.opened"; params = null_params }
