-- ===== src/Server.antt =====
-- chimera/core/server.py: the hub. Its state is `Server`; the children model the router, the reflexes,
-- the handlers and the dispatch. An `await` hands the state to the other tasks: what they make of it
-- meanwhile is a function that the operation takes, called `pause`. Clocks, sockets, the shim and the
-- echo-shaper answer what the fields say that they answer at present.
pub mod Params
pub mod Router
pub mod Replies
pub mod Writes
pub mod Authority
pub mod Actuation
pub mod Reflex
pub mod Handlers
pub mod Command
pub mod Sockets
pub mod Delivery
use macbastion.Prelude.{
  ℕ, ◌/◌, String, Bool, true, false, Option, none, some, List, [], ◌∷◌, ◌++◌, if◌then◌else◌,
}
use macbastion.Prelude.Int.{ℤ}
use macbastion.Prelude.Json.{Json, Fields}
use macbastion.Prelude.Dict
use macbastion.Prelude.Dict.{Dict}
use macbastion.Errors.{Exn, rpc}
use macbastion.Exec.{Result, Exec, within}
use macbastion.Broker.{Event, EventBroker, publish}
use macbastion.Lifecycle.{Lifecycle, ticks}
use macbastion.Registry.{Registration, Registry}
use macbastion.Override.{PhraseFile}
use macbastion.Tokens.{Crypto}
use macbastion.Tier0.{StateFile, Eviction}
use macbastion.Audit.{AuditLog}
use macbastion.Envelope.{Request, Response}

-- What the code takes from Python and its libraries: cryptography, the texts of exceptions, of JSON
-- values and of times, and whether a float is true.
pub record Env : Type 0 where
  pub crypto : Crypto
  pub pbkdf2 : String → String → ℕ → String
  pub explain : Registration → String
  pub exn_text : Exn → String
  pub json_text : Json → String
  pub time_text : ℕ → String
  pub float_truth : String → Bool

-- `Connection`; a subscription is its number in the broker
pub record Connection : Type 0 where
  pub token : String
  pub subject : String
  pub is_module : Bool
  pub subscription : Option ℕ

-- a future with the module it waits for: done once it holds a reply
pub record Pending : Type 0 where
  pub owner : String
  pub reply : Option Response

-- what the privileged shim, and the echo-shaper, answer
pub record Shim : Type 0 where
  pub lock_reply : Result Fields
  pub eviction : Eviction

pub record EchoShaper : Type 0 where
  pub shape_reply : ℤ → Result Fields
  pub unshape_reply : Result Fields

pub data ShimCall : Type 0 where
  lock_call evict_call : ShimCall

-- a frame written to a connection
pub record Sent : Type 0 where
  pub writer : ℕ
  pub frame : Request

pub record Server : Type 0 where
  pub registry : Registry
  pub override_store : Option PhraseFile
  pub shim : Option Shim
  pub echo_shaper : Option EchoShaper
  pub audit_log : AuditLog
  pub state_files : List StateFile
  pub module_writers : Dict ℕ
  pub pending : List (ℕ × Pending)
  pub next_internal_id : ℕ
  pub next_sub_id : ℕ
  pub pulse_mode : Option String
  pub danger_set : List String
  pub start_time : Option ℕ
  -- the clock, the salt that `os.urandom` gives next, and the connections that were lost
  pub now : ℕ
  pub salt : String
  pub lost : ℕ → Bool
  -- what was written to the modules and asked of the shim, the last one last
  pub sent : List Sent
  pub shim_calls : List ShimCall

-- a method of the registry, or of the lifecycle that it drives
abbrev pub on_registry : {A : Type 0} → Exec Registry A → Exec Server A
on_registry = within (λ (s : Server). s.registry) (λ s r. record s { registry = r })

-- `self._broker.publish`
abbrev pub publish_event : Event → Server → Server
publish_event event s = record s {
  registry = record s.registry {
    lifecycle = record s.registry.lifecycle { broker = publish event s.registry.lifecycle.broker };
  };
}

-- the clock in whole seconds
abbrev pub seconds : Server → ℕ
seconds s = s.now / ticks
