-- ===== src/Server/Sockets.antt =====
-- The life of the sockets in chimera/core/server.py: what `start` and `stop` do to the state, and one
-- turn of each loop that waits for events. Binding and unlinking of the sockets are not modelled.
use macbastion.Prelude.{ℕ, String, Bool, true, false, Option, none, some, List, [], ◌∷◌}
use macbastion.Exec.{Result, ok, err, Exec, within, continue}
use macbastion.Envelope.{Notification, dict_params}
use macbastion.Broker.{Event, EventBroker, subscribe, close_sub, get_from}
use macbastion.Server.{Env, Server}
use macbastion.Server.Reflex.{relay_topics, relay_handle, gate_event, on_tether_escalation}

abbrev pub broker_of : Server → EventBroker
broker_of s = s.registry.lifecycle.broker

abbrev pub set_broker : EventBroker → Server → Server
set_broker b s = record s {
  registry = record s.registry { lifecycle = record s.registry.lifecycle { broker = b } };
}

abbrev pub on_broker : {A : Type 0} → Exec EventBroker A → Exec Server A
on_broker = within broker_of (λ s b. set_broker b s)

-- the server with the subscriptions of its own loops, and whether the sweep runs
pub record Running : Type 0 where
  pub server : Server
  pub relay_sub : Option ℕ
  pub gate_sub : Option ℕ
  pub escalation_sub : Option ℕ
  pub is_sweeping : Bool

abbrev number_of : Result ℕ → Option ℕ
number_of (ok i) = some i
number_of (err x) = none

-- a subscription of core's own
abbrev pub open_own : List String → Server → Option ℕ × Server
open_own topics s = let (r, s') = on_broker (subscribe topics none) s in (number_of r, s')

-- `start`; `RELAY_RULES` is not empty
unfoldable pub start : Server → Running
start s =
    let (relay, s1) = open_own relay_topics (record s { start_time = some s.now }) in
    let (gate, s2) = open_own ("pulse.mode.changed" ∷ []) s1 in
    let (escalation, s3) = open_own ("tether.escalation" ∷ []) s2 in
    record {
      server = s3;
      relay_sub = relay;
      gate_sub = gate;
      escalation_sub = escalation;
      is_sweeping = true;
    }

abbrev pub close_own : Option ℕ → Server → Server
close_own none s = s
close_own (some i) s = set_broker (close_sub i (broker_of s)) s

-- `stop`
unfoldable pub stop : Running → Running
stop r = record {
  server = close_own r.escalation_sub (close_own r.gate_sub (close_own r.relay_sub r.server));
  relay_sub = none;
  gate_sub = none;
  escalation_sub = none;
  is_sweeping = false;
}

-- `event = await sub.get()`, when there is one, and what is done with it
unfoldable pub turn : ℕ → (Event → Server → Server) → Exec Server (Unit {0})
turn i f s = let (r, s') = on_broker (get_from i) s in continue r s' (λ event s. (ok tt, f event s))

module _ (env : Env) where
  -- `_relay_loop`, `_gate_loop`, `_escalation_loop`
  unfoldable pub relay_turn : (Server → Server) → ℕ → Exec Server (Unit {0})
  relay_turn pause i = turn i (relay_handle env pause)

  unfoldable pub gate_turn : (Server → Server) → ℕ → Exec Server (Unit {0})
  gate_turn pause i = turn i (gate_event env pause)

  unfoldable pub escalation_turn : (Server → Server) → ℕ → Exec Server (Unit {0})
  escalation_turn pause i = turn i (on_tether_escalation env pause)

abbrev pub note_of : Event → Notification
note_of event = record { method = event.topic; params = dict_params event.payload }

abbrev pub pushed : Result Event → Server → Result Notification × Server
pushed (ok event) s = (ok (note_of event), s)
pushed (err x) s = (err x, s)

-- `_push_loop`: the frame that is written
unfoldable pub push_turn : ℕ → Exec Server Notification
push_turn i s = let (r, s') = on_broker (get_from i) s in pushed r s'
