-- ===== src/Cli/Monitor.antt =====
-- The monitor of `run_up` in chimera/core/__main__.py, which ties the supervisor to core: it hears of
-- modules that failed and of a purge on a subscription of its own.
pub mod Respawns
use macbastion.Prelude.{
  ℕ, zero, ◌+◌, String, Bool, true, false, Option, none, some, List, [], ◌∷◌, ◌++◌, str_eq,
  if◌then◌else◌,
}
use macbastion.Prelude.Dict
use macbastion.Exec.{Result, ok, err}
use macbastion.Broker.{Event, EventBroker, subscribe, unsubscribe, get_from}
use macbastion.Lifecycle.{Lifecycle}
use macbastion.Server.{Server}
use macbastion.Server.Sockets.{Running, broker_of, set_broker, on_broker, start, stop}
use macbastion.Supervisor.{ModuleSpec, chimera_modules}
use macbastion.Supervisor.Processes.{Supervisor, Signal, up, down, purge_kill, on_state_changed}

-- core, the supervisor with the signals it sent, the monitor's subscription, and whether the monitor
-- still runs: an exception ends it
pub record Organism : Type 0 where
  pub running : Running
  pub supervisor : Supervisor
  pub signals : List Signal
  pub sub : ℕ
  pub is_watching : Bool

abbrev pub new_supervisor : (ModuleSpec → ℕ → Option String) → Supervisor
new_supervisor launch_error = record {
  launch_error = launch_error;
  specs = chimera_modules;
  procs = [];
  failed_names = [];
  next_proc = 0;
  spawned = [];
}

abbrev pub set_server : Server → Organism → Organism
set_server s o = record o { running = record o.running { server = s } }

abbrev pub set_lifecycle : Lifecycle → Server → Server
set_lifecycle l s = record s { registry = record s.registry { lifecycle = l } }

abbrev pub has_returned : Result Bool → Bool
has_returned (ok b) = true
has_returned (err x) = false

abbrev sub_of : Result ℕ → ℕ
sub_of (ok i) = i
sub_of (err x) = zero

-- `run_up` up to `sup.up()`; `launch_error` tells which call of `Popen` fails
unfoldable pub watched_core : (ModuleSpec → ℕ → Option String) → Server → Organism
watched_core launch_error s =
    let r : Running = start s in
    let (i, t) =
      on_broker (subscribe ("module.state_changed" ∷ "purge.imminent" ∷ []) none) r.server in
    record {
      running = record r { server = t };
      supervisor = new_supervisor launch_error;
      signals = [];
      sub = sub_of i;
      is_watching = true;
    }

-- `await sup.up()`
unfoldable pub bring_up : ℕ → (String → ℕ → Bool) → Organism → Result (Unit {0}) × Organism
bring_up steps answers o =
    let (r, s) = up steps answers o.supervisor in (r, record o { supervisor = s })

-- the `finally` block: `running` tells of each process whether it runs at a poll
unfoldable pub tear_down : ℕ → (String → ℕ → Bool) → Organism → Organism
tear_down steps running o =
    let s = o.running.server in
    record o {
      is_watching = false;
      signals = o.signals ++ down steps running (Dict.keys o.supervisor.procs);
      running = stop (record o.running { server = set_broker (unsubscribe o.sub (broker_of s)) s });
    }

-- what the monitor does with an event; `pause` is what the other tasks do in the grace of `purge_kill`,
-- after which `runs` tells which processes are alive
unfoldable pub monitor_event : (Server → Server) → (String → Bool) → Event → Organism → Organism
monitor_event pause runs event o =
    if str_eq event.topic "purge.imminent"
    then record (set_server (pause o.running.server) o) {
      signals = o.signals ++ (purge_kill runs o.supervisor).1;
    }
    else let s = o.running.server in
      let (r, supervisor, l) =
        on_state_changed s.now event.payload s.registry.lifecycle o.supervisor in
      record (set_server (set_lifecycle l s) o) {
        supervisor = supervisor;
        is_watching = has_returned r;
      }

-- events one after the other, until an exception ends the monitor: the other tasks act before each
unfoldable pub monitor_events :
    (Server → Server) → (String → Bool) → List Event → Organism → Organism
monitor_events pause runs [] o = o
monitor_events pause runs (e ∷ events) o =
    let rest =
      monitor_events pause runs events
        (monitor_event pause runs e (set_server (pause o.running.server) o)) in
    if o.is_watching then rest else o
