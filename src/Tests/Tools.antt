-- ===== src/Tests/Tools.antt =====
-- The theorems on core's loops, its helpers' clients and its installation, applied.
use macbastion.Prelude.{
  arith, ◌==◌, String, true, false, ◌&&◌, ◌≡◌, refl, none, some, List, [], ◌∷◌, if◌then◌else◌,
}
use macbastion.Prelude.Int.{pos}
use macbastion.Prelude.Text.{mem_str}
use macbastion.Prelude.Dict
use macbastion.Prelude.Json.{get_field, str, obj, end, field}
use macbastion.Exec.{ok}
use macbastion.Broker.{Event, EventBroker, new_subscription, new_broker, find_sub, matches, publish}
use macbastion.Server.{Server, publish_event}
use macbastion.Server.Sockets.{turn, set_broker}
use macbastion.Server.Delivery.{turn-publish}
use macbastion.Server.Reflex.{gate_event}
use macbastion.Helpers.{
  HelperClient, Asked, Operation, Outcome, no_connection, replied, shim_words, operate_all, ping,
  evict, reboot,
}
use macbastion.Helpers.Secrets.{Vouches, Retains, operate_all-Vouches}
use macbastion.Cli.{Process, Host, install, uninstall}
use macbastion.Cli.Agents.{is_agent, uninstall-install}
use macbastion.Lifecycle.{healthy, failed, state_changed}
use macbastion.Lifecycle.Budget.{is_spent}
use macbastion.Registry.{mark_lost}
use macbastion.Supervisor.{ModuleSpec}
use macbastion.Supervisor.Processes.{Supervisor, on_state_changed}
use macbastion.Cli.Monitor.{Organism, new_supervisor, watched_core}
use macbastion.Cli.Monitor.Respawns.{IsRestart, mark_lost-on_state_changed}
use macbastion.Tests.Data.{env, server, event, registry, record_in}

-- core with the subscription of the gate's loop
abbrev listening : Server
listening =
    set_broker
      (record (new_broker 8) {
        subscriptions = (0, new_subscription ("pulse.mode.changed" ∷ []) 8) ∷ [];
        next_sub = 1;
      })
      server

abbrev mode_event : Event
mode_event = event "pulse.mode.changed" (field "new_mode" (str "exhausted") end)

turn-publish_example :
    (b : EventBroker) × (turn 0 (gate_event env (λ u. u)) (publish_event mode_event listening)
      ≡ (ok tt, gate_event env (λ u. u) mode_event (set_broker b listening)))
    × (find_sub 0 b.subscriptions ≡ some (new_subscription ("pulse.mode.changed" ∷ []) 8))
unfolding matches
turn-publish_example =
    turn-publish ("pulse.mode.changed" ∷ []) 8 (omega arith) 0 mode_event (gate_event env (λ u. u))
      listening refl refl

-- a client that made its handshake and one call with the secret
abbrev known : HelperClient
known = record {
  last_id = 2;
  secret = some "s3";
  asked =
      record { id = 1; method = "shim.handshake"; params = none }
      ∷ record { id = 2; method = "shim.evict"; params = some (field "secret" (str "s3") end) }
      ∷ [];
}

-- the next request finds no helper, every other is answered with a secret
abbrev helper : Asked → Outcome
helper a =
    if a.id == 3
    then no_connection "no such file"
    else replied (obj (field "result" (obj (field "secret" (str "s3") end)) end))

abbrev operations : List Operation
operations = evict ∷ ping ∷ evict ∷ reboot ∷ []

operate_all-Vouches_example :
    let c = operate_all shim_words (λ j. ok (pos 0)) (λ j. "") helper operations known in
    Vouches c × Retains shim_words (λ j. ok (pos 0)) (λ j. "") helper (some "s3") 1 c
unfolding get_field
operate_all-Vouches_example =
    operate_all-Vouches shim_words (λ j. ok (pos 0)) (λ j. "") helper operations known
      ((refl, refl), (refl, ((refl, refl), ((refl, refl), tt)))) (tt, (refl, tt))

abbrev process : Process
process = record {
  env = λ name. none;
  is_frozen = false;
  executable = "/opt/chimera/.venv/bin/python";
  frozen_root = "/opt";
  source_root = "/opt/chimera";
  home = "/Users/op";
  has_file = λ path. true;
  bootout_fails = λ path. false;
}

abbrev machine : Host
machine = record {
  files = ("/Users/op/notes.txt", "notes") ∷ [];
  loaded = "/Library/LaunchAgents/other.plist" ∷ [];
  printed = [];
}

abbrev notes : String
notes = "/Users/op/notes.txt"

uninstall-install_example :
    let installed = (install process (λ path. none) "/tmp/chimera" machine).1 in
    let h' = (uninstall process installed).1 in
    (Dict.get h'.files notes
      ≡ (if is_agent process notes then none else Dict.get machine.files notes))
    × (mem_str notes h'.loaded ≡ (
        if is_agent process notes
        then false && mem_str notes installed.loaded
        else mem_str notes machine.loaded))
uninstall-install_example = uninstall-install process (λ path. none) "/tmp/chimera" machine notes

abbrev vault_spec : ModuleSpec
vault_spec = record {
  name = "vault";
  depends_on = [];
  python = false;
  external = false;
  app_bundle = false;
}

-- there is no executable of the second module that is launched
abbrev supervisor : Supervisor
supervisor = new_supervisor (λ spec call. if call == 1 then some "no such file" else none)

-- the process of the vault is killed for a purge while its connection is open
mark_lost-on_state_changed_example :
    let e = state_changed "vault" healthy failed in
    let l = (mark_lost "vault" registry).1.lifecycle in
    (l.broker ≡ publish e registry.lifecycle.broker)
    × IsRestart
        (is_spent 5 9 [])
        "vault"
        vault_spec
        supervisor
        (on_state_changed 9 e.payload l supervisor)
unfolding Dict.get
mark_lost-on_state_changed_example =
    mark_lost-on_state_changed 9 "vault" registry supervisor vault_spec (record_in "vault" healthy)
      refl refl refl refl

abbrev happened : List Event
happened =
    state_changed "vault" healthy failed
    ∷ event "purge.imminent" end
    ∷ event "module.state_changed" end
    ∷ []

abbrev organism : Organism
organism = watched_core supervisor.launch_error server
