-- ===== src/Tests/Modules.antt =====
-- The theorems on the registry, the lifecycle and the supervisor, applied.
use macbastion.Prelude.{
  length, ◌≤◌, ◌==◌, if◌then◌else◌, some, none, ℕ, ◌*◌, String, Bool, true, false, ◌≡◌, refl, inl,
  some, List, [], ◌∷◌, arith,
}
use mathlib.Core.Option
use macbastion.Prelude.Dict
use macbastion.Prelude.Json.{Fields}
use macbastion.Exec.{ok}
use macbastion.Config.{default_config}
use macbastion.Lifecycle.{failed, stopped, sweep_once}
use macbastion.Lifecycle.Machine.{state_at, Follows}
use macbastion.Lifecycle.Liveness.{judged_record, sweep_once_lem}
use macbastion.Lifecycle.Budget.{last_hour}
use macbastion.Lifecycle.Hour.{granted, granted-capped}
use macbastion.Registry.{Registry, capabilities}
use macbastion.Registry.Calls.{
  RegistryCall, register_call, deregister_call, restart_call, call_all, call_all-Follows,
  call_all-terminal,
}
use macbastion.Registry.Cold.{is_cold, call_all-cold}
use macbastion.Registry.Tracked.{capabilities_total}
use macbastion.Supervisor
use macbastion.Prelude.Text
use macbastion.Supervisor.{ModuleSpec, chimera_modules, by_name, topological_waves}
use macbastion.Supervisor.Plan.{IsPlan, topological_waves-IsPlan}
use macbastion.Supervisor.Processes.{Supervisor, up}
use macbastion.Supervisor.Processes.Boot.{boots, own, silent, over_waves, Booted, up_lem}
use macbastion.Tests.Data.{registry, registration, explain, lifecycle, records, record_in}

abbrev calls : List RegistryCall
calls = register_call "echo" registration ∷ deregister_call "vault" ∷ restart_call 9 "pulse" ∷ []

call_all-Follows_example :
    Follows
      (state_at lifecycle "vault")
      (state_at (call_all explain registry calls).lifecycle "vault")
call_all-Follows_example = call_all-Follows explain registry calls "vault"

call_all-terminal_example :
    state_at (call_all explain registry calls).lifecycle "chaff" ≡ some stopped
unfolding Dict.get
call_all-terminal_example = call_all-terminal explain registry calls "chaff" stopped (inl refl) refl

abbrev empty_registry : Registry
empty_registry = record registry { lifecycle = record lifecycle { records = [] }; entries = [] }

call_all-cold_example : is_cold (call_all explain empty_registry calls).lifecycle.records ≡ true
call_all-cold_example = call_all-cold explain empty_registry calls (refl, (refl, (refl, tt))) refl

capabilities_total_example :
    (fs : Fields) × (capabilities (call_all explain registry calls) ≡ ok fs)
unfolding Dict.get
capabilities_total_example =
    capabilities_total explain registry calls (record { at = λ k e. ground arith })

sweep_once_lem_example :
    ((sweep_once (60 * 1_000_000) lifecycle).0 ≡ ok tt)
    × (Dict.get (sweep_once (60 * 1_000_000) lifecycle).1.records "vault"
        ≡ Option.map (judged_record default_config (60 * 1_000_000)) (Dict.get records "vault"))
unfolding Dict.get
sweep_once_lem_example =
    sweep_once_lem (60 * 1_000_000) lifecycle "vault" (refl, refl, (refl, refl, (refl, refl, tt)))
      (omega arith) (omega arith)

-- six failures within a minute, at a cap of five restarts
granted-capped_example :
    length (last_hour 60_000_000 (granted "pulse" [] (1 ∷ 2 ∷ 3 ∷ 4 ∷ 5 ∷ 6 ∷ []) lifecycle)) ≤ 5
unfolding Dict.get
granted-capped_example =
    granted-capped "pulse" 60_000_000 0 (1 ∷ 2 ∷ 3 ∷ 4 ∷ 5 ∷ 6 ∷ []) lifecycle
      (record_in "pulse" failed) refl refl
      (
        omega arith,
        (omega arith, (omega arith, (omega arith, (omega arith, (omega arith, omega arith))))),
      )

topological_waves-IsPlan_example :
    IsPlan (by_name chimera_modules []) (topological_waves chimera_modules)
topological_waves-IsPlan_example = topological_waves-IsPlan chimera_modules

abbrev vault_spec : ModuleSpec
vault_spec = record {
  name = "vault";
  depends_on = [];
  python = false;
  external = false;
  app_bundle = false;
}

abbrev pulse_spec : ModuleSpec
pulse_spec = record {
  name = "pulse";
  depends_on = "vault" ∷ [];
  python = true;
  external = false;
  app_bundle = false;
}

abbrev specs : List ModuleSpec
specs = vault_spec ∷ pulse_spec ∷ []

abbrev supervisor : Supervisor
supervisor = record {
  specs = specs;
  procs = [];
  failed_names = [];
  next_proc = 0;
  spawned = [];
  launch_error = λ spec call. if call == 1 then some "no such file" else none;
}

abbrev only_vault : String → ℕ → Bool
only_vault name i = false

up_lem_example :
    let waves = (vault_spec ∷ []) ∷ (pulse_spec ∷ []) ∷ [] in
    Booted supervisor
      (boots supervisor.launch_error 0 (over_waves own waves))
      (over_waves (silent 1 only_vault) waves)
      (up 1 only_vault supervisor)
unfolding topological_waves Dict.get Supervisor.unknown_dep Dict.keys by_name Dict.put
    Supervisor.waves_from Text.sorted_set
up_lem_example = up_lem 1 only_vault supervisor ((vault_spec ∷ []) ∷ (pulse_spec ∷ []) ∷ []) refl
