-- ===== src/Supervisor/Processes.antt =====
-- The processes that the supervisor launches, ends and launches again. A process is the number of the
-- call of `spawn` that gave it; what a process, or the registry, answers at each poll is a parameter. The
-- waiting loops take a step each 0.05 s.
pub mod Restarts
pub mod Boot
use macbastion.Prelude.{
  ℕ, zero, suc, ◌+◌, String, Bool, true, false, not, Option, none, some, List, [], ◌∷◌, ◌++◌, map,
  str_eq, all, keep_if, if◌then◌else◌,
}
use macbastion.Prelude.Json.{Json, str, Fields, get_field}
use macbastion.Prelude.Dict
use macbastion.Prelude.Dict.{Dict}
use macbastion.Errors.{os_error}
use macbastion.Exec.{Result, ok, err, Exec, pure, continue}
use macbastion.Lifecycle.{
  ModuleState, starting, failed, state_text, same_state, Lifecycle, state_of, restart,
}
use macbastion.Supervisor.{ModuleSpec, topological_waves}

pub record Supervisor : Type 0 where
  pub specs : List ModuleSpec
  pub procs : Dict ℕ
  pub failed_names : List String
  pub next_proc : ℕ
  -- the names of the processes that were launched, the last one first
  pub spawned : List String
  -- with which `OSError` the n-th call of `self._spawn` fails, if it does: `Popen` finds no executable,
  -- or may not run it
  pub launch_error : ModuleSpec → ℕ → Option String

abbrev pub launched_as : ModuleSpec → Option String → Exec Supervisor (Unit {0})
launched_as spec none s = (
  ok tt,
  record s {
    procs = Dict.put s.procs spec.name s.next_proc;
    next_proc = s.next_proc + 1;
    spawned = spec.name ∷ s.spawned;
  },
)
launched_as spec (some reason) s = (err (os_error reason), record s { next_proc = s.next_proc + 1 })

-- `self._procs[spec.name] = self._spawn(spec)`
unfoldable pub spawn : ModuleSpec → Exec Supervisor (Unit {0})
spawn spec s = launched_as spec (s.launch_error spec s.next_proc) s

-- `_await_registered`: `answers i` is what `is_registered` says at the i-th poll
unfoldable pub await_registered : ℕ → (ℕ → Bool) → ℕ → Bool
await_registered zero answers i = answers i
await_registered (suc steps) answers i =
    let later = await_registered steps answers (suc i) in if answers i then true else later

-- the first loop over a wave
unfoldable pub launch_wave : List ModuleSpec → Exec Supervisor (Unit {0})
launch_wave [] s = (ok tt, s)
launch_wave (spec ∷ wave) s =
    if spec.external
    then launch_wave wave s
    else let (r, t) = spawn spec s in continue r t (λ u. launch_wave wave)

-- the second one
unfoldable pub await_wave : ℕ → (String → ℕ → Bool) → List ModuleSpec → Supervisor → Supervisor
await_wave steps answers [] s = s
await_wave steps answers (spec ∷ wave) s = await_wave steps answers wave (
    if spec.external
    then s
    else if await_registered steps (answers spec.name) 0
    then s
    else record s { failed_names = spec.name ∷ s.failed_names })

unfoldable pub up_waves :
    ℕ → (String → ℕ → Bool) → List (List ModuleSpec) → Exec Supervisor (Unit {0})
up_waves steps answers [] s = (ok tt, s)
up_waves steps answers (wave ∷ waves) s =
    let (r, t) = launch_wave wave s in
    continue r t (λ u t. up_waves steps answers waves (await_wave steps answers wave t))

-- `up`
unfoldable pub up : ℕ → (String → ℕ → Bool) → Exec Supervisor (Unit {0})
up steps answers s = elim (topological_waves s.specs) [
  | err e ↦ (err e, s)
  | ok waves ↦ up_waves steps answers waves s
]

pub data Signal : Type 0 where
  terminate kill : String → Signal

-- the polls of `down`: whether all the processes ended within the steps that are left
unfoldable pub all_exited : ℕ → (String → ℕ → Bool) → List String → ℕ → Bool
all_exited zero running names i = false
all_exited (suc steps) running names i =
    let later = all_exited steps running names (suc i) in
    if all (λ n. not (running n i)) names then true else later

-- `down`: the signals, in order. `running n i` tells whether `n` runs at the i-th poll; the last
-- poll, before the kills, is number `steps`.
unfoldable pub down : ℕ → (String → ℕ → Bool) → List String → List Signal
down steps running names =
    map terminate names
    ++ (if all_exited steps running names 0
        then []
        else map kill (keep_if (λ n. running n steps) names))

-- `purge_kill`: the names force-killed, and the signals
unfoldable pub purge_kill : (String → Bool) → Supervisor → List String × List Signal
purge_kill running s = let killed = keep_if running (Dict.keys s.procs) in (killed, map kill killed)

-- `next((s for s in self._specs if s.name == name), None)`
abbrev pub find_spec : String → List ModuleSpec → Option ModuleSpec
find_spec name [] = none
find_spec name (s ∷ specs) = if str_eq s.name name then some s else find_spec name specs

-- what follows `lifecycle.restart(name)`
abbrev pub respawn : ModuleSpec → Result ModuleState → Supervisor → Result Bool × Supervisor
respawn spec (err e) s = (err e, s)
respawn spec (ok state) s =
    if same_state state starting
    then (if spec.external
        then (ok false, s)
        else let (r, t) = spawn spec s in continue r t (λ u. pure true))
    else (ok false, s)

-- the part of `handle_failure` that has found the module FAILED
abbrev pub restart_failed_module :
    ℕ → String → ModuleSpec → Lifecycle → Supervisor → Result Bool × Supervisor × Lifecycle
restart_failed_module now name spec l s =
    let (r, l1) = restart now name l in
    elim r [
      | err e ↦ (err e, s, l1)
      | ok _ ↦
          let (state, l2) = state_of name l1 in
          let (res, s') = respawn spec state s in (res, s', l2)
    ]

-- `handle_failure` at the clock reading `now`: whether the process was spawned again
unfoldable pub handle_failure :
    ℕ → String → Lifecycle → Supervisor → Result Bool × Supervisor × Lifecycle
handle_failure now name l s = elim (find_spec name s.specs) [
  | none ↦ (ok false, s, l)
  | some spec ↦ elim (state_of name l).0 [
    | err _ ↦ (ok false, s, l)
    | ok state ↦
        if same_state state failed
        then restart_failed_module now name spec l s
        else (ok false, s, l)
  ]
]

-- `on_state_changed`
unfoldable pub on_state_changed :
    ℕ → Fields → Lifecycle → Supervisor → Result Bool × Supervisor × Lifecycle
on_state_changed now payload l s =
    if is_text (state_text failed) (get_field payload "to")
    then elim (get_field payload "module") [
      | some (str name) ↦ handle_failure now name l s
      | _ ↦ (ok false, s, l)
    ]
    else (ok false, s, l)
  where
    is_text : String → Option Json → Bool
    is_text t (some (str x)) = str_eq x t
    is_text t _ = false
