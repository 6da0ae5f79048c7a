-- ===== src/Cli/Monitor/Respawns.antt =====
-- What the monitor does when modules fail.
use mathlib.Core.Path.{subst}
use text.Mathlib.TextPositions.{eq_refl}
use macbastion.Prelude.{
  ℕ, String, Bool, true, ◌||◌, ◌≡◌, ◌⊎◌, false, refl, some, arith, if◌then◌else◌,
}
use macbastion.Prelude.Dict
use macbastion.Prelude.Dict.{get-put}
use macbastion.Prelude.Json.{Json, get_field}
use macbastion.Exec.{Result, ok}
use macbastion.Config.{CoreConfig}
use macbastion.Broker.{publish}
use macbastion.Lifecycle.{
  ModuleState, unregistered, starting, registered, healthy, degraded, stopping, stopped, failed,
  permanently_failed, can_transition, ModuleRecord, Lifecycle, state_of, state_changed, transition,
  move,
}
use macbastion.Lifecycle.Budget.{is_spent}
use macbastion.Registry.{Registry, is_registered, is_up, mark_lost}
use macbastion.Server.{Server}
use macbastion.Supervisor.{ModuleSpec}
use macbastion.Supervisor.Processes.{Supervisor, find_spec, handle_failure, on_state_changed}
use macbastion.Supervisor.Processes.Restarts.{attempted, handle_failure_lem}
use macbastion.Cli.Monitor.{Organism, has_returned}

-- a module that the supervisor cannot launch: its state went to STARTING, then `Popen` failed
pub record Stranded (s : Supervisor) (l : Lifecycle) : Type 0 where
  pub name : String
  pub spec : ModuleSpec
  pub call : ℕ
  pub reason : String
  pub known : find_spec name s.specs ≡ some spec
  pub own : spec.external ≡ false
  pub failure : s.launch_error spec call ≡ some reason
  pub state : (state_of name l).0 ≡ ok starting

-- the hook returned, or it raised and a module is stranded
abbrev Ends : Result Bool × Supervisor → Lifecycle → Type 0
Ends (r, s) l = (has_returned r ≡ true) ⊎ Stranded s l

-- what `handle_failure` and `on_state_changed` return, as `Ends` takes it
abbrev EndsAll : Result Bool × Supervisor × Lifecycle → Type 0
EndsAll (r, s, l) = Ends (r, s) l

up_can_fail : (state : ModuleState) → is_up state ≡ true → can_transition state failed ≡ true
up_can_fail registered h = refl
up_can_fail healthy h = refl
up_can_fail degraded h = refl
up_can_fail unregistered h = ground arith
up_can_fail starting h = ground arith
up_can_fail stopping h = ground arith
up_can_fail stopped h = ground arith
up_can_fail failed h = ground arith
up_can_fail permanently_failed h = ground arith

mark_lost-eq :
    (name : String) (r : Registry) (rec : ModuleRecord)
    → is_registered name r ≡ true
    → Dict.get r.lifecycle.records name ≡ some rec
    → is_up rec.state ≡ true
    → (Dict.get (mark_lost name r).1.lifecycle.records name ≡ some (record rec { state = failed }))
      × ((mark_lost name r).1.lifecycle.config ≡ r.lifecycle.config)
      × ((mark_lost name r).1.lifecycle.broker
          ≡ publish (state_changed name rec.state failed) r.lifecycle.broker)
unfolding mark_lost transition move state_of
mark_lost-eq name r rec present found up = ground (
  arith,
  up_can_fail rec.state up,
  eq_refl name,
  get-put r.lifecycle.records name name (record rec { state = failed }),
)

-- what the supervisor answers and leaves, when the hour's budget is spent or not
abbrev pub IsRestart :
    Bool → String → ModuleSpec → Supervisor → Result Bool × Supervisor × Lifecycle → Type 0
IsRestart over name spec s (answer, s', l) =
    ((answer, s') ≡ (
      if over || spec.external
      then (ok false, s)
      else attempted spec (s.launch_error spec s.next_proc) s))
    × ((state_of name l).0 ≡ ok (if over then permanently_failed else starting))

module _ (now : ℕ) (name : String) (r : Registry) (s : Supervisor) (spec : ModuleSpec)
    (rec : ModuleRecord) where
  -- When the connection of a registered module ends that was up, whatever ended it, the event that core
  -- publishes makes the monitor start it again. With fewer restarts in the last 3600 s than the cap its
  -- state goes to STARTING, and then a launch is attempted, unless it has an agent of its own: one process
  -- more, or the `OSError` of the launch. At the cap nothing is launched and it is PERMANENTLY_FAILED.
  pub mark_lost-on_state_changed :
      is_registered name r ≡ true
      → Dict.get r.lifecycle.records name ≡ some rec
      → is_up rec.state ≡ true
      → find_spec name s.specs ≡ some spec
      → let over = is_spent r.lifecycle.config.restart_max_per_hour now rec.restart_times in
        let event = state_changed name rec.state failed in
        let l = (mark_lost name r).1.lifecycle in
        (l.broker ≡ publish event r.lifecycle.broker)
        × IsRestart over name spec s (on_state_changed now event.payload l s)
  unfolding on_state_changed get_field
  mark_lost-on_state_changed present found up known =
      let (found', config, sent) = mark_lost-eq name r rec present found up in
      (
        sent,
        subst
            (λ (c : CoreConfig).
              IsRestart (is_spent c.restart_max_per_hour now rec.restart_times) name spec s
                (handle_failure now name (mark_lost name r).1.lifecycle s))
            config
            (handle_failure_lem now name (mark_lost name r).1.lifecycle s spec
              (record rec { state = failed }) known found' refl),
      )

-- The monitor watches, or a module is stranded.
abbrev pub Watches : Organism → Type 0
Watches o = (o.is_watching ≡ true) ⊎ Stranded o.supervisor o.running.server.registry.lifecycle
