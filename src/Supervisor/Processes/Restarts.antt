-- ===== src/Supervisor/Processes/Restarts.antt =====
-- What the supervisor does with a module that has failed.
use macbastion.Prelude.{
  ℕ, String, Bool, true, false, Option, none, ◌+◌, ◌||◌, ◌≡◌, ◌≢◌, refl, some, ◌∷◌, arith,
  if◌then◌else◌, inl, inr,
}
use macbastion.Prelude.Dict
use macbastion.Errors.{os_error}
use macbastion.Exec.{Result, ok, err, Result-cases}
use macbastion.Lifecycle.{
  ModuleState, unregistered, starting, registered, healthy, degraded, stopping, stopped, failed,
  permanently_failed, same_state, ModuleRecord, Lifecycle, state_of,
}
use macbastion.Lifecycle.Budget.{is_spent, recent_restarts-hour, restart_failed}
use macbastion.Supervisor.{ModuleSpec}
use macbastion.Supervisor.Processes.{Supervisor, spawn, find_spec, handle_failure}

-- what an attempt to launch leads to: the answer `True` and one process more, or the `OSError`
abbrev pub attempted : ModuleSpec → Option String → Supervisor → Result Bool × Supervisor
attempted spec none s = (
  ok true,
  record s {
    procs = Dict.put s.procs spec.name s.next_proc;
    next_proc = s.next_proc + 1;
    spawned = spec.name ∷ s.spawned;
  },
)
attempted spec (some reason) s = (err (os_error reason), record s { next_proc = s.next_proc + 1 })

-- A supervised module that is FAILED is restarted within the budget of the lifecycle. A launch is
-- attempted exactly if the budget allows it and the module has no agent of its own; where it fails, its
-- `OSError` is raised. The lifecycle goes to STARTING before that, for an external module too, and to
-- PERMANENTLY_FAILED, with no launch, when the budget is spent.
pub handle_failure_lem :
    (now : ℕ) (name : String) (l : Lifecycle) (s : Supervisor) (spec : ModuleSpec)
    (rec : ModuleRecord)
    → find_spec name s.specs ≡ some spec
    → Dict.get l.records name ≡ some rec
    → rec.state ≡ failed
    → let over = is_spent l.config.restart_max_per_hour now rec.restart_times in
      let (r, s', l') = handle_failure now name l s in
      ((r, s') ≡ (
        if over || spec.external
        then (ok false, s)
        else attempted spec (s.launch_error spec s.next_proc) s))
      × ((state_of name l').0 ≡ ok (if over then permanently_failed else starting))
unfolding handle_failure state_of spawn
handle_failure_lem now name l s spec rec known found dead =
    ground (arith, restart_failed now name l found dead, recent_restarts-hour now rec.restart_times)

pub same_failed : (state : ModuleState) → same_state state failed ≡ true → state ≡ failed
same_failed failed h = refl
same_failed unregistered h = ground arith
same_failed starting h = ground arith
same_failed registered h = ground arith
same_failed healthy h = ground arith
same_failed degraded h = ground arith
same_failed stopping h = ground arith
same_failed stopped h = ground arith
same_failed permanently_failed h = ground arith

-- A module that has no lifecycle record, or is in any state but FAILED, is left alone: nothing is
-- spawned and the lifecycle is as before.
pub handle_failure_ignores :
    (now : ℕ) (name : String) (l : Lifecycle) (s : Supervisor)
    → (state_of name l).0 ≢ ok failed
    → handle_failure now name l s ≡ (ok false, s, l)
unfolding handle_failure
handle_failure_ignores now name l s h = elim (Result-cases (state_of name l).0) [
  | inl (state, e) ↦ ground (arith, same_failed state)
  | inr (x, e) ↦ ground arith
]
