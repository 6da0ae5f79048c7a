-- ===== src/Registry/Outcomes.antt =====
-- What registering, deregistering and losing a module do, for every state that it may be in.
use text.Mathlib.TextPositions.{eq_refl}
use macbastion.Prelude.{
  String, Bool, true, false, ◌&&◌, ◌≡◌, refl, Option, none, some, List, [], ◌∷◌, arith, str_eq,
  eq_iff, if◌then◌else◌, inl, inr, Option-cases,
}
use mathlib.Core.Option
use macbastion.Prelude.Text.{mem_str, mem_str-sorted_set}
use macbastion.Prelude.Dict
use macbastion.Prelude.Dict.{Dict, get-put, get-remove, mem_str-keys}
use macbastion.Errors.{invalid_transition}
use macbastion.Exec.{ok, err, pure, Result-cases}
use macbastion.Lifecycle.{
  ModuleState, starting, registered, healthy, degraded, stopping, stopped, failed, ModuleRecord,
  Lifecycle, track, transition, state_of,
}
use macbastion.Lifecycle.Machine.{state_at}
use macbastion.Lifecycle.Steps.{transition_lem, track_lem}
use macbastion.Registry.{
  Registration, ModuleEntry, Registry, state_or_none, new_entry, drive_register, register,
  is_registered, is_up, stop_walk, deregister, mark_lost, up_names, modules_up, on_lifecycle,
}

-- The state that a registration leads to, if the registry allows it: a stopped, failed or stopping
-- module is never taken back.
pub register_target : Option ModuleState → Option ModuleState
register_target none = some registered
register_target (some starting) = some registered
register_target (some registered) = some registered
register_target (some healthy) = some healthy
register_target (some degraded) = some degraded
register_target (some _) = none

-- `_drive_register` from state `o`
drive_register_lem :
    (name : String) (o : Option ModuleState) (r : Registry) {target : ModuleState}
    → str_eq name "" ≡ false
    → state_at r.lifecycle name ≡ o
    → register_target o ≡ some target
    → ((drive_register name o r).0 ≡ ok tt)
      × (state_at (drive_register name o r).1.lifecycle name ≡ some target)
unfolding drive_register register_target
drive_register_lem name none r named at h =
    let l = r.lifecycle in
    let (ok1, at1) = track_lem name l named at in
    let l1 = (track name l).1 in
    let (ok2, at2) = transition_lem name starting l1 at1 refl in
    let l2 = (transition name starting l1).1 in
    let (ok3, at3) = transition_lem name registered l2 at2 refl in ground arith
drive_register_lem name (some starting) r named at h =
    let (ok1, at1) = transition_lem name registered r.lifecycle at refl in ground arith
drive_register_lem name (some _) r named at h = ground arith

module _ (explain : Registration → String) (name : String) (a : Registration) (r : Registry) where
  -- Where the target is a state and the arguments are texts, `register` succeeds, the module is in
  -- the target state, and its entry is the new one.
  pub register_accepts :
      {entry : ModuleEntry} {target : ModuleState}
      → str_eq name "" ≡ false
      → new_entry explain a ≡ ok entry
      → register_target (state_or_none r name) ≡ some target
      → ((register explain name a r).0 ≡ ok tt)
        × (state_or_none (register explain name a r).1 name ≡ some target)
        × (Dict.get (register explain name a r).1.entries name ≡ some entry)
  unfolding register
  register_accepts {entry} named valid h =
      let o = state_or_none r name in
      let (done, at) = drive_register_lem name o r named refl h in
      let t = (drive_register name o r).1 in
      ground (arith, get-put t.entries name name entry, eq_refl name)

  -- Where there is none, the module is stopping, stopped or failed (or was never started):
  -- `register` raises `InvalidTransitionError` and changes nothing.
  pub register_refuses :
      register_target (state_or_none r name) ≡ none
      → register explain name a r ≡ (err invalid_transition, r)
  unfolding register drive_register register_target
  register_refuses h = ground arith

-- the state in which `deregister` leaves a module that is registered
pub deregister_target : ModuleState → ModuleState
deregister_target registered = stopped
deregister_target healthy = stopped
deregister_target degraded = stopped
deregister_target stopping = stopped
deregister_target state = state

-- the walk to STOPPED, from the state found
stop_walk_lem :
    (name : String) (state : ModuleState) (r : Registry)
    → state_at r.lifecycle name ≡ some state
    → ((stop_walk name state r).0 ≡ ok tt)
      × (state_at (stop_walk name state r).1.lifecycle name ≡ some (deregister_target state))
      × ((stop_walk name state r).1.entries ≡ r.entries)
unfolding deregister_target
stop_walk_lem name registered r at =
    let (ok1, at1) = transition_lem name stopping r.lifecycle at refl in
    let l1 = (transition name stopping r.lifecycle).1 in
    let (ok2, at2) = transition_lem name stopped l1 at1 refl in ground arith
stop_walk_lem name healthy r at =
    let (ok1, at1) = transition_lem name stopping r.lifecycle at refl in
    let l1 = (transition name stopping r.lifecycle).1 in
    let (ok2, at2) = transition_lem name stopped l1 at1 refl in ground arith
stop_walk_lem name degraded r at =
    let (ok1, at1) = transition_lem name stopping r.lifecycle at refl in
    let l1 = (transition name stopping r.lifecycle).1 in
    let (ok2, at2) = transition_lem name stopped l1 at1 refl in ground arith
stop_walk_lem name stopping r at =
    let (ok1, at1) = transition_lem name stopped r.lifecycle at refl in ground arith
stop_walk_lem name _ r at = (refl, at, refl)

-- reading a state changes nothing
state_of_lem :
    (name : String) (s : Lifecycle) (state : ModuleState)
    → state_at s name ≡ some state
    → state_of name s ≡ (ok state, s)
unfolding state_of
state_of_lem name s state at = ground arith

module _ (name : String) (r : Registry) (state : ModuleState) where
  -- Deregistering a registered module succeeds, takes its entry away, stops it if it was up or
  -- stopping, and keeps its state otherwise.
  pub deregister_lem :
      is_registered name r ≡ true
      → state_or_none r name ≡ some state
      → ((deregister name r).0 ≡ ok tt)
        × (state_or_none (deregister name r).1 name ≡ some (deregister_target state))
        × (is_registered name (deregister name r).1 ≡ false)
  unfolding deregister
  deregister_lem present at =
      let (done, at', same) = stop_walk_lem name state r at in
      let t = (stop_walk name state r).1 in
      rw (present, deregister)
        (rw (state_of_lem name r.lifecycle state at)
          (ground (arith, get-remove t.entries name name, eq_refl name)))

  -- A module that has deregistered while it was up can never register again: `register` raises
  -- `InvalidTransitionError` and changes nothing.
  pub register-deregister :
      (explain : Registration → String) (a : Registration)
      → is_registered name r ≡ true
      → state_or_none r name ≡ some state
      → is_up state ≡ true
      → register explain name a (deregister name r).1
        ≡ (err invalid_transition, (deregister name r).1)
  unfolding register_target deregister_target
  register-deregister explain a present at up =
      let (done, at', gone) = deregister_lem present at in
      register_refuses explain name a (deregister name r).1 (ground arith)

  -- Losing the connection of a registered module fails it if it was up, and otherwise changes
  -- nothing; the entry stays.
  pub mark_lost_lem :
      is_registered name r ≡ true
      → state_or_none r name ≡ some state
      → ((mark_lost name r).0 ≡ ok tt)
        × (state_or_none (mark_lost name r).1 name ≡ some (if is_up state then failed else state))
        × ((mark_lost name r).1.entries ≡ r.entries)
  unfolding mark_lost
  mark_lost_lem present at =
      rw (present, mark_lost) (rw (state_of_lem name r.lifecycle state at) (lost state at))
    where
      lost :
          (state : ModuleState)
          → state_at r.lifecycle name ≡ some state
          → let p = (if is_up state then on_lifecycle (transition name failed) else pure tt) r in
            (p.0 ≡ ok tt)
            × (state_or_none p.1 name ≡ some (if is_up state then failed else state))
            × (p.1.entries ≡ r.entries)
      lost registered at =
          let (done, at') = transition_lem name failed r.lifecycle at refl in (done, at', refl)
      lost healthy at =
          let (done, at') = transition_lem name failed r.lifecycle at refl in (done, at', refl)
      lost degraded at =
          let (done, at') = transition_lem name failed r.lifecycle at refl in (done, at', refl)
      lost _ at = (refl, at, refl)

pub is_healthy : Option ModuleState → Bool
is_healthy (some healthy) = true
is_healthy _ = false

mem_str-up_names :
    (records : Dict ModuleRecord) (names up : List String) (k : String)
    → up_names records names ≡ ok up
    → mem_str k up ≡ (
        mem_str k names
        && is_healthy (Option.map (λ (rec : ModuleRecord). rec.state) (Dict.get records k)))
unfolding is_healthy
mem_str-up_names records [] up k h = ground arith
mem_str-up_names records (name ∷ names) up k h = elim (Result-cases (up_names records names)) [
  | inl (rest, found_rest) ↦ elim (Option-cases (Dict.get records name)) [
    | inl absent ↦ absurd (ground arith)
    | inr (rec, found) ↦
        ground (arith, mem_str-up_names records names rest k found_rest, eq_iff name k)
  ]
  | inr (e, failed_rest) ↦ elim (Option-cases (Dict.get records name)) [
    | inl absent ↦ absurd (ground arith)
    | inr (rec, found) ↦ absurd (ground arith)
  ]
]

-- `modules_up` lists exactly the registered modules whose state is HEALTHY: a DEGRADED module is
-- not up.
pub mem_str-modules_up :
    (r : Registry) (up : List String) (k : String)
    → modules_up r ≡ ok up
    → mem_str k up ≡ (is_registered k r && is_healthy (state_or_none r k))
unfolding modules_up
mem_str-modules_up r up k h = elim (Result-cases (up_names r.records (Dict.keys r.entries))) [
  | inl (names, found) ↦ ground (
    arith,
    mem_str-up_names r.records (Dict.keys r.entries) names k found,
    mem_str-sorted_set k names,
    mem_str-keys r.entries k,
  )
  | inr (e, raised) ↦ absurd (ground arith)
]
