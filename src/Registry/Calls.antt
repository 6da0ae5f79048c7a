-- ===== src/Registry/Calls.antt =====
-- chimera/core/registry.py and lifecycle.py under any sequence of the calls that core makes of them.
use macbastion.Prelude.{
  ℕ, String, Bool, true, false, ◌≡◌, refl, Option, none, some, List, [], ◌∷◌, if◌then◌else◌,
}
use macbastion.Exec.{Result, ok, err, Exec, if_rule, continue, pure, raise, ◌>>=◌}
use macbastion.Lifecycle.{
  ModuleState, starting, registered, healthy, degraded, stopping, stopped, failed, Lifecycle, track,
  transition, heartbeat, sweep_once, restart, state_of, same_state,
}
use macbastion.Lifecycle.Machine.{
  IsTerminal, state_at, Follows, Evolves, Evolves-refl, Evolves-trans, track-Evolves,
  transition-Evolves, heartbeat-Evolves, sweep_once-Evolves, restart-Evolves, same_records-Evolves,
  Evolves-terminal, state_of-Evolves,
}
use macbastion.Registry.{
  Registration, ModuleEntry, Registry, on_lifecycle, is_up, state_or_none, new_entry,
  drive_register, store_entry, register, is_registered, stop_walk, drop_entry, deregister,
  mark_lost,
}

-- The calls; a `transition_call` stands for any attempt at a transition.
pub data RegistryCall : Type 0 where
  register_call : String → Registration → RegistryCall
  deregister_call mark_lost_call : String → RegistryCall
  transition_call : String → ModuleState → RegistryCall
  heartbeat_call restart_call : ℕ → String → RegistryCall
  sweep_call : ℕ → RegistryCall

-- the state that a call leaves, whether it returned or raised
unfoldable pub call : (Registration → String) → Registry → RegistryCall → Registry
call explain r (register_call name a) = (register explain name a r).1
call explain r (deregister_call name) = (deregister name r).1
call explain r (mark_lost_call name) = (mark_lost name r).1
call explain r (transition_call name state) = (on_lifecycle (transition name state) r).1
call explain r (heartbeat_call now name) = (on_lifecycle (heartbeat now name) r).1
call explain r (restart_call now name) = (on_lifecycle (restart now name) r).1
call explain r (sweep_call now) = (on_lifecycle (sweep_once now) r).1

unfoldable pub call_all : (Registration → String) → Registry → List RegistryCall → Registry
call_all explain r [] = r
call_all explain r (c ∷ calls) = call_all explain (call explain r c) calls

-- an action under which modules move along the allow-list
record Moves {A : Type 0} (m : Exec Registry A) : Type 0 where
  at : (r : Registry) → Evolves r.lifecycle (m r).1.lifecycle

abbrev EvolvesTo : Registry → Result (Unit {0}) × Registry → Type 0
EvolvesTo r (_, t) = Evolves r.lifecycle t.lifecycle

module _ {A B : Type 0} where
  continue-Moves :
      (r t : Registry) (res : Result A) (f : A → Exec Registry B)
      → Evolves r.lifecycle t.lifecycle
      → ((a : A) → Moves (f a))
      → Evolves r.lifecycle (continue res t f).1.lifecycle
  continue-Moves r t (ok a) f h k = Evolves-trans r.lifecycle t.lifecycle _ h ((k a).at t)
  continue-Moves r t (err e) f h k = h

  Moves-bind :
      (m : Exec Registry A) (f : A → Exec Registry B)
      → Moves m
      → ((a : A) → Moves (f a))
      → Moves (m >>= f)
  Moves-bind m f km kf = record { at = λ r. continue-Moves r (m r).1 (m r).0 f (km.at r) kf }

Moves-on_lifecycle :
    {A : Type 0} (m : Exec Lifecycle A)
    → ((s : Lifecycle) → Evolves s (m s).1)
    → Moves (on_lifecycle m)
Moves-on_lifecycle m h = record { at = λ r. h r.lifecycle }

-- an action that leaves the lifecycle's records alone
Moves-same :
    {A : Type 0} (m : Exec Registry A)
    → ((r : Registry) → (m r).1.lifecycle.records ≡ r.lifecycle.records)
    → Moves m
Moves-same m h = record { at = λ r. same_records-Evolves r.lifecycle _ (h r) }

Moves-if :
    {A : Type 0} (b : Bool) (m n : Exec Registry A) → Moves m → Moves n → Moves (if b then m else n)
Moves-if true m n km kn = km
Moves-if false m n km kn = kn

walk : (name : String) (state : ModuleState) → Moves (on_lifecycle (transition name state))
walk name state = Moves-on_lifecycle (transition name state) (transition-Evolves name state)

stay : Moves (pure {S = Registry} tt)
stay = Moves-same (pure tt) (λ r. refl)

drive_register-Moves : (name : String) (o : Option ModuleState) → Moves (drive_register name o)
unfolding drive_register
drive_register-Moves name none =
    Moves-bind (on_lifecycle (track name)) _ (Moves-on_lifecycle (track name) (track-Evolves name))
      λ _.
        Moves-bind (on_lifecycle (transition name starting)) _ (walk name starting)
          λ _. walk name registered
drive_register-Moves name (some starting) = walk name registered
drive_register-Moves name (some registered) = stay
drive_register-Moves name (some healthy) = stay
drive_register-Moves name (some degraded) = stay
drive_register-Moves name (some _) = Moves-same (raise _) (λ r. refl)

pub drive_register-Evolves :
    (name : String) (o : Option ModuleState) (r : Registry)
    → Evolves r.lifecycle (drive_register name o r).1.lifecycle
drive_register-Evolves name o = (drive_register-Moves name o).at

register-Moves :
    (explain : Registration → String) (name : String) (a : Registration)
    → Moves (register explain name a)
unfolding register
register-Moves explain name a = record {
  at = λ r.
      (Moves-bind (drive_register name (state_or_none r name))
          (λ _. store_entry name (new_entry explain a)) (drive_register-Moves name _)
          (λ _. stored (new_entry explain a))).at
        r;
}
  where
    stored : (e : Result ModuleEntry) → Moves (store_entry name e)
    stored (ok entry) = Moves-same _ (λ r. refl)
    stored (err e) = Moves-same _ (λ r. refl)

deregister-Moves : (name : String) → Moves (deregister name)
unfolding deregister
deregister-Moves name = record {
  at = λ r.
      if_rule (EvolvesTo r) (is_registered name r) _ _
        (λ _.
          (Moves-bind (on_lifecycle (state_of name)) _ looked_up
              λ state. Moves-bind (stop_walk name state) _ (stopped_by state) λ _. dropped).at
            r)
        (λ _. Evolves-refl r.lifecycle);
}
  where
    looked_up : Moves (on_lifecycle (state_of name))
    looked_up = Moves-on_lifecycle (state_of name) (state_of-Evolves name)

    stopped_by : (state : ModuleState) → Moves (stop_walk name state)
    stopped_by state =
        Moves-if (is_up state) _ _
          (Moves-bind (on_lifecycle (transition name stopping)) _ (walk name stopping)
            λ _. walk name stopped)
          (Moves-if (same_state state stopping) _ _ (walk name stopped) stay)

    dropped : Moves (drop_entry name)
    dropped = Moves-same (drop_entry name) (λ r. refl)

mark_lost-Moves : (name : String) → Moves (mark_lost name)
unfolding mark_lost
mark_lost-Moves name = record {
  at = λ r.
      if_rule (EvolvesTo r) (is_registered name r) _ _
        (λ _.
          (Moves-bind (on_lifecycle (state_of name)) _
              (Moves-on_lifecycle (state_of name) (state_of-Evolves name))
              λ state. Moves-if (is_up state) _ _ (walk name failed) stay).at
            r)
        (λ _. Evolves-refl r.lifecycle);
}

module _ (explain : Registration → String) where
  pub call-Evolves :
      (r : Registry) (c : RegistryCall) → Evolves r.lifecycle (call explain r c).lifecycle
  unfolding call
  call-Evolves r (register_call name a) = (register-Moves explain name a).at r
  call-Evolves r (deregister_call name) = (deregister-Moves name).at r
  call-Evolves r (mark_lost_call name) = (mark_lost-Moves name).at r
  call-Evolves r (transition_call name state) = transition-Evolves name state r.lifecycle
  call-Evolves r (heartbeat_call now name) = heartbeat-Evolves now name r.lifecycle
  call-Evolves r (restart_call now name) = restart-Evolves now name r.lifecycle
  call-Evolves r (sweep_call now) = sweep_once-Evolves now r.lifecycle

  call_all-Evolves :
      (r : Registry) (calls : List RegistryCall)
      → Evolves r.lifecycle (call_all explain r calls).lifecycle
  unfolding call_all
  call_all-Evolves r [] = Evolves-refl r.lifecycle
  call_all-Evolves r (c ∷ calls) =
      Evolves-trans r.lifecycle (call explain r c).lifecycle _ (call-Evolves r c)
        (call_all-Evolves (call explain r c) calls)

  -- Whatever calls are made, in any order and whether they return or raise, each module's state has
  -- moved along edges of the allow-list, from UNREGISTERED if it was not known, and no module that
  -- was known is forgotten.
  pub call_all-Follows :
      (r : Registry) (calls : List RegistryCall) (name : String)
      → Follows (state_at r.lifecycle name) (state_at (call_all explain r calls).lifecycle name)
  unfolding Evolves
  call_all-Follows r calls name = call_all-Evolves r calls name

  -- A module in STOPPED or PERMANENTLY_FAILED stays there, whatever calls are made.
  pub call_all-terminal :
      (r : Registry) (calls : List RegistryCall) (name : String) (a : ModuleState)
      → IsTerminal a
      → state_at r.lifecycle name ≡ some a
      → state_at (call_all explain r calls).lifecycle name ≡ some a
  call_all-terminal r calls name a =
      Evolves-terminal r.lifecycle (call_all explain r calls).lifecycle name a
        (call_all-Evolves r calls)
