-- ===== src/Registry/Cold.antt =====
-- Which states core's own calls of chimera/core/registry.py and lifecycle.py lead to.
use macbastion.Prelude.{
  ℕ, String, Bool, true, false, not, ◌≡◌, refl, Option, none, some, List, [], ◌∷◌, ◌++◌, ◌+◌, leb,
  length, arith, all, All, if◌then◌else◌, Option-cases, inl, inr,
}
use macbastion.Prelude.Dict
use macbastion.Prelude.Dict.{Dict}
use macbastion.Exec.{Result, ok, err, Exec, with_value_rule, if_rule, continue, pure, raise, ◌>>=◌}
use macbastion.Lifecycle.{
  ModuleState, starting, registered, healthy, degraded, stopping, stopped, failed,
  permanently_failed, ModuleRecord, new_record, Lifecycle, is_live, track, transition, move,
  heartbeat, sweep_record, sweep_records, values, sweep_once, restart, recent_restarts, state_of,
  same_state, write_record,
}
use macbastion.Registry.{
  Registration, ModuleEntry, Registry, on_lifecycle, is_up, state_or_none, new_entry,
  drive_register, store_entry, register, is_registered, stop_walk, drop_entry, deregister,
  mark_lost,
}
use macbastion.Registry.Calls.{
  RegistryCall, register_call, deregister_call, mark_lost_call, transition_call, heartbeat_call,
  restart_call, sweep_call, call, call_all,
}

-- no module is HEALTHY or DEGRADED
abbrev pub is_cold : Dict ModuleRecord → Bool
is_cold d = all (λ (e : String × ModuleRecord). not (is_live e.1.state)) d

is_cold-put :
    (d : Dict ModuleRecord) (k : String) (rec : ModuleRecord)
    → is_cold d ≡ true
    → is_live rec.state ≡ false
    → is_cold (Dict.put d k rec) ≡ true
unfolding Dict.put
is_cold-put [] k rec h c = ground arith
is_cold-put ((j, old) ∷ d) k rec h c = ground (arith, is_cold-put d k rec)

is_cold-get :
    (d : Dict ModuleRecord) (k : String) (rec : ModuleRecord)
    → is_cold d ≡ true
    → Dict.get d k ≡ some rec
    → is_live rec.state ≡ false
unfolding Dict.get
is_cold-get [] k rec h e = ground arith
is_cold-get ((j, old) ∷ d) k rec h e = ground (arith, is_cold-get d k rec)

abbrev LeavesCold : Result (Unit {0}) × Lifecycle → Type 0
LeavesCold (_, t) = is_cold t.records ≡ true

track-cold : (name : String) (s : Lifecycle) → is_cold s.records ≡ true → LeavesCold (track name s)
unfolding track
track-cold name s h = elim (Option-cases (Dict.get s.records name)) [
  | inl e ↦ ground (arith, is_cold-put s.records name (new_record name))
  | inr (rec, e) ↦ ground arith
]

transition-cold :
    (name : String) (to_state : ModuleState) (s : Lifecycle)
    → is_live to_state ≡ false
    → is_cold s.records ≡ true
    → LeavesCold (transition name to_state s)
unfolding transition move
transition-cold name to_state s c h =
    with_value_rule LeavesCold (Dict.get s.records name) _ _ s h
      λ rec found. ground (arith, is_cold-put s.records name (record rec { state = to_state }))

heartbeat-cold :
    (now : ℕ) (name : String) (s : Lifecycle)
    → is_cold s.records ≡ true
    → LeavesCold (heartbeat now name s)
unfolding heartbeat
heartbeat-cold now name s h =
    with_value_rule LeavesCold (Dict.get s.records name) _ _ s h λ rec found.
      is_cold-put s.records name (record rec { last_seen = some now }) h
        (is_cold-get s.records name rec h found)

restart-cold :
    (now : ℕ) (name : String) (s : Lifecycle)
    → is_cold s.records ≡ true
    → LeavesCold (restart now name s)
unfolding restart
restart-cold now name s h =
    with_value_rule LeavesCold (Dict.get s.records name) _ _ s h λ rec found.
      let recent = recent_restarts now rec.restart_times in
      let last : ModuleRecord = record rec { restart_times = recent } in
      let again : ModuleRecord = record rec {
        restart_times = recent ++ now ∷ [];
        restart_count = rec.restart_count + 1;
      } in
      let cold = is_cold-get s.records name rec h found in
      if_rule LeavesCold (leb s.config.restart_max_per_hour (length recent)) _ _
        (λ _.
          transition-cold name permanently_failed (write_record name last s) refl
            (is_cold-put s.records name last h cold))
        (λ _.
          transition-cold name starting (write_record name again s) refl
            (is_cold-put s.records name again h cold))

-- a sweep has nothing to judge
sweep-cold :
    (now : ℕ) (d : Dict ModuleRecord) (s : Lifecycle)
    → is_cold d ≡ true
    → sweep_records now (values d) s ≡ (ok tt, s)
unfolding sweep_records values sweep_record
sweep-cold now [] s h = refl
sweep-cold now ((k, rec) ∷ d) s h =
    let still : is_live rec.state ≡ false = ground arith in
    rw (sweep_records, values, sweep_record, still) (sweep-cold now d s (ground arith))

-- an action that warms no module up
record KeepsCold {A : Type 0} (m : Exec Registry A) : Type 0 where
  at :
      (r : Registry) → is_cold r.lifecycle.records ≡ true → is_cold (m r).1.lifecycle.records ≡ true

module _ {A B : Type 0} where
  continue-cold :
      (t : Registry) (res : Result A) (f : A → Exec Registry B)
      → is_cold t.lifecycle.records ≡ true
      → ((a : A) → KeepsCold (f a))
      → is_cold (continue res t f).1.lifecycle.records ≡ true
  continue-cold t (ok a) f h k = (k a).at t h
  continue-cold t (err e) f h k = h

  KeepsCold-bind :
      (m : Exec Registry A) (f : A → Exec Registry B)
      → KeepsCold m
      → ((a : A) → KeepsCold (f a))
      → KeepsCold (m >>= f)
  KeepsCold-bind m f km kf = record { at = λ r h. continue-cold (m r).1 (m r).0 f (km.at r h) kf }

walk :
    (name : String) (state : ModuleState)
    → is_live state ≡ false
    → KeepsCold (on_lifecycle (transition name state))
walk name state c = record { at = λ r h. transition-cold name state r.lifecycle c h }

-- an action that leaves the records alone
still :
    {A : Type 0} (m : Exec Registry A)
    → ((r : Registry) → (m r).1.lifecycle.records ≡ r.lifecycle.records)
    → KeepsCold m
still m e = record { at = λ r h. rw (e r) h }

drive_register-cold : (name : String) (o : Option ModuleState) → KeepsCold (drive_register name o)
unfolding drive_register
drive_register-cold name none =
    KeepsCold-bind (on_lifecycle (track name)) _
      (record { at = λ r h. track-cold name r.lifecycle h })
      λ _.
        KeepsCold-bind (on_lifecycle (transition name starting)) _ (walk name starting refl)
          λ _. walk name registered refl
drive_register-cold name (some starting) = walk name registered refl
drive_register-cold name (some registered) = still (pure tt) (λ r. refl)
drive_register-cold name (some healthy) = still (pure tt) (λ r. refl)
drive_register-cold name (some degraded) = still (pure tt) (λ r. refl)
drive_register-cold name (some _) = still (raise _) (λ r. refl)

cold_if :
    {A : Type 0} (b : Bool) (m n : Exec Registry A)
    → KeepsCold m
    → KeepsCold n
    → KeepsCold (if b then m else n)
cold_if true m n km kn = km
cold_if false m n km kn = kn

-- the same for a method that decides by the registry
abbrev LeavesColdRegistry : Result (Unit {0}) × Registry → Type 0
LeavesColdRegistry (_, t) = is_cold t.lifecycle.records ≡ true

stop_walk-cold : (name : String) (state : ModuleState) → KeepsCold (stop_walk name state)
stop_walk-cold name state =
    cold_if (is_up state) _ _
      (KeepsCold-bind (on_lifecycle (transition name stopping)) _ (walk name stopping refl)
        (λ _. walk name stopped refl))
      (cold_if (same_state state stopping) _ _ (walk name stopped refl)
        (still (pure tt) (λ r. refl)))

looked_up : (name : String) → KeepsCold (on_lifecycle (state_of name))
unfolding state_of
looked_up name = record {
  at = λ r h.
      with_value_rule (λ (p : Result ModuleState × Lifecycle). is_cold p.1.records ≡ true)
        (Dict.get r.lifecycle.records name) _ _ r.lifecycle h (λ rec found. h);
}

deregister-cold : (name : String) → KeepsCold (deregister name)
unfolding deregister
deregister-cold name = record {
  at = λ r h.
      if_rule LeavesColdRegistry (is_registered name r) _ _
        (λ _.
          (KeepsCold-bind (on_lifecycle (state_of name)) _ (looked_up name) λ state.
              KeepsCold-bind (stop_walk name state) _ (stop_walk-cold name state)
                λ _. still (drop_entry name) (λ r. refl)).at
            r h)
        (λ _. h);
}

mark_lost-cold : (name : String) → KeepsCold (mark_lost name)
unfolding mark_lost
mark_lost-cold name = record {
  at = λ r h.
      if_rule LeavesColdRegistry (is_registered name r) _ _
        (λ _.
          (KeepsCold-bind (on_lifecycle (state_of name)) _ (looked_up name) λ state.
              cold_if (is_up state) _ _ (walk name failed refl) (still (pure tt) (λ r. refl))).at
            r h)
        (λ _. h);
}

stored-cold : (name : String) (e : Result ModuleEntry) → KeepsCold (store_entry name e)
stored-cold name (ok entry) = still (store_entry name (ok entry)) (λ r. refl)
stored-cold name (err x) = still (raise x) (λ r. refl)

register-cold :
    (explain : Registration → String) (name : String) (a : Registration)
    → KeepsCold (register explain name a)
unfolding register
register-cold explain name a = record {
  at = λ r.
      (KeepsCold-bind (drive_register name (state_or_none r name))
          (λ _. store_entry name (new_entry explain a)) (drive_register-cold name _)
          (λ _. stored-cold name (new_entry explain a))).at
        r;
}

-- the calls that core makes itself, which sets no state beside them
abbrev pub is_own_call : RegistryCall → Bool
is_own_call (transition_call name state) = false
is_own_call _ = true

module _ (explain : Registration → String) where
  call-cold :
      (r : Registry) (c : RegistryCall)
      → is_own_call c ≡ true
      → is_cold r.lifecycle.records ≡ true
      → is_cold (call explain r c).lifecycle.records ≡ true
  unfolding call sweep_once
  call-cold r (register_call name a) o h = (register-cold explain name a).at r h
  call-cold r (deregister_call name) o h = (deregister-cold name).at r h
  call-cold r (mark_lost_call name) o h = (mark_lost-cold name).at r h
  call-cold r (transition_call name state) o h = ground arith
  call-cold r (heartbeat_call now name) o h = heartbeat-cold now name r.lifecycle h
  call-cold r (restart_call now name) o h = restart-cold now name r.lifecycle h
  call-cold r (sweep_call now) o h =
      rw (sweep_once, sweep-cold now r.lifecycle.records r.lifecycle h) h

  -- From a state in which no module is HEALTHY or DEGRADED, the empty one for instance, no sequence
  -- of registrations, deregistrations, lost connections, heartbeats, restarts and sweeps makes one so.
  pub call_all-cold :
      (r : Registry) (calls : List RegistryCall)
      → All (λ c. is_own_call c ≡ true) calls
      → is_cold r.lifecycle.records ≡ true
      → is_cold (call_all explain r calls).lifecycle.records ≡ true
  unfolding call_all
  call_all-cold r [] o h = h
  call_all-cold r (c ∷ calls) (o, os) h =
      call_all-cold (call explain r c) calls os (call-cold r c o h)
