-- ===== src/Registry/Tracked.antt =====
-- The lifecycle records behind the entries of chimera/core/registry.py.
use mathlib.Core.Path.{subst}
use text.Mathlib.TextPositions.{eq_refl}
use macbastion.Prelude.{
  String, Bool, true, ◌≡◌, refl, Option, none, some, List, [], ◌∷◌, arith, str_eq, eq_iff, is_some,
  Bool-cases, inl, inr, Option-cases,
}
use macbastion.Prelude.Dict
use macbastion.Prelude.Dict.{Dict, get-put, get-remove}
use macbastion.Prelude.Json.{Fields, end, field, obj}
use macbastion.Exec.{Result, ok, err, continue}
use macbastion.Lifecycle.{
  ModuleState, starting, registered, healthy, degraded, ModuleRecord, Lifecycle, track, transition,
}
use macbastion.Lifecycle.Machine.{Evolves, Evolves-tracked, transition-Evolves, track_ok}
use macbastion.Registry.{
  Registration, ModuleEntry, Registry, state_or_none, new_entry, drive_register, store_entry,
  register, deregister, mark_lost, capability, capabilities_from, capabilities,
}
use macbastion.Registry.Calls.{
  RegistryCall, register_call, deregister_call, mark_lost_call, call, call_all, call-Evolves,
  drive_register-Evolves,
}

abbrev pub is_tracked : Registry → String → Bool
is_tracked r k = is_some (Dict.get r.records k)

pub record IsTracked (r : Registry) : Type 0 where
  pub at : (k : String) → is_some (Dict.get r.entries k) ≡ true → is_tracked r k ≡ true

-- `_drive_register` leaves the entries alone
drive_register-entries :
    (name : String) (o : Option ModuleState) (r : Registry)
    → (drive_register name o r).1.entries ≡ r.entries
unfolding drive_register
drive_register-entries name none r = ground arith
drive_register-entries name (some starting) r = refl
drive_register-entries name (some _) r = refl

transition-tracked :
    (name : String) (to_state : ModuleState) (k : String) (s : Lifecycle)
    → is_some (Dict.get s.records k) ≡ true
    → is_some (Dict.get (transition name to_state s).1.records k) ≡ true
transition-tracked name to_state k s =
    Evolves-tracked s (transition name to_state s).1 k (transition-Evolves name to_state s)

drive_register-tracks_from :
    (name : String) (o : Option ModuleState) (r : Registry)
    → (is_some o ≡ true → is_tracked r name ≡ true)
    → (drive_register name o r).0 ≡ ok tt
    → is_tracked (drive_register name o r).1 name ≡ true
unfolding drive_register
drive_register-tracks_from name none r known h =
    let l1 = (track name r.lifecycle).1 in
    let l2 = (transition name starting l1).1 in
    ground (
      arith,
      track_ok name r.lifecycle,
      transition-tracked name starting name l1,
      transition-tracked name registered name l2,
    )
drive_register-tracks_from name (some starting) r known h =
    transition-tracked name registered name r.lifecycle (known refl)
drive_register-tracks_from name (some registered) r known h = known refl
drive_register-tracks_from name (some healthy) r known h = known refl
drive_register-tracks_from name (some degraded) r known h = known refl
drive_register-tracks_from name (some _) r known h = cc

drive_register-tracks :
    (name : String) (r : Registry)
    → (drive_register name (state_or_none r name) r).0 ≡ ok tt
    → is_tracked (drive_register name (state_or_none r name) r).1 name ≡ true
drive_register-tracks name r =
    drive_register-tracks_from name (state_or_none r name) r (λ h. ground arith)

-- No entry is new and no record is lost.
IsTracked-of :
    (r t : Registry)
    → IsTracked r
    → Evolves r.lifecycle t.lifecycle
    → ((k : String) → is_some (Dict.get t.entries k) ≡ true → is_some (Dict.get r.entries k) ≡ true)
    → IsTracked t
IsTracked-of r t h moved fewer = record {
  at = λ k e. Evolves-tracked r.lifecycle t.lifecycle k moved (h.at k (fewer k e));
}

store_entry-IsTracked :
    (name : String) (res : Result (Unit {0})) (e : Result ModuleEntry) (t : Registry)
    → IsTracked t
    → (res ≡ ok tt → is_tracked t name ≡ true)
    → IsTracked (continue res t (λ _. store_entry name e)).1
store_entry-IsTracked name (err x) e t h known = h
store_entry-IsTracked name (ok x) (err y) t h known = h
store_entry-IsTracked name (ok x) (ok entry) t h known = record {
  at = λ k e. elim (Bool-cases (str_eq name k)) [
    | inl same ↦ subst (λ j. is_tracked t j ≡ true) ((eq_iff name k).0 same) (known refl)
    | inr other ↦ h.at k (ground (arith, get-put t.entries name k entry))
  ];
}

register-IsTracked :
    (explain : Registration → String) (name : String) (a : Registration) (r : Registry)
    → IsTracked r
    → IsTracked (register explain name a r).1
unfolding register
register-IsTracked explain name a r h =
    let o = state_or_none r name in
    let t = (drive_register name o r).1 in
    store_entry-IsTracked name (drive_register name o r).0 (new_entry explain a) t
      (IsTracked-of r t h (drive_register-Evolves name o r)
        (λ k e. subst (λ d. is_some (Dict.get d k) ≡ true) (drive_register-entries name o r) e))
      (drive_register-tracks name r)

deregister-entries :
    (name k : String) (r : Registry)
    → is_some (Dict.get (deregister name r).1.entries k) ≡ true
    → is_some (Dict.get r.entries k) ≡ true
unfolding deregister
deregister-entries name k r h = ground (arith, get-remove r.entries name k)

mark_lost-entries : (name : String) (r : Registry) → (mark_lost name r).1.entries ≡ r.entries
unfolding mark_lost
mark_lost-entries name r = ground arith

module _ (explain : Registration → String) where
  call-IsTracked : (r : Registry) (c : RegistryCall) → IsTracked r → IsTracked (call explain r c)
  unfolding call
  call-IsTracked r (register_call name a) h = register-IsTracked explain name a r h
  call-IsTracked r (deregister_call name) h =
      IsTracked-of r _ h (call-Evolves explain r (deregister_call name))
        (λ k. deregister-entries name k r)
  call-IsTracked r (mark_lost_call name) h =
      IsTracked-of r _ h (call-Evolves explain r (mark_lost_call name))
        (λ k e. subst (λ d. is_some (Dict.get d k) ≡ true) (mark_lost-entries name r) e)
  call-IsTracked r c h = IsTracked-of r (call explain r c) h (call-Evolves explain r c) (λ k e. e)

  call_all-IsTracked :
      (r : Registry) (calls : List RegistryCall)
      → IsTracked r
      → IsTracked (call_all explain r calls)
  unfolding call_all
  call_all-IsTracked r [] h = h
  call_all-IsTracked r (c ∷ calls) h =
      call_all-IsTracked (call explain r c) calls (call-IsTracked r c h)

capabilities_from_total :
    (records : Dict ModuleRecord) (entries : Dict ModuleEntry)
    → ((k : String) → is_some (Dict.get entries k) ≡ true → is_some (Dict.get records k) ≡ true)
    → (fs : Fields) × (capabilities_from records entries ≡ ok fs)
unfolding Dict.get
capabilities_from_total records [] h = (end, refl)
capabilities_from_total records ((name, entry) ∷ entries) h =
    let (fs, done) = capabilities_from_total records entries (λ k e. h k (ground arith)) in
    elim (Option-cases (Dict.get records name)) [
      | inl absent ↦ absurd (ground (arith, h name, eq_refl name))
      | inr (rec, found) ↦
          (field name (obj (capability entry rec.state)) fs, rw (found, capabilities_from, done))
    ]

-- After any calls, from a registry in which every entry has a lifecycle record, the status query
-- (`core.capabilities`) finds every module: it returns, it does not raise `KeyError`.
pub capabilities_total :
    (explain : Registration → String) (r : Registry) (calls : List RegistryCall)
    → IsTracked r
    → (fs : Fields) × (capabilities (call_all explain r calls) ≡ ok fs)
unfolding capabilities
capabilities_total explain r calls h =
    let t = call_all explain r calls in
    capabilities_from_total t.records t.entries (call_all-IsTracked explain r calls h).at
