-- ===== src/Lifecycle/Steps.antt =====
-- What a transition that succeeds leaves, by the states alone.
use text.Mathlib.TextPositions.{eq_refl}
use macbastion.Prelude.{String, true, false, ◌≡◌, none, some, arith, str_eq, inl, inr, Option-cases}
use macbastion.Prelude.Dict
use macbastion.Prelude.Dict.{get-put}
use macbastion.Exec.{ok}
use macbastion.Lifecycle.{
  ModuleState, unregistered, can_transition, Lifecycle, track, transition, new_record, move,
}
use macbastion.Lifecycle.Machine.{state_at}

pub transition_lem :
    (name : String) (to_state : ModuleState) (s : Lifecycle) {src : ModuleState}
    → state_at s name ≡ some src
    → can_transition src to_state ≡ true
    → ((transition name to_state s).0 ≡ ok tt)
      × (state_at (transition name to_state s).1 name ≡ some to_state)
unfolding transition move
transition_lem name to_state s {src} at allowed = elim (Option-cases (Dict.get s.records name)) [
  | inl absent ↦ absurd (ground arith)
  | inr (rec, found) ↦
      let same : rec.state ≡ src = ground arith in
      ground (arith, get-put s.records name name (record rec { state = to_state }), eq_refl name)
]

pub track_lem :
    (name : String) (s : Lifecycle)
    → str_eq name "" ≡ false
    → state_at s name ≡ none
    → ((track name s).0 ≡ ok tt) × (state_at (track name s).1 name ≡ some unregistered)
unfolding track
track_lem name s named at = elim (Option-cases (Dict.get s.records name)) [
  | inl absent ↦ ground (arith, get-put s.records name name (new_record name), eq_refl name)
  | inr (rec, found) ↦ absurd (ground arith)
]
