-- ===== src/Lifecycle/Machine.antt =====
-- The state machine of chimera/core/lifecycle.py: the edges, and the walks that operations make.
use macbastion.Prelude.{
  ℕ, String, true, ◌≡◌, ◌⊎◌, refl, ◌==◌, Option, none, some, List, [], ◌∷◌, arith, str_eq, eq_iff,
  inl, inr, Bool-cases, Option-cases, leb, length, is_some,
}
use mathlib.Core.Option
use mathlib.Core.Path.{subst, sym, ap}
use text.Mathlib.TextPositions.{eq_refl}
use macbastion.Prelude.Dict
use macbastion.Prelude.Dict.{Dict, get-put}
use macbastion.Errors.{key_error}
use macbastion.Exec.{Result, ok, Exec, with_value, if_rule, with_value_rule}
use macbastion.Broker.{EventBroker}
use macbastion.Lifecycle.{
  ModuleState, unregistered, starting, stopped, permanently_failed, can_transition, ModuleRecord,
  Lifecycle, track, move, transition, heartbeat, sweep_record, sweep_records, sweep_once, restart,
  write_record, new_record, sweep_seen, same_state, is_live, recent_restarts, state_of,
}

-- `Reaches a b`: a walk along edges of the allow-list from `a` to `b`.
pub data Reaches (a : ModuleState) : ModuleState → Type 0 where
  here : Reaches a a
  next : {b c : ModuleState} → Reaches a b → can_transition b c ≡ true → Reaches a c

pub Reaches-trans : {a b c : ModuleState} → Reaches a b → Reaches b c → Reaches a c
Reaches-trans p here = p
Reaches-trans p (next q e) = next (Reaches-trans p q) e

-- No edge leaves STOPPED or PERMANENTLY_FAILED.
abbrev pub IsTerminal : ModuleState → Type 0
IsTerminal a = (a ≡ stopped) ⊎ (a ≡ permanently_failed)

pub Reaches-terminal : {a b : ModuleState} → IsTerminal a → Reaches a b → b ≡ a
Reaches-terminal t here = refl
Reaches-terminal t (next p e) = ground (arith, Reaches-terminal t p)

abbrev pub state_at : Lifecycle → String → Option ModuleState
state_at s k = Option.map (λ (r : ModuleRecord). r.state) (Dict.get s.records k)

-- what may become of one module's state; a module is born in UNREGISTERED
abbrev pub Follows : Option ModuleState → Option ModuleState → Type 0
Follows none none = Unit
Follows none (some b) = Reaches unregistered b
Follows (some a) none = ⊥
Follows (some a) (some b) = Reaches a b

pub Follows-refl : (o : Option ModuleState) → Follows o o
Follows-refl none = tt
Follows-refl (some a) = here

pub Follows-trans : (o p q : Option ModuleState) → Follows o p → Follows p q → Follows o q
Follows-trans none none q h k = k
Follows-trans none (some b) none h k = absurd k
Follows-trans none (some b) (some c) h k = Reaches-trans h k
Follows-trans (some a) none q h k = absurd h
Follows-trans (some a) (some b) none h k = absurd k
Follows-trans (some a) (some b) (some c) h k = Reaches-trans h k

unfoldable pub Evolves : Lifecycle → Lifecycle → Type 0
Evolves s t = (k : String) → Follows (state_at s k) (state_at t k)

pub Evolves-refl : (s : Lifecycle) → Evolves s s
unfolding Evolves
Evolves-refl s k = Follows-refl (state_at s k)

pub Evolves-trans : (s t u : Lifecycle) → Evolves s t → Evolves t u → Evolves s u
unfolding Evolves
Evolves-trans s t u p q k = Follows-trans (state_at s k) (state_at t k) (state_at u k) (p k) (q k)

abbrev EvolvesTo : Lifecycle → Result (Unit {0}) × Lifecycle → Type 0
EvolvesTo s (_, t) = Evolves s t

-- A record written under a name, with any change of the broker.
put-Evolves :
    (s : Lifecycle) (broker : EventBroker) (name : String) (rec : ModuleRecord)
    → Follows (state_at s name) (some rec.state)
    → Evolves s (record s { records = Dict.put s.records name rec; broker = broker })
unfolding Evolves
put-Evolves s broker name rec h k =
    rw (get-put s.records name k rec) (elim (Bool-cases (str_eq name k)) [
      | inl same ↦
          rw same (subst (λ j. Follows (state_at s j) (some rec.state)) ((eq_iff name k).0 same) h)
      | inr other ↦ rw other (Follows-refl (state_at s k))
    ])

move-Evolves :
    (name : String) (rec : ModuleRecord) (to_state : ModuleState) (s : Lifecycle)
    → Dict.get s.records name ≡ some rec
    → Evolves s (move name rec to_state s).1
unfolding move
move-Evolves name rec to_state s found = elim (Bool-cases (can_transition rec.state to_state)) [
  | inl allowed ↦
      rw (allowed, move)
        (put-Evolves s _ name (record rec { state = to_state }) (rw found (next here allowed)))
  | inr refused ↦ rw (refused, move) (Evolves-refl s)
]

-- an operation on a record that is there, or `KeyError`
with_record-Evolves :
    {A : Type 0} (name : String) (f : ModuleRecord → Exec Lifecycle A) (s : Lifecycle)
    → ((rec : ModuleRecord) → Dict.get s.records name ≡ some rec → Evolves s (f rec s).1)
    → Evolves s (with_value (Dict.get s.records name) (key_error name) f s).1
with_record-Evolves name f s found =
    with_value_rule (λ p. Evolves s p.1) (Dict.get s.records name) _ f s (Evolves-refl s) found

pub transition-Evolves :
    (name : String) (to_state : ModuleState) (s : Lifecycle)
    → Evolves s (transition name to_state s).1
unfolding transition
transition-Evolves name to_state s =
    with_record-Evolves name _ s (λ rec found. move-Evolves name rec to_state s found)

pub track-Evolves : (name : String) (s : Lifecycle) → Evolves s (track name s).1
unfolding track
track-Evolves name s = elim (Bool-cases (str_eq name "")) [
  | inl blank ↦ rw (blank, track) (Evolves-refl s)
  | inr named ↦ elim (Option-cases (Dict.get s.records name)) [
    | inl absent ↦
        rw (named, absent, track) (put-Evolves s s.broker name (new_record name) (rw absent here))
    | inr (rec, found) ↦ rw (named, found, track) (Evolves-refl s)
  ]
]

-- a record rewritten with its state kept
rewrite-Evolves :
    (name : String) (rec rec' : ModuleRecord) (s : Lifecycle)
    → Dict.get s.records name ≡ some rec
    → rec'.state ≡ rec.state
    → Evolves s (write_record name rec' s)
rewrite-Evolves name rec rec' s found same =
    put-Evolves s s.broker name rec' (rw (found, same) here)

pub heartbeat-Evolves :
    (now : ℕ) (name : String) (s : Lifecycle) → Evolves s (heartbeat now name s).1
unfolding heartbeat
heartbeat-Evolves now name s =
    with_record-Evolves name _ s (λ rec found. rewrite-Evolves name rec _ s found refl)

sweep_seen-Evolves :
    (now : ℕ) (rec : ModuleRecord) (seen : Option ℕ) (s : Lifecycle)
    → Evolves s (sweep_seen now rec seen s).1
unfolding sweep_seen
sweep_seen-Evolves now rec none s = Evolves-refl s
sweep_seen-Evolves now rec (some seen) s =
    if_rule (EvolvesTo s) (s.config.heartbeat_interval_s == 0) _ _ (λ _. Evolves-refl s)
      (λ _.
        if_rule (EvolvesTo s) (same_state _ rec.state) _ _ (λ _. Evolves-refl s)
          (λ _. transition-Evolves rec.name _ s))

sweep_record-Evolves :
    (now : ℕ) (rec : ModuleRecord) (s : Lifecycle) → Evolves s (sweep_record now rec s).1
unfolding sweep_record
sweep_record-Evolves now rec s =
    if_rule (EvolvesTo s) (is_live rec.state) _ _ (λ _. sweep_seen-Evolves now rec rec.last_seen s)
      (λ _. Evolves-refl s)

sweep_records-Evolves :
    (now : ℕ) (recs : List ModuleRecord) (s : Lifecycle) → Evolves s (sweep_records now recs s).1
unfolding sweep_records
sweep_records-Evolves now [] s = Evolves-refl s
sweep_records-Evolves now (rec ∷ recs) s = ground (
  arith,
  sweep_record-Evolves now rec s,
  sweep_records-Evolves now recs (sweep_record now rec s).1,
  Evolves-trans s (sweep_record now rec s).1 (sweep_records now recs (sweep_record now rec s).1).1,
)

pub sweep_once-Evolves : (now : ℕ) (s : Lifecycle) → Evolves s (sweep_once now s).1
unfolding sweep_once
sweep_once-Evolves now s = sweep_records-Evolves now _ s

pub restart-Evolves : (now : ℕ) (name : String) (s : Lifecycle) → Evolves s (restart now name s).1
unfolding restart
restart-Evolves now name s = with_record-Evolves name _ s λ rec found.
    let recent = recent_restarts now rec.restart_times in
    if_rule (EvolvesTo s) (leb s.config.restart_max_per_hour (length recent)) _ _
      (λ _.
        Evolves-trans s _ _ (rewrite-Evolves name rec _ s found refl)
          (transition-Evolves name permanently_failed _))
      (λ _.
        Evolves-trans s _ _ (rewrite-Evolves name rec _ s found refl)
          (transition-Evolves name starting _))

-- the broker is not looked at
pub same_records-Evolves : (s t : Lifecycle) → t.records ≡ s.records → Evolves s t
unfolding Evolves
same_records-Evolves s t e k =
    subst (λ d. Follows (state_at s k) (Option.map (λ (r : ModuleRecord). r.state) (Dict.get d k)))
      (sym e) (Follows-refl (state_at s k))

-- a terminal module of `s` is in the same state in `t`
pub Evolves-terminal :
    (s t : Lifecycle) (k : String) (a : ModuleState)
    → Evolves s t
    → IsTerminal a
    → state_at s k ≡ some a
    → state_at t k ≡ some a
unfolding Evolves
Evolves-terminal s t k a h terminal at = finish (state_at s k) (state_at t k) (h k) at
  where
    finish : (o p : Option ModuleState) → Follows o p → o ≡ some a → p ≡ some a
    finish none p f e = cc
    finish (some b) none f e = absurd f
    finish (some b) (some c) f e =
        let b_eq : b ≡ a = cc in rw (← b_eq) (ap some (Reaches-terminal (rw b_eq terminal) f))

pub state_of-Evolves : (name : String) (s : Lifecycle) → Evolves s (state_of name s).1
unfolding state_of
state_of-Evolves name s = with_record-Evolves name _ s (λ rec found. Evolves-refl s)

-- no record is forgotten
pub Evolves-tracked :
    (s t : Lifecycle) (k : String)
    → Evolves s t
    → is_some (Dict.get s.records k) ≡ true
    → is_some (Dict.get t.records k) ≡ true
unfolding Evolves
Evolves-tracked s t k h tracked = keep (Dict.get s.records k) (Dict.get t.records k) (h k) tracked
  where
    keep :
        (o p : Option ModuleRecord)
        → Follows
            (Option.map (λ (r : ModuleRecord). r.state) o)
            (Option.map (λ (r : ModuleRecord). r.state) p)
        → is_some o ≡ true
        → is_some p ≡ true
    keep none p f e = cc
    keep (some a) none f e = absurd f
    keep (some a) (some b) f e = refl

-- a module whose tracking succeeded has a record
pub track_ok :
    (name : String) (s : Lifecycle)
    → (track name s).0 ≡ ok tt
    → is_some (Dict.get (track name s).1.records name) ≡ true
unfolding track
track_ok name s h = ground (arith, get-put s.records name name (new_record name), eq_refl name)
