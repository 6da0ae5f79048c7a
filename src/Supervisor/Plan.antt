-- ===== src/Supervisor/Plan.antt =====
-- The plan that `topological_waves` gives for a list of specs.
use macbastion.Prelude.{
  suc, String, Bool, true, false, not, ◌≡◌, refl, ap, ◌∙◌, ◌⊎◌, inl, inr, Option, none, some, List,
  [], ◌∷◌, arith, str_eq, eq_iff, length, keep_if, any, is_some, map, Bool-cases, Option-cases,
}
use mathlib.Core.Path.{subst}
use text.Mathlib.TextPositions.{eq_refl}
use macbastion.Prelude.Text.{mem_str}
use macbastion.Prelude.Dict
use macbastion.Prelude.Dict.{Dict, mem_str-keys}
use macbastion.Errors.{Exn, value_error}
use macbastion.Exec.{Result, ok, err}
use macbastion.Supervisor.{
  ModuleSpec, by_name, deps_of, first_unknown, unknown_dep, specs_of, plan_result,
  topological_waves,
}
use macbastion.Supervisor.Waves.{
  IsOrdered, IsCycle, IsClosed, Goal, Stuck, mem_str-keep_if, waves_from-Goal, waves_from-Stuck,
}

abbrev is_unknown : Dict ModuleSpec → String → Bool
is_unknown d k = not (is_some (Dict.get d k))

first_unknown-none :
    (name : String) (l : List String) (rest : Option (String × String))
    → first_unknown name l rest ≡ none
    → (l ≡ []) × (rest ≡ none)
first_unknown-none name [] rest h = (refl, h)
first_unknown-none name (k ∷ l) rest h = ground arith

unknown_dep-none :
    (d : Dict ModuleSpec) (names : List String) (k e : String)
    → unknown_dep d names ≡ none
    → mem_str k names ≡ true
    → mem_str e (deps_of d k) ≡ true
    → is_some (Dict.get d e) ≡ true
unfolding unknown_dep
unknown_dep-none d [] k e u m i = ground arith
unknown_dep-none d (n ∷ names) k e u m i =
    let (empty, rest) =
      first_unknown-none n (keep_if (is_unknown d) (deps_of d n)) (unknown_dep d names) u in
    elim (Bool-cases (str_eq n k)) [
      | inl same ↦
          let at_k : keep_if (is_unknown d) (deps_of d k) ≡ [] =
            subst (λ x. keep_if (is_unknown d) (deps_of d x) ≡ []) ((eq_iff n k).0 same) empty in
          ground (arith, mem_str-keep_if (is_unknown d) e (deps_of d k), ap (mem_str e) at_k)
      | inr other ↦ unknown_dep-none d names k e rest (ground arith) i
    ]

-- a module with a dependency that no spec declares
abbrev pub Unknown : Dict ModuleSpec → Type 0
Unknown d =
    (k : String) × (e : String) × (mem_str e (deps_of d k) ≡ true)
    × (is_some (Dict.get d e) ≡ false)

first_unknown-some :
    (d : Dict ModuleSpec) (name : String) (l : List String) (rest : Option (String × String))
    (p : String × String)
    → ((e : String)
        → mem_str e l ≡ true
        → (is_unknown d e ≡ true) × (mem_str e (deps_of d name) ≡ true))
    → (rest ≡ some p → Unknown d)
    → first_unknown name l rest ≡ some p
    → Unknown d
first_unknown-some d name [] rest p inside later h = later h
first_unknown-some d name (k ∷ l) rest p inside later h =
    let (out, i) = inside k (ground (arith, eq_refl k)) in (name, k, i, ground arith)

unknown_dep-some :
    (d : Dict ModuleSpec) (names : List String) (p : String × String)
    → unknown_dep d names ≡ some p
    → Unknown d
unfolding unknown_dep
unknown_dep-some d [] p u = ground arith
unknown_dep-some d (n ∷ names) p u =
    first_unknown-some d n (keep_if (is_unknown d) (deps_of d n)) (unknown_dep d names) p
      (λ e m. ground (arith, mem_str-keep_if (is_unknown d) e (deps_of d n)))
      (unknown_dep-some d names p) u

-- waves as they should be, or a refusal with its reason
abbrev pub IsPlan : Dict ModuleSpec → Result (List (List ModuleSpec)) → Type 0
IsPlan d r =
    ((waves : List (List String)) × (r ≡ ok (map (specs_of d) waves))
      × IsOrdered d [] waves
      × ((k : String) → any (mem_str k) waves ≡ is_some (Dict.get d k)))
    ⊎ ((x : Exn) × (r ≡ err x) × (Unknown d ⊎ ((names : List String) × IsCycle d names)))

plan_result-IsPlan :
    (d : Dict ModuleSpec) (plan : List (List String) ⊎ List String)
    → Goal d [] (Dict.keys d) plan
    → Stuck d plan
    → IsPlan d (plan_result d plan)
plan_result-IsPlan d (inl waves) (ordered, covers) s =
    inl (waves, refl, ordered, λ k. covers k ∙ mem_str-keys d k)
plan_result-IsPlan d (inr cycle) g s = inr (_, refl, inr (cycle, s))

-- The specs are put in waves in which each module follows all that it depends on, every declared
-- module is in a wave and none in two; or they are refused, and then a declared module depends on one
-- that no spec declares, or some modules depend on one another in a circle.
pub topological_waves-IsPlan :
    (specs : List ModuleSpec) → IsPlan (by_name specs []) (topological_waves specs)
unfolding topological_waves
topological_waves-IsPlan specs =
    let d = by_name specs [] in
    elim (Option-cases (unknown_dep d (Dict.keys d))) [
      | inr (p, u) ↦ inr (
        value_error "unknown dependency",
        rw (topological_waves, u) refl,
        inl (unknown_dep-some d (Dict.keys d) p u),
      )
      | inl u ↦
          let closed : IsClosed d [] (Dict.keys d) = record {
            at = λ k e m i. mem_str-keys d e ∙ unknown_dep-none d (Dict.keys d) k e u m i;
          } in
          rw (topological_waves, u)
            (plan_result-IsPlan d _ (waves_from-Goal _ d [] (Dict.keys d)) (
              waves_from-Stuck (suc (length (Dict.keys d))) d [] (Dict.keys d) (omega arith)
                closed))
    ]
