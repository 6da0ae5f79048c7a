-- ===== src/Supervisor.antt =====
-- chimera/core/supervisor.py: the dependency waves, the launch, the shutdown, the restart of a failed
-- module. `spawn` gives a process handle, a number; how processes answer is a parameter.
pub mod Waves
pub mod Plan
pub mod Processes
use macbastion.Prelude.{
  ℕ, zero, suc, ◌+◌, String, Bool, true, false, not, ◌&&◌, ◌||◌, ◌⊎◌, inl, inr, Option, none, some,
  List, [], ◌∷◌, ◌++◌, map, str_eq, length, any, all, keep_if, is_some, ◌==◌, if◌then◌else◌,
}
use macbastion.Prelude.Text.{concat, mem_str, sorted_set}
use macbastion.Prelude.Json.{Json, str, Fields, get_field}
use macbastion.Prelude.Dict
use macbastion.Prelude.Dict.{Dict}
use macbastion.Errors.{Exn, value_error}
use macbastion.Exec.{Result, ok, err, Exec, pure, ◌>>=◌}
use macbastion.Lifecycle.{
  ModuleState, starting, failed, state_text, same_state, Lifecycle, state_of, restart,
}

pub record ModuleSpec : Type 0 where
  pub name : String
  pub depends_on : List String
  pub python : Bool
  pub external : Bool
  pub app_bundle : Bool

abbrev plain : String → ModuleSpec
plain name = record {
  name = name;
  depends_on = [];
  python = false;
  external = false;
  app_bundle = false;
}

abbrev pub chimera_modules : List ModuleSpec
chimera_modules =
    plain "chaff"
    ∷ plain "echo"
    ∷ plain "mirror"
    ∷ plain "vault"
    ∷ record (plain "tether") { external = true; app_bundle = true }
    ∷ plain "purge"
    ∷ record (plain "oracle") { python = true }
    ∷ record (plain "pulse") { python = true }
    ∷ []

-- `{s.name: s for s in specs}`: a later spec of the same name takes the place of an earlier one
unfoldable pub by_name : List ModuleSpec → Dict ModuleSpec → Dict ModuleSpec
by_name [] d = d
by_name (s ∷ specs) d = by_name specs (Dict.put d s.name s)

-- the dependencies of a name
abbrev pub deps_of : Dict ModuleSpec → String → List String
deps_of d name = elim (Dict.get d name) [ none ↦ [] | some s ↦ s.depends_on ]

abbrev pub first_unknown :
    String → List String → Option (String × String) → Option (String × String)
first_unknown name [] rest = rest
first_unknown name (k ∷ _) rest = some (name, k)

-- the first module, and its dependency, that no spec declares
unfoldable pub unknown_dep : Dict ModuleSpec → List String → Option (String × String)
unknown_dep d [] = none
unknown_dep d (name ∷ names) =
    first_unknown name (keep_if (λ k. not (is_some (Dict.get d k))) (deps_of d name))
      (unknown_dep d names)

-- `deps[n] <= done`
abbrev pub is_ready : Dict ModuleSpec → List String → String → Bool
is_ready d done name = all (λ k. mem_str k done) (deps_of d name)

-- a wave in front of the later ones; without one, a cycle
abbrev pub next_wave :
    List String → List String → List (List String) ⊎ List String → List (List String) ⊎ List String
next_wave remaining [] later = inr (sorted_set remaining)
next_wave remaining (r ∷ ready) (inl waves) = inl ((r ∷ ready) ∷ waves)
next_wave remaining (r ∷ ready) (inr cycle) = inr cycle

-- the `while` loop: the waves of names, or the names among which there is a cycle
unfoldable pub waves_from :
    ℕ → Dict ModuleSpec → List String → List String → List (List String) ⊎ List String
waves_from zero d done remaining = inr remaining
waves_from (suc fuel) d done [] = inl []
waves_from (suc fuel) d done (n ∷ ns) =
    let ready = sorted_set (keep_if (is_ready d done) (n ∷ ns)) in
    let later =
      waves_from fuel d (ready ++ done) (keep_if (λ k. not (is_ready d done k)) (n ∷ ns)) in
    next_wave (n ∷ ns) ready later

-- the end of `topological_waves`: the specs of the names
abbrev pub specs_of : Dict ModuleSpec → List String → List ModuleSpec
specs_of d [] = []
specs_of d (n ∷ names) =
    let rest = specs_of d names in elim (Dict.get d n) [ none ↦ rest | some s ↦ s ∷ rest ]

abbrev plan_result :
    Dict ModuleSpec → List (List String) ⊎ List String → Result (List (List ModuleSpec))
plan_result d (inl waves) = ok (map (specs_of d) waves)
plan_result d (inr cycle) = err (value_error "dependency cycle")

-- `topological_waves`; what the messages of the two errors name is left out of them. A wave takes a
-- name at least, so one more unit of fuel than there are names is enough.
unfoldable pub topological_waves : List ModuleSpec → Result (List (List ModuleSpec))
topological_waves specs =
    let d = by_name specs [] in
    elim (unknown_dep d (Dict.keys d)) [
      | some _ ↦ err (value_error "unknown dependency")
      | none ↦ plan_result d (waves_from (suc (length (Dict.keys d))) d [] (Dict.keys d))
    ]
