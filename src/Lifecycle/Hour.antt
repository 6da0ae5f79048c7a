-- ===== src/Lifecycle/Hour.antt =====
-- The restart policy over time: how many restarts an hour can hold.
use mathlib.Core.Path.{subst⁻¹}
use text.Mathlib.TextPositions.{eq_refl}
use macbastion.Prelude.{
  ℕ, ◌+◌, ◌≤◌, String, Bool, true, false, ◌≡◌, refl, ◌∙◌, sym, ap, none, some, List, [], ◌∷◌, ◌++◌,
  arith, length, length-append, length-keep_if-le, leb, ltb, if◌then◌else◌,
}
use macbastion.Prelude.Dict
use macbastion.Prelude.Dict.{get-put}
use macbastion.Lifecycle.{
  starting, failed, permanently_failed, same_state, ModuleRecord, Lifecycle, write_record, restart,
  recent_restarts, transition, move,
}
use macbastion.Config.{CoreConfig}
use macbastion.Lifecycle.Budget.{last_hour, recent_restarts-hour, restart_failed}

-- the module has failed, by whatever path
abbrev fail_module : String → Lifecycle → Lifecycle
fail_module name s = elim (Dict.get s.records name) [
  | none ↦ s
  | some rec ↦ write_record name (record rec { state = failed }) s
]

abbrev is_starting : String → Lifecycle → Bool
is_starting name s = elim (Dict.get s.records name) [
  | none ↦ false
  | some rec ↦ same_state rec.state starting
]

-- The times of the restarts that are granted, behind those of `log`, where the module fails again and again
-- and a restart is asked for at each of the times.
abbrev pub granted : String → List ℕ → List ℕ → Lifecycle → List ℕ
granted name log [] s = log
granted name log (t ∷ times) s =
    let s' = (restart t name (fail_module name s)).1 in
    granted name (if is_starting name s' then log ++ t ∷ [] else log) times s'

-- times that do not fall, from the first on, up to the last
abbrev pub InOrder : ℕ → List ℕ → ℕ → Type 0
InOrder first [] last = first ≤ last
InOrder first (t ∷ times) last = (first ≤ t) × InOrder t times last

last_hour-later :
    (x t : ℕ) (times : List ℕ) → t ≤ x → last_hour x (last_hour t times) ≡ last_hour x times
last_hour-later x t [] h = refl
last_hour-later x t (u ∷ times) h = ground (arith, last_hour-later x t times h)

last_hour-append :
    (x : ℕ) (xs ys : List ℕ) → last_hour x (xs ++ ys) ≡ last_hour x xs ++ last_hour x ys
last_hour-append x [] ys = refl
last_hour-append x (t ∷ xs) ys = ground (arith, last_hour-append x xs ys)

last_hour-append_one :
    (x t : ℕ) (xs ys : List ℕ)
    → last_hour x xs ≡ last_hour x ys
    → last_hour x (xs ++ t ∷ []) ≡ last_hour x (ys ++ t ∷ [])
last_hour-append_one x t xs ys h =
    last_hour-append x xs (t ∷ [])
    ∙ ap (λ zs. zs ++ last_hour x (t ∷ [])) h
    ∙ sym (last_hour-append x ys (t ∷ []))

-- what the record of the module says of the restarts in `log`, from a time on
record Kept (name : String) (log : List ℕ) (from : ℕ) (s : Lifecycle) : Type 0 where
  rec : ModuleRecord
  found : Dict.get s.records name ≡ some rec
  few : length rec.restart_times ≤ s.config.restart_max_per_hour
  same : (x : ℕ) → from ≤ x → last_hour x log ≡ last_hour x rec.restart_times

module _ (name : String) (t : ℕ) where
  restart-config : (s : Lifecycle) → (restart t name s).1.config ≡ s.config
  unfolding restart transition move
  restart-config s = ground arith

  fail_module-eq :
      (s : Lifecycle) {rec : ModuleRecord}
      → Dict.get s.records name ≡ some rec
      → fail_module name s ≡ write_record name (record rec { state = failed }) s
  fail_module-eq s {rec} found =
      λ i. elim (found i) [ none ↦ s | some r ↦ write_record name (record r { state = failed }) s ]

  -- one failure and the restart that is asked for
  attempt-Kept :
      (log : List ℕ) (from : ℕ) (s : Lifecycle)
      → from ≤ t
      → Kept name log from s
      → let s' = (restart t name (fail_module name s)).1 in
        Kept name (if is_starting name s' then log ++ t ∷ [] else log) t s'
  attempt-Kept log from s later k =
      subst⁻¹
        (λ f.
          let s' = (restart t name f).1 in
          Kept name (if is_starting name s' then log ++ t ∷ [] else log) t s')
        (fail_module-eq s k.found)
        (by_budget
          (leb s.config.restart_max_per_hour (length (recent_restarts t k.rec.restart_times))) refl)
    where
      rec : ModuleRecord
      rec = record k.rec { state = failed }

      f : Lifecycle
      f = write_record name rec s

      s' : Lifecycle
      s' = (restart t name f).1

      found : Dict.get f.records name ≡ some rec
      found = ground (arith, get-put s.records name name rec, eq_refl name)

      recent : List ℕ
      recent = recent_restarts t k.rec.restart_times

      fewer : length recent ≤ length k.rec.restart_times
      fewer = length-keep_if-le _ k.rec.restart_times

      cap : s'.config.restart_max_per_hour ≡ s.config.restart_max_per_hour
      cap = ap (λ (c : CoreConfig). c.restart_max_per_hour) (restart-config f)

      seen : (x : ℕ) → t ≤ x → last_hour x log ≡ last_hour x recent
      seen x h =
          k.same x (omega arith)
          ∙ sym (last_hour-later x t k.rec.restart_times h)
          ∙ ap (last_hour x) (sym (recent_restarts-hour t k.rec.restart_times))

      by_budget :
          (b : Bool)
          → leb s.config.restart_max_per_hour (length recent) ≡ b
          → Kept name (if is_starting name s' then log ++ t ∷ [] else log) t s'
      by_budget true e =
          let rec' : ModuleRecord = record rec {
            state = permanently_failed;
            restart_times = recent;
          } in
          let found' : Dict.get s'.records name ≡ some rec' =
            ground (arith, e, restart_failed t name f found refl) in
          let still : is_starting name s' ≡ false = ground (arith, found') in
          subst⁻¹ (λ b. Kept name (if b then log ++ t ∷ [] else log) t s') still
            (record {
              rec = rec';
              found = found';
              few = subst⁻¹ (λ c. length recent ≤ c) cap (omega (arith, fewer, k.few));
              same = seen;
            })
      by_budget false e =
          let rec' : ModuleRecord = record rec {
            state = starting;
            restart_times = recent ++ t ∷ [];
            restart_count = rec.restart_count + 1;
          } in
          let found' : Dict.get s'.records name ≡ some rec' =
            ground (arith, e, restart_failed t name f found refl) in
          let again : is_starting name s' ≡ true = ground (arith, found') in
          subst⁻¹ (λ b. Kept name (if b then log ++ t ∷ [] else log) t s') again
            (record {
              rec = rec';
              found = found';
              few =
                  subst⁻¹ (λ c. length (recent ++ t ∷ []) ≤ c) cap
                    (ground (arith, e, length-append recent (t ∷ [])));
              same = λ x h. last_hour-append_one x t log recent (seen x h);
            })

granted-few :
    (name : String) (now from : ℕ) (times log : List ℕ) (s : Lifecycle)
    → InOrder from times now
    → Kept name log from s
    → (cap : ℕ) → s.config.restart_max_per_hour ≡ cap
    → length (last_hour now (granted name log times s)) ≤ cap
granted-few name now from [] log s h k cap e =
    let few = length-keep_if-le (λ t. ltb now (t + 3_600_000_000)) k.rec.restart_times in
    subst⁻¹ (λ ts. length ts ≤ cap) (k.same now h) (omega (arith, few, k.few, e))
granted-few name now from (t ∷ times) log s h k cap e =
    granted-few name now t times _ _ h.1 (attempt-Kept name t log from s h.0 k) cap (
      ap (λ (c : CoreConfig). c.restart_max_per_hour)
        (restart-config name t (fail_module name s)
          ∙ ap (λ (l : Lifecycle). l.config) (fail_module-eq name t s k.found))
      ∙ e)

-- However often a module fails, and at whatever times its restart is asked for, one after the other: of
-- the restarts that are granted from the start on, those of the last 3600 s before any later moment are
-- never more than the cap.
pub granted-capped :
    (name : String) (now first : ℕ) (times : List ℕ) (s : Lifecycle) (rec : ModuleRecord)
    → Dict.get s.records name ≡ some rec
    → rec.restart_times ≡ []
    → InOrder first times now
    → length (last_hour now (granted name [] times s)) ≤ s.config.restart_max_per_hour
granted-capped name now first times s rec found fresh h =
    granted-few name now first times [] s h
      (record {
        rec = rec;
        found = found;
        few = subst⁻¹ (λ ts. length ts ≤ s.config.restart_max_per_hour) fresh (omega arith);
        same = λ x l. ap (last_hour x) (sym fresh);
      })
      s.config.restart_max_per_hour refl
