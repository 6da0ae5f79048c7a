-- ===== src/Supervisor/Waves.antt =====
-- The waves of chimera/core/supervisor.py: their order, and what a refusal shows.
use macbastion.Prelude.{
  ℕ, zero, suc, ◌<◌, String, Bool, true, false, not, ◌&&◌, ◌||◌, ◌≡◌, refl, sym, ap, ◌∙◌, ◌⊎◌, inl,
  inr, List, [], ◌∷◌, ◌++◌, arith, str_eq, eq_iff, length, all, keep_if, any, Bool-cases,
  length-keep_if-le,
}
use text.Mathlib.TextPositions.{eq_refl}
use macbastion.Prelude.Text.{mem_str, sorted_set, mem_str-sorted_set}
use macbastion.Prelude.Dict.{Dict}
use macbastion.Supervisor.{ModuleSpec, deps_of, is_ready, next_wave, waves_from}

pub mem_str-keep_if :
    (test : String → Bool) (k : String) (xs : List String)
    → mem_str k (keep_if test xs) ≡ (test k && mem_str k xs)
mem_str-keep_if test k [] = ground arith
mem_str-keep_if test k (x ∷ xs) = elim (Bool-cases (str_eq x k)) [
  | inl e ↦
      let same : test x ≡ test k = ap test ((eq_iff x k).0 e) in
      ground (arith, mem_str-keep_if test k xs)
  | inr e ↦ ground (arith, mem_str-keep_if test k xs)
]

-- a name that is dropped makes the list shorter
length-keep_if-lt :
    (test : String → Bool) (k : String) (xs : List String)
    → test k ≡ false
    → mem_str k xs ≡ true
    → length (keep_if test xs) < length xs
length-keep_if-lt test k [] f m = ground arith
length-keep_if-lt test k (x ∷ xs) f m = elim (Bool-cases (str_eq x k)) [
  | inl e ↦
      let same : test x ≡ test k = ap test ((eq_iff x k).0 e) in
      ground (arith, length-keep_if-le test xs)
  | inr e ↦ ground (arith, length-keep_if-lt test k xs f (ground arith))
]

mem_str-append :
    (k : String) (xs ys : List String) → mem_str k (xs ++ ys) ≡ (mem_str k xs || mem_str k ys)
mem_str-append k [] ys = refl
mem_str-append k (x ∷ xs) ys = ground (arith, mem_str-append k xs ys)

-- Each wave holds modules whose dependencies are all in `done` or in earlier waves, and no module of
-- a wave comes again in a later one.
unfoldable pub IsOrdered : Dict ModuleSpec → List String → List (List String) → Type 0
IsOrdered d done [] = Unit {0}
IsOrdered d done (w ∷ waves) =
    ((k : String) → mem_str k w ≡ true → is_ready d done k ≡ true)
    × ((k : String) → mem_str k w ≡ true → any (mem_str k) waves ≡ false)
    × IsOrdered d (w ++ done) waves

-- the waves, or what is left on a cycle, of a plan
abbrev pub Goal :
    Dict ModuleSpec → List String → List String → List (List String) ⊎ List String → Type 0
Goal d done remaining (inl waves) =
    IsOrdered d done waves × ((k : String) → any (mem_str k) waves ≡ mem_str k remaining)
Goal d done remaining (inr cycle) = Unit

next_wave-Goal :
    (d : Dict ModuleSpec) (done remaining ready : List String)
    (later : List (List String) ⊎ List String)
    → ((k : String) → mem_str k ready ≡ (is_ready d done k && mem_str k remaining))
    → Goal d (ready ++ done) (keep_if (λ k. not (is_ready d done k)) remaining) later
    → Goal d done remaining (next_wave remaining ready later)
unfolding IsOrdered
next_wave-Goal d done remaining [] later r h = tt
next_wave-Goal d done remaining (x ∷ ready) (inr cycle) r h = tt
next_wave-Goal d done remaining (x ∷ ready) (inl waves) r (ordered, covers) = (
  (
    λ k m. ground (arith, r k),
    λ k m.
        ground (arith, r k, covers k, mem_str-keep_if (λ k. not (is_ready d done k)) k remaining),
    ordered,
  ),
  λ k. ground (arith, r k, covers k, mem_str-keep_if (λ k. not (is_ready d done k)) k remaining),
)

pub waves_from-Goal :
    (fuel : ℕ) (d : Dict ModuleSpec) (done remaining : List String)
    → Goal d done remaining (waves_from fuel d done remaining)
unfolding waves_from IsOrdered
waves_from-Goal zero d done remaining = tt
waves_from-Goal (suc fuel) d done [] = (tt, λ k. refl)
waves_from-Goal (suc fuel) d done (n ∷ ns) =
    let ready = sorted_set (keep_if (is_ready d done) (n ∷ ns)) in
    let rest = keep_if (λ k. not (is_ready d done k)) (n ∷ ns) in
    next_wave-Goal d done (n ∷ ns) ready (waves_from fuel d (ready ++ done) rest)
      (λ k. mem_str-sorted_set k _ ∙ mem_str-keep_if (is_ready d done) k (n ∷ ns))
      (waves_from-Goal fuel d (ready ++ done) rest)

-- Names of which each depends on one of them.
pub record IsCycle (d : Dict ModuleSpec) (names : List String) : Type 0 where
  pub some_name : (k : String) × (mem_str k names ≡ true)
  pub each :
      (k : String)
      → mem_str k names ≡ true
      → (e : String) × (mem_str e (deps_of d k) ≡ true) × (mem_str e names ≡ true)

-- Every dependency of a name that remains is done or remains.
pub record IsClosed (d : Dict ModuleSpec) (done remaining : List String) : Type 0 where
  pub at :
      (k e : String)
      → mem_str k remaining ≡ true
      → mem_str e (deps_of d k) ≡ true
      → (mem_str e done || mem_str e remaining) ≡ true

-- a text of a list that is not in another
missing :
    (done xs : List String)
    → all (λ k. mem_str k done) xs ≡ false
    → (e : String) × (mem_str e xs ≡ true) × (mem_str e done ≡ false)
missing done [] h = ground arith
missing done (x ∷ xs) h = elim (Bool-cases (mem_str x done)) [
  | inl m ↦ let (e, i, o) = missing done xs (ground arith) in (e, ground arith, o)
  | inr m ↦ (x, ground (arith, eq_refl x), m)
]

abbrev pub Stuck : Dict ModuleSpec → List (List String) ⊎ List String → Type 0
Stuck d (inl waves) = Unit
Stuck d (inr cycle) = IsCycle d cycle

next_wave-Stuck :
    (d : Dict ModuleSpec) (done : List String) (n : String) (ns ready : List String)
    (later : List (List String) ⊎ List String)
    → ((k : String) → mem_str k ready ≡ (is_ready d done k && mem_str k (n ∷ ns)))
    → IsClosed d done (n ∷ ns)
    → ((x : String) → mem_str x ready ≡ true → Stuck d later)
    → Stuck d (next_wave (n ∷ ns) ready later)
next_wave-Stuck d done n ns [] later r c h = record {
  some_name = (n, mem_str-sorted_set n (n ∷ ns) ∙ ground (arith, eq_refl n));
  each = λ k m.
      let k_left : mem_str k (n ∷ ns) ≡ true = sym (mem_str-sorted_set k (n ∷ ns)) ∙ m in
      let (e, i, o) = missing done (deps_of d k) (ground (arith, r k)) in
      (e, i, mem_str-sorted_set e (n ∷ ns) ∙ ground (arith, c.at k e k_left i));
}
next_wave-Stuck d done n ns (x ∷ ready) (inl waves) r c h = tt
next_wave-Stuck d done n ns (x ∷ ready) (inr cycle) r c h = h x (ground (arith, eq_refl x))

pub waves_from-Stuck :
    (fuel : ℕ) (d : Dict ModuleSpec) (done remaining : List String)
    → length remaining < fuel
    → IsClosed d done remaining
    → Stuck d (waves_from fuel d done remaining)
unfolding waves_from
waves_from-Stuck zero d done remaining lt c = absurd (ground arith)
waves_from-Stuck (suc fuel) d done [] lt c = tt
waves_from-Stuck (suc fuel) d done (n ∷ ns) lt c =
    let ready = sorted_set (keep_if (is_ready d done) (n ∷ ns)) in
    let rest = keep_if (λ k. not (is_ready d done k)) (n ∷ ns) in
    let r : (k : String) → mem_str k ready ≡ (is_ready d done k && mem_str k (n ∷ ns)) =
      λ k. mem_str-sorted_set k _ ∙ mem_str-keep_if (is_ready d done) k (n ∷ ns) in
    next_wave-Stuck d done n ns ready (waves_from fuel d (ready ++ done) rest) r c (λ x m.
      let shorter : length rest < length (n ∷ ns) =
        length-keep_if-lt (λ k. not (is_ready d done k)) x (n ∷ ns) (ground (arith, r x))
          (ground (arith, r x)) in
      waves_from-Stuck fuel d (ready ++ done) rest (omega (arith, shorter, lt)) (record {
        at = λ k e k_left i. ground (
          arith,
          mem_str-append e ready done,
          r e,
          c.at k e,
          mem_str-keep_if (λ k. not (is_ready d done k)) k (n ∷ ns),
          mem_str-keep_if (λ k. not (is_ready d done k)) e (n ∷ ns),
        );
      }))
