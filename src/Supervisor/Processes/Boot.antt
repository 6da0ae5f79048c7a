-- ===== src/Supervisor/Processes/Boot.antt =====
-- What `up` launches, where it stops, and which modules it gives up.
use macbastion.Prelude.{
  ℕ, zero, suc, ◌+◌, String, Bool, true, false, ◌||◌, ◌≡◌, refl, sym, ap, ◌∙◌, inl, inr, Bool-cases,
  Option, none, some, List, [], ◌∷◌, ◌++◌, arith, length, any, not, is_some, keep_if, if◌then◌else◌,
}
use mathlib.Core.Path.{subst, subst⁻¹}
use macbastion.Errors.{os_error}
use macbastion.Exec.{Result, ok, err, continue, if_rule}
use macbastion.Supervisor.{ModuleSpec, topological_waves}
use macbastion.Supervisor.Processes.{
  Supervisor, spawn, launched_as, await_registered, launch_wave, await_wave, up_waves, up,
}

-- `xs` pushed one by one on `acc`
abbrev pub push_all : List String → List String → List String
push_all [] acc = acc
push_all (x ∷ xs) acc = push_all xs (x ∷ acc)

push_all-append :
    (xs ys acc : List String) → push_all (xs ++ ys) acc ≡ push_all ys (push_all xs acc)
push_all-append [] ys acc = refl
push_all-append (x ∷ xs) ys acc = push_all-append xs ys (x ∷ acc)

-- `i`, `i + 1`, ... of `n` polls
abbrev pub polls : ℕ → ℕ → List ℕ
polls i zero = []
polls i (suc n) = i ∷ polls (suc i) n

await_registered_lem :
    (steps : ℕ) (answers : ℕ → Bool) (i : ℕ)
    → await_registered steps answers i ≡ any answers (polls i (suc steps))
unfolding await_registered
await_registered_lem zero answers i = ground arith
await_registered_lem (suc steps) answers i =
    ground (arith, await_registered_lem steps answers (suc i))

-- the specs that the supervisor launches itself
abbrev pub own : List ModuleSpec → List ModuleSpec
own specs = keep_if (λ (s : ModuleSpec). not s.external) specs

-- the names of those that core launches itself and that are registered at none of the polls
abbrev pub silent : ℕ → (String → ℕ → Bool) → List ModuleSpec → List String
silent steps answers [] = []
silent steps answers (s ∷ specs) =
    let rest = silent steps answers specs in
    if s.external || any (answers s.name) (polls 0 (suc steps)) then rest else s.name ∷ rest

abbrev pub over_waves {ℓ} :
    {A : Type ℓ} → (List ModuleSpec → List A) → List (List ModuleSpec) → List A
over_waves f [] = []
over_waves f (w ∷ waves) = f w ++ over_waves f waves

abbrev booted :
    ModuleSpec → Option String → List String × Option String → List String × Option String
booted spec none (names, reason) = (spec.name ∷ names, reason)
booted spec (some reason) rest = ([], some reason)

-- Which of the specs get launched, one call after the other from the n-th on, and the failure that ends
-- this, if there is one.
abbrev pub boots :
    (ModuleSpec → ℕ → Option String) → ℕ → List ModuleSpec → List String × Option String
boots failure n [] = ([], none)
boots failure n (spec ∷ specs) = booted spec (failure spec n) (boots failure (n + 1) specs)

abbrev outcome : Option String → Result (Unit {0})
outcome none = ok tt
outcome (some reason) = err (os_error reason)

-- what launching leaves of the supervisor
record Launched (s : Supervisor) (b : List String × Option String)
    (p : Result (Unit {0}) × Supervisor) : Type 0 where
  answer : p.0 ≡ outcome b.1
  spawned : p.1.spawned ≡ push_all b.0 s.spawned
  given_up : p.1.failed_names ≡ s.failed_names
  failure : p.1.launch_error ≡ s.launch_error
  calls : p.1.next_proc ≡ s.next_proc + length b.0 + (if is_some b.1 then 1 else 0)

launch_wave-Launched :
    (wave : List ModuleSpec) (s : Supervisor)
    → Launched s (boots s.launch_error s.next_proc (own wave)) (launch_wave wave s)
unfolding launch_wave spawn
launch_wave-Launched [] s = record {
  answer = refl;
  spawned = refl;
  given_up = refl;
  failure = refl;
  calls = omega arith;
}
launch_wave-Launched (spec ∷ wave) s = by_agent (launch_wave-Launched wave) spec.external
  where
    by_launch :
        ((t : Supervisor)
          → Launched t (boots t.launch_error t.next_proc (own wave)) (launch_wave wave t))
        → (o : Option String)
        → Launched s
            (booted spec o (boots s.launch_error (s.next_proc + 1) (own wave)))
            (let (r, t) = launched_as spec o s in continue r t (λ u. launch_wave wave))
    by_launch ih none =
        let rest = ih (launched_as spec none s).1 in
        record {
          answer = rest.answer;
          spawned = rest.spawned;
          given_up = rest.given_up;
          failure = rest.failure;
          calls = ground (arith, rest.calls);
        }
    by_launch ih (some reason) = record {
      answer = refl;
      spawned = refl;
      given_up = refl;
      failure = refl;
      calls = omega arith;
    }

    by_agent :
        ((t : Supervisor)
          → Launched t (boots t.launch_error t.next_proc (own wave)) (launch_wave wave t))
        → (b : Bool)
        → Launched s
            (boots s.launch_error s.next_proc (if not b then spec ∷ own wave else own wave))
            (if b
              then launch_wave wave s
              else (let (r, t) = spawn spec s in continue r t (λ u. launch_wave wave)))
    by_agent ih true = ih s
    by_agent ih false = by_launch ih (s.launch_error spec s.next_proc)

await_wave_lem :
    (steps : ℕ) (answers : String → ℕ → Bool) (wave : List ModuleSpec) (s : Supervisor)
    → ((await_wave steps answers wave s).failed_names
        ≡ push_all (silent steps answers wave) s.failed_names)
      × ((await_wave steps answers wave s).spawned ≡ s.spawned)
unfolding await_wave
await_wave_lem steps answers [] s = (refl, refl)
await_wave_lem steps answers (spec ∷ wave) s = elim (Bool-cases spec.external) [
  | inl e ↦ rw (e, await_wave, silent) (await_wave_lem steps answers wave s)
  | inr e ↦ elim (Bool-cases (any (answers spec.name) (polls 0 (suc steps)))) [
    | inl f ↦
        rw (e, await_wave, silent, await_registered_lem steps (answers spec.name) 0, f)
          (await_wave_lem steps answers wave s)
    | inr f ↦
        rw (e, await_wave, silent, await_registered_lem steps (answers spec.name) 0, f)
          (await_wave_lem steps answers wave
            (record s { failed_names = spec.name ∷ s.failed_names }))
  ]
]

abbrev AsBefore : Supervisor → Supervisor → Type 0
AsBefore s t = (t.launch_error ≡ s.launch_error) × (t.next_proc ≡ s.next_proc)

await_wave-keeps :
    (steps : ℕ) (answers : String → ℕ → Bool) (wave : List ModuleSpec) (s : Supervisor)
    → AsBefore s (await_wave steps answers wave s)
unfolding await_wave
await_wave-keeps steps answers [] s = (refl, refl)
await_wave-keeps steps answers (spec ∷ wave) s =
    let given_up =
      if_rule (AsBefore s) spec.external _ _ (λ _. (refl, refl))
        (λ _.
          if_rule (AsBefore s) (await_registered steps (answers spec.name) 0) _ _
            (λ _. (refl, refl)) (λ _. (refl, refl))) in
    let rest = await_wave-keeps steps answers wave _ in (rest.0 ∙ given_up.0, rest.1 ∙ given_up.1)

chained : List String × Option String → List String × Option String → List String × Option String
chained (names, none) (names', reason) = (names ++ names', reason)
chained (names, some reason) rest = (names, some reason)

booted-chained :
    (x : ModuleSpec) (p q : List String × Option String)
    → booted x none (chained p q) ≡ chained (booted x none p) q
unfolding chained
booted-chained x (names, none) q = refl
booted-chained x (names, some reason) q = refl

boots-append :
    (failure : ModuleSpec → ℕ → Option String) (n : ℕ) (xs ys : List ModuleSpec)
    → boots failure n (xs ++ ys)
      ≡ (let first = boots failure n xs in chained first (boots failure (n + length first.0) ys))
unfolding chained
boots-append failure n [] ys =
    let same : n ≡ n + 0 = omega arith in ap (λ m. chained ([], none) (boots failure m ys)) same
boots-append failure n (x ∷ xs) ys = by_launch (boots-append failure (n + 1) xs ys) (failure x n)
  where
    by_launch :
        (boots failure (n + 1) (xs ++ ys) ≡ (
          let first = boots failure (n + 1) xs in
          chained first (boots failure (n + 1 + length first.0) ys)))
        → (o : Option String)
        → booted x o (boots failure (n + 1) (xs ++ ys)) ≡ (
            let first = booted x o (boots failure (n + 1) xs) in
            chained first (boots failure (n + length first.0) ys))
    by_launch ih none =
        let first = boots failure (n + 1) xs in
        let shift : n + 1 + length first.0 ≡ n + suc (length first.0) = omega arith in
        ap (booted x none) ih
        ∙ booted-chained x first _
        ∙ ap (λ m. chained (booted x none first) (boots failure m ys)) shift
    by_launch ih (some reason) = refl

-- a launch that fails ends `up`, whatever modules were given up by then; else those given up are `names`
abbrev GaveUp : Option String → List String → List String → List String → Type 0
GaveUp none names before after = after ≡ push_all names before
GaveUp (some reason) names before after = Unit

GaveUp-more :
    (o : Option String) (first names before between after : List String)
    → between ≡ push_all first before
    → GaveUp o names between after
    → GaveUp o (first ++ names) before after
GaveUp-more none first names before between after e h =
    h ∙ ap (push_all names) e ∙ sym (push_all-append first names before)
GaveUp-more (some reason) first names before between after e h = tt

-- What `up` returns and leaves, for the launches and their end, and the names of silent modules.
pub record Booted (s : Supervisor) (b : List String × Option String) (names : List String)
    (p : Result (Unit {0}) × Supervisor) : Type 0 where
  pub answer : p.0 ≡ outcome b.1
  pub spawned : p.1.spawned ≡ push_all b.0 s.spawned
  pub given_up : GaveUp b.1 names s.failed_names p.1.failed_names

module _ (steps : ℕ) (answers : String → ℕ → Bool) where
  -- the waves that follow one that was launched
  after_wave :
      (w specs : List ModuleSpec) (names : List String) (s : Supervisor)
      (next : Supervisor → Result (Unit {0}) × Supervisor)
      → ((t : Supervisor) → Booted t (boots t.launch_error t.next_proc specs) names (next t))
      → (launched : List String) (o : Option String) (r : Result (Unit {0})) (t : Supervisor)
      → Launched s (launched, o) (r, t)
      → Booted s
          (chained (launched, o) (boots s.launch_error (s.next_proc + length launched) specs))
          (silent steps answers w ++ names)
          (continue r t (λ u t. next (await_wave steps answers w t)))
  unfolding chained
  after_wave w specs names s next ih launched none (ok u) t l =
      let t' = await_wave steps answers w t in
      let (given_up, spawned) = await_wave_lem steps answers w t in
      let (failure, calls) = await_wave-keeps steps answers w t in
      let n : t'.next_proc ≡ s.next_proc + length launched = ground (arith, calls, l.calls) in
      let rest : Booted t' (boots s.launch_error (s.next_proc + length launched) specs) names
          (next t') =
        subst (λ m. Booted t' (boots s.launch_error m specs) names (next t')) n
          (subst (λ f. Booted t' (boots f t'.next_proc specs) names (next t')) (failure ∙ l.failure)
            (ih t')) in
      record {
        answer = rest.answer;
        spawned =
            rest.spawned
            ∙ ap (push_all (boots s.launch_error (s.next_proc + length launched) specs).0)
                (spawned ∙ l.spawned)
            ∙ sym (push_all-append launched _ s.spawned);
        given_up =
            GaveUp-more _ (silent steps answers w) names s.failed_names t'.failed_names _
              (given_up ∙ ap (push_all (silent steps answers w)) l.given_up) rest.given_up;
      }
  after_wave w specs names s next ih launched none (err x) t l = absurd (ground (arith, l.answer))
  after_wave w specs names s next ih launched (some reason) (ok u) t l =
      absurd (ground (arith, l.answer))
  after_wave w specs names s next ih launched (some reason) (err x) t l = record {
    answer = l.answer;
    spawned = l.spawned;
    given_up = tt;
  }

  up_waves-Booted :
      (waves : List (List ModuleSpec)) (s : Supervisor)
      → Booted s
          (boots s.launch_error s.next_proc (over_waves own waves))
          (over_waves (silent steps answers) waves)
          (up_waves steps answers waves s)
  unfolding up_waves
  up_waves-Booted [] s = record { answer = refl; spawned = refl; given_up = refl }
  up_waves-Booted (w ∷ waves) s =
      let first = boots s.launch_error s.next_proc (own w) in
      let launch = launch_wave w s in
      subst⁻¹
        (λ b.
          Booted s b (over_waves (silent steps answers) (w ∷ waves))
            (up_waves steps answers (w ∷ waves) s))
        (boots-append s.launch_error s.next_proc (own w) (over_waves own waves))
        (after_wave w (over_waves own waves) (over_waves (silent steps answers) waves) s
          (up_waves steps answers waves) (up_waves-Booted waves) first.0 first.1 launch.0 launch.1
          (launch_wave-Launched w s))

  -- Where the specs can be put in waves, `up` launches the modules that have no agent of their own, wave
  -- after wave, each by one call, until a launch fails, whose `OSError` it raises; nothing after that is
  -- launched. Where none fails it returns, all of these modules are launched, and no other, and it has
  -- marked as failed those of them that were registered at none of the polls, `steps` + 1 for each.
  pub up_lem :
      (s : Supervisor) (waves : List (List ModuleSpec))
      → topological_waves s.specs ≡ ok waves
      → Booted s
          (boots s.launch_error s.next_proc (over_waves own waves))
          (over_waves (silent steps answers) waves)
          (up steps answers s)
  unfolding up
  up_lem s waves h = rw (up, h) (up_waves-Booted waves s)
