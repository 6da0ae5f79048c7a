-- ===== src/Exec.antt =====
-- Methods that mutate an object and may raise. What was written before a raise stays written, so
-- the state comes back beside the exception too.
use macbastion.Prelude.{
  ◌≡◌, refl, ◌⊎◌, inl, inr, Bool, true, false, Option, none, some, if◌then◌else◌,
}
use macbastion.Errors.{Exn}

pub data Result {ℓ} (A : Type ℓ) : Type ℓ where
  ok : A → Result A
  err : Exn → Result A

abbrev pub Exec : Type 0 → Type 0 → Type 0
Exec S A = S → Result A × S

module _ {S A : Type 0} where
  abbrev pub pure : A → Exec S A
  pure a s = (ok a, s)

  abbrev pub raise : Exn → Exec S A
  raise e s = (err e, s)

  abbrev pub gets : (S → A) → Exec S A
  gets f s = (ok (f s), s)

  -- the value, or the exception that its absence raises
  abbrev pub or_raise : Option A → Exn → Exec S A
  or_raise none e s = (err e, s)
  or_raise (some a) e s = (ok a, s)

abbrev pub modify : {S : Type 0} → (S → S) → Exec S (Unit {0})
modify f s = (ok tt, f s)

-- what follows a call that left `s`
abbrev pub continue : {S A B : Type 0} → Result A → S → (A → Exec S B) → Result B × S
continue (ok a) s f = f a s
continue (err e) s f = (err e, s)

infixl 10 ◌>>=◌ ◌>>◌
abbrev pub ◌>>=◌ : {S A B : Type 0} → Exec S A → (A → Exec S B) → Exec S B
◌>>=◌ m f s = let (r, s') = m s in continue r s' f

abbrev pub ◌>>◌ : {S A B : Type 0} → Exec S A → Exec S B → Exec S B
m >> n = m >>= λ _. n

-- `try: m; except ...: handler`
abbrev pub catch : {S A : Type 0} → Exec S A → (Exn → Exec S A) → Exec S A
catch m handler s = let (r, s') = m s in elim r [ ok a ↦ (ok a, s') | err e ↦ handler e s' ]

-- what follows a computation that touches no state
abbrev pub and_then : {A B : Type 0} → Result A → (A → Result B) → Result B
and_then (ok a) f = f a
and_then (err e) f = err e

-- A method of an object that `s` holds: it runs on that object, and the object is written back.
abbrev pub within : {S T A : Type 0} → (S → T) → (S → T → S) → Exec T A → Exec S A
within view put m s = let (r, t) = m (view s) in (r, put s t)

-- The value of an option handed on, or the exception that its absence raises.
abbrev pub with_value : {S A B : Type 0} → Option A → Exn → (A → Exec S B) → Exec S B
with_value none e f s = (err e, s)
with_value (some a) e f s = f a s

-- To prove something of a branch or of a lookup, prove it of both its cases.
pub if_rule {ℓ κ} :
    {A : Type ℓ} (P : A → Type κ) (b : Bool) (x y : A)
    → (b ≡ true → P x)
    → (b ≡ false → P y)
    → P (if b then x else y)
if_rule P true x y px py = px refl
if_rule P false x y px py = py refl

pub with_value_rule {κ} :
    {S A B : Type 0} (P : Result B × S → Type κ) (o : Option A) (e : Exn) (f : A → Exec S B) (s : S)
    → P (err e, s)
    → ((a : A) → o ≡ some a → P (f a s))
    → P (with_value o e f s)
with_value_rule P none e f s absent found = absent
with_value_rule P (some a) e f s absent found = found a refl

pub Result-cases {ℓ} :
    {A : Type ℓ} (r : Result A) → ((a : A) × (r ≡ ok a)) ⊎ ((e : Exn) × (r ≡ err e))
Result-cases (ok a) = inl (a, refl)
Result-cases (err e) = inr (e, refl)

pub and_then-eq-ok :
    {A B : Type 0} (r : Result A) (f : A → Result B) (b : B)
    → and_then r f ≡ ok b
    → (a : A) × (r ≡ ok a) × (f a ≡ ok b)
and_then-eq-ok (ok a) f b h = (a, refl, h)
and_then-eq-ok (err e) f b h = cc

-- A property of the state that a method keeps, whether it returns or raises.
pub record Keeps {κ} {S A : Type 0} (P : S → Type κ) (m : Exec S A) : Type κ where
  pub at : (s : S) → P s → P (m s).1

keeps_continue {κ} :
    {S A B : Type 0} (P : S → Type κ) (r : Result A) (s : S) (f : A → Exec S B)
    → P s
    → ((a : A) → Keeps P (f a))
    → P (continue r s f).1
keeps_continue P (ok a) s f h keep = (keep a).at s h
keeps_continue P (err e) s f h keep = h

keeps_handler {κ} :
    {S A : Type 0} (P : S → Type κ) (r : Result A) (s : S) (handler : Exn → Exec S A)
    → P s
    → ((x : Exn) → Keeps P (handler x))
    → P (catch (λ _. (r, s)) handler s).1
keeps_handler P (ok a) s handler h keep = h
keeps_handler P (err e) s handler h keep = (keep e).at s h

module _ {κ} {S : Type 0} {P : S → Type κ} where
  -- a computation that reads the state
  pub Keeps-read : {A : Type 0} (r : S → Result A) → Keeps P (λ s. (r s, s))
  Keeps-read r = record { at = λ s h. h }

  pub Keeps-bind :
      {A B : Type 0} {m : Exec S A} {f : A → Exec S B}
      → Keeps P m
      → ((a : A) → Keeps P (f a))
      → Keeps P (m >>= f)
  Keeps-bind {m} {f} first then_f = record {
    at = λ s h. keeps_continue P (m s).0 (m s).1 f (first.at s h) then_f;
  }

  pub Keeps-catch :
      {A : Type 0} {m : Exec S A} {handler : Exn → Exec S A}
      → Keeps P m
      → ((x : Exn) → Keeps P (handler x))
      → Keeps P (catch m handler)
  Keeps-catch {m} {handler} first keep = record {
    at = λ s h. keeps_handler P (m s).0 (m s).1 handler (first.at s h) keep;
  }
