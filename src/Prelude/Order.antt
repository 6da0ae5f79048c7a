-- ===== src/Prelude/Order.antt =====
-- The order of SQLite and of Python on texts, by code points.
use Prim.Native.Nat.{Ordering}
use Prim.Native.Char.{Char, code}
use Prim.Native.String.{String}
use Prim.Native.String.compare
use Prim.Native.String.{compare}
use mathlib.Core.Path.{◌≡◌}
use mathlib.Core.Bool.{Bool, true, false, not, ◌&&◌, ◌||◌}
use native.Mathlib.Omega.{arith}
use macbastion.Prelude.Tests.{ltb, ◌==◌}

-- `s < t`
abbrev pub before : String → String → Bool
before s t = elim (compare s t) [ Ordering.lt ↦ true | _ ↦ false ]

-- `t >= s`
abbrev pub from : String → String → Bool
from s t = not (before t s)

module _ (d : Char) (t : String) where
  nil-before : before "" (String.◌∷◌ d t) ≡ true
  nil-before = rw (compare.nil-cons d t, before)

  before-nil : before (String.◌∷◌ d t) "" ≡ false
  before-nil = rw (compare.cons-nil d t, before)

  before-cons :
      (e : Char) (u : String)
      → before (String.◌∷◌ d t) (String.◌∷◌ e u)
        ≡ (ltb (code d) (code e) || (code d == code e && before t u))
  before-cons e u = rw (compare.cons-cons d e t u, before) (ground arith)

not-before-nil : (s : String) → before s "" ≡ true → ⊥
not-before-nil String.[] p = ground (arith, compare.nil-nil)
not-before-nil (String.◌∷◌ c s) p = ground (arith, before-nil c s)

pub before_trans : (s t u : String) → before s t ≡ true → before t u ≡ true → before s u ≡ true
before_trans String.[] t String.[] p q = absurd (not-before-nil t q)
before_trans String.[] t (String.◌∷◌ e u) p q = nil-before e u
before_trans (String.◌∷◌ c s) String.[] u p q = ground (arith, before-nil c s)
before_trans (String.◌∷◌ c s) (String.◌∷◌ d t) String.[] p q = ground (arith, before-nil d t)
before_trans (String.◌∷◌ c s) (String.◌∷◌ d t) (String.◌∷◌ e u) p q =
    ground
      (arith, before_trans s t u, before-cons c s d t, before-cons d t e u, before-cons c s e u)

-- what is below a text is below all that are from it on
pub before-from : (s t u : String) → before s t ≡ true → from t u ≡ true → before s u ≡ true
before-from s String.[] u p q = absurd (not-before-nil s p)
before-from String.[] (String.◌∷◌ d t) String.[] p q = ground (arith, nil-before d t)
before-from String.[] (String.◌∷◌ d t) (String.◌∷◌ e u) p q = nil-before e u
before-from (String.◌∷◌ c s) (String.◌∷◌ d t) String.[] p q = ground (arith, nil-before d t)
before-from (String.◌∷◌ c s) (String.◌∷◌ d t) (String.◌∷◌ e u) p q =
    ground (arith, before-from s t u, before-cons c s d t, before-cons e u d t, before-cons c s e u)
