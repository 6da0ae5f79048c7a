-- ===== src/Prelude/Text.antt =====
-- Python's `str` methods that the program uses, on the native texts. A text is its code points.
use Prim.Native.Nat.{ℕ, zero, suc, Ordering}
use Prim.Native.Char.{code}
use Prim.Native.String.{String, ◌++◌, compare}
use text.Mathlib.TextEquality.{eq_iff}
use mathlib.Core.Path.{◌≡◌, refl}
use mathlib.Core.Bool.{Bool, false, ◌||◌, ◌&&◌}
use mathlib.Core.Option.{Option, none, some}
use mathlib.Core.List.{List, [], ◌∷◌}
use text.Mathlib.Text.{◌==◌ as str_eq}
use native.Mathlib.Omega.{arith}
use macbastion.Prelude.Tests.{◌==◌, if◌then◌else◌}
pub use text.Mathlib.Text.{starts_with}

-- `a + b`
abbrev pub concat : String → String → String
concat a b = a ++ b

-- `c in s` for the character of code point `c`
abbrev pub has_char : ℕ → String → Bool
has_char c String.[] = false
has_char c (String.◌∷◌ x s) = code x == c || has_char c s

-- `s.partition(".")[0]`, which is `s.split(".", 1)[0]`
abbrev pub before_dot : String → String
before_dot String.[] = String.[]
before_dot (String.◌∷◌ x s) = if code x == b'.' then String.[] else String.◌∷◌ x (before_dot s)

-- `s.endswith(t)`
abbrev pub ends_with : String → String → Bool
ends_with String.[] t = str_eq "" t
ends_with (String.◌∷◌ x s) t = str_eq (String.◌∷◌ x s) t || ends_with s t

-- `some s[:-len(t)]` if `s.endswith(t)`
abbrev pub strip_suffix? : String → String → Option String
strip_suffix? String.[] t = if str_eq "" t then some "" else none
strip_suffix? (String.◌∷◌ x s) t =
    if str_eq (String.◌∷◌ x s) t
    then some ""
    else elim (strip_suffix? s t) [ none ↦ none | some r ↦ some (String.◌∷◌ x r) ]

-- `some s[2:]` if `s.startswith(...)` of the two characters given by their code points
abbrev pub strip_two? : ℕ → ℕ → String → Option String
strip_two? c d String.[] = none
strip_two? c d (String.◌∷◌ x String.[]) = none
strip_two? c d (String.◌∷◌ x (String.◌∷◌ y s)) = if code x == c && code y == d then some s else none

-- `s in xs`
abbrev pub mem_str : String → List String → Bool
mem_str s [] = false
mem_str s (x ∷ xs) = str_eq x s || mem_str s xs

-- `sep.join(xs)`
abbrev pub join : String → List String → String
join sep [] = ""
join sep (x ∷ []) = x
join sep (x ∷ y ∷ xs) = x ++ (sep ++ join sep (y ∷ xs))

-- `substr(s, 1, n)`
abbrev pub prefix : ℕ → String → String
prefix zero s = ""
prefix (suc n) String.[] = ""
prefix (suc n) (String.◌∷◌ x s) = String.◌∷◌ x (prefix n s)

-- `substr(s, n + 1)`
abbrev pub suffix : ℕ → String → String
suffix zero s = s
suffix (suc n) String.[] = ""
suffix (suc n) (String.◌∷◌ x s) = suffix n s

-- a text put in its place in an ascending list without repeats
abbrev pub insert_sorted : String → List String → List String
insert_sorted s [] = s ∷ []
insert_sorted s (x ∷ xs) = elim (compare s x) [
  | Ordering.lt ↦ s ∷ x ∷ xs
  | Ordering.eq ↦ x ∷ xs
  | Ordering.gt ↦ x ∷ insert_sorted s xs
]

-- `sorted(set(xs))`
unfoldable pub sorted_set : List String → List String
sorted_set [] = []
sorted_set (x ∷ xs) = insert_sorted x (sorted_set xs)

mem_str-insert_sorted :
    (k s : String) (xs : List String)
    → mem_str k (insert_sorted s xs) ≡ (str_eq s k || mem_str k xs)
mem_str-insert_sorted k s [] = refl
mem_str-insert_sorted k s (x ∷ xs) = ground (arith, mem_str-insert_sorted k s xs, eq_iff s x)

-- sorting keeps the members
pub mem_str-sorted_set : (k : String) (xs : List String) → mem_str k (sorted_set xs) ≡ mem_str k xs
unfolding sorted_set
mem_str-sorted_set k [] = refl
mem_str-sorted_set k (x ∷ xs) =
    ground (arith, mem_str-sorted_set k xs, mem_str-insert_sorted k x (sorted_set xs))
