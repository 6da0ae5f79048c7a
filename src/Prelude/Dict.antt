-- ===== src/Prelude/Dict.antt =====
-- Python's `dict` with text keys, in insertion order: `d[k] = v` on a present key keeps its place.
use Prim.Native.String.{String}
use mathlib.Core.Path.{◌≡◌, refl}
use mathlib.Core.Option.{Option, none, some}
use mathlib.Core.List.{List, [], ◌∷◌}
use native.Mathlib.Omega.{arith}
use text.Mathlib.Text.{◌==◌ as str_eq}
use text.Mathlib.TextEquality.{eq_iff}
use macbastion.Prelude.Tests.{if◌then◌else◌, is_some}
use macbastion.Prelude.Text.{mem_str}

abbrev pub Dict {ℓ} : Type ℓ → Type ℓ
Dict V = List (String × V)

module _ {ℓ} {V : Type ℓ} where
  -- `d.get(k)`
  unfoldable pub get : Dict V → String → Option V
  get [] k = none
  get ((j, v) ∷ d) k = if str_eq j k then some v else get d k

  -- `d[k] = v`
  unfoldable pub put : Dict V → String → V → Dict V
  put [] k v = (k, v) ∷ []
  put ((j, w) ∷ d) k v = if str_eq j k then (j, v) ∷ d else (j, w) ∷ put d k v

  -- `d.pop(k, None)`, `del d[k]`
  unfoldable pub remove : Dict V → String → Dict V
  remove [] k = []
  remove ((j, w) ∷ d) k = let rest = remove d k in if str_eq j k then rest else (j, w) ∷ rest

  -- `list(d)`
  unfoldable pub keys : Dict V → List String
  keys [] = []
  keys ((j, _) ∷ d) = j ∷ keys d

  pub get-put :
      (d : Dict V) (k j : String) (v : V)
      → get (put d k v) j ≡ (if str_eq k j then some v else get d j)
  unfolding get put
  get-put [] k j v = refl
  get-put ((i, w) ∷ d) k j v = ground (arith, eq_iff k j, eq_iff i k, eq_iff i j, get-put d k j v)

  pub get-remove :
      (d : Dict V) (k j : String) → get (remove d k) j ≡ (if str_eq k j then none else get d j)
  unfolding get remove
  get-remove [] k j = ground arith
  get-remove ((i, w) ∷ d) k j = ground (arith, eq_iff k j, eq_iff i k, eq_iff i j, get-remove d k j)

  -- a key is listed exactly when it is present
  pub mem_str-keys : (d : Dict V) (k : String) → mem_str k (keys d) ≡ is_some (get d k)
  unfolding get keys
  mem_str-keys [] k = refl
  mem_str-keys ((i, w) ∷ d) k = ground (arith, mem_str-keys d k)

pub ruleset dict_laws = (get-put, get-remove)
