-- ===== src/Prelude/Json.antt =====
-- The values of `json.loads`: what `params`, `result` and event payloads hold. The program looks at
-- a float only to reject it or to pass it on, so a float is kept as the text of its literal.
use Prim.Native.String.{String}
use mathlib.Core.Path.{◌≡◌}
use mathlib.Core.Bool.{Bool}
use mathlib.Core.Option.{Option, none, some}
use mathlib.Core.List.{List, [], ◌∷◌}
use native.Mathlib.Omega.{arith}
use text.Mathlib.Text.{◌==◌ as str_eq}
use text.Mathlib.TextEquality.{eq_iff}
use macbastion.Prelude.Tests.{if◌then◌else◌}
use macbastion.Prelude.Int.{ℤ}

mutual
  pub data Json : Type 0 where
    null : Json
    bool : Bool → Json
    int : ℤ → Json
    float : String → Json
    str : String → Json
    arr : Items → Json
    obj : Fields → Json

  pub data Items : Type 0 where
    nil : Items
    cons : Json → Items → Items

  pub data Fields : Type 0 where
    end : Fields
    field : String → Json → Fields → Fields

-- `params.get(key)`
unfoldable pub get_field : Fields → String → Option Json
get_field end k = none
get_field (field j v fs) k = if str_eq j k then some v else get_field fs k

-- `{k: v for k, v in params.items() if k != key}`
unfoldable pub drop_field : Fields → String → Fields
drop_field end k = end
drop_field (field j v fs) k =
    let rest = drop_field fs k in if str_eq j k then rest else field j v rest

-- a list of texts as a JSON array
unfoldable pub str_items : List String → Items
str_items [] = nil
str_items (x ∷ xs) = cons (str x) (str_items xs)

pub get_field-drop_field :
    (fs : Fields) (k j : String)
    → get_field (drop_field fs k) j ≡ (if str_eq k j then none else get_field fs j)
unfolding get_field drop_field
get_field-drop_field end k j = ground arith
get_field-drop_field (field i v fs) k j =
    ground (arith, eq_iff k j, eq_iff i k, eq_iff i j, get_field-drop_field fs k j)
