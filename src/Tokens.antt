-- ===== src/Tokens.antt =====
-- chimera/core/tokens.py: the capability tokens. JSON with base64url, and HMAC with the key that the
-- issuer made for itself, are parameters. Times are whole seconds: `int(time.time())`, which compares
-- with a whole `exp` as the time itself does.
pub mod Validity
use macbastion.Prelude.{
  ℕ, ◌+◌, String, Bool, true, false, not, Option, none, some, List, [], ◌∷◌, str_eq, leb, ◌==◌,
  if◌then◌else◌,
}
use Prim.Native.Char.{code}
use macbastion.Prelude.Int.{ℤ, pos, leb_ℤ}
use macbastion.Prelude.Text.{concat, has_char, mem_str}
use macbastion.Prelude.Json.{
  Json, str, int, arr, obj, Items, Fields, end, field, get_field, str_items,
}
use macbastion.Registry.{texts_of}
use macbastion.Errors.{Exn, rpc_code, chimera_code, not_authorized, capability_missing}
use macbastion.Exec.{Result, ok, err}

-- What the issuer takes from Python's `json`, `base64` and `hmac`: `encode` is the unpadded base64url
-- text of the compact JSON, `decode` reads such a text back (`none` where that raises `ValueError`),
-- `sign` is the unpadded base64url text of the digest under the issuer's key.
pub record Crypto : Type 0 where
  pub encode : Fields → String
  pub decode : String → Option Json
  pub sign : String → String

-- `TokenData`
pub record TokenData : Type 0 where
  pub sub : String
  pub caps : List String
  pub iat : ℤ
  pub exp : ℤ

abbrev pub default_ttl_s : ℕ
default_ttl_s = 3600

abbrev or_default : Option ℕ → ℕ
or_default none = default_ttl_s
or_default (some ttl) = ttl

abbrev pub token_payload : String → List String → ℕ → ℕ → Fields
token_payload subject capabilities iat exp = field "sub" (str subject) (
    field "caps" (arr (str_items capabilities))
      (field "iat" (int (pos iat)) (field "exp" (int (pos exp)) end)))

-- the text in front of the first `.` and the text behind it
abbrev cut_dot : String → Option (String × String)
cut_dot String.[] = none
cut_dot (String.◌∷◌ x s) =
    if code x == b'.'
    then some ("", s)
    else elim (cut_dot s) [ none ↦ none | some (a, b) ↦ some (String.◌∷◌ x a, b) ]

-- `a, b = token.split(".")`, `none` where it raises
unfoldable pub split_pair : String → Option (String × String)
split_pair token = elim (cut_dot token) [
  | none ↦ none
  | some (a, b) ↦ if has_char b'.' b then none else some (a, b)
]

abbrev refused : {A : Type 0} → Result A
refused = err (rpc_code (chimera_code not_authorized))

-- the end of `validate`, once the fields have their types
abbrev check_claims : ℕ → String → TokenData → Result TokenData
check_claims now required t =
    if leb_ℤ t.exp (pos now)
    then refused
    else if mem_str required t.caps
    then ok t
    else err (rpc_code (chimera_code capability_missing))

abbrev check_exp : ℕ → String → String → List String → ℤ → Option Json → Result TokenData
check_exp now required sub caps iat (some (int exp)) =
    check_claims now required (record { sub = sub; caps = caps; iat = iat; exp = exp })
check_exp now required sub caps iat _ = refused

abbrev check_iat : ℕ → String → String → List String → Option Json → Option Json → Result TokenData
check_iat now required sub caps (some (int iat)) exp = check_exp now required sub caps iat exp
check_iat now required sub caps _ exp = refused

abbrev check_caps : ℕ → String → String → Option Json → Option Json → Option Json → Result TokenData
check_caps now required sub (some (arr xs)) iat exp = elim (texts_of xs) [
  | none ↦ refused
  | some caps ↦ check_iat now required sub caps iat exp
]
check_caps now required sub _ iat exp = refused

abbrev check_sub :
    ℕ → String → Option Json → Option Json → Option Json → Option Json → Result TokenData
check_sub now required (some (str sub)) caps iat exp = check_caps now required sub caps iat exp
check_sub now required _ caps iat exp = refused

-- the checks on what the payload holds
abbrev check_payload : ℕ → String → Option Json → Result TokenData
check_payload now required (some (obj fs)) =
    check_sub now required (get_field fs "sub") (get_field fs "caps") (get_field fs "iat")
      (get_field fs "exp")
check_payload now required _ = refused

module _ (crypto : Crypto) where
  -- `TokenIssuer.issue` at time `now`
  unfoldable pub issue : ℕ → String → List String → Option ℕ → String
  issue now subject capabilities ttl_s =
      let payload =
        crypto.encode (token_payload subject capabilities now (now + or_default ttl_s)) in
      concat payload (concat "." (crypto.sign payload))

  -- `TokenIssuer.validate` at time `now`
  unfoldable pub validate : ℕ → String → String → Result TokenData
  validate now token required = elim (split_pair token) [
    | none ↦ refused
    | some (payload, sig) ↦
        if str_eq (crypto.sign payload) sig
        then check_payload now required (crypto.decode payload)
        else refused
  ]
