-- ===== src/Tokens/Validity.antt =====
-- Which tokens are accepted.
use text.Mathlib.TextPositions.{eq_refl}
use text.Mathlib.TextLemmas.{nil-append, cons-append}
use macbastion.Prelude.{
  ℕ, ◌+◌, String, false, ◌≡◌, ◌≢◌, refl, ◌∙◌, some, List, [], ◌∷◌, leb, arith, eq_iff,
  if◌then◌else◌,
}
use macbastion.Prelude.Int.{ℤ, pos}
use macbastion.Prelude.Text.{concat, has_char, mem_str}
use macbastion.Prelude.Json.{int, arr, obj, Items, Fields, str_items, get_field}
use macbastion.Registry.{texts_of}
use macbastion.Errors.{rpc_code, chimera_code, not_authorized, capability_missing}
use macbastion.Exec.{ok, err}
use macbastion.Tokens.{
  Crypto, token_payload, cut_dot, check_caps, check_claims, split_pair, issue, validate,
}

-- What the code relies on in Python's `base64` and `json` for a payload: base64url texts hold no `.`,
-- and what was encoded is decoded again.
pub record IsSound (crypto : Crypto) (payload : Fields) : Type 0 where
  pub encode_undotted : has_char b'.' (crypto.encode payload) ≡ false
  pub sign_undotted : has_char b'.' (crypto.sign (crypto.encode payload)) ≡ false
  pub decode_encode : crypto.decode (crypto.encode payload) ≡ some (obj payload)

cut_dot_lem :
    (a b : String) → has_char b'.' a ≡ false → cut_dot (concat a (concat "." b)) ≡ some (a, b)
cut_dot_lem String.[] b h = rw (nil-append (concat "." b), cons-append "." "" b, nil-append b) refl
cut_dot_lem (String.◌∷◌ x a) b h =
    rw (cons-append x a (concat "." b)) (ground (arith, cut_dot_lem a b (ground arith)))

split_pair_lem :
    (a b : String)
    → has_char b'.' a ≡ false
    → has_char b'.' b ≡ false
    → split_pair (concat a (concat "." b)) ≡ some (a, b)
unfolding split_pair
split_pair_lem a b ha hb = rw (split_pair, cut_dot_lem a b ha, hb) refl

texts_of-str_items : (xs : List String) → texts_of (str_items xs) ≡ some xs
unfolding str_items
texts_of-str_items [] = refl
texts_of-str_items (x ∷ xs) = rw (texts_of-str_items xs) refl

claims :
    (now : ℕ) (required subject : String) (caps : List String) (iat exp : ℤ) (xs : Items)
    → texts_of xs ≡ some caps
    → check_caps now required subject (some (arr xs)) (some (int iat)) (some (int exp))
      ≡ check_claims now required (record { sub = subject; caps = caps; iat = iat; exp = exp })
claims now required subject caps iat exp xs e = ground arith

-- A token that was issued is, at any later time and for any capability: refused as unauthorized from
-- its expiry on; before that accepted, with the subject and the capabilities it was issued for, if it
-- carries the capability; and otherwise refused for want of it.
pub validate-issue :
    (crypto : Crypto) (iat : ℕ) (subject : String) (caps : List String) (ttl : ℕ) (now : ℕ)
    (required : String)
    → IsSound crypto (token_payload subject caps iat (iat + ttl))
    → validate crypto now (issue crypto iat subject caps (some ttl)) required ≡ (
        if leb (iat + ttl) now
        then err (rpc_code (chimera_code not_authorized))
        else if mem_str required caps
        then ok (record { sub = subject; caps = caps; iat = pos iat; exp = pos (iat + ttl) })
        else err (rpc_code (chimera_code capability_missing)))
unfolding validate issue get_field
validate-issue crypto iat subject caps ttl now required h =
    let payload = crypto.encode (token_payload subject caps iat (iat + ttl)) in
    let split = split_pair_lem payload (crypto.sign payload) h.encode_undotted h.sign_undotted in
    rw (validate, issue, split)
      (rw (eq_refl (crypto.sign payload), h.decode_encode)
        (claims now required subject caps (pos iat) (pos (iat + ttl)) (str_items caps)
            (texts_of-str_items caps)
          ∙ ground arith))

-- Whatever the payload says, a token whose signature part is not the signature of its payload part
-- is refused.
pub validate_forged :
    (crypto : Crypto) (now : ℕ) (payload sig required : String)
    → has_char b'.' payload ≡ false
    → has_char b'.' sig ≡ false
    → sig ≢ crypto.sign payload
    → validate crypto now (concat payload (concat "." sig)) required
      ≡ err (rpc_code (chimera_code not_authorized))
unfolding validate
validate_forged crypto now payload sig required hp hs forged =
    rw (validate, split_pair_lem payload sig hp hs)
      (ground (arith, eq_iff (crypto.sign payload) sig))
