-- ===== src/Broker/Match.antt =====
-- Which topics a subscription pattern takes: the three wildcard forms, and literals.
use Prim.Native.Char.{code}
use Prim.Native.String.{count, ◌++◌}
use native.Mathlib.Omega.{arith}
use text.Mathlib.TextLemmas.{append_assoc, nil-append, cons-append, length-append, length-cons}
use text.Mathlib.TextPositions.{eq_refl, starts_with-append}
use macbastion.Prelude.{
  ℕ, String, ◌≡◌, ◌≢◌, refl, sym, ap, ◌∙◌, true, false, none, some, inl, inr, str_eq, eq_iff,
  Bool-cases, Option-cases,
}
use macbastion.Prelude.Text.{has_char, starts_with, ends_with, strip_suffix?, strip_two?}
use macbastion.Broker.{prefix_arm, matches}

-- what ends with `.*` holds a star
strip_suffix?-has_char : (p r : String) → strip_suffix? p ".*" ≡ some r → has_char b'*' p ≡ true
strip_suffix?-has_char String.[] r h = ground arith
strip_suffix?-has_char (String.◌∷◌ x s) r h = elim (Bool-cases (str_eq (String.◌∷◌ x s) ".*")) [
  | inl e ↦ ap (has_char b'*') ((eq_iff (String.◌∷◌ x s) ".*").0 e)
  | inr e ↦ elim (Option-cases (strip_suffix? s ".*")) [
    | inl none_left ↦ ground arith
    | inr (t, left) ↦ ground (arith, strip_suffix?-has_char s t left)
  ]
]

no_star-strip_suffix? : (p : String) → has_char b'*' p ≡ false → strip_suffix? p ".*" ≡ none
no_star-strip_suffix? p h = elim (Option-cases (strip_suffix? p ".*")) [
  | inl e ↦ e
  | inr (r, e) ↦ ground (arith, strip_suffix?-has_char p r e)
]

no_star-strip_two? : (p : String) → has_char b'*' p ≡ false → strip_two? b'*' b'.' p ≡ none
no_star-strip_two? String.[] h = refl
no_star-strip_two? (String.◌∷◌ x String.[]) h = refl
no_star-strip_two? (String.◌∷◌ x (String.◌∷◌ y s)) h = ground arith

-- A pattern without a star takes exactly the topic that it spells.
pub matches_literal :
    (pattern topic : String)
    → has_char b'*' pattern ≡ false
    → matches pattern topic ≡ str_eq pattern topic
unfolding matches
matches_literal pattern topic h = ground (
  arith,
  no_star-strip_suffix? pattern h,
  no_star-strip_two? pattern h,
  eq_iff pattern "*",
  ap (has_char b'*') {x = pattern} {y = "*"},
)

-- texts that some function tells apart are not equal
str_eq-false_of : {A : Type 0} (f : String → A) (s t : String) → f s ≢ f t → str_eq s t ≡ false
str_eq-false_of f s t h = elim (Bool-cases (str_eq s t)) [
  | inl e ↦ absurd (h (ap f ((eq_iff s t).0 e)))
  | inr e ↦ e
]

abbrev head_code : String → ℕ
head_code String.[] = 0
head_code (String.◌∷◌ x s) = code x

strip_suffix?-append : (p : String) → strip_suffix? (p ++ ".*") ".*" ≡ some p
strip_suffix?-append String.[] = refl
strip_suffix?-append (String.◌∷◌ x s) =
    let differs : str_eq (String.◌∷◌ x (s ++ ".*")) ".*" ≡ false =
      str_eq-false_of count (String.◌∷◌ x (s ++ ".*")) ".*"
        (omega (arith, length-append s ".*", length-cons x (s ++ ".*"))) in
    rw (cons-append x s ".*") (rw (differs, strip_suffix?-append s))

-- `p.*`, where `p` holds no star, takes the topics that begin with `p.`.
pub matches_prefix :
    (p topic : String)
    → has_char b'*' p ≡ false
    → matches (p ++ ".*") topic ≡ starts_with topic (p ++ ".")
unfolding matches
matches_prefix p topic h =
    let not_bare : str_eq (p ++ ".*") "*" ≡ false =
      str_eq-false_of count (p ++ ".*") "*" (omega (arith, length-append p ".*")) in
    elim (Bool-cases (str_eq (p ++ ".*") topic)) [
      | inl same ↦
          let topic_eq : topic ≡ (p ++ ".") ++ "*" =
            sym ((eq_iff (p ++ ".*") topic).0 same) ∙ sym (append_assoc p "." "*") in
          let begins : starts_with topic (p ++ ".") ≡ true =
            rw topic_eq (starts_with-append (p ++ ".") "*") in
          rw (not_bare, same, begins)
      | inr other ↦ rw (not_bare, other, prefix_arm, strip_suffix?-append p, h)
    ]

dot_cons : (s : String) → "." ++ s ≡ String.◌∷◌ "." s
dot_cons s = cons-append "." "" s ∙ ap (String.◌∷◌ ".") (nil-append s)

star_dot_cons : (s : String) → "*." ++ s ≡ String.◌∷◌ "*" (String.◌∷◌ "." s)
star_dot_cons s = cons-append "*" "." s ∙ ap (String.◌∷◌ "*") (dot_cons s)

suffix_ends : (s : String) → ends_with ("*." ++ s) ("." ++ s) ≡ true
suffix_ends s = rw (star_dot_cons s, dot_cons s) (ground (arith, eq_refl (String.◌∷◌ "." s)))

no_prefix_arm : (s : String) → has_char b'*' s ≡ false → strip_suffix? ("*." ++ s) ".*" ≡ none
no_prefix_arm s h =
    let first : str_eq (String.◌∷◌ "*" (String.◌∷◌ "." s)) ".*" ≡ false =
      str_eq-false_of head_code (String.◌∷◌ "*" (String.◌∷◌ "." s)) ".*" (omega arith) in
    let second : str_eq (String.◌∷◌ "." s) ".*" ≡ false =
      str_eq-false_of (has_char b'*') (String.◌∷◌ "." s) ".*" (ground arith) in
    rw (star_dot_cons s) (rw (first, second, no_star-strip_suffix? s h))

-- `*.s`, where `s` holds no star, takes the topics that end with `.s`.
pub matches_suffix :
    (s topic : String)
    → has_char b'*' s ≡ false
    → matches ("*." ++ s) topic ≡ ends_with topic ("." ++ s)
unfolding matches
matches_suffix s topic h =
    let not_bare : str_eq ("*." ++ s) "*" ≡ false =
      str_eq-false_of count ("*." ++ s) "*" (omega (arith, length-append "*." s)) in
    elim (Bool-cases (str_eq ("*." ++ s) topic)) [
      | inl same ↦
          let ends : ends_with topic ("." ++ s) ≡ true =
            rw (← (eq_iff ("*." ++ s) topic).0 same) (suffix_ends s) in
          rw (not_bare, same, ends)
      | inr other ↦
          rw (not_bare, other, prefix_arm, no_prefix_arm s h) (rw (star_dot_cons s) (rw h))
    ]
