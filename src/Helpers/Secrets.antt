-- ===== src/Helpers/Secrets.antt =====
-- How core's clients keep the secret of a privileged helper.
use mathlib.Core.Path.{subst, subst⁻¹}
use macbastion.Prelude.{
  ℕ, ◌+◌, String, false, ◌≡◌, refl, ◌∙◌, Option, none, some, List, [], ◌∷◌, ◌++◌, arith, str_eq,
  All, All-append_one, if◌then◌else◌,
}
use macbastion.Prelude.Int.{ℤ}
use macbastion.Prelude.Json.{Json, str, Fields, end, field, get_field}
use macbastion.Exec.{Result, ok, err, continue}
use macbastion.Helpers.{
  Words, Asked, Outcome, HelperClient, Operation, plain_call, secret_call, with_secret,
  next_request, call, keep_secret, handshake, secret_or_handshake, ensure_secret, operate,
  operate_all,
}

-- a request without parameters, or one with the secret
abbrev pub IsVouched : Option String → Option Fields → Type 0
IsVouched secret none = Unit
IsVouched none (some fs) = ⊥
IsVouched (some s) (some fs) = get_field fs "secret" ≡ some (str s)

abbrev pub AllVouched : Option String → List Asked → Type 0
AllVouched secret asked = All (λ (a : Asked). IsVouched secret a.params) asked

-- every request was sent without parameters, or with the secret that the client has
abbrev pub Vouches : HelperClient → Type 0
Vouches c = AllVouched c.secret c.asked

-- the operation is no handshake, and brings no secret of its own
abbrev pub IsRegular : String → Operation → Type 0
IsRegular handshake_method (plain_call method) = str_eq method handshake_method ≡ false
IsRegular handshake_method (secret_call method fs) =
    (str_eq method handshake_method ≡ false) × (get_field fs "secret" ≡ none)

-- how many handshakes were asked for
abbrev pub handshakes : String → List Asked → ℕ
handshakes handshake_method [] = 0
handshakes handshake_method (a ∷ asked) =
    (if str_eq a.method handshake_method then 1 else 0) + handshakes handshake_method asked

handshakes-append_one :
    (h : String) (asked : List Asked) (a : Asked)
    → str_eq a.method h ≡ false
    → handshakes h (asked ++ a ∷ []) ≡ handshakes h asked
handshakes-append_one h [] a e = ground arith
handshakes-append_one h (b ∷ asked) a e = ground (arith, handshakes-append_one h asked a e)

get_field-with_secret :
    (fs : Fields) (s : String)
    → get_field fs "secret" ≡ none
    → get_field (with_secret fs s) "secret" ≡ some (str s)
unfolding get_field
get_field-with_secret end s h = refl
get_field-with_secret (field k v fs) s h = ground (arith, get_field-with_secret fs s)

first_secret : (s : String) (p : Option Fields) → IsVouched none p → IsVouched (some s) p
first_secret s none h = tt
first_secret s (some fs) h = absurd h

AllVouched-first :
    (s : String) (asked : List Asked) → AllVouched none asked → AllVouched (some s) asked
AllVouched-first s [] h = tt
AllVouched-first s (a ∷ asked) h = (first_secret s a.params h.0, AllVouched-first s asked h.1)

-- what the secret's request leaves: the secret is kept, or nothing changed that matters
abbrev Ready : Result String → HelperClient → Type 0
Ready (ok s) c = (c.secret ≡ some s) × AllVouched (some s) c.asked
Ready (err x) c = Vouches c

module _ (words : Words) (int_of : Json → Result ℤ) (text_of : Json → String)
    (outcome_of : Asked → Outcome) where
  keep_secret-Ready :
      (j : Option Json) (c : HelperClient)
      → AllVouched none c.asked
      → Vouches c
      → let (r, c') = keep_secret words int_of text_of outcome_of j c in Ready r c'
  keep_secret-Ready (some (str s)) c none_yet v = (refl, AllVouched-first s c.asked none_yet)
  keep_secret-Ready _ c none_yet v = v

  handshake_from-Ready :
      (r : Result Fields) (c : HelperClient)
      → AllVouched none c.asked
      → Vouches c
      → let (r', c') =
          continue r c
            (λ fs. keep_secret words int_of text_of outcome_of (get_field fs "secret")) in
        Ready r' c'
  handshake_from-Ready (ok fs) c none_yet v = keep_secret-Ready (get_field fs "secret") c none_yet v
  handshake_from-Ready (err x) c none_yet v = v

  secret-Ready :
      (o : Option String) (c : HelperClient)
      → c.secret ≡ o
      → Vouches c
      → let (r, c') = secret_or_handshake words int_of text_of outcome_of o c in Ready r c'
  unfolding handshake call
  secret-Ready (some s) c e v = (e, subst (λ o. AllVouched o c.asked) e v)
  secret-Ready none c e v =
      handshake_from-Ready _ _
        (All-append_one _ c.asked _ (subst (λ o. AllVouched o c.asked) e v) tt)
        (All-append_one _ c.asked _ v tt)

  call_from-Vouches :
      (r : Result String) (c : HelperClient) (method : String) (fs : Fields)
      → get_field fs "secret" ≡ none
      → Ready r c
      → Vouches
          (continue r c
            (λ s. call words int_of text_of outcome_of method (some (with_secret fs s)))).1
  unfolding call
  call_from-Vouches (ok s) c method fs h ready =
      let request = next_request method (some (with_secret fs s)) c in
      subst⁻¹ (λ o. AllVouched o (c.asked ++ request ∷ [])) ready.0
        (All-append_one _ c.asked request ready.1 (get_field-with_secret fs s h))
  call_from-Vouches (err x) c method fs h v = v

  operate-Vouches :
      (o : Operation) (c : HelperClient)
      → IsRegular words.handshake_method o
      → Vouches c
      → Vouches (operate words int_of text_of outcome_of o c).1
  unfolding operate ensure_secret call
  operate-Vouches (plain_call method) c h v = All-append_one _ c.asked _ v tt
  operate-Vouches (secret_call method fs) c h v =
      let (r, c') = secret_or_handshake words int_of text_of outcome_of c.secret c in
      call_from-Vouches r c' method fs h.1 (secret-Ready c.secret c refl v)

  -- with a secret at hand, the operation is its request alone
  operate-eq :
      (method : String) (fs : Fields) (s : String) (c : HelperClient)
      → c.secret ≡ some s
      → operate words int_of text_of outcome_of (secret_call method fs) c
        ≡ call words int_of text_of outcome_of method (some (with_secret fs s)) c
  unfolding operate ensure_secret
  operate-eq method fs s c e = λ i.
      let (r, c') = secret_or_handshake words int_of text_of outcome_of (e i) c in
      continue r c' (λ s. call words int_of text_of outcome_of method (some (with_secret fs s)))

  -- the secret and the count of handshakes of a client that has a secret
  abbrev pub Settled : String → ℕ → HelperClient → Type 0
  Settled s n c = (c.secret ≡ some s) × (handshakes words.handshake_method c.asked ≡ n)

  operate-Settled :
      (o : Operation) (s : String) (n : ℕ) (c : HelperClient)
      → IsRegular words.handshake_method o
      → Settled s n c
      → Settled s n (operate words int_of text_of outcome_of o c).1
  unfolding operate call
  operate-Settled (plain_call method) s n c h (e, k) =
      (e, handshakes-append_one words.handshake_method c.asked _ h ∙ k)
  operate-Settled (secret_call method fs) s n c h (e, k) =
      subst⁻¹ (λ r. Settled s n r.1) (operate-eq method fs s c e)
        (e, handshakes-append_one words.handshake_method c.asked _ h.0 ∙ k)

  operate_all-Settled :
      (os : List Operation) (s : String) (n : ℕ) (c : HelperClient)
      → All (IsRegular words.handshake_method) os
      → Settled s n c
      → Settled s n (operate_all words int_of text_of outcome_of os c)
  unfolding operate_all
  operate_all-Settled [] s n c h k = k
  operate_all-Settled (o ∷ os) s n c h k =
      operate_all-Settled os s n _ h.1 (operate-Settled o s n c h.0 k)

  -- what stays of the secret that a client had, where it had one, and of its count of handshakes
  abbrev pub Retains : Option String → ℕ → HelperClient → Type 0
  Retains none n c = Unit
  Retains (some s) n c = Settled s n c

  operate_all-Retains :
      (o : Option String) (os : List Operation) (c : HelperClient)
      → c.secret ≡ o
      → All (IsRegular words.handshake_method) os
      → Retains o
          (handshakes words.handshake_method c.asked)
          (operate_all words int_of text_of outcome_of os c)
  operate_all-Retains none os c e h = tt
  operate_all-Retains (some s) os c e h = operate_all-Settled os s _ c h (e, refl)

  operate_all-Vouches_kept :
      (os : List Operation) (c : HelperClient)
      → All (IsRegular words.handshake_method) os
      → Vouches c
      → Vouches (operate_all words int_of text_of outcome_of os c)
  unfolding operate_all
  operate_all-Vouches_kept [] c h v = v
  operate_all-Vouches_kept (o ∷ os) c h v =
      operate_all-Vouches_kept os _ h.1 (operate-Vouches o c h.0 v)

  -- Whatever the helper answers to the operations of core: every request with parameters carries the
  -- secret that the client has at the end, and a client that has one keeps it and asks for no handshake
  -- any more.
  pub operate_all-Vouches :
      (os : List Operation) (c : HelperClient)
      → All (IsRegular words.handshake_method) os
      → Vouches c
      → Vouches (operate_all words int_of text_of outcome_of os c)
        × Retains c.secret
            (handshakes words.handshake_method c.asked)
            (operate_all words int_of text_of outcome_of os c)
  operate_all-Vouches os c h v =
      (operate_all-Vouches_kept os c h v, operate_all-Retains c.secret os c refl h)
