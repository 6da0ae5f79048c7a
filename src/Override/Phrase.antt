-- ===== src/Override/Phrase.antt =====
-- Setting and verifying the override phrase.
use macbastion.Prelude.{
  ℕ, String, true, false, ◌≡◌, refl, ◌↔◌, ◌⊎◌, inl, inr, Option, none, some, arith, eq_iff,
  Bool-cases, ◌&&◌, not,
}
use macbastion.Override.{PhraseFile, is_set, knows_current, verify, set_phrase}

some-injective : (a b : String) → some a ≡ some b → a ≡ b
some-injective a b e = cc

module _ (pbkdf2 : String → String → ℕ → String) where
  -- A phrase is accepted exactly when none is set yet or the current one is given.
  pub set_phrase_iff :
      (phrase salt : String) (current : Option String) (file : PhraseFile)
      → ((set_phrase pbkdf2 phrase current salt file).0 ≡ true)
        ↔ ((file ≡ none) ⊎ ((c : String) × (current ≡ some c) × (verify pbkdf2 c file ≡ true)))
  unfolding set_phrase
  set_phrase_iff phrase salt none none = ground arith
  set_phrase_iff phrase salt (some c) none = ground arith
  set_phrase_iff phrase salt none (some p) = ground arith
  set_phrase_iff phrase salt (some c) (some p) = (
    λ h. inr (c, refl, ground arith),
    λ h. elim h [ inl e ↦ ground arith | inr (x, e, v) ↦ ground (arith, some-injective c x e) ],
  )

  -- A phrase is accepted exactly when none is set yet or the current one is given. After an accepted one,
  -- a phrase verifies exactly when its hash under the new salt is that of the accepted one;
  -- a refused one leaves the file as it was.
  pub verify-set_phrase :
      (phrase salt : String) (current : Option String) (file : PhraseFile)
      → let (stored, file') = set_phrase pbkdf2 phrase current salt file in
        ((stored ≡ true)
          ↔ ((file ≡ none) ⊎ ((c : String) × (current ≡ some c) × (verify pbkdf2 c file ≡ true))))
        × (((stored ≡ true)
              × ((q : String)
                  → (verify pbkdf2 q file' ≡ true)
                    ↔ (pbkdf2 q salt 200_000 ≡ pbkdf2 phrase salt 200_000)))
            ⊎ ((stored ≡ false) × (file' ≡ file)))
  unfolding set_phrase verify
  verify-set_phrase phrase salt current file = (
    set_phrase_iff phrase salt current file,
    elim (Bool-cases (is_set file && not (knows_current pbkdf2 current file))) [
      | inl denied ↦ inr (ground arith, ground arith)
      | inr allowed ↦ inl (
        ground arith,
        λ q. ground (arith, eq_iff (pbkdf2 q salt 200_000) (pbkdf2 phrase salt 200_000)),
      )
    ],
  )

  -- A file that cannot be read as a payload refuses every phrase and every change, for good.
  pub corrupt_file_stays :
      (phrase salt : String) (current : Option String) (q : String)
      → (set_phrase pbkdf2 phrase current salt (some none) ≡ (false, some none))
        × (verify pbkdf2 q (some none) ≡ false)
  unfolding set_phrase verify
  corrupt_file_stays phrase salt none q = (refl, refl)
  corrupt_file_stays phrase salt (some c) q = (refl, refl)
