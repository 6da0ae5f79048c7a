-- ===== src/Pulse/Habits.antt =====
-- What PULSE's small trackers promise.
use text.Mathlib.TextPositions.{eq_refl}
use macbastion.Prelude.{
  ℕ, ◌*◌, ◌≤◌, String, Bool, true, false, ◌≡◌, refl, sym, ap, ◌∙◌, ◌↔◌, ◌||◌, inl, inr, Bool-cases,
  eq_iff, some, List, [], ◌∷◌, ◌++◌, arith, str_eq, leb, ltb, if◌then◌else◌,
}
use macbastion.Prelude.Text.{mem_str}
use macbastion.Exec.{ok}
use macbastion.Pulse.{
  listed, read_dangers, add_to, add_danger, night_hours, sum, night_sum, classify_chronotype,
}

mem_str-append_one :
    (k s : String) (xs : List String) → mem_str k (xs ++ s ∷ []) ≡ (mem_str k xs || str_eq s k)
mem_str-append_one k s [] = ground arith
mem_str-append_one k s (x ∷ xs) = ground (arith, mem_str-append_one k s xs)

-- Adding a danger action to a list that can be read gives, and leaves in the file, a list that has it
-- and what was there and no other; adding it again changes nothing.
pub add_danger_lem :
    (signature : String) (items : List String)
    → let (r, file) = add_danger signature (listed items) in
      (k : String)
      → (after : List String) × (r ≡ ok after)
        × (file ≡ listed after)
        × (mem_str k after ≡ (mem_str k items || str_eq signature k))
        × (add_danger signature file ≡ (ok after, file))
unfolding add_danger read_dangers
add_danger_lem signature items k = elim (Bool-cases (mem_str signature items)) [
  | inl has ↦ (items, rw has refl, rw has refl, same has, rw (has, add_danger, add_to, has) refl)
  | inr new ↦
      let after = items ++ signature ∷ [] in
      let has : mem_str signature after ≡ true =
        ground (arith, mem_str-append_one signature signature items, eq_refl signature) in
      (
        after,
        rw new refl,
        rw new refl,
        mem_str-append_one k signature items,
        rw (new, add_danger, add_to, has) refl,
      )
]
  where
    same :
        mem_str signature items ≡ true → mem_str k items ≡ (mem_str k items || str_eq signature k)
    same has = elim (Bool-cases (str_eq signature k)) [
      | inl e ↦
          let k_has : mem_str k items ≡ true =
            ap (λ x. mem_str x items) (sym ((eq_iff signature k).0 e)) ∙ has in
          ground arith
      | inr e ↦ ground arith
    ]

abbrev typical : String
typical = "typical"

not_owl : {A : Type 0} → typical ≡ "night_owl" → A
not_owl e = absurd (ground (arith, (eq_iff "typical" "night_owl").1 e))

owl_iff :
    (few owl : Bool)
    → ((if few then typical else if owl then "night_owl" else typical) ≡ "night_owl")
      ↔ ((few ≡ false) × (owl ≡ true))
owl_iff true owl = (not_owl, λ h. ground arith)
owl_iff false true = (λ e. (refl, refl), λ h. refl)
owl_iff false false = (not_owl, λ h. ground arith)

-- An operator is a night owl exactly when there are 600 samples at least and three tenths of them, or
-- more, are of the night.
pub classify_chronotype_iff :
    (hist : List ℕ)
    → (classify_chronotype (some hist) ≡ "night_owl")
      ↔ ((600 ≤ sum hist) × (3 * sum hist ≤ 10 * night_sum hist night_hours))
unfolding classify_chronotype
classify_chronotype_iff [] = (not_owl, λ (many, owl). absurd (omega (arith, many)))
classify_chronotype_iff (n ∷ hist) =
    let total = sum (n ∷ hist) in
    let night = night_sum (n ∷ hist) night_hours in
    let (one, two) = owl_iff (ltb total 600) (leb (3 * total) (10 * night)) in
    (λ e. let (a, b) = one e in ground arith, λ h. two (ground arith))
