-- ===== src/Tests/Decimal.antt =====
-- A reader of decimal numbers, and that it reads what `str(n)` writes.
use Prim.Native.Nat.{◌%◌}
use Prim.Native.Char.{code}
use macbastion.Prelude.{
  ℕ, zero, suc, ◌+◌, ◌-◌, ◌*◌, ◌/◌, ◌<◌, String, ◌≡◌, refl, inl, inr, Bool-cases, true, arith, ltb,
  ap, ◌∙◌,
}
use macbastion.Prelude.Int.{pos}
use macbastion.Errors.{digit, show_digits, show_ℤ}
use macbastion.Exec.{Result, ok}

abbrev read_from : ℕ → String → ℕ
read_from n String.[] = n
read_from n (String.◌∷◌ c s) = read_from (n * 10 + (code c - 48)) s

unfoldable pub read_decimal : String → Result ℕ
read_decimal s = ok (read_from 0 s)

digit_code : (d : ℕ) → d < 10 → code (digit d) - 48 ≡ d
digit_code zero h = refl
digit_code (suc zero) h = refl
digit_code (suc (suc zero)) h = refl
digit_code (suc (suc (suc zero))) h = refl
digit_code (suc (suc (suc (suc zero)))) h = refl
digit_code (suc (suc (suc (suc (suc zero))))) h = refl
digit_code (suc (suc (suc (suc (suc (suc zero)))))) h = refl
digit_code (suc (suc (suc (suc (suc (suc (suc zero))))))) h = refl
digit_code (suc (suc (suc (suc (suc (suc (suc (suc zero)))))))) h = refl
digit_code (suc (suc (suc (suc (suc (suc (suc (suc (suc zero))))))))) h = refl
digit_code (suc (suc (suc (suc (suc (suc (suc (suc (suc (suc d)))))))))) h = absurd (omega arith)

read_from-show_digits :
    (fuel n : ℕ) (rest : String)
    → n < fuel
    → read_from 0 (show_digits fuel n rest) ≡ read_from n rest
unfolding show_digits
read_from-show_digits zero n rest h = elim h [ ]
read_from-show_digits (suc fuel) n rest h = elim (Bool-cases (ltb n 10)) [
  | inl small ↦
      let e : 0 * 10 + (code (digit (n % 10)) - 48) ≡ n =
        omega (arith, digit_code (n % 10) (omega arith), below n small) in
      rw small (ap (λ k. read_from k rest) e)
  | inr big ↦
      let e : n / 10 * 10 + (code (digit (n % 10)) - 48) ≡ n =
        omega (arith, digit_code (n % 10) (omega arith)) in
      rw big (read_from-show_digits fuel (n / 10) _ (ground arith) ∙ ap (λ k. read_from k rest) e)
]
  where
    below : (n : ℕ) → ltb n 10 ≡ true → n < 10
    below n h = ground arith

pub read_decimal-show : (n : ℕ) → read_decimal (show_ℤ (pos n)) ≡ ok n
unfolding read_decimal show_ℤ
read_decimal-show n = ap ok (read_from-show_digits (n + 1) n "" (omega arith))
