-- ===== src/Pulse/Retention.antt =====
-- What the purge of PULSE's store leaves as it was.
use macbastion.Prelude.{
  ℕ, ◌+◌, ◌-◌, String, Bool, true, false, ◌≡◌, refl, inl, inr, Bool-cases, List, [], ◌∷◌, arith,
  length, keep_if, length-keep_if-le,
}
use macbastion.Prelude.Dict.{Dict}
use macbastion.Prelude.Order.{before, before-from}
use macbastion.Prelude.Floats.{FloatOps}
use macbastion.Cipher.{Cipher}
use macbastion.Exec.{ok}
use macbastion.Pulse.Scoring.{Datetime}
use macbastion.Pulse.Store.{
  Bucket, BaselineStore, purge_before, purge, baseline, calibration_days, baseline_ready, in_window,
  is_recent, usable, cutoff,
}

-- a filter that passes only what another one passes does not see the other
keep_if-keep_if :
    {A : Type 0} (p q : A → Bool) (xs : List A)
    → ((x : A) → p x ≡ true → q x ≡ true)
    → keep_if p (keep_if q xs) ≡ keep_if p xs
keep_if-keep_if p q [] h = refl
keep_if-keep_if p q (x ∷ xs) h = elim (Bool-cases (q x)) [
  | inl e ↦ rw e (ground (arith, keep_if-keep_if p q xs h))
  | inr e ↦ rw e (ground (arith, keep_if-keep_if p q xs h, h x))
]

-- two windows: the later one begins where the earlier one does, or after
abbrev pub NotBefore : String → String → Type 0
NotBefore earlier later = before later earlier ≡ false

window_recent :
    (old cut now : String) (b : Bucket)
    → NotBefore old cut
    → in_window cut now b ≡ true
    → is_recent old b ≡ true
window_recent old cut now b h w = ground (arith, before-from b.ts old cut)

module _ {F : Type 0} (ops : FloatOps F) (cipher : Cipher (Dict F)) (datetime : Datetime F) where
  -- A purge removes as many rows as it says, and no answer that is asked for then or later, when the
  -- window does not begin before the purge's cutoff, differs for it: no baseline of any signal, no count
  -- of days, and not whether the calibration is over.
  pub purge_lem :
      (now later old cut key : String) (store : BaselineStore)
      → cutoff ops cipher datetime now ≡ ok old
      → cutoff ops cipher datetime later ≡ ok cut
      → NotBefore old cut
      → (n : ℕ) × (left : BaselineStore) × (purge ops cipher datetime now store ≡ (ok n, left))
        × (n + length left.buckets ≡ length store.buckets)
        × (baseline ops cipher datetime key later left
            ≡ baseline ops cipher datetime key later store)
        × (calibration_days ops cipher datetime later left
            ≡ calibration_days ops cipher datetime later store)
        × (baseline_ready ops cipher datetime later left
            ≡ baseline_ready ops cipher datetime later store)
  unfolding purge purge_before baseline baseline_ready calibration_days
  purge_lem now later old cut key store h k order = (
    length store.buckets - length (keep_if (is_recent old) store.buckets),
    record store { buckets = keep_if (is_recent old) store.buckets },
    rw (h, purge) refl,
    omega (arith, length-keep_if-le (is_recent old) store.buckets),
    rw (k, same_usable, baseline) refl,
    rw (k, same_window, calibration_days) refl,
    rw (k, same_window, baseline_ready, calibration_days) refl,
  )
    where
      same_window :
          keep_if (in_window cut later) (keep_if (is_recent old) store.buckets)
          ≡ keep_if (in_window cut later) store.buckets
      same_window =
          keep_if-keep_if (in_window cut later) (is_recent old) store.buckets
            (λ b. window_recent old cut later b order)

      same_usable :
          keep_if (usable ops cipher datetime cut later) (keep_if (is_recent old) store.buckets)
          ≡ keep_if (usable ops cipher datetime cut later) store.buckets
      same_usable =
          keep_if-keep_if (usable ops cipher datetime cut later) (is_recent old) store.buckets
            (λ b h. window_recent old cut later b order (ground arith))
