-- ===== src/Gate/Levels.antt =====
-- Exactly when the gate blocks, delays or asks.
use macbastion.Prelude.{
  String, Bool, true, false, ◌≡◌, refl, ◌↔◌, Option, none, some, List, arith, eq_iff, ap,
}
use macbastion.Prelude.Text.{mem_str}
use macbastion.Gate.{delay, block, mode_is, decide}

mode_is-eq : (mode : Option String) (text : String) → mode_is mode text ≡ true → mode ≡ some text
mode_is-eq none text h = ground arith
mode_is-eq (some m) text h = ap some ((eq_iff m text).0 h)

module _ (action : String) (mode : Option String) (danger : List String) (override_ok : Bool) where
  -- An action is blocked exactly when it is a danger action, the mode is `exhausted` and no override
  -- was verified; only then is an override asked for.
  pub decide-block_iff :
      ((decide action mode danger override_ok).decision ≡ block)
      ↔ ((mem_str action danger ≡ true) × (mode ≡ some "exhausted") × (override_ok ≡ false))
  unfolding decide
  decide-block_iff =
      (λ h. ground (arith, mode_is-eq mode "exhausted"), λ (d, m, o). rw (m, d, o) refl)

  -- A danger action is delayed exactly in mode `tired`, by five seconds; nothing else is delayed.
  pub decide-delay_iff :
      ((decide action mode danger override_ok).decision ≡ delay)
      ↔ ((mem_str action danger ≡ true) × (mode ≡ some "tired"))
  unfolding decide
  decide-delay_iff = (λ h. ground (arith, mode_is-eq mode "tired"), λ (d, m). rw (m, d) refl)
