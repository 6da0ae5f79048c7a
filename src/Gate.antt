-- ===== src/Gate.antt =====
-- chimera/core/gate.py: the friction that a danger action gets in each mode of PULSE. Seconds are
-- whole.
pub mod Levels
use macbastion.Prelude.{
  ℕ, String, Bool, true, false, Option, none, some, List, str_eq, if◌then◌else◌,
}
use macbastion.Prelude.Text.{mem_str}

-- ALLOW, CONFIRM, DELAY, BLOCK
pub data Friction : Type 0 where
  allow confirm delay block : Friction

abbrev pub tired_delay_s : ℕ
tired_delay_s = 5

pub record GateDecision : Type 0 where
  pub decision : Friction
  pub delay_seconds : ℕ
  pub requires_override : Bool
  pub reason : String

abbrev plain : Friction → String → GateDecision
plain decision reason = record {
  decision = decision;
  delay_seconds = 0;
  requires_override = false;
  reason = reason;
}

-- `mode == text`, where `mode` may be `None`
abbrev pub mode_is : Option String → String → Bool
mode_is none text = false
mode_is (some mode) text = str_eq mode text

unfoldable pub decide : String → Option String → List String → Bool → GateDecision
decide action_signature mode danger override_ok =
    if mem_str action_signature danger
    then (if mode_is mode "caution"
        then plain confirm "caution: confirm before proceeding"
        else if mode_is mode "tired"
        then record (plain delay "tired: cool-off delay") { delay_seconds = tired_delay_s }
        else if mode_is mode "exhausted"
        then (if override_ok
            then plain allow "exhausted: override accepted"
            else record (plain block "exhausted: override required") { requires_override = true })
        else if mode_is mode "normal"
        then plain allow "normal: no friction"
        else plain allow "fail-open: mode unknown")
    else plain allow "not a registered danger action"
