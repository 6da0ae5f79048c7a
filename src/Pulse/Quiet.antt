-- ===== src/Pulse/Quiet.antt =====
-- PULSE as it is run: the daemon records no bucket, so the calibration of its store never ends.
use macbastion.Prelude.{
  ℕ, String, Bool, false, ◌≡◌, refl, ap, ◌⊎◌, inl, inr, Option, none, some, List, [], arith, str_eq,
  All, All-append_one, ltb,
}
use text.Mathlib.TextPositions.{eq_refl}
use macbastion.Prelude.Text.{sorted_set}
use macbastion.Exec.{
  Result, ok, err, Exec, Keeps, Keeps-read, Keeps-bind, Keeps-catch, if_rule, and_then-eq-ok,
  continue, ◌>>=◌,
}
use macbastion.Envelope.{Message, request, response, notification}
use macbastion.Pulse.{observe}
use macbastion.Pulse.Scoring.{
  Signals, drift, temporal_signal, mode_normal, score_and_mode, score_present, present_of,
}
use macbastion.Pulse.Store.{
  BaselineStore, set_meta, assess, baseline_ready, calibration_days, days_in, cutoff, group_a_delta,
}
use macbastion.Pulse.Client.{
  PulseEnv, Client, observe_activity, observe_idle, assess_now, compute, send_cmd, settle_mode,
  announce, tick, safe_tick, report_error, error_notice, effective_chronotype,
}

abbrev pub IsQuiet : Message → Type 0
IsQuiet (request r) = Unit
IsQuiet (response r) = Unit
IsQuiet (notification n) = str_eq n.method "pulse.mode.changed" ≡ false

-- no bucket, no mode but `normal`, and no mode change sent
pub record Quiet {F : Type 0} (c : Client F) : Type 0 where
  pub no_bucket : c.store.buckets ≡ []
  pub normal_mode : (c.last_mode ≡ none) ⊎ (c.last_mode ≡ some mode_normal)
  pub no_change : All IsQuiet c.sent

-- what a method leaves is quiet
abbrev pub LeavesQuiet : {F A : Type 0} → Result A × Client F → Type 0
LeavesQuiet r = Quiet r.1

pub send_cmd-Quiet :
    {F : Type 0} (m : Message) (c : Client F) → IsQuiet m → Quiet c → Quiet (send_cmd m c)
unfolding send_cmd
send_cmd-Quiet m c h q =
    if_rule Quiet c.connected _ _
      (λ _. record {
        no_bucket = q.no_bucket;
        normal_mode = q.normal_mode;
        no_change = All-append_one IsQuiet c.sent m q.no_change h;
      })
      (λ _. q)

module _ {F : Type 0} (env : PulseEnv F) where
  pub observe_activity-Quiet : (now : String) → Keeps Quiet (observe_activity env now)
  unfolding observe_activity set_meta
  observe_activity-Quiet now = record { at = λ c q. ground arith }

  observe_idle-Quiet : (now : String) (idle : Option ℕ) → Keeps Quiet (observe_idle env now idle)
  observe_idle-Quiet now none = Keeps-read (λ _. ok tt)
  observe_idle-Quiet now (some idle_seconds) = record { at = λ c q. seen c (idle_set c q) }
    where
      idle_set :
          (c : Client F) → Quiet c → Quiet (record c { idle = observe now idle_seconds c.idle })
      idle_set c q = ground arith

      seen :
          (c : Client F)
          → Quiet (record c { idle = observe now idle_seconds c.idle })
          → Quiet (observe_idle env now (some idle_seconds) c).1
      seen c q =
          if_rule LeavesQuiet (ltb idle_seconds 300) _ _ (λ _. (observe_activity-Quiet now).at _ q)
            (λ _. q)

  pub compute-Quiet : (now : String) (idle : Option ℕ) → Keeps Quiet (compute env now idle)
  unfolding compute
  compute-Quiet now idle =
      Keeps-bind (observe_idle-Quiet now idle)
        (λ _. Keeps-bind (Keeps-read (λ c. ok c)) (λ c. Keeps-read (λ _. assess_now env now c)))

  open env use {ops, cipher, datetime}

  days_in-nil :
      (cut now : String) (store : BaselineStore) → store.buckets ≡ [] → days_in cut now store ≡ 0
  unfolding sorted_set
  days_in-nil cut now store e = rw e refl

  not_ready :
      (now : String) (store : BaselineStore) (ready : Bool)
      → store.buckets ≡ []
      → baseline_ready ops cipher datetime now store ≡ ok ready
      → ready ≡ false
  unfolding baseline_ready calibration_days
  not_ready now store ready e h =
      let (days, counted, r) =
        and_then-eq-ok (calibration_days ops cipher datetime now store) _ ready h in
      let (cut, _, d) = and_then-eq-ok (cutoff ops cipher datetime now) _ days counted in
      ground (arith, days_in-nil cut now store e)

  score_present-cold : (present : List (F × F)) → (score_present ops present false).1 ≡ mode_normal
  score_present-cold present = ground arith

  -- with no bucket the calibration is not over, so an assessment gives the mode `normal`
  assess-normal :
      (now : String) (c : Client F) (temporal drifted : Option F) (r : F × String)
      → c.store.buckets ≡ []
      → assess ops cipher datetime c.store now c.group_a temporal drifted c.weights ≡ ok r
      → r.1 ≡ mode_normal
  unfolding assess score_and_mode
  assess-normal now c temporal drifted r e h =
      let (delta, _, h1) =
        and_then-eq-ok (group_a_delta ops cipher datetime c.store now c.group_a) _ r h in
      let (ready, hr, h2) =
        and_then-eq-ok (baseline_ready ops cipher datetime now c.store) _ r h1 in
      let cold : ready ≡ false = not_ready now c.store ready e hr in
      let signals : Signals F = record {
        input_delta = delta;
        temporal = temporal;
        drift = drifted;
      } in
      ground (arith, score_present-cold (present_of ops c.weights signals))

  announce-Quiet :
      (last : Option String) (mode : String) (score : F) (c : Client F)
      → mode ≡ mode_normal
      → (last ≡ none) ⊎ (last ≡ some mode_normal)
      → Quiet c
      → Quiet (announce env last mode score c)
  announce-Quiet none mode score c e known q = q
  announce-Quiet (some old) mode score c e (inl h) q = cc
  announce-Quiet (some old) mode score c e (inr h) q =
      let same : old ≡ mode = cc in rw (same, eq_refl mode) q

  settle_mode-Quiet : (r : F × String) → r.1 ≡ mode_normal → Keeps Quiet (settle_mode env r)
  settle_mode-Quiet (score, mode) e = record { at = λ c q. settled c q }
    where
      settled : (c : Client F) → Quiet c → Quiet (settle_mode env (score, mode) c).1
      settled c q =
          let q' = announce-Quiet c.last_mode mode score c e q.normal_mode q in
          record {
            no_bucket = q'.no_bucket;
            normal_mode = inr (ap some e);
            no_change = q'.no_change;
          }

  assess_now-normal :
      (now : String) (c : Client F) (r : F × String)
      → Quiet c
      → assess_now env now c ≡ ok r
      → r.1 ≡ mode_normal
  assess_now-normal now c r q h =
      let (temporal, _, h1) =
        and_then-eq-ok
          (temporal_signal ops datetime now c.session_start c.idle.last_idle_end
            (effective_chronotype env c))
          _ r h in
      let (drifted, _, h2) = and_then-eq-ok (drift ops datetime now c.drift) _ r h1 in
      assess-normal now c (some temporal) drifted r q.no_bucket h2

  tick_from-Quiet :
      (now : String) (r : Result (F × String)) (c : Client F)
      → Quiet c
      → ((x : F × String) → r ≡ ok x → x.1 ≡ mode_normal)
      → Quiet (continue r c (settle_mode env)).1
  tick_from-Quiet now (ok x) c q h = (settle_mode-Quiet x (h x refl)).at c q
  tick_from-Quiet now (err x) c q h = q

  after_idle-Quiet :
      (now : String) (r : Result (Unit {0})) (c : Client F)
      → Quiet c
      → let m : Exec (Client F) (F × String) =
          λ _. continue r c (λ _ s. (assess_now env now s, s)) in
        Quiet ((m >>= settle_mode env) c).1
  after_idle-Quiet now (ok _) c q =
      tick_from-Quiet now (assess_now env now c) c q (λ x h. assess_now-normal now c x q h)
  after_idle-Quiet now (err x) c q = q

  tick-Quiet : (now : String) (idle : Option ℕ) → Keeps Quiet (tick env now idle)
  unfolding tick compute
  tick-Quiet now idle = record {
    at = λ c q.
        after_idle-Quiet now (observe_idle env now idle c).0 (observe_idle env now idle c).1
          ((observe_idle-Quiet now idle).at c q);
  }

  not_change : str_eq "pulse.error" "pulse.mode.changed" ≡ false
  not_change = refl

  pub safe_tick-Quiet : (now : String) (idle : Option ℕ) → Keeps Quiet (safe_tick env now idle)
  unfolding safe_tick
  safe_tick-Quiet now idle =
      Keeps-catch {handler = report_error env} (tick-Quiet now idle)
        (λ x. record { at = λ c q. send_cmd-Quiet (error_notice env x) c not_change q })
