-- ===== src/Lifecycle/Budget.antt =====
-- The restart policy: the rolling-hour budget, and the delays.
use text.Mathlib.TextPositions.{eq_refl}
use macbastion.Prelude.{
  ℕ, zero, suc, ◌⊎◌, ◌+◌, ◌≤◌, String, true, false, ◌≡◌, refl, Bool, List, keep_if, some, [], ◌∷◌,
  ◌++◌, arith, leb, ltb, length, if◌then◌else◌,
}
use macbastion.Prelude.Dict
use macbastion.Prelude.Dict.{get-put}
use macbastion.Errors.{invalid_transition}
use macbastion.Exec.{ok, err}
use macbastion.Lifecycle.{
  starting, failed, permanently_failed, can_transition, ModuleRecord, Lifecycle, move, transition,
  recent_restarts, restart, backoff_delay,
}

-- the times that are less than an hour of 3600 s before `now`
abbrev pub last_hour : ℕ → List ℕ → List ℕ
last_hour now times = keep_if (λ t. ltb now (t + 3_600_000_000)) times

-- the hour's budget is spent
abbrev pub is_spent : ℕ → ℕ → List ℕ → Bool
is_spent cap now times = leb cap (length (last_hour now times))

pub recent_restarts-hour :
    (now : ℕ) (times : List ℕ) → recent_restarts now times ≡ last_hour now times
recent_restarts-hour now [] = refl
recent_restarts-hour now (t ∷ times) = ground (arith, recent_restarts-hour now times)

module _ (now : ℕ) (name : String) (s : Lifecycle) {rec : ModuleRecord}
    (found : Dict.get s.records name ≡ some rec) where
  -- A FAILED module with fewer restarts in the last hour than the cap goes to STARTING, and this
  -- restart is counted; at the cap it goes to PERMANENTLY_FAILED, and none is counted.
  pub restart_failed :
      rec.state ≡ failed
      → let over =
          leb s.config.restart_max_per_hour (length (recent_restarts now rec.restart_times)) in
        ((restart now name s).0 ≡ ok tt)
        × (Dict.get (restart now name s).1.records name
            ≡ some (
                if over
                then record rec {
                  state = permanently_failed;
                  restart_times = recent_restarts now rec.restart_times;
                }
                else record rec {
                  state = starting;
                  restart_times = recent_restarts now rec.restart_times ++ now ∷ [];
                  restart_count = rec.restart_count + 1;
                }))
  unfolding restart transition move
  restart_failed dead =
      let recent = recent_restarts now rec.restart_times in
      let last : ModuleRecord = record rec { restart_times = recent } in
      let again : ModuleRecord = record rec {
        restart_times = recent ++ now ∷ [];
        restart_count = rec.restart_count + 1;
      } in
      ground (
        arith,
        eq_refl name,
        get-put s.records name name last,
        get-put s.records name name again,
        get-put (Dict.put s.records name last) name name
            (record last { state = permanently_failed }),
        get-put (Dict.put s.records name again) name name (record again { state = starting }),
      )

  -- `restart` of a module in any other state raises, but its budget has been charged all the same:
  -- below the cap the refused restart is recorded as one of the hour's restarts.
  pub restart_refused_charges :
      can_transition rec.state starting ≡ false
      → ltb (length (recent_restarts now rec.restart_times)) s.config.restart_max_per_hour ≡ true
      → ((restart now name s).0 ≡ err invalid_transition)
        × (Dict.get (restart now name s).1.records name
            ≡ some (record rec {
              restart_times = recent_restarts now rec.restart_times ++ now ∷ [];
              restart_count = rec.restart_count + 1;
            }))
  unfolding restart transition move
  restart_refused_charges other room =
      let again : ModuleRecord = record rec {
        restart_times = recent_restarts now rec.restart_times ++ now ∷ [];
        restart_count = rec.restart_count + 1;
      } in
      ground (arith, eq_refl name, get-put s.records name name again)

backoff_cases :
    (n : ℕ) {a : ℕ}
    → backoff_delay n ≡ ok a
    → (n ≡ 1) × (a ≡ 1)
      ⊎ (n ≡ 2) × (a ≡ 2)
      ⊎ (n ≡ 3) × (a ≡ 4)
      ⊎ (n ≡ 4) × (a ≡ 8)
      ⊎ (5 ≤ n) × (a ≡ 30)
unfolding backoff_delay
backoff_cases zero h = ground arith
backoff_cases (suc zero) h = ground arith
backoff_cases (suc (suc zero)) h = ground arith
backoff_cases (suc (suc (suc zero))) h = ground arith
backoff_cases (suc (suc (suc (suc zero)))) h = ground arith
backoff_cases (suc (suc (suc (suc (suc n))))) h = ground arith

-- The delay of the n-th restart is at least 1 s and at most 30 s, and never falls as n grows.
pub backoff_delay_bounds :
    (n m : ℕ) {a b : ℕ}
    → n ≤ m
    → backoff_delay n ≡ ok a
    → backoff_delay m ≡ ok b
    → (1 ≤ a) × (a ≤ b) × (b ≤ 30)
backoff_delay_bounds n m h p q = omega (arith, backoff_cases n p, backoff_cases m q)
