-- ===== src/Server/Actuation.antt =====
-- What the reflexes do, and what they never do.
use macbastion.Prelude.{
  ℕ, String, true, ◌≡◌, refl, ◌∙◌, ◌⊎◌, inl, inr, Option, none, some, [], ◌∷◌, ◌++◌, arith, is_some,
  if◌then◌else◌, str_eq, Option-cases,
}
use mathlib.Core.Path.{subst⁻¹}
use macbastion.Prelude.Json.{Json, str, get_field}
use macbastion.Prelude.Dict
use macbastion.Prelude.Dict.{get-put, get-remove}
use text.Mathlib.TextPositions.{eq_refl}
use macbastion.Exec.{Result-cases, if_rule}
use macbastion.Broker.{Event}
use macbastion.Envelope.{Params, null_params}
use macbastion.Server.{Env, Shim, lock_call, Server}
use macbastion.Server.Router.{begin_issue, end_issue, attach_module_writer, detach_module_writer}
use macbastion.Server.Reflex.{
  audit, relay_start, relay_end, relay_one, lock_screen, escalate, on_tether_escalation,
}
use macbastion.Server.Command.{end_commands}
use macbastion.Lifecycle.{ModuleState, failed}
use macbastion.Registry.{is_registered, state_or_none, is_up, mark_lost}
use macbastion.Registry.Outcomes.{mark_lost_lem}

-- No file of the state is gone, and the shim was asked to lock at most.
abbrev pub IsSpared : Server → Server → Type 0
IsSpared s t =
    (t.state_files ≡ s.state_files)
    × ((t.shim_calls ≡ s.shim_calls) ⊎ (t.shim_calls ≡ s.shim_calls ++ lock_call ∷ []))

abbrev IsExhausted : Server → Type 0
IsExhausted s = s.pulse_mode ≡ some "exhausted"

-- the state files, the calls of the shim and the mode are as before
pub record Keeps (s t : Server) : Type 0 where
  pub files : t.state_files ≡ s.state_files
  pub calls : t.shim_calls ≡ s.shim_calls
  pub mode : t.pulse_mode ≡ s.pulse_mode

begin_issue-Keeps :
    (method : String) (params : Params) (s : Server) → Keeps s (begin_issue method params s).1
unfolding begin_issue
begin_issue-Keeps method params s = record {
  files = ground arith;
  calls = ground arith;
  mode = ground arith;
}

end_issue-Keeps : (i : ℕ) (s : Server) → Keeps s (end_issue i s).1
unfolding end_issue
end_issue-Keeps i s = record { files = ground arith; calls = ground arith; mode = ground arith }

Keeps-trans : (s t u : Server) → Keeps s t → Keeps t u → Keeps s u
Keeps-trans s t u a b = record {
  files = b.files ∙ a.files;
  calls = b.calls ∙ a.calls;
  mode = b.mode ∙ a.mode;
}

module _ (env : Env) where
  audit-Keeps :
      (topic target outcome : String) (s : Server) → Keeps s (audit env topic target outcome s)
  unfolding audit
  audit-Keeps topic target outcome s = record { files = refl; calls = refl; mode = refl }

  relay_start-Keeps :
      (topic target : String) (s : Server) → Keeps s (relay_start env topic target s).1
  unfolding relay_start
  relay_start-Keeps topic target s =
      let t = (begin_issue target null_params s).1 in
      let sent = begin_issue-Keeps target null_params s in
      elim (Result-cases (begin_issue target null_params s).0) [
        | inl (i, e) ↦ rw (relay_start, e) sent
        | inr (x, e) ↦ rw (relay_start, e) (Keeps-trans s t _ sent (audit-Keeps topic target _ t))
      ]

  relay_end-Keeps :
      (topic target : String) (i : Option ℕ) (s : Server) → Keeps s (relay_end env topic target i s)
  unfolding relay_end
  relay_end-Keeps topic target none s = record { files = refl; calls = refl; mode = refl }
  relay_end-Keeps topic target (some i) s =
      Keeps-trans s (end_issue i s).1 _ (end_issue-Keeps i s) (audit-Keeps topic target _ _)

  relay_one-Keeps :
      (pause : Server → Server) (topic target : String) (s : Server)
      → ((u : Server) → Keeps u (pause u))
      → Keeps s (relay_one env pause topic target s)
  unfolding relay_one
  relay_one-Keeps pause topic target s quiet =
      let t = (relay_start env topic target s).1 in
      let started = relay_start-Keeps topic target s in
      elim (Option-cases (relay_start env topic target s).0) [
        | inl e ↦ rw (relay_one, e) started
        | inr (i, e) ↦
            rw (relay_one, e)
              (Keeps-trans s t _ started (
                Keeps-trans t (pause t) _ (quiet t)
                  (relay_end-Keeps topic target (some i) (pause t))))
      ]

  lock_screen-IsSpared : (shim : Option Shim) (s : Server) → IsSpared s (lock_screen env shim s)
  unfolding audit
  lock_screen-IsSpared none s = (refl, inl refl)
  lock_screen-IsSpared (some shim) s = elim (Result-cases shim.lock_reply) [
    | inl (fs, e) ↦ rw (lock_screen, e) (refl, inr refl)
    | inr (x, e) ↦ rw (lock_screen, e) (refl, inr refl)
  ]

  escalate-IsSpared :
      (pause : Server → Server) (action : String) (s : Server)
      → ((u : Server) → Keeps u (pause u))
      → IsSpared s (escalate env pause action s)
  escalate-IsSpared pause action s quiet =
      if_rule (IsSpared s) (str_eq action "lock_screen") _ _ (λ _. lock_screen-IsSpared s.shim s)
        λ _.
          if_rule (IsSpared s) (str_eq action "lock_vaults") _ _
            (λ _. spared (relay_one-Keeps pause "tether.escalation" "vault.lock" s quiet))
            λ _.
              if_rule (IsSpared s) (str_eq action "trigger_purge") _ _
                (λ _.
                  spared
                    (audit-Keeps "tether.escalation" "purge.trigger" "refused: L3 opt-in only" s))
                (λ _. (refl, inl refl))
    where
      spared : {t : Server} → Keeps s t → IsSpared s t
      spared k = (k.files, inl k.calls)

  -- Whatever a `tether.escalation` event asks for, `trigger_purge` included, the reflex destroys
  -- nothing: the state files stay and the shim is asked for a screen lock at most, never for the
  -- eviction of the Keychain (where the other tasks leave the files, the shim and PULSE's mode alone
  -- while it waits).
  pub on_tether_escalation-spares :
      (pause : Server → Server) (event : Event) (s : Server)
      → ((u : Server) → Keeps u (pause u))
      → IsSpared s (on_tether_escalation env pause event s)
  unfolding on_tether_escalation
  on_tether_escalation-spares pause event s quiet =
      asked (get_field event.payload "action_requested")
    where
      asked :
          (j : Option Json)
          → IsSpared s (elim j [ some (str action) ↦ escalate env pause action s | _ ↦ s ])
      asked none = (refl, inl refl)
      asked (some (str action)) = escalate-IsSpared pause action s quiet
      asked (some _) = (refl, inl refl)

-- When a module has come back on a new connection, its state is up and it is in the registry, the end of
-- its old connection takes the new one away: the new connection was attached, and now the module has none,
-- and the module, which is alive, is marked as failed.
pub end_commands_takes :
    (env : Env) (name : String) (writer : ℕ) (s : Server) {state : ModuleState}
    → is_registered name s.registry ≡ true
    → state_or_none s.registry name ≡ some state
    → is_up state ≡ true
    → let t = attach_module_writer name writer s in
      let u = end_commands env (some name) t in
      (Dict.get t.module_writers name ≡ some writer)
      × (Dict.get u.module_writers name ≡ none)
      × (state_or_none u.registry name ≡ some failed)
unfolding end_commands detach_module_writer attach_module_writer
end_commands_takes env name writer s {state} present at up =
    let t = attach_module_writer name writer s in
    let before : Server =
      if is_some (Dict.get s.module_writers name) then detach_module_writer name s else s in
    let same : t.registry ≡ s.registry = ground arith in
    let (done, lost, kept) = mark_lost_lem name s.registry state present at in
    (
      ground (arith, get-put before.module_writers name name writer, eq_refl name),
      ground (arith, get-remove t.module_writers name name, eq_refl name),
      subst⁻¹ (λ r. state_or_none (mark_lost name r).1 name ≡ some failed) same
          (ground (arith, lost, up)),
    )
