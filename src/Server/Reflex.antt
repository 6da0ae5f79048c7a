-- ===== src/Server/Reflex.antt =====
-- The reflexes of chimera/core/server.py: what core does on its own authority when an event is
-- published. The reflexes of one event are all sent before any ends, and the last one sent is taken to
-- end first.
use macbastion.Prelude.{
  ℕ, String, not, ◌&&◌, Option, none, some, List, [], ◌∷◌, ◌++◌, str_eq, if◌then◌else◌,
}
use macbastion.Prelude.Text.{concat}
use macbastion.Prelude.Json.{Json, str, arr, obj, Items, nil, cons, Fields, get_field}
use macbastion.Errors.{Exn}
use macbastion.Exec.{Result, ok, err}
use macbastion.Broker.{Event}
use macbastion.Envelope.{Response, null_params}
use macbastion.Audit.{record_entry}
use macbastion.Gate.{mode_is}
use macbastion.Server.{Env, Shim, lock_call, Server}
use macbastion.Server.Params.{exn_text}
use macbastion.Server.Router.{begin_issue, end_issue, issue_to_module}

-- `RELAY_RULES`
unfoldable pub relay_targets : String → List String
relay_targets topic =
    if str_eq topic "oracle.anomaly.detected"
    then "tether.heighten" ∷ "vault.lock" ∷ "chaff.generation.start" ∷ "echo.start" ∷ []
    else if str_eq topic "tether.absent"
    then "vault.lock" ∷ []
    else if str_eq topic "tether.recovered"
    then "chaff.generation.stop" ∷ "echo.stop" ∷ []
    else if str_eq topic "oracle.anomaly.cleared"
    then "chaff.generation.stop" ∷ "echo.stop" ∷ []
    else []

-- its keys
abbrev pub relay_topics : List String
relay_topics =
    "oracle.anomaly.detected" ∷ "tether.absent" ∷ "tether.recovered" ∷ "oracle.anomaly.cleared" ∷ []

-- `pulse.danger.list` names, as texts
abbrev pub texts : (Json → String) → Items → List String
texts show nil = []
texts show (cons (str s) xs) = s ∷ texts show xs
texts show (cons j xs) = show j ∷ texts show xs

module _ (env : Env) where
  -- `_audit`: an `OSError` is swallowed
  unfoldable pub audit : String → String → String → Server → Server
  audit topic target outcome s =
      let (r, a) = record_entry (env.time_text s.now) topic (target ∷ []) outcome s.audit_log in
      record s { audit_log = a }

  abbrev pub failure : Exn → String
  failure x = concat "error: " (exn_text env.exn_text x)

  abbrev message_or_all : Fields → Option Json → String
  message_or_all fs none = env.json_text (obj fs)
  message_or_all fs (some (str text)) = text
  message_or_all fs (some j) = env.json_text j

  -- what `_relay_one` records of a reply or an exception
  abbrev pub outcome : Result Response → String
  outcome (err x) = failure x
  outcome (ok reply) = elim reply.error [
    | none ↦ "ok"
    | some fs ↦ concat "error: " (message_or_all fs (get_field fs "message"))
  ]

  -- `_relay_one` up to the `await`: the internal id, unless it failed at once
  unfoldable pub relay_start : String → String → Server → Option ℕ × Server
  relay_start topic target s =
      let (r, t) = begin_issue target null_params s in
      elim r [ ok i ↦ (some i, t) | err x ↦ (none, audit topic target (failure x) t) ]

  -- `_relay_one` from the `await` on
  unfoldable pub relay_end : String → String → Option ℕ → Server → Server
  relay_end topic target none s = s
  relay_end topic target (some i) s = let (r, t) = end_issue i s in audit topic target (outcome r) t

  -- `_relay_one`
  unfoldable pub relay_one : (Server → Server) → String → String → Server → Server
  relay_one pause topic target s =
      let (i, t) = relay_start topic target s in
      elim i [ none ↦ t | some n ↦ relay_end topic target (some n) (pause t) ]

  -- the fan-out of `_relay_handle`: all are started, then all end
  unfoldable pub relay_all : (Server → Server) → String → List String → Server → Server
  relay_all pause topic [] s = pause s
  relay_all pause topic (target ∷ targets) s =
      let (i, t) = relay_start topic target s in
      relay_end topic target i (relay_all pause topic targets t)

  -- `_relay_handle`
  unfoldable pub relay_handle : (Server → Server) → Event → Server → Server
  relay_handle pause event s = elim (relay_targets event.topic) [
    | [] ↦ s
    | target ∷ targets ↦ relay_all pause event.topic (target ∷ targets) s
  ]

  -- `_apply_pulse_mode`
  unfoldable pub apply_pulse_mode : (Server → Server) → String → Server → Server
  apply_pulse_mode pause new_mode s =
      let t : Server = record s { pulse_mode = some new_mode } in
      if str_eq new_mode "exhausted" && not (mode_is s.pulse_mode "exhausted")
      then relay_one pause "pulse.mode.changed" "vault.lock" t
      else t

  -- the body of `_gate_loop`
  unfoldable pub gate_event : (Server → Server) → Event → Server → Server
  gate_event pause event s = elim (get_field event.payload "new_mode") [
    | some (str new_mode) ↦ apply_pulse_mode pause new_mode s
    | _ ↦ s
  ]

  -- the screen lock of level 1, by what the shim answers
  abbrev pub lock_screen : Option Shim → Server → Server
  lock_screen none s = audit "tether.escalation" "shim.lock" "error: shim unavailable" s
  lock_screen (some shim) s =
      let t : Server = record s { shim_calls = s.shim_calls ++ lock_call ∷ [] } in
      elim shim.lock_reply [
        | ok _ ↦ audit "tether.escalation" "shim.lock" "ok" t
        | err x ↦ audit "tether.escalation" "shim.lock" (failure x) t
      ]

  abbrev pub escalate : (Server → Server) → String → Server → Server
  escalate pause action s =
      if str_eq action "lock_screen"
      then lock_screen s.shim s
      else if str_eq action "lock_vaults"
      then relay_one pause "tether.escalation" "vault.lock" s
      else if str_eq action "trigger_purge"
      then audit "tether.escalation" "purge.trigger" "refused: L3 opt-in only" s
      else s

  -- `_on_tether_escalation`
  unfoldable pub on_tether_escalation : (Server → Server) → Event → Server → Server
  on_tether_escalation pause event s = elim (get_field event.payload "action_requested") [
    | some (str action) ↦ escalate pause action s
    | _ ↦ s
  ]

  -- the danger set that a reply brings, if it is one
  abbrev pub danger_reply : Result Response → Option (List String)
  danger_reply (err x) = none
  danger_reply (ok reply) = elim reply.error [
    | some e ↦ none
    | none ↦ elim reply.result [
      | obj fs ↦ elim (get_field fs "registry") [
        | some (arr xs) ↦ some (texts env.json_text xs)
        | _ ↦ none
      ]
      | _ ↦ none
    ]
  ]

  -- `_refresh_danger`
  unfoldable pub refresh_danger : (Server → Server) → Server → Server
  refresh_danger pause s =
      let (r, t) = issue_to_module pause "pulse.danger.list" null_params s in
      elim (danger_reply r) [ none ↦ t | some names ↦ record t { danger_set = names } ]
