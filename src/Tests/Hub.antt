-- ===== src/Tests/Hub.antt =====
-- The theorems on the server, applied.
use macbastion.Prelude.{
  ℕ, ◌+◌, true, false, ◌≡◌, refl, ◌↔◌, ◌⊎◌, none, some, List, [], ◌∷◌, leb, if◌then◌else◌,
}
use mathlib.Core.Option
use macbastion.Prelude.Text.{before_dot, mem_str}
use macbastion.Prelude.Dict
use macbastion.Prelude.Json.{str, end, field}
use macbastion.Errors.{Exn, rpc_code, chimera_code, not_authorized}
use macbastion.Exec.{err}
use macbastion.Lifecycle.{failed}
use macbastion.Registry.{state_or_none}
use macbastion.Tokens
use macbastion.Registry
use macbastion.Envelope.{null_params, notification, parsed}
use macbastion.Server.{seconds, publish_event}
use macbastion.Server.Params.{to_error_response}
use macbastion.Server.Router.{
  begin_issue, issue_to_module, find_pending, detach_module_writer, attach_module_writer, gate,
  route, override_ok,
}
use macbastion.Server.Replies.{
  RouterCall, reply_call, gone_call, send_call, run_all, first_reply, answer,
  issue_to_module-answered,
}
use macbastion.Server.Writes.{
  IsOverrideFree, route-writes, dropped, gate-refuses_iff, detach_module_writer_lem,
}
use macbastion.Server.Authority.{handle_line-publishes, handle_command-token}
use macbastion.Server.Reflex.{on_tether_escalation}
use macbastion.Server.Actuation.{IsSpared, on_tether_escalation-spares, end_commands_takes}
use macbastion.Server.Command.{handle_command, handle_line, core_method, respond, end_commands}
use macbastion.Tests.Data.{
  env, server, module_session, surface_session, surface_conn, lock_request, status_request,
  lock_reply, event, opened_note,
}

-- another request is sent to the vault, then the vault answers the first one and goes away
abbrev calls : List RouterCall
calls = send_call "vault.lock" null_params ∷ reply_call lock_reply ∷ gone_call "vault" ∷ []

issue_to_module-answered_example :
    let (r, t) = issue_to_module (run_all calls) "vault.lock" null_params server in
    (r ≡ answer (first_reply 5 (before_dot "vault.lock") calls)) × (find_pending 5 t.pending ≡ none)
unfolding begin_issue Dict.get Registry.has_method
issue_to_module-answered_example =
    issue_to_module-answered "vault.lock" null_params server 5 calls refl (refl, (refl, (refl, tt)))

route-writes_example :
    IsOverrideFree "vault.lock" [] (route env (λ u. u) (λ u. u) lock_request surface_conn server).1
route-writes_example =
    route-writes (λ u. u) (λ u. u) (λ u. refl) (λ u. refl) env lock_request surface_conn server

gate-refuses_iff_example :
    ((x : Exn) × ((gate env (λ u. u) "vault.lock" null_params server).0 ≡ err x)) ↔ (
      (mem_str "vault.lock" ("vault.lock" ∷ []) ≡ true)
      × (server.pulse_mode ≡ some "exhausted")
      × (override_ok env null_params server ≡ false))
gate-refuses_iff_example = gate-refuses_iff env (λ u. u) "vault.lock" null_params server

detach_module_writer_lem_example :
    let t = detach_module_writer "vault" server in
    (Dict.get t.module_writers "vault" ≡ none)
    × ((i : ℕ) → find_pending i t.pending ≡ Option.map (dropped "vault" i) (find_pending i []))
detach_module_writer_lem_example = detach_module_writer_lem "vault" server

handle_line-publishes_example :
    let x = module_session in
    let (res, x') = handle_line env (λ u. u) (λ u. u) (parsed (notification opened_note)) x in
    (res ≡ none)
    × ((x' ≡ x)
        ⊎ ((true ≡ true)
            × (before_dot "vault.opened" ≡ "vault")
            × (x' ≡ record x { server = publish_event (event "vault.opened" end) server })))
handle_line-publishes_example =
    handle_line-publishes env (λ u. u) (λ u. u) opened_note module_session refl

handle_command-token_example :
    handle_command env (λ u. u) (λ u. u) status_request surface_session ≡ (
      if leb (0 + 3600) (seconds server)
      then (
        to_error_response (rpc_code (chimera_code not_authorized)) status_request.id,
        surface_session,
      )
      else respond env status_request.id
          (core_method env "core.status" null_params surface_session))
unfolding Tokens.issue
handle_command-token_example =
    handle_command-token env (λ u. u) (λ u. u) status_request surface_session 0 "surface"
      (record { encode_undotted = refl; sign_undotted = refl; decode_encode = refl }) refl refl

on_tether_escalation-spares_example : IsSpared server (
    on_tether_escalation env
      (λ u. u)
      (event "tether.escalation" (field "action_requested" (str "trigger_purge") end))
      server)
on_tether_escalation-spares_example =
    on_tether_escalation-spares env (λ u. u)
      (event "tether.escalation" (field "action_requested" (str "trigger_purge") end)) server
      (λ u. record { files = refl; calls = refl; mode = refl })

end_commands_takes_example :
    let t = attach_module_writer "vault" 9 server in
    let u = end_commands env (some "vault") t in
    (Dict.get t.module_writers "vault" ≡ some 9)
    × (Dict.get u.module_writers "vault" ≡ none)
    × (state_or_none u.registry "vault" ≡ some failed)
unfolding Dict.get
end_commands_takes_example = end_commands_takes env "vault" 9 server refl refl refl
