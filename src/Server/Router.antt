-- ===== src/Server/Router.antt =====
-- The router of chimera/core/server.py: a request forwarded to the module that owns its method, the
-- reply matched to the caller by an internal id, the cognitive gate in front.
use macbastion.Prelude.{
  ℕ, ◌+◌, String, Bool, false, not, Option, none, some, List, [], ◌∷◌, ◌++◌, map, str_eq, keep_if,
  is_some, ◌==◌, if◌then◌else◌,
}
use macbastion.Prelude.Int.{pos}
use macbastion.Prelude.Text.{before_dot, mem_str}
use macbastion.Prelude.Json.{Json, null, str}
use macbastion.Prelude.Dict
use macbastion.Prelude.Dict.{Dict}
use macbastion.Errors.{
  os_error, rpc_code, rpc_message, chimera_code, module_offline, module_timeout, capability_missing,
  denied_by_policy, not_authorized,
}
use macbastion.Exec.{ok, err, Exec, pure, modify, with_value, ◌>>=◌, ◌>>◌}
use macbastion.Envelope.{RequestId, int_id, Request, Response, Params}
use macbastion.Registry.{is_registered, has_method}
use macbastion.Gate.{allow, confirm, block, delay, Friction, decide}
use macbastion.Override.{PhraseFile, verify}
use macbastion.Server.{Env, Connection, Pending, Server}
use macbastion.Server.Params.{param, strip_override, error_of}

-- `future.set_result(response)`, if it is not done
abbrev pub settle : Response → Pending → Pending
settle response p = elim p.reply [ none ↦ record p { reply = some response } | some _ ↦ p ]

abbrev pub find_pending : ℕ → List (ℕ × Pending) → Option Pending
find_pending i [] = none
find_pending i ((j, p) ∷ table) = if i == j then some p else find_pending i table

abbrev pub drop_pending : ℕ → List (ℕ × Pending) → List (ℕ × Pending)
drop_pending i table = keep_if (λ (e : ℕ × Pending). not (i == e.0)) table

-- the response that fails a request of a module that went away
abbrev pub offline_response : ℕ → Response
offline_response i = record {
  id = int_id (pos i);
  result = null;
  error = some (error_of "module offline" (chimera_code module_offline));
}

abbrev pub fail_of : ℕ → String → Pending → Pending
fail_of i name p = if str_eq p.owner name then settle (offline_response i) p else p

abbrev pub fail_if_owned : String → ℕ × Pending → ℕ × Pending
fail_if_owned name (i, p) = (i, fail_of i name p)

-- `_detach_module_writer`
unfoldable pub detach_module_writer : String → Server → Server
detach_module_writer name s = record s {
  module_writers = Dict.remove s.module_writers name;
  pending = map (fail_if_owned name) s.pending;
}

-- `_attach_module_writer`
unfoldable pub attach_module_writer : String → ℕ → Server → Server
attach_module_writer name writer s =
    let t = if is_some (Dict.get s.module_writers name) then detach_module_writer name s else s in
    record t { module_writers = Dict.put t.module_writers name writer }

abbrev pub settle_at : ℕ → Response → ℕ × Pending → ℕ × Pending
settle_at i response (j, p) = (j, (if i == j then settle response p else p))

-- the entry of an id; internal ids are not negative
abbrev pub resolve_at : RequestId → Response → Server → Server
resolve_at (int_id (pos i)) response s = record s { pending = map (settle_at i response) s.pending }
resolve_at _ response s = s

-- `_resolve_pending`
unfoldable pub resolve_pending : Response → Server → Server
resolve_pending response s = resolve_at response.id response s

-- `_issue_to_module` from the lookup of the connection to the `await`: the internal id
abbrev pub send_to : String → String → Params → ℕ → Exec Server ℕ
send_to owner method params writer s =
    let i = s.next_internal_id + 1 in
    let frame : Request = record { id = int_id (pos i); method = method; params = params } in
    if s.lost writer
    then (err (os_error "connection lost"), record s { next_internal_id = i })
    else (
      ok i,
      record s {
        next_internal_id = i;
        pending = (i, record { owner = owner; reply = none }) ∷ s.pending;
        sent = s.sent ++ record { writer = writer; frame = frame } ∷ [];
      },
    )

-- `_issue_to_module` up to the `await`
unfoldable pub begin_issue : String → Params → Exec Server ℕ
begin_issue method params s =
    let owner = before_dot method in
    if not (is_registered owner s.registry)
    then (err (rpc_code (chimera_code module_offline)), s)
    else if not (has_method method s.registry)
    then (err (rpc_code (chimera_code capability_missing)), s)
    else with_value (Dict.get s.module_writers owner) (rpc_code (chimera_code module_offline))
        (send_to owner method params) s

abbrev pub reply_of : Option Pending → Option Response
reply_of none = none
reply_of (some p) = p.reply

-- `_issue_to_module` from the `await` on, when the future is done or the time is up
unfoldable pub end_issue : ℕ → Exec Server Response
end_issue i s =
    with_value (reply_of (find_pending i s.pending)) (rpc_code (chimera_code module_timeout)) pure
      (record s { pending = drop_pending i s.pending })

-- `_issue_to_module`
unfoldable pub issue_to_module : (Server → Server) → String → Params → Exec Server Response
issue_to_module pause method params = do i ← begin_issue method params; modify pause; end_issue i

module _ (env : Env) where
  abbrev verify_param : Option PhraseFile → Option Json → Bool
  verify_param (some store) (some (str phrase)) = verify env.pbkdf2 phrase store
  verify_param _ _ = false

  -- `_override_ok`
  unfoldable pub override_ok : Params → Server → Bool
  override_ok params s = verify_param s.override_store (param params "_override")

  -- what `_gate` does with the decision
  abbrev pub apply_gate : (Server → Server) → String → Friction → Exec Server (Unit {0})
  apply_gate pause reason block s = (err (rpc_message (chimera_code denied_by_policy) reason), s)
  apply_gate pause reason delay s = (ok tt, pause s)
  apply_gate pause reason allow s = (ok tt, s)
  apply_gate pause reason confirm s = (ok tt, s)

  -- `_gate`; `pause` is what happens during the delay
  unfoldable pub gate : (Server → Server) → String → Params → Exec Server (Unit {0})
  gate pause method params s =
      if mem_str method s.danger_set
      then (let d = decide method s.pulse_mode s.danger_set (override_ok params s) in
          apply_gate pause d.reason d.decision s)
      else (ok tt, s)

  -- the module's reply under the caller's id
  abbrev pub relabel : RequestId → Response → Response
  relabel id reply = elim reply.error [
    | some e ↦ record { id = id; result = null; error = some e }
    | none ↦ record { id = id; result = reply.result; error = none }
  ]

  -- `_route`, with the pauses at the gate and at the module
  unfoldable pub route :
      (Server → Server) → (Server → Server) → Request → Connection → Exec Server Response
  route at_gate at_module request conn s =
      if conn.is_module
      then (err (rpc_code (chimera_code not_authorized)), s)
      else (do
        gate at_gate request.method request.params
        reply ← issue_to_module at_module request.method (strip_override request.params)
        pure (relabel request.id reply))
          s
