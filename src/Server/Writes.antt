-- ===== src/Server/Writes.antt =====
-- What the router writes to a module, and when the gate stops it.
use macbastion.Prelude.{
  ℕ, String, true, false, not, ◌≡◌, refl, ◌∙◌, ◌↔◌, ◌⊎◌, inl, inr, none, some, List, [], ◌∷◌, ◌++◌,
  arith, Bool-cases, Option-cases, str_eq, ◌&&◌, is_some, if◌then◌else◌,
}
use mathlib.Core.Option
use mathlib.Core.Path.{subst}
use text.Mathlib.TextPositions.{eq_refl}
use macbastion.Prelude.Text.{before_dot, mem_str}
use macbastion.Prelude.Dict
use macbastion.Prelude.Dict.{get-remove}
use macbastion.Prelude.Int.{pos, negsuc}
use macbastion.Prelude.Json.{null, int, str, field, end, get_field-drop_field}
use macbastion.Errors.{Exn, to_dict}
use macbastion.Exec.{Result, err, if_rule, with_value_rule, Result-cases}
use macbastion.Envelope.{int_id, null_params, list_params, dict_params, Request, Params}
use macbastion.Registry.{has_method, is_registered}
use macbastion.Gate.{block, delay, allow, confirm, Friction, decide}
use macbastion.Gate.Levels.{decide-block_iff}
use macbastion.Server.{Env, Connection, Sent, Pending, Server}
use macbastion.Server.Params.{param, strip_override}
use macbastion.Server.Replies.{find_pending-fail_if_owned}
use macbastion.Server.Router.{
  send_to, begin_issue, end_issue, issue_to_module, detach_module_writer, find_pending, fail_of,
  gate, apply_gate, override_ok, route,
}

strip_override_lem : (params : Params) → param (strip_override params) "_override" ≡ none
unfolding strip_override
strip_override_lem null_params = refl
strip_override_lem (list_params xs) = refl
strip_override_lem (dict_params fs) =
    ground (arith, get_field-drop_field fs "_override" "_override")

-- a write of `method` with parameters that hold no override, to the module that owns it
abbrev pub IsCleanWrite : String → Server → Server → Type 0
IsCleanWrite method s t =
    (w : Sent) × (t.sent ≡ s.sent ++ w ∷ [])
    × (w.frame.method ≡ method)
    × (param w.frame.params "_override" ≡ none)
    × (Dict.get s.module_writers (before_dot method) ≡ some w.writer)
    × (has_method method s.registry ≡ true)

abbrev IsCleanOrNone : String → Server → Result ℕ × Server → Type 0
IsCleanOrNone method s (r, t) = (t.sent ≡ s.sent) ⊎ IsCleanWrite method s t

begin_issue-writes :
    (method : String) (params : Params) (s : Server)
    → param params "_override" ≡ none
    → IsCleanOrNone method s (begin_issue method params s)
unfolding begin_issue
begin_issue-writes method params s h =
    let owner = before_dot method in
    if_rule (IsCleanOrNone method s) (not (is_registered owner s.registry)) _ _ (λ _. inl refl)
      λ _.
        if_rule (IsCleanOrNone method s) (not (has_method method s.registry)) _ _ (λ _. inl refl)
          λ owned.
            with_value_rule (IsCleanOrNone method s) (Dict.get s.module_writers owner) _
              (send_to owner method params) s (inl refl)
              λ writer found.
                if_rule (IsCleanOrNone method s) (s.lost writer) _ _ (λ _. inl refl)
                  (λ _. inr (_, refl, refl, h, found, ground arith))

end_issue-sent : (i : ℕ) (s : Server) → (end_issue i s).1.sent ≡ s.sent
unfolding end_issue
end_issue-sent i s = ground arith

apply_gate_iff :
    (env : Env) (pause : Server → Server) (reason : String) (f : Friction) (s : Server)
    → ((x : Exn) × ((apply_gate env pause reason f s).0 ≡ err x)) ↔ (f ≡ block)
apply_gate_iff env pause reason block s = (λ h. refl, λ h. (_, refl))
apply_gate_iff env pause reason delay s = (λ (x, h). ground arith, λ h. ground arith)
apply_gate_iff env pause reason allow s = (λ (x, h). ground arith, λ h. ground arith)
apply_gate_iff env pause reason confirm s = (λ (x, h). ground arith, λ h. ground arith)

-- The gate refuses a method exactly when it is in the danger set, PULSE says `exhausted`, and the
-- request carries no override phrase that verifies.
pub gate-refuses_iff :
    (env : Env) (pause : Server → Server) (method : String) (params : Params) (s : Server)
    → ((x : Exn) × ((gate env pause method params s).0 ≡ err x)) ↔ (
        (mem_str method s.danger_set ≡ true)
        × (s.pulse_mode ≡ some "exhausted")
        × (override_ok env params s ≡ false))
unfolding gate
gate-refuses_iff env pause method params s =
    let d = decide method s.pulse_mode s.danger_set (override_ok env params s) in
    let b = decide-block_iff method s.pulse_mode s.danger_set (override_ok env params s) in
    (
      λ (x, h). ground (arith, b, apply_gate_iff env pause d.reason d.decision s),
      λ h. ground (arith, b, apply_gate_iff env pause d.reason d.decision s),
    )

-- what becomes of a request that waits, when the module `name` goes away
abbrev pub dropped : String → ℕ → Pending → Pending
dropped name i p =
    if str_eq p.owner name && not (is_some p.reply)
    then record p {
      reply = some (record {
        id = int_id (pos i);
        result = null;
        error =
            some (field "code" (int (negsuc 30_999)) (field "message" (str "module offline") end));
      });
    }
    else p

fail_of-dropped : (i : ℕ) (name : String) (p : Pending) → fail_of i name p ≡ dropped name i p
unfolding to_dict
fail_of-dropped i name p = elim (Option-cases p.reply) [
  | inl e ↦ ground (arith, e)
  | inr (r, e) ↦ ground (arith, e)
]

-- After a module's connection is dropped, no connection of it is left; each request that still waited
-- for it, and no other, has an error under its internal id, of the code -31000 and with the message
-- `module offline`; every other request is as before, and no id is lost or new.
pub detach_module_writer_lem :
    (name : String) (s : Server)
    → let t = detach_module_writer name s in
      (Dict.get t.module_writers name ≡ none)
      × ((i : ℕ)
          → find_pending i t.pending ≡ Option.map (dropped name i) (find_pending i s.pending))
unfolding detach_module_writer
detach_module_writer_lem name s = (
  ground (arith, get-remove s.module_writers name name, eq_refl name),
  λ i.
      find_pending-fail_if_owned i name s.pending
      ∙ (λ j. Option.map (λ p. fail_of-dropped i name p j) (find_pending i s.pending)),
)

-- one frame of `method` at most, and no override in it
abbrev pub IsOverrideFree : String → List Sent → Server → Type 0
IsOverrideFree method before t =
    (t.sent ≡ before)
    ⊎ ((w : Sent) × (t.sent ≡ before ++ w ∷ [])
        × (w.frame.method ≡ method)
        × (param w.frame.params "_override" ≡ none))

module _ (at_gate at_module : Server → Server)
    (quiet_gate : (u : Server) → (at_gate u).sent ≡ u.sent)
    (quiet_module : (u : Server) → (at_module u).sent ≡ u.sent) where
  issue-writes :
      (method : String) (params : Params) (s : Server)
      → param params "_override" ≡ none
      → IsOverrideFree method s.sent (issue_to_module at_module method params s).1
  unfolding issue_to_module
  issue-writes method params s h =
      let t = (begin_issue method params s).1 in
      elim (Result-cases (begin_issue method params s).0) [
        | inl (i, e) ↦
            let kept : (end_issue i (at_module t)).1.sent ≡ t.sent =
              end_issue-sent i (at_module t) ∙ quiet_module t in
            rw (issue_to_module, e)
              (elim (begin_issue-writes method params s h) [
                | inl none_sent ↦ inl (kept ∙ none_sent)
                | inr (w, one, m, clean, _, _) ↦ inr (w, kept ∙ one, m, clean)
              ])
        | inr (x, e) ↦
            rw (issue_to_module, e)
              (elim (begin_issue-writes method params s h) [
                | inl none_sent ↦ inl none_sent
                | inr (w, one, m, clean, _, _) ↦ inr (w, one, m, clean)
              ])
      ]

  gate-sent :
      (env : Env) (method : String) (params : Params) (s : Server)
      → (gate env at_gate method params s).1.sent ≡ s.sent
  unfolding gate
  gate-sent env method params s = elim (Bool-cases (mem_str method s.danger_set)) [
    | inl e ↦
        let d = decide method s.pulse_mode s.danger_set (override_ok env params s) in
        rw (gate, e) (apply_gate-sent env d.reason d.decision s)
    | inr e ↦ rw (gate, e) refl
  ]
    where
      apply_gate-sent :
          (env : Env) (reason : String) (f : Friction) (s : Server)
          → (apply_gate env at_gate reason f s).1.sent ≡ s.sent
      apply_gate-sent env reason block s = refl
      apply_gate-sent env reason delay s = quiet_gate s
      apply_gate-sent env reason allow s = refl
      apply_gate-sent env reason confirm s = refl

  -- Where the other tasks write nothing in the pauses, a routed request, from whatever connection,
  -- writes at most one frame: it has the method of the request, and never the override phrase.
  pub route-writes :
      (env : Env) (req : Request) (conn : Connection) (s : Server)
      → IsOverrideFree req.method s.sent (route env at_gate at_module req conn s).1
  unfolding route
  route-writes env req conn s = elim (Bool-cases conn.is_module) [
    | inl e ↦ rw (route, e) (inl refl)
    | inr e ↦
        let u = (gate env at_gate req.method req.params s).1 in
        let params = strip_override req.params in
        let (r, t) = issue_to_module at_module req.method params u in
        let written : IsOverrideFree req.method s.sent
            (issue_to_module at_module req.method params u).1 =
          subst
            (λ before.
              IsOverrideFree req.method before (issue_to_module at_module req.method params u).1)
            (gate-sent env req.method req.params s)
            (issue-writes req.method params u (strip_override_lem req.params)) in
        elim (Result-cases (gate env at_gate req.method req.params s).0) [
          | inl (x, g) ↦ elim (Result-cases (issue_to_module at_module req.method params u).0) [
            | inl (reply, i) ↦ rw (route, e, g, i) written
            | inr (x, i) ↦ rw (route, e, g, i) written
          ]
          | inr (x, g) ↦ rw (route, e, g) (inl (gate-sent env req.method req.params s))
        ]
  ]
