-- ===== src/Server/Authority.antt =====
-- What a connection may do: the tokens, the commands of modules, the events that they publish.
use Prim.Native.String.{◌++◌}
use mathlib.Core.Path.{subst}
use text.Mathlib.TextLemmas.{nil-append, cons-append}
use text.Mathlib.TextEquality.{starts_with_iff}
use macbastion.Prelude.{
  ℕ, ◌+◌, String, true, false, ◌&&◌, ◌≡◌, refl, ◌⊎◌, inl, inr, none, some, arith, leb, Bool-cases,
  if◌then◌else◌,
}
use macbastion.Prelude.Text.{before_dot, has_char, concat, mem_str, starts_with}
use macbastion.Errors.{rpc_code, chimera_code, not_authorized}
use macbastion.Envelope.{Request, Notification, notification, parsed}
use macbastion.Tokens.{issue, default_ttl_s, token_payload}
use macbastion.Tokens.Validity.{IsSound, validate-issue}
use macbastion.Server.{Env, Server, seconds, publish_event}
use macbastion.Server.Params.{to_error_response}
use macbastion.Server.Router.{route}
use macbastion.Server.Handlers.{Session, core_methods}
use macbastion.Server.Command.{
  handle_command, handle_line, handle_notification, payload_of, core_method, respond,
}

before_dot_lem : (a b : String) → has_char b'.' a ≡ false → before_dot ((a ++ ".") ++ b) ≡ a
before_dot_lem String.[] b h = rw (nil-append ".", cons-append "." "" b) refl
before_dot_lem (String.◌∷◌ x a) b h =
    rw (cons-append x a ".", cons-append x (a ++ ".") b)
      (ground (arith, before_dot_lem a b (ground arith)))

-- A notification changes nothing, or it was published: then its connection is that of a module, and
-- the topic's part before the first dot is the name under which the module registered (a name without
-- a dot). No response is sent either way.
pub handle_line-publishes :
    (env : Env) (at_gate at_module : Server → Server) (n : Notification) (x : Session)
    → has_char b'.' x.conn.subject ≡ false
    → let (res, x') = handle_line env at_gate at_module (parsed (notification n)) x in
      (res ≡ none)
      × ((x' ≡ x)
          ⊎ ((x.conn.is_module ≡ true)
              × (before_dot n.method ≡ x.conn.subject)
              × (x' ≡ record x {
                server =
                    publish_event
                      (record { topic = n.method; payload = payload_of n.params })
                      x.server;
              })))
unfolding handle_line
handle_line-publishes env at_gate at_module n x h =
    elim (Bool-cases (x.conn.is_module && starts_with n.method (concat x.conn.subject "."))) [
      | inl e ↦
          let (rest, whole) = (starts_with_iff n.method (x.conn.subject ++ ".")).0 (ground arith) in
          let own : before_dot n.method ≡ x.conn.subject =
            subst (λ t. before_dot t ≡ x.conn.subject) whole
              (before_dot_lem x.conn.subject rest h) in
          (refl, inr (ground arith, own, rw (handle_notification, e) refl))
      | inr e ↦ (refl, inl (rw (handle_notification, e) refl))
    ]

-- A module's connection that calls a method outside `core.` is told that it is not authorized, under
-- the id of its request, and nothing changes: modules cannot command modules.
pub handle_command-module :
    (env : Env) (at_gate at_module : Server → Server) (req : Request) (x : Session)
    → x.conn.is_module ≡ true
    → mem_str req.method core_methods ≡ false
    → starts_with req.method "core." ≡ false
    → handle_command env at_gate at_module req x
      ≡ (to_error_response (rpc_code (chimera_code not_authorized)) req.id, x)
unfolding handle_command route
handle_command-module env at_gate at_module req x m c o = rw (handle_command, c, o, route, m) refl

-- A method of core, called on a connection whose token was issued at `iat`: from an hour later on it
-- is refused as not authorized, and nothing changes; before that it is executed.
pub handle_command-token :
    (env : Env) (at_gate at_module : Server → Server) (req : Request) (x : Session) (iat : ℕ)
    (subject : String)
    → IsSound env.crypto (token_payload subject core_methods iat (iat + 3600))
    → mem_str req.method core_methods ≡ true
    → x.conn.token ≡ issue env.crypto iat subject core_methods (some default_ttl_s)
    → handle_command env at_gate at_module req x ≡ (
        if leb (iat + 3600) (seconds x.server)
        then (to_error_response (rpc_code (chimera_code not_authorized)) req.id, x)
        else respond env req.id (core_method env req.method req.params x))
unfolding handle_command
handle_command-token env at_gate at_module req x iat subject sound core token =
    let v =
      validate-issue env.crypto iat subject core_methods 3600 (seconds x.server) req.method sound in
    elim (Bool-cases (leb (iat + 3600) (seconds x.server))) [
      | inl late ↦ rw (handle_command, core, token, v, late) refl
      | inr early ↦ rw (handle_command, core, token, v, early, core) refl
    ]
