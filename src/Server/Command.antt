-- ===== src/Server/Command.antt =====
-- The dispatch of chimera/core/server.py: from a frame to its response, and the life of a connection.
use macbastion.Prelude.{ℕ, String, false, ◌&&◌, Option, none, some, str_eq, if◌then◌else◌}
use macbastion.Prelude.Text.{concat, mem_str, starts_with}
use macbastion.Prelude.Json.{obj, Fields, end}
use macbastion.Errors.{rpc_code, parse_error, invalid_request, method_not_found}
use macbastion.Exec.{Result, ok, err, Exec, ◌>>◌}
use macbastion.Broker.{close_sub}
use macbastion.Registry.{capabilities, mark_lost}
use macbastion.Envelope.{
  RequestId, null_id, Params, dict_params, Request, Response, Notification, request, response,
  notification, Parsed, bad_json, bad_message, parsed,
}
use macbastion.Tokens.{issue, validate}
use macbastion.Server.{Env, Connection, Server, on_registry, publish_event, seconds}
use macbastion.Server.Params.{to_error_response}
use macbastion.Server.Router.{attach_module_writer, detach_module_writer, resolve_pending, route}
use macbastion.Server.Reflex.{refresh_danger}
use macbastion.Server.Handlers.{
  Session, on_server, give, core_methods, handle_lock, handle_purge, handle_echo_shape,
  handle_echo_unshape, handle_override_set, handle_register, handle_heartbeat, handle_deregister,
  handle_status, handle_audit, handle_subscribe,
}

abbrev pub payload_of : Params → Fields
payload_of (dict_params fs) = fs
payload_of _ = end

module _ (env : Env) where
  -- `new_connection`
  unfoldable pub new_connection : Server → Connection
  new_connection s = record {
    token = issue env.crypto (seconds s) "surface" core_methods none;
    subject = "surface";
    is_module = false;
    subscription = none;
  }

  -- `_dispatch_core`
  unfoldable pub dispatch_core : String → Params → Exec Session Fields
  dispatch_core method params x =
      if str_eq method "core.register"
      then handle_register env params x
      else if str_eq method "core.heartbeat"
      then on_server (handle_heartbeat env params) x
      else if str_eq method "core.deregister"
      then on_server (handle_deregister env params) x
      else if str_eq method "core.capabilities"
      then (capabilities x.server.registry, x)
      else if str_eq method "core.status"
      then on_server (handle_status env) x
      else if str_eq method "core.audit"
      then on_server (handle_audit env params) x
      else if str_eq method "core.subscribe"
      then handle_subscribe env params x
      else if str_eq method "core.override.set"
      then on_server (handle_override_set env params x.conn) x
      else (err (rpc_code method_not_found), x)

  -- the chain of tests in `handle_command`, for a method of `CORE_METHODS`
  unfoldable pub core_method : String → Params → Exec Session Fields
  core_method method params x =
      if str_eq method "core.lock"
      then on_server handle_lock x
      else if str_eq method "core.purge"
      then on_server handle_purge x
      else if str_eq method "core.echo.shape"
      then on_server (handle_echo_shape params) x
      else if str_eq method "core.echo.unshape"
      then on_server handle_echo_unshape x
      else dispatch_core method params x

  -- a result, or an exception, as a response
  abbrev pub respond : RequestId → Result Fields × Session → Response × Session
  respond id (ok fs, x) = (record { id = id; result = obj fs; error = none }, x)
  respond id (err e, x) = (to_error_response e id, x)

  abbrev pub respond_routed : RequestId → Result Response × Session → Response × Session
  respond_routed id (ok r, x) = (r, x)
  respond_routed id (err e, x) = (to_error_response e id, x)

  -- `handle_command`
  unfoldable pub handle_command :
      (Server → Server) → (Server → Server) → Request → Session → Response × Session
  handle_command at_gate at_module req x =
      if mem_str req.method core_methods
      then respond req.id (
          (give (validate env.crypto (seconds x.server) x.conn.token req.method)
              >> core_method req.method req.params)
            x)
      else if starts_with req.method "core."
      then (to_error_response (rpc_code method_not_found) req.id, x)
      else respond_routed req.id (on_server (route env at_gate at_module req x.conn) x)

  -- the publish authority of `_handle_line`
  abbrev pub handle_notification : Notification → Session → Session
  handle_notification n x =
      if x.conn.is_module && starts_with n.method (concat x.conn.subject ".")
      then record x {
        server =
            publish_event (record { topic = n.method; payload = payload_of n.params }) x.server;
      }
      else x

  -- `_handle_line`, of what `parse_frame` made of the line
  unfoldable pub handle_line :
      (Server → Server) → (Server → Server) → Parsed → Session → Option Response × Session
  handle_line at_gate at_module bad_json x =
      (some (to_error_response (rpc_code parse_error) null_id), x)
  handle_line at_gate at_module bad_message x =
      (some (to_error_response (rpc_code invalid_request) null_id), x)
  handle_line at_gate at_module (parsed (request r)) x =
      let (res, x') = handle_command at_gate at_module r x in (some res, x')
  handle_line at_gate at_module (parsed (response r)) x =
      (none, record x { server = resolve_pending r x.server })
  handle_line at_gate at_module (parsed (notification n)) x = (none, handle_notification n x)

  -- `_serve_commands` after a response: the connection `writer` of a module is attached once. The
  -- refresh of the danger set is a task of its own, with a pause of its own.
  unfoldable pub attach_once :
      (Server → Server) → ℕ → Option String → Session → Option String × Session
  attach_once at_refresh writer (some name) x = (some name, x)
  attach_once at_refresh writer none x =
      if x.conn.is_module
      then (let name = x.conn.subject in
          let s = attach_module_writer name writer x.server in
          (
            some name,
            record x {
              server = (if str_eq name "pulse" then refresh_danger env at_refresh s else s);
            },
          ))
      else (none, x)

  -- the `finally` of `_serve_commands`
  unfoldable pub end_commands : Option String → Server → Server
  end_commands none s = s
  end_commands (some name) s = (on_registry (mark_lost name) (detach_module_writer name s)).1

  -- the `finally` of `_serve_events`
  unfoldable pub end_events : Connection → Server → Server
  end_events conn s = elim conn.subscription [
    | none ↦ s
    | some sub ↦ record s {
      registry = record s.registry {
        lifecycle = record s.registry.lifecycle {
          broker = close_sub sub s.registry.lifecycle.broker;
        };
      };
    }
  ]
