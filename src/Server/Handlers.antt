-- ===== src/Server/Handlers.antt =====
-- The handlers of the `core.*` methods in chimera/core/server.py. A handler may change the connection
-- that it answers: its state is the server with that connection.
use macbastion.Prelude.{
  ℕ, ◌+◌, ◌-◌, String, Bool, true, false, not, Option, none, some, List, [], ◌∷◌, ◌++◌, map, str_eq,
  ◌==◌, if◌then◌else◌,
}
use macbastion.Prelude.Int.{ℤ, pos, negsuc}
use macbastion.Prelude.Text.{concat, join, sorted_set}
use macbastion.Prelude.Dict
use macbastion.Prelude.Json.{
  Json, null, bool, int, float, str, arr, obj, Items, nil, cons, Fields, end, field, str_items,
}
use macbastion.Errors.{
  Exn, key_error, value_error, shim_error, rpc_code, rpc_message, chimera_code, precondition_failed,
  not_authorized, module_offline, invalid_params,
}
use macbastion.Exec.{Result, ok, err, Exec, pure, raise, gets, within, catch, ◌>>=◌, ◌>>◌}
use macbastion.Broker.{Event, subscribe}
use macbastion.Lifecycle.{ModuleRecord, Lifecycle, heartbeat}
use macbastion.Registry.{register, deregister, capabilities, on_lifecycle, texts_of}
use macbastion.Envelope.{Params}
use macbastion.Override.{PhraseFile, set_phrase}
use macbastion.Tokens.{issue}
use macbastion.Tier0.{Report, run_tier0, report_fields}
use macbastion.Audit.{recent}
use macbastion.Server.{
  Env, Connection, lock_call, evict_call, Server, on_registry, publish_event, seconds,
}
use macbastion.Server.Params.{param, require_str, opt_list}
use macbastion.Server.Reflex.{relay_topics, relay_targets}

pub record Session : Type 0 where
  pub server : Server
  pub conn : Connection

abbrev pub on_server : {A : Type 0} → Exec Server A → Exec Session A
on_server = within (λ (x : Session). x.server) (λ x s. record x { server = s })

-- a computed result handed on, or its exception raised
abbrev pub give : {S A : Type 0} → Result A → Exec S A
give r s = (r, s)

-- `CORE_METHODS`
abbrev pub core_methods : List String
core_methods =
    "core.register" ∷ "core.heartbeat" ∷ "core.deregister" ∷ "core.capabilities" ∷ "core.status"
    ∷ "core.audit" ∷ "core.subscribe" ∷ "core.override.set" ∷ "core.lock" ∷ "core.purge"
    ∷ "core.echo.shape" ∷ "core.echo.unshape" ∷ []

abbrev pub done_fields : Fields
done_fields = field "ok" (bool true) end

abbrev precondition : String → Exn
precondition message = rpc_message (chimera_code precondition_failed) message

-- the exception of the shim's client, as the handlers raise it again
abbrev pub as_precondition : Result Fields → Result Fields
as_precondition (ok fs) = ok fs
as_precondition (err (shim_error text)) = err (precondition text)
as_precondition (err x) = err x

-- `_handle_lock`
unfoldable pub handle_lock : Exec Server Fields
handle_lock s = elim s.shim [
  | none ↦ (err (precondition "shim unavailable"), s)
  | some shim ↦
      (as_precondition shim.lock_reply, record s { shim_calls = s.shim_calls ++ lock_call ∷ [] })
]

abbrev purge_imminent : Event
purge_imminent = record { topic = "purge.imminent"; payload = end }

abbrev reported : Result Report → Result Fields
reported (ok report) = ok (report_fields report)
reported (err x) = err x

-- `_handle_purge`
unfoldable pub handle_purge : Exec Server Fields
handle_purge s = elim s.shim [
  | none ↦ (err (precondition "shim unavailable"), s)
  | some shim ↦
      let (report, left, deeds) = run_tier0 shim.eviction s.state_files in
      (
        reported report,
        record (publish_event purge_imminent s) {
          state_files = left;
          shim_calls = s.shim_calls ++ evict_call ∷ [];
        },
      )
]

-- a rate above 0
abbrev pub positive : Option Json → Option ℤ
positive (some (int (pos n))) = if n == 0 then none else some (pos n)
positive _ = none

-- `_handle_echo_shape`
unfoldable pub handle_echo_shape : Params → Exec Server Fields
handle_echo_shape params s = elim s.echo_shaper [
  | none ↦ (err (precondition "echo-shaper unavailable"), s)
  | some shaper ↦ elim (positive (param params "rate_kbps")) [
    | none ↦ (err (rpc_message invalid_params "rate_kbps must be a positive int"), s)
    | some rate ↦ (as_precondition (shaper.shape_reply rate), s)
  ]
]

-- `_handle_echo_unshape`
unfoldable pub handle_echo_unshape : Exec Server Fields
handle_echo_unshape s = elim s.echo_shaper [
  | none ↦ (err (precondition "echo-shaper unavailable"), s)
  | some shaper ↦ (as_precondition shaper.unshape_reply, s)
]

abbrev text_of : Option Json → Option String
text_of (some (str s)) = some s
text_of _ = none

abbrev pub truthy : (String → Bool) → Option Json → Bool
truthy float_truth none = false
truthy float_truth (some null) = false
truthy float_truth (some (bool b)) = b
truthy float_truth (some (int (pos n))) = not (n == 0)
truthy float_truth (some (int (negsuc n))) = true
truthy float_truth (some (float t)) = float_truth t
truthy float_truth (some (str t)) = not (str_eq t "")
truthy float_truth (some (arr nil)) = false
truthy float_truth (some (arr xs)) = true
truthy float_truth (some (obj end)) = false
truthy float_truth (some (obj fs)) = true

-- `n` of `core.audit`
abbrev pub audit_count : Option Json → ℕ
audit_count (some (int (pos n))) = if n == 0 then 50 else n
audit_count _ = 50

abbrev objects : List Fields → Items
objects [] = nil
objects (fs ∷ rest) = cons (obj fs) (objects rest)

abbrev pub append_fields : Fields → Fields → Fields
append_fields end more = more
append_fields (field k v fs) more = field k v (append_fields fs more)

-- one line of the armed reflexes in `core.status`
abbrev reflex_line : String → String
reflex_line topic = concat topic (concat " -> " (join ", " (relay_targets topic)))

module _ (env : Env) where
  -- the store of `_handle_override_set`
  abbrev pub store_phrase : String → Option String → PhraseFile → Exec Server Fields
  store_phrase phrase current store s =
      let (stored, store') = set_phrase env.pbkdf2 phrase current s.salt store in
      if stored
      then (ok done_fields, record s { override_store = some store' })
      else (err (rpc_code (chimera_code not_authorized)), s)

  -- `_handle_override_set`
  unfoldable pub handle_override_set : Params → Connection → Exec Server Fields
  handle_override_set params conn s =
      if conn.is_module
      then (err (rpc_code (chimera_code not_authorized)), s)
      else elim s.override_store [
        | none ↦ (err (rpc_code (chimera_code precondition_failed)), s)
        | some store ↦ elim (require_str params "phrase") [
          | err x ↦ (err x, s)
          | ok phrase ↦
              if str_eq phrase ""
              then (err (rpc_message invalid_params "phrase must be non-empty"), s)
              else store_phrase phrase (text_of (param params "current")) store s
        ]
      ]

  -- the end of `_handle_register`: the connection is now a module
  abbrev pub become_module : String → Exec Session Fields
  become_module name x = (
    ok done_fields,
    record x {
      conn = record x.conn {
        subject = name;
        is_module = true;
        token = issue env.crypto (seconds x.server) name core_methods none;
      };
    },
  )

  -- `_handle_register`
  unfoldable pub handle_register : Params → Exec Session Fields
  handle_register params = do
    name ← give (require_str params "module")
    version ← give (require_str params "version")
    methods ← give (opt_list params "methods")
    events ← give (opt_list params "events")
    depends_on ← give (opt_list params "depends_on")
    on_server (
        on_registry (
          register env.explain name (record {
            version = version;
            methods = methods;
            events = events;
            depends_on = depends_on;
          })))
    become_module name

  abbrev key_is_offline : Exn → Exec Server (Unit {0})
  key_is_offline (key_error name) = raise (rpc_code (chimera_code module_offline))
  key_is_offline x = raise x

  -- `_handle_heartbeat`
  unfoldable pub handle_heartbeat : Params → Exec Server Fields
  handle_heartbeat params = do
    name ← give (require_str params "module")
    now ← gets (λ s. s.now)
    catch (on_registry (on_lifecycle (heartbeat now name))) key_is_offline
    pure done_fields

  -- `_handle_deregister`
  unfoldable pub handle_deregister : Params → Exec Server Fields
  handle_deregister params = do
    name ← give (require_str params "module")
    on_registry (deregister name)
    pure done_fields

  abbrev time_json : Option ℕ → Json
  time_json none = null
  time_json (some t) = float (env.time_text t)

  -- a module in `core.status`, by its lifecycle record
  abbrev module_status : Json → Option ModuleRecord → Option Json
  module_status (obj info) (some rec) = some (
      obj (
        append_fields info (
          field "last_seen" (time_json rec.last_seen)
            (field "restart_count" (int (pos rec.restart_count)) end))))
  module_status _ _ = none

  abbrev status_fields : Lifecycle → Fields → Result Fields
  status_fields l end = ok end
  status_fields l (field name info fs) = elim (module_status info (Dict.get l.records name)) [
    | none ↦ err (key_error name)
    | some j ↦ elim (status_fields l fs) [ err x ↦ err x | ok rest ↦ ok (field name j rest) ]
  ]

  -- the seconds since the start; a subtraction below 0 gives 0
  abbrev uptime : Server → String
  uptime s = elim s.start_time [ none ↦ "0.0" | some t ↦ env.time_text (s.now - t) ]

  abbrev pub mode_or_normal : Option String → String
  mode_or_normal none = "normal"
  mode_or_normal (some mode) = if str_eq mode "" then "normal" else mode

  abbrev reflex_texts : List String
  reflex_texts =
      map reflex_line (sorted_set relay_topics)
      ++ "pulse:exhausted -> vault.lock" ∷ "tether.escalation L1/L2 -> shim.lock / vault.lock" ∷ []

  -- `_handle_status`
  unfoldable pub handle_status : Exec Server Fields
  handle_status s = (
    elim (capabilities s.registry) [
      | err x ↦ err x
      | ok caps ↦ elim (status_fields s.registry.lifecycle caps) [
        | err x ↦ err x
        | ok modules ↦ ok (
            field "core"
              (obj (
                field "version" (str "0.2.0-alpha")
                  (field "uptime_seconds" (float (uptime s)) end)))
              (field "modules" (obj modules) (
                field "reactive"
                  (obj (
                    field "pulse_mode" (str (mode_or_normal s.pulse_mode))
                      (field "reflexes" (arr (str_items reflex_texts)) end)))
                  end)))
      ]
    ],
    s,
  )

  -- `_handle_audit`
  unfoldable pub handle_audit : Params → Exec Server Fields
  handle_audit params s =
      let entries =
        recent (audit_count (param params "n"))
          (truthy env.float_truth (param params "failures_only")) s.audit_log in
      (ok (field "entries" (arr (objects entries)) end), s)

  -- the end of `_handle_subscribe`
  abbrev keep_subscription : ℕ → Exec Session Fields
  keep_subscription sub x =
      let n = x.server.next_sub_id + 1 in
      (
        ok (field "subscription_id" (int (pos n)) end),
        record x {
          server = record x.server { next_sub_id = n };
          conn = record x.conn { subscription = some sub };
        },
      )

  abbrev on_broker_subscribe : List String → Exec Server ℕ
  on_broker_subscribe topics s =
      let (r, b) = subscribe topics none s.registry.lifecycle.broker in
      (
        r,
        record s {
          registry = record s.registry { lifecycle = record s.registry.lifecycle { broker = b } };
        },
      )

  -- topics that are not texts make `_matches` raise later on; they are not modelled
  abbrev topic_list : Items → Result (List String)
  topic_list xs = elim (texts_of xs) [
    | none ↦ err (value_error "topics must be texts")
    | some topics ↦ ok topics
  ]

  -- `_handle_subscribe`
  unfoldable pub handle_subscribe : Params → Exec Session Fields
  handle_subscribe params = do
    xs ← give (opt_list params "topics")
    topics ← give (topic_list xs)
    sub ← on_server (on_broker_subscribe topics)
    keep_subscription sub
