-- ===== src/Registry.antt =====
-- chimera/core/registry.py: the capability entries of the registered modules. The registry holds no
-- state of a module: it drives the lifecycle, whose broker it shares.
pub mod Calls
pub mod Tracked
pub mod Outcomes
pub mod Cold
use macbastion.Prelude.{
  ℕ, String, Bool, true, false, ◌&&◌, Option, none, some, List, [], ◌∷◌, str_eq, keep_if, is_some,
  if◌then◌else◌,
}
use mathlib.Core.Option
use macbastion.Prelude.Text.{before_dot, has_char, mem_str, sorted_set}
use macbastion.Prelude.Dict
use macbastion.Prelude.Dict.{Dict}
use macbastion.Prelude.Json.{
  Json, null, bool, int, float, str, arr, obj, Items, nil, cons, Fields, end, field, str_items,
}
use macbastion.Errors.{Exn, invalid_transition, value_error, type_error, key_error, not_registered}
use macbastion.Exec.{Result, ok, err, Exec, pure, raise, within, with_value, ◌>>=◌, ◌>>◌}
use macbastion.Broker.{Event, EventBroker, publish}
use macbastion.Lifecycle.{
  ModuleState, unregistered, starting, registered, healthy, degraded, stopping, stopped, failed,
  permanently_failed, state_text, same_state, ModuleRecord, Lifecycle, state_of, track, transition,
}

pub record ModuleEntry : Type 0 where
  pub version : String
  pub methods : List String
  pub events : List String
  pub depends_on : List String

pub record Registry : Type 0 where
  pub lifecycle : Lifecycle
  pub open lifecycle use *
  pub entries : Dict ModuleEntry

-- a call of a method of the lifecycle
abbrev pub on_lifecycle : {A : Type 0} → Exec Lifecycle A → Exec Registry A
on_lifecycle = within (λ (r : Registry). r.lifecycle) (λ r l. record r { lifecycle = l })

-- `self._broker.publish`
abbrev pub emit : Event → Exec Registry (Unit {0})
emit event r =
    (ok tt, record r { lifecycle = record r.lifecycle { broker = publish event r.broker } })

-- `_LIVE_STATES`
abbrev pub is_up : ModuleState → Bool
is_up registered = true
is_up healthy = true
is_up degraded = true
is_up _ = false

-- `_state_or_none`
abbrev pub state_or_none : Registry → String → Option ModuleState
state_or_none r name = Option.map (λ (rec : ModuleRecord). rec.state) (Dict.get r.records name)

-- what `frozenset(...)` can hold
abbrev is_hashable : Json → Bool
is_hashable (arr xs) = false
is_hashable (obj fs) = false
is_hashable _ = true

abbrev all_hashable : Items → Bool
all_hashable nil = true
all_hashable (cons x xs) = is_hashable x && all_hashable xs

abbrev text_of : Json → Option String
text_of (str s) = some s
text_of _ = none

-- the texts of an array that holds nothing else, as pydantic demands
abbrev pub texts_of : Items → Option (List String)
texts_of nil = some []
texts_of (cons x xs) = elim (text_of x) [
  | none ↦ none
  | some s ↦ elim (texts_of xs) [ none ↦ none | some rest ↦ some (s ∷ rest) ]
]

-- The arguments of `register`, as they come from the wire.
pub record Registration : Type 0 where
  pub version : String
  pub methods : Items
  pub events : Items
  pub depends_on : Items

-- `ModuleEntry(...)`: `explain` is the text of pydantic's `ValidationError`, a `ValueError`
unfoldable pub new_entry : (Registration → String) → Registration → Result ModuleEntry
new_entry explain a =
    if all_hashable a.methods && all_hashable a.events
    then elim (texts_of a.methods) [
      | none ↦ err (value_error (explain a))
      | some methods ↦ elim (texts_of a.events) [
        | none ↦ err (value_error (explain a))
        | some events ↦ elim (texts_of a.depends_on) [
          | none ↦ err (value_error (explain a))
          | some depends_on ↦ ok (record {
            version = a.version;
            methods = methods;
            events = events;
            depends_on = depends_on;
          })
        ]
      ]
    ]
    else err type_error

-- `_drive_register`, by the state found
unfoldable pub drive_register : String → Option ModuleState → Exec Registry (Unit {0})
drive_register name none = do
  on_lifecycle (track name)
  on_lifecycle (transition name starting)
  on_lifecycle (transition name registered)
drive_register name (some starting) = on_lifecycle (transition name registered)
drive_register name (some registered) = pure tt
drive_register name (some healthy) = pure tt
drive_register name (some degraded) = pure tt
drive_register name (some _) = raise invalid_transition

-- `_emit_registered`
abbrev registered_event : String → ModuleEntry → Event
registered_event name entry = record {
  topic = "module.registered";
  payload = field "module" (str name) (
      field "version" (str entry.version) (
        field "methods" (arr (str_items (sorted_set entry.methods))) (
          field "events" (arr (str_items (sorted_set entry.events)))
            (field "depends_on" (arr (str_items entry.depends_on)) end))));
}

-- the end of `register`, once `ModuleEntry(...)` has returned
abbrev pub store_entry : String → Result ModuleEntry → Exec Registry (Unit {0})
store_entry name (err e) = raise e
store_entry name (ok entry) =
    λ r. emit (registered_event name entry) (record r { entries = Dict.put r.entries name entry })

-- `Registry.register`
unfoldable pub register : (Registration → String) → String → Registration → Exec Registry (Unit {0})
register explain name a r =
    (drive_register name (state_or_none r name) >> store_entry name (new_entry explain a)) r

-- `Registry.is_registered`
abbrev pub is_registered : String → Registry → Bool
is_registered name r = is_some (Dict.get r.entries name)

-- the walk of `deregister` to STOPPED
abbrev pub stop_walk : String → ModuleState → Exec Registry (Unit {0})
stop_walk name state =
    if is_up state
    then (do on_lifecycle (transition name stopping); on_lifecycle (transition name stopped))
    else if same_state state stopping
    then on_lifecycle (transition name stopped)
    else pure tt

-- `del self._entries[name]` and `_emit_deregistered`
abbrev pub drop_entry : String → Exec Registry (Unit {0})
drop_entry name r =
    emit (record { topic = "module.deregistered"; payload = field "module" (str name) end })
      (record r { entries = Dict.remove r.entries name })

-- `Registry.deregister`
unfoldable pub deregister : String → Exec Registry (Unit {0})
deregister name r =
    if is_registered name r
    then (do state ← on_lifecycle (state_of name); stop_walk name state; drop_entry name) r
    else (ok tt, r)

-- `Registry.mark_lost`
unfoldable pub mark_lost : String → Exec Registry (Unit {0})
mark_lost name r =
    if is_registered name r
    then (do
      state ← on_lifecycle (state_of name)
      if is_up state then on_lifecycle (transition name failed) else pure tt)
        r
    else (ok tt, r)

-- `Registry.get`
unfoldable pub get_entry : String → Exec Registry ModuleEntry
get_entry name r = with_value (Dict.get r.entries name) (not_registered name) pure r

-- `Registry.has_method`
unfoldable pub has_method : String → Registry → Bool
has_method method r =
    if has_char b'.' method
    then elim (Dict.get r.entries (before_dot method)) [
      | none ↦ false
      | some entry ↦ mem_str method entry.methods
    ]
    else false

-- the `if` of the comprehension in `modules_up`, where no name is unknown
abbrev pub up_names : Dict ModuleRecord → List String → Result (List String)
up_names records [] = ok []
up_names records (name ∷ names) = elim (Dict.get records name) [
  | none ↦ err (key_error name)
  | some rec ↦ elim (up_names records names) [
    | err e ↦ err e
    | ok rest ↦ ok (if same_state rec.state healthy then name ∷ rest else rest)
  ]
]

-- `Registry.modules_up`
unfoldable pub modules_up : Registry → Result (List String)
modules_up r = elim (up_names r.records (Dict.keys r.entries)) [
  | err e ↦ err e
  | ok names ↦ ok (sorted_set names)
]

-- the value of one module in `capabilities`
abbrev pub capability : ModuleEntry → ModuleState → Fields
capability entry state = field "version" (str entry.version) (
    field "status" (str (state_text state)) (
      field "methods" (arr (str_items (sorted_set entry.methods)))
        (field "events" (arr (str_items (sorted_set entry.events))) end)))

abbrev capabilities_from : Dict ModuleRecord → Dict ModuleEntry → Result Fields
capabilities_from records [] = ok end
capabilities_from records ((name, entry) ∷ entries) = elim (Dict.get records name) [
  | none ↦ err (key_error name)
  | some rec ↦ elim (capabilities_from records entries) [
    | err e ↦ err e
    | ok rest ↦ ok (field name (obj (capability entry rec.state)) rest)
  ]
]

-- `Registry.capabilities`
unfoldable pub capabilities : Registry → Result Fields
capabilities r = capabilities_from r.records r.entries

abbrev graph_of : Dict ModuleEntry → Dict (List String)
graph_of [] = []
graph_of ((name, entry) ∷ entries) = (name, entry.depends_on) ∷ graph_of entries

-- `Registry.dependency_graph`
unfoldable pub dependency_graph : Registry → Dict (List String)
dependency_graph r = graph_of r.entries
