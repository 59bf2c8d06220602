-- ===== src/Kernel/Registry.antt =====
-- src/kernel/registry/mod.rs and registry/entry.rs, with the registrar of src/kernel/context.rs: the
-- registry of the plugins and of their entry points. A `HashMap` is a list of entries in an order of
-- its own. The locks are held for a step, and the calls are taken one after the other.
pub mod Loading
pub mod Views
pub mod Unchanged
pub mod Unique
pub mod Bound
pub mod Answers
pub mod Again
use mistake_agent.Prelude.{
  ℕ, Option, none, some, Bool, true, false, not, ◌&&◌, ◌||◌, List, [], ◌∷◌, ◌++◌, map, ◌==◌,
  if◌then◌else◌, any, find, retain, lookup, put, update_where, change_at,
}
use mistake_agent.Prelude.Results.{Result, ok, err, ◌>>=◌}
use mistake_agent.Relay.Text.{Text, same_text, is_empty}
use mistake_agent.Kernel.Contract.{
  CallerPolicy, user_and_model, user_only, is_user_only, is_eager, ServiceId, same_service, storage,
  memory, compute, model, ToolDef, CommandDef, EventDef, Info, PluginError, namespace_taken,
  capability_unavailable, service_taken, provision_not_allowed, duplicate_entry, undeclared_entry,
  wire_name_collision, unknown_plugin, no_entry_point, full_to_wire, full_name, empty_params,
}

pub data EntryKind : Type 0 where
  tool_entry command_entry event_entry : EntryKind

abbrev kind_number : EntryKind → ℕ
kind_number tool_entry = 0
kind_number command_entry = 1
kind_number event_entry = 2

abbrev pub same_kind : EntryKind → EntryKind → Bool
same_kind a b = kind_number a == kind_number b

-- A handler is a number that stands for its code.
pub data Handler : Type 0 where
  tool_handler command_handler event_handler : ℕ → Handler

pub record RegisteredEntry : Type 0 where
  pub full_name : Text
  pub kind : EntryKind
  pub policy : CallerPolicy
  pub timeout : Option ℕ
  pub description : Text
  pub icon : Option Text
  pub params : Text
  pub handler : Handler

pub record ServiceHandles : Type 0 where
  pub storage : Bool
  pub memory : Bool
  pub compute : Bool
  pub model : Bool

abbrev given : ServiceId → Bool → List ServiceId
given id present = if present then id ∷ [] else []

unfoldable pub available : ServiceHandles → List ServiceId
available h =
    given storage h.storage
    ++ given memory h.memory
    ++ given compute h.compute
    ++ given model h.model

abbrev pub filter : ServiceHandles → List ServiceId → ServiceHandles
filter h requires = record {
  storage = any (same_service storage) requires && h.storage;
  memory = any (same_service memory) requires && h.memory;
  compute = any (same_service compute) requires && h.compute;
  model = any (same_service model) requires && h.model;
}

-- What the code of a plugin may do when it registers: it binds entries through the registrar, one
-- after the other, looks at each answer, and returns.
pub data Binding : Type 0 where
  bind_tool bind_command bind_event : Text → ℕ → Binding

pub data Register : Type 0 where
  returns : Result PluginError (Unit {0}) → Register
  binds : Binding → (Result PluginError (Unit {0}) → Register) → Register

pub data PluginBody : Type 0 where
  user_body kernel_body : (ServiceHandles → Register) → PluginBody

abbrev pub is_kernel : PluginBody → Bool
is_kernel (user_body r) = false
is_kernel (kernel_body r) = true

pub record PluginEntry : Type 0 where
  pub info : Info
  pub body : PluginBody
  pub loaded : Bool

-- `RegistrarTargets`: what a registration writes to.
pub record Targets : Type 0 where
  pub handlers : List (Text × RegisteredEntry)
  pub wire_to_full : List (Text × Text)

pub record Registry : Type 0 where
  pub entries : List (Text × PluginEntry)
  pub targets : Targets
  pub services : ServiceHandles

abbrev pub has_name {ℓ} : {A : Type ℓ} → Text → List (Text × A) → Bool
has_name k m = any (λ e. same_text e.0 k) m

abbrev pub insert : Text → RegisteredEntry → Targets → Result PluginError (Unit {0}) × Targets
insert full entry t = if has_name full t.handlers then (err (duplicate_entry full), t) else (
  ok tt,
  record {
    handlers = put same_text full entry t.handlers;
    wire_to_full = put same_text (full_to_wire full) full t.wire_to_full;
  },
)

abbrev pub tool_record : Text → ℕ → ToolDef → RegisteredEntry
tool_record full h def = record {
  full_name = full;
  kind = tool_entry;
  policy = def.policy;
  timeout = def.timeout;
  description = def.description;
  icon = def.icon;
  params = def.params;
  handler = tool_handler h;
}

abbrev pub found_tool :
    Text → Text → ℕ → Targets → Option ToolDef → Result PluginError (Unit {0}) × Targets
found_tool namespace short h t none = (err (undeclared_entry short), t)
found_tool namespace short h t (some def) =
    let full = full_name namespace short in insert full (tool_record full h def) t

abbrev pub found_command :
    Text → Text → ℕ → Targets → Option CommandDef → Result PluginError (Unit {0}) × Targets
found_command namespace short h t none = (err (undeclared_entry short), t)
found_command namespace short h t (some def) =
    let full = full_name namespace short in
    insert full
      (record {
        full_name = full;
        kind = command_entry;
        policy = user_only;
        timeout = none;
        description = def.description;
        icon = def.icon;
        params = def.params;
        handler = command_handler h;
      })
      t

abbrev pub found_event : Text → Text → ℕ → Targets → Bool → Result PluginError (Unit {0}) × Targets
found_event namespace short h t false = (err (undeclared_entry short), t)
found_event namespace short h t true =
    let full = full_name namespace short in
    insert full
      (record {
        full_name = full;
        kind = event_entry;
        policy = user_only;
        timeout = none;
        description = [];
        icon = none;
        params = empty_params;
        handler = event_handler h;
      })
      t

-- The three methods of the registrar.
abbrev pub bind : Text → Info → Binding → Targets → Result PluginError (Unit {0}) × Targets
bind namespace info (bind_tool short h) t =
    found_tool namespace short h t (find (λ d. same_text d.name short) info.tools)
bind namespace info (bind_command short h) t =
    found_command namespace short h t (find (λ d. same_text d.name short) info.commands)
bind namespace info (bind_event short h) t =
    found_event namespace short h t (any (λ d. same_text d.name short) info.events)

abbrev pub run_register : Text → Info → Register → Targets → Result PluginError (Unit {0}) × Targets
run_register namespace info (returns answer) t = (answer, t)
run_register namespace info (binds b next) t =
    let bound = bind namespace info b t in run_register namespace info (next bound.0) bound.1
