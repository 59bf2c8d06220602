-- ===== src/Kernel/Contract.antt =====
-- src/kernel/contract.rs and the service identifiers of src/kernel/plugin/services/mod.rs: what a
-- plugin declares of itself, its names, and the errors. A JSON schema and a JSON value are texts.
use mistake_agent.Prelude.{ℕ, Option, Bool, true, false, List, [], ◌∷◌, ◌++◌, ◌==◌, if◌then◌else◌}
use mistake_agent.Relay.Text.{Text, codes}

pub data CallerPolicy : Type 0 where
  user_and_model user_only : CallerPolicy

abbrev pub is_user_only : CallerPolicy → Bool
is_user_only user_only = true
is_user_only user_and_model = false

pub data LoadPolicy : Type 0 where
  eager lazy : LoadPolicy

abbrev pub is_eager : LoadPolicy → Bool
is_eager eager = true
is_eager lazy = false

pub data ServiceId : Type 0 where
  storage memory compute model : ServiceId

abbrev service_number : ServiceId → ℕ
service_number storage = 0
service_number memory = 1
service_number compute = 2
service_number model = 3

abbrev pub same_service : ServiceId → ServiceId → Bool
same_service a b = service_number a == service_number b

pub record ToolDef : Type 0 where
  pub name : Text
  pub user_visible : Bool
  pub title : Option Text
  pub group : Option Text
  pub description : Text
  pub params : Text
  pub policy : CallerPolicy
  pub timeout : Option ℕ
  pub icon : Option Text

pub record CommandDef : Type 0 where
  pub name : Text
  pub user_visible : Bool
  pub title : Option Text
  pub group : Option Text
  pub description : Text
  pub params : Text
  pub icon : Option Text

pub record EventDef : Type 0 where
  pub name : Text

pub record Info : Type 0 where
  pub namespace : Text
  pub requires : List ServiceId
  pub provides : List ServiceId
  pub load : LoadPolicy
  pub tools : List ToolDef
  pub commands : List CommandDef
  pub events : List EventDef

pub data ToolErrorCode : Type 0 where
  unknown_tool invalid_params handler_error timeout aborted forbidden model_unavailable internal :
      ToolErrorCode

pub record ToolError : Type 0 where
  pub code : ToolErrorCode
  pub message : Text
  pub retryable : Bool

-- The constructors of `ToolError` with a message of the caller.
abbrev pub invalid_params_error : Text → ToolError
invalid_params_error message = record { code = invalid_params; message = message; retryable = true }

abbrev pub internal_error : Text → ToolError
internal_error message = record { code = internal; message = message; retryable = false }

abbrev pub timeout_error : ToolError
timeout_error = record { code = timeout; message = codes "工具执行超时，已被内核强制终止"; retryable = true }

abbrev pub aborted_error : ToolError
aborted_error = record { code = aborted; message = codes "执行被取消"; retryable = false }

abbrev pub forbidden_error : ToolError
forbidden_error = record { code = forbidden; message = codes "该入口点不允许当前调用方调用"; retryable = false }

-- `WireNameCollision` carries one text, put together from the kind of the entry and these two names.
pub data PluginError : Type 0 where
  namespace_taken : Text → PluginError
  capability_unavailable : List ServiceId → PluginError
  service_taken : ServiceId → PluginError
  provision_not_allowed : List ServiceId → PluginError
  duplicate_entry : Text → PluginError
  undeclared_entry : Text → PluginError
  wire_name_collision : Text → Text → PluginError
  unknown_plugin : Text → PluginError
  no_entry_point : Text → PluginError
  failure : Text → PluginError

-- `str::replace("::", "__")`; the argument tells whether a colon is waiting for its pair.
abbrev replace_colons : Bool → Text → Text
replace_colons false [] = []
replace_colons true [] = 58 ∷ []
replace_colons false (c ∷ t) =
    let waits = replace_colons true t in
    let rest = replace_colons false t in if c == 58 then waits else c ∷ rest
replace_colons true (c ∷ t) =
    let rest = replace_colons false t in if c == 58 then 95 ∷ 95 ∷ rest else 58 ∷ c ∷ rest

unfoldable pub full_to_wire : Text → Text
full_to_wire full = replace_colons false full

unfoldable pub full_name : Text → Text → Text
full_name namespace short = namespace ++ 58 ∷ 58 ∷ short

-- `empty_params`: `{"type": "object"}`.
abbrev pub empty_params : Text
empty_params = codes "{\"type\":\"object\"}"
