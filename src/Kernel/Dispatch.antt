-- ===== src/Kernel/Dispatch.antt =====
-- src/kernel/agent/dispatch.rs: the one way in for a call of an entry point. The handler's task and
-- the watch over its time are one step with one of four ends, a parameter, as is the schema library.
pub mod Policy
pub mod Watch
pub mod Audit
use mistake_agent.Prelude.{
  ℕ, Option, none, some, Bool, true, false, ◌&&◌, List, [], ◌∷◌, ◌++◌, if◌then◌else◌,
}
use mistake_agent.Prelude.Results.{Result, ok, err}
use mistake_agent.Relay.Text.{Text, codes}
use mistake_agent.Kernel.Contract.{
  CallerPolicy, is_user_only, ToolErrorCode, ToolError, PluginError, invalid_params_error,
  internal_error, timeout_error, aborted_error, forbidden_error,
}
use mistake_agent.Kernel.Registry.{
  EntryKind, tool_entry, command_entry, Handler, tool_handler, command_handler, event_handler,
  RegisteredEntry, Registry,
}
use mistake_agent.Kernel.Registry.Loading.{ensure}

pub data Caller : Type 0 where
  by_model by_user : Caller

abbrev pub is_model : Caller → Bool
is_model by_model = true
is_model by_user = false

-- The two records of `AuditRecord` that a call writes; the error is its code and its message.
pub data AuditRecord : Type 0 where
  entry_point_call : Text → Caller → Bool → Option (ToolErrorCode × Text) → AuditRecord
  access_denied : Text → Caller → AuditRecord

-- How a handler's task ends: with its result, with a panic, past its deadline, or after a cancel
-- that it did not heed within the grace period.
pub data Outcome : Type 0 where
  finished : Result ToolError Text → Outcome
  panicked : Text → Outcome
  timed_out aborted : Outcome

-- What a call works on; `ran` are the handlers' tasks that were started, with their parameters.
pub record Dispatch : Type 0 where
  pub registry : Registry
  pub audit : List AuditRecord
  pub ran : List (ℕ × Text)

-- `jsonschema` and the handlers, and the text of an error of the registry.
pub record Environment : Type 0 where
  pub compiles : Text → Option Text
  pub refuses : Text → Text → Option Text
  pub execute : ℕ → Text → Outcome
  pub describe : PluginError → Text

abbrev pub audited : AuditRecord → Dispatch → Dispatch
audited a d = record d { audit = d.audit ++ (a ∷ []) }

abbrev pub end_of : Outcome → Result ToolError Text
end_of (finished r) = r
end_of (panicked message) = err (internal_error (codes "handler 任务异常：" ++ message))
end_of timed_out = err timeout_error
end_of aborted = err aborted_error

abbrev pub audit_call : Text → Caller → Result ToolError Text → AuditRecord
audit_call full caller (ok v) = entry_point_call full caller true none
audit_call full caller (err e) = entry_point_call full caller false (some (e.code, e.message))

module _ (E : Environment) where
  -- `run`, and the record of the call.
  abbrev pub run_audited : Text → Caller → ℕ → Text → Dispatch → Result ToolError Text × Dispatch
  run_audited full caller h params d =
      let result = end_of (E.execute h params) in
      (
        result,
        audited (audit_call full caller result) (record d { ran = d.ran ++ ((h, params) ∷ []) }),
      )

  abbrev check_params : Text → Option Text → Result ToolError (Unit {0})
  check_params schema_error none = ok tt
  check_params schema_error (some message) = err (invalid_params_error (schema_error ++ message))

  abbrev check_schema : Text → Text → Option Text → Result ToolError (Unit {0})
  check_schema params schema (some message) = err (internal_error (codes "schema 无效：" ++ message))
  check_schema params schema none = check_params (codes "参数校验失败：") (E.refuses schema params)

  unfoldable pub validate : RegisteredEntry → Text → Result ToolError (Unit {0})
  validate entry params = check_schema params entry.params (E.compiles entry.params)

  abbrev check_policy :
      RegisteredEntry → Caller → Text → Dispatch → Result ToolError (Unit {0}) × Dispatch
  check_policy entry caller full d =
      if is_model caller && is_user_only entry.policy
      then (err forbidden_error, audited (access_denied full caller) d)
      else (ok tt, d)

  abbrev run_tool : Text → Caller → Handler → Text → Dispatch → Result ToolError Text × Dispatch
  run_tool full caller (tool_handler h) params d = run_audited full caller h params d
  run_tool full caller _ params d = (err (internal_error (codes "入口点不是工具")), d)

  abbrev pub validated :
      Result ToolError (Unit {0})
      → Dispatch
      → Result ToolError Text × Dispatch
      → Result ToolError Text × Dispatch
  validated (err e) d r = (err e, d)
  validated (ok u) d r = r

  abbrev pub permitted :
      RegisteredEntry
      → Text
      → Text
      → Caller
      → Result ToolError (Unit {0}) × Dispatch
      → Result ToolError Text × Dispatch
  permitted entry full params caller (err e, d) = (err e, d)
  permitted entry full params caller (ok u, d) =
      validated (validate entry params) d (run_tool full caller entry.handler params d)

  abbrev pub ensured_tool :
      Text
      → Text
      → Caller
      → Dispatch
      → Result PluginError RegisteredEntry × Registry
      → Result ToolError Text × Dispatch
  ensured_tool full params caller d (err e, r) =
      (err (internal_error (E.describe e)), record d { registry = r })
  ensured_tool full params caller d (ok entry, r) =
      permitted entry full params caller
        (check_policy entry caller full (record d { registry = r }))

  unfoldable pub call_tool : Text → Text → Caller → Dispatch → Result ToolError Text × Dispatch
  unfolding ensure validate
  call_tool full params caller d =
      ensured_tool full params caller d (ensure full tool_entry d.registry)

  abbrev run_command : Text → Handler → Text → Dispatch → Result ToolError Text × Dispatch
  run_command full (command_handler h) params d = run_audited full by_user h params d
  run_command full _ params d = (err (internal_error (codes "入口点不是命令")), d)

  abbrev pub ensured_command :
      Text
      → Text
      → Dispatch
      → Result PluginError RegisteredEntry × Registry
      → Result ToolError Text × Dispatch
  ensured_command full params d (err e, r) =
      call_tool full params by_user (record d { registry = r })
  ensured_command full params d (ok entry, r) =
      let d' : Dispatch = record d { registry = r } in
      validated (validate entry params) d' (run_command full entry.handler params d')

  unfoldable pub call_command : Text → Text → Dispatch → Result ToolError Text × Dispatch
  unfolding ensure validate call_tool
  call_command full params d = ensured_command full params d (ensure full command_entry d.registry)
