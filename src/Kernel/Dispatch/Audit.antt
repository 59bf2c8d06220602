-- ===== src/Kernel/Dispatch/Audit.antt =====
-- What is recorded of a call (src/kernel/agent/dispatch.rs).
use mistake_agent.Prelude.{ℕ, ◌≡◌, ◌⊎◌, refl, true, [], ◌∷◌, ◌++◌, Bool-cases, inl, inr, sym, subst}
use mistake_agent.Prelude.Results.{Result, ok, err}
use mistake_agent.Relay.Text.{Text}
use mistake_agent.Kernel.Contract.{ToolError, PluginError, is_user_only, forbidden_error}
use mistake_agent.Kernel.Registry.{
  tool_entry, Handler, tool_handler, command_handler, event_handler, RegisteredEntry, Registry,
}
use mistake_agent.Kernel.Registry.Loading.{ensure}
use mistake_agent.Kernel.Dispatch.{
  Caller, by_model, by_user, is_model, access_denied, Dispatch, Environment, audit_call,
  check_policy, run_tool, validate, validated, permitted, ensured_tool, call_tool,
}
use mistake_agent.Kernel.Dispatch.Policy.{validated-cases}

-- A handler was started once, and the call is recorded with the result that it answers.
abbrev pub IsRun : Text → Text → Caller → Dispatch → Result ToolError Text × Dispatch → Type 0
IsRun full params caller d r =
    (h : ℕ) × (r.1.ran ≡ d.ran ++ ((h, params) ∷ []))
    × (r.1.audit ≡ d.audit ++ (audit_call full caller r.0 ∷ []))

-- The call was not for this caller.
abbrev pub IsDenied : Text → Caller → Dispatch → Result ToolError Text × Dispatch → Type 0
IsDenied full caller d r =
    (r.0 ≡ err forbidden_error)
    × (r.1.ran ≡ d.ran)
    × (r.1.audit ≡ d.audit ++ (access_denied full caller ∷ []))
    × (is_model caller ≡ true)

-- The call failed before a handler was started, and is not recorded.
abbrev pub IsRefused : Dispatch → Result ToolError Text × Dispatch → Type 0
IsRefused d r = ((e : ToolError) × (r.0 ≡ err e)) × (r.1.ran ≡ d.ran) × (r.1.audit ≡ d.audit)

abbrev pub Ends : Text → Text → Caller → Dispatch → Result ToolError Text × Dispatch → Type 0
Ends full params caller d r =
    IsRun full params caller d r ⊎ (IsDenied full caller d r ⊎ IsRefused d r)

module _ (E : Environment) where
  run_tool-Ends :
      (full params : Text) (caller : Caller) (handler : Handler) (d : Dispatch)
      → Ends full params caller d (run_tool E full caller handler params d)
  run_tool-Ends full params caller (tool_handler h) d = inl (h, refl, refl)
  run_tool-Ends full params caller (command_handler h) d = inr (inr ((_, refl), refl, refl))
  run_tool-Ends full params caller (event_handler h) d = inr (inr ((_, refl), refl, refl))

  validated-Ends :
      (full params : Text) (caller : Caller) (entry : RegisteredEntry) (d : Dispatch)
      (r : Result ToolError Text × Dispatch)
      → Ends full params caller d r
      → Ends full params caller d (validated E (validate E entry params) d r)
  validated-Ends full params caller entry d r h = elim (validated-cases E entry params d r) [
    | inl (good, fits, passed) ↦ subst (Ends full params caller d) (sym passed) h
    | inr (e, refused) ↦
        subst (Ends full params caller d) (sym refused) (inr (inr ((e, refl), refl, refl)))
  ]

  permitted-Ends :
      (full params : Text) (caller : Caller) (entry : RegisteredEntry) (d : Dispatch)
      → Ends full params caller d
          (permitted E entry full params caller (check_policy E entry caller full d))
  permitted-Ends full params by_user entry d =
      validated-Ends full params by_user entry d (run_tool E full by_user entry.handler params d)
        (run_tool-Ends full params by_user entry.handler d)
  permitted-Ends full params by_model entry d = elim (Bool-cases (is_user_only entry.policy)) [
    | inl closed ↦ rw closed (inr (inl (refl, refl, refl, refl)))
    | inr free ↦ rw free (
        validated-Ends full params by_model entry d
          (run_tool E full by_model entry.handler params d)
          (run_tool-Ends full params by_model entry.handler d))
  ]

  ensured_tool-Ends :
      (full params : Text) (caller : Caller) (d : Dispatch)
      (p : Result PluginError RegisteredEntry × Registry)
      → Ends full params caller d (ensured_tool E full params caller d p)
  ensured_tool-Ends full params caller d (err e, r) = inr (inr ((_, refl), refl, refl))
  ensured_tool-Ends full params caller d (ok entry, r) =
      permitted-Ends full params caller entry (record d { registry = r })

  pub call_tool-Ends :
      (full params : Text) (caller : Caller) (d : Dispatch)
      → Ends full params caller d (call_tool E full params caller d)
  unfolding call_tool
  call_tool-Ends full params caller d =
      ensured_tool-Ends full params caller d (ensure full tool_entry d.registry)
