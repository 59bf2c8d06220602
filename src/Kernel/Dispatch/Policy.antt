-- ===== src/Kernel/Dispatch/Policy.antt =====
-- Who may call what, and what is recorded of it (src/kernel/agent/dispatch.rs).
use mistake_agent.Prelude.{
  ℕ, ◌≡◌, ◌⊎◌, refl, Option, none, some, true, false, List, [], ◌∷◌, ◌++◌, find, Bool-cases, inl,
  inr, sym, subst, ◌∙◌, Exists, Exists-map, lookup,
}
use mistake_agent.Prelude.Results.{Result, ok, err}
use mistake_agent.Relay.Text.{Text, same_text, codes}
use mistake_agent.Relay.Text.Equality.{lookup-All}
use mistake_agent.Kernel.Contract.{
  CallerPolicy, user_and_model, user_only, is_user_only, ToolDef, Info, ToolError, PluginError,
  invalid_params_error, internal_error, full_name,
}
use mistake_agent.Kernel.Registry.{
  EntryKind, tool_entry, same_kind, Handler, tool_handler, command_handler, event_handler,
  RegisteredEntry, Registry, has_name,
}
use mistake_agent.Kernel.Registry.Loading.{infos, load_plugin, of_kind, ensured, ensure, first_part}
use mistake_agent.Kernel.Registry.Unchanged.{ensure-SameInfos}
use mistake_agent.Kernel.Registry.Bound.{IsToolOf, IsBoundIn, IsBound, ensure-IsBound}
use mistake_agent.Kernel.Dispatch.{
  Caller, by_model, Dispatch, Environment, validate, check_policy, run_tool, validated, permitted,
  ensured_tool, call_tool,
}

-- What the registry answers to a call is an entry of the kind that was asked for.
abbrev pub IsFound : Text → EntryKind → Result PluginError RegisteredEntry × Registry → Type 0
IsFound full kind (err e, r) = Unit {0}
IsFound full kind (ok entry, r) =
    (lookup same_text full r.targets.handlers ≡ some entry) × (same_kind entry.kind kind ≡ true)

of_kind-IsFound :
    (full : Text) (kind : EntryKind) (r : Registry) (o : Option RegisteredEntry)
    → lookup same_text full r.targets.handlers ≡ o
    → IsFound full kind (of_kind full kind o, r)
of_kind-IsFound full kind r none e = tt
of_kind-IsFound full kind r (some entry) e = elim (Bool-cases (same_kind entry.kind kind)) [
  | inl t ↦ rw t (e, t)
  | inr n ↦ rw n tt
]

ensured-IsFound :
    (full : Text) (kind : EntryKind) (p : Result PluginError (Unit {0}) × Registry)
    → IsFound full kind (ensured full kind p)
ensured-IsFound full kind (err e, r) = tt
ensured-IsFound full kind (ok u, r) =
    of_kind-IsFound full kind r (lookup same_text full r.targets.handlers) refl

ensure-IsFound :
    (full : Text) (kind : EntryKind) (r : Registry) → IsFound full kind (ensure full kind r)
unfolding ensure
ensure-IsFound full kind r = elim (Bool-cases (has_name full r.targets.handlers)) [
  | inl t ↦ rw t (ensured-IsFound full kind (ok tt, r))
  | inr n ↦ rw n (ensured-IsFound full kind (load_plugin (first_part full) r))
]

module _ (E : Environment) where
  -- The tool is declared for the model, and its schema is one that accepts the parameters.
  abbrev pub IsModelTool : Text → Text → Info → Type 0
  IsModelTool full params info =
      (short : Text) × (def : ToolDef) × (find (λ d. same_text d.name short) info.tools ≡ some def)
      × (full ≡ full_name info.namespace short)
      × (def.policy ≡ user_and_model)
      × (E.compiles def.params ≡ none)
      × (E.refuses def.params params ≡ none)

  abbrev pub Started : Text → Dispatch → Dispatch → Type 0
  Started params d after = (h : ℕ) × (after.ran ≡ d.ran ++ ((h, params) ∷ []))

  abbrev pub IsAllowed : List Info → Text → Text → Dispatch → Dispatch → Type 0
  IsAllowed is full params d after =
      (after.ran ≡ d.ran) ⊎ (Started params d after × Exists (IsModelTool full params) is)

  is_user_only-false : (p : CallerPolicy) → is_user_only p ≡ false → p ≡ user_and_model
  is_user_only-false user_and_model h = refl
  is_user_only-false user_only h = absurd (cc h)

  -- What is known of the entry, where neither the policy nor the schema stands against the call.
  tool-IsModelTool :
      (is : List Info) (full params : Text) (entry : RegisteredEntry)
      → IsBoundIn is (full, entry)
      → same_kind entry.kind tool_entry ≡ true
      → is_user_only entry.policy ≡ false
      → E.compiles entry.params ≡ none
      → E.refuses entry.params params ≡ none
      → Exists (IsModelTool full params) is
  tool-IsModelTool is full params entry (inr internal) kind free good fits =
      absurd (cc (kind, internal.1))
  tool-IsModelTool is full params entry (inl declared) kind free good fits =
      Exists-map (IsToolOf full entry) (IsModelTool full params) is
        (λ info (short, def, found, named, policy, schema). (
          short,
          def,
          found,
          named,
          sym policy ∙ is_user_only-false entry.policy free,
          subst (λ s. E.compiles s ≡ none) schema good,
          subst (λ s. E.refuses s params ≡ none) schema fits,
        ))
        declared

  run_tool-IsAllowed :
      (is : List Info) (full params : Text) (caller : Caller) (handler : Handler) (d : Dispatch)
      → Exists (IsModelTool full params) is
      → IsAllowed is full params d (run_tool E full caller handler params d).1
  run_tool-IsAllowed is full params caller (tool_handler h) d t = inr ((h, refl), t)
  run_tool-IsAllowed is full params caller (command_handler h) d t = inl refl
  run_tool-IsAllowed is full params caller (event_handler h) d t = inl refl

  -- The three ends of the schema's check.
  pub validated-cases :
      (entry : RegisteredEntry) (params : Text) (d : Dispatch)
      (r : Result ToolError Text × Dispatch)
      → ((E.compiles entry.params ≡ none)
          × (E.refuses entry.params params ≡ none)
          × (validated E (validate E entry params) d r ≡ r))
        ⊎ ((e : ToolError) × (validated E (validate E entry params) d r ≡ (err e, d)))
  unfolding validate
  validated-cases entry params d r = by_schema (E.compiles entry.params) refl
    where
      by_params :
          (o : Option Text)
          → E.refuses entry.params params ≡ o
          → E.compiles entry.params ≡ none
          → ((E.compiles entry.params ≡ none)
              × (E.refuses entry.params params ≡ none)
              × (validated E (validate E entry params) d r ≡ r))
            ⊎ ((e : ToolError) × (validated E (validate E entry params) d r ≡ (err e, d)))
      by_params none e c = inl (c, e, rw (c, e) refl)
      by_params (some m) e c = inr (invalid_params_error (codes "参数校验失败：" ++ m), rw (c, e) refl)

      by_schema :
          (o : Option Text)
          → E.compiles entry.params ≡ o
          → ((E.compiles entry.params ≡ none)
              × (E.refuses entry.params params ≡ none)
              × (validated E (validate E entry params) d r ≡ r))
            ⊎ ((e : ToolError) × (validated E (validate E entry params) d r ≡ (err e, d)))
      by_schema none c = by_params (E.refuses entry.params params) refl c
      by_schema (some m) c = inr (internal_error (codes "schema 无效：" ++ m), rw c refl)

  permitted-IsAllowed :
      (is : List Info) (full params : Text) (entry : RegisteredEntry) (d : Dispatch)
      → IsBoundIn is (full, entry)
      → same_kind entry.kind tool_entry ≡ true
      → IsAllowed is full params d
          (permitted E entry full params by_model (check_policy E entry by_model full d)).1
  permitted-IsAllowed is full params entry d bound kind =
      elim (Bool-cases (is_user_only entry.policy)) [
        | inl closed ↦ rw closed (inl refl)
        | inr free ↦
            rw free
              (elim (validated-cases entry params d
                (run_tool E full by_model entry.handler params d)) [
                  | inl (good, fits, passed) ↦
                      subst (λ p. IsAllowed is full params d p.1) (sym passed)
                        (run_tool-IsAllowed is full params by_model entry.handler d
                          (tool-IsModelTool is full params entry bound kind free good fits))
                  | inr (e, refused) ↦
                      subst (λ p. IsAllowed is full params d p.1) (sym refused) (inl refl)
                ])
      ]

  ensured_tool-IsAllowed :
      (full params : Text) (d : Dispatch) (p : Result PluginError RegisteredEntry × Registry)
      → IsFound full tool_entry p
      → IsBound p.1
      → infos p.1.entries ≡ infos d.registry.entries
      → IsAllowed
          (infos d.registry.entries)
          full
          params
          d
          (ensured_tool E full params by_model d p).1
  ensured_tool-IsAllowed full params d (err e, r) found bound same = inl refl
  ensured_tool-IsAllowed full params d (ok entry, r) (found, kind) bound same =
      subst
        (λ is.
          IsAllowed is full params d
            (permitted E entry full params by_model
              (check_policy E entry by_model full (record d { registry = r }))).1)
        same
        (permitted-IsAllowed (infos r.entries) full params entry (record d { registry = r })
          (lookup-All (IsBoundIn (infos r.entries)) full r.targets.handlers entry bound.1.0 found)
          kind)

  -- A call of the model starts no handler, or it starts one, and then the name called is that of a
  -- tool which a registered plugin declares for the model, with a schema that accepts the parameters.
  -- Each entry of the registry is bound as it was declared.
  pub call_tool-IsAllowed :
      (full params : Text) (d : Dispatch)
      → IsBound d.registry
      → IsAllowed (infos d.registry.entries) full params d (call_tool E full params by_model d).1
  unfolding call_tool
  call_tool-IsAllowed full params d bound =
      ensured_tool-IsAllowed full params d (ensure full tool_entry d.registry)
        (ensure-IsFound full tool_entry d.registry)
        (ensure-IsBound full tool_entry d.registry bound)
        (ensure-SameInfos full tool_entry d.registry).0
