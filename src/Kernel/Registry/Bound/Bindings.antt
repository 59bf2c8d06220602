-- ===== src/Kernel/Registry/Bound/Bindings.antt =====
-- What the registrar of src/kernel/context.rs binds was declared.
use mistake_agent.Prelude.{
  ℕ, ◌≡◌, ◌⊎◌, refl, Option, none, some, Bool, true, false, List, any, find, Bool-cases, inl, inr,
  sym, subst, All, All-put, Exists, Exists-map,
}
use mistake_agent.Relay.Text.{Text, same_text}
use mistake_agent.Kernel.Contract.{user_only, ToolDef, CommandDef, Info, full_name, full_to_wire}
use mistake_agent.Kernel.Registry.{
  tool_entry, same_kind, Binding, bind_tool, bind_command, bind_event, Register, returns, binds,
  RegisteredEntry, Targets, Registry, has_name, insert, tool_record, found_tool, found_command,
  found_event, bind, run_register,
}
use mistake_agent.Kernel.Registry.Loading.{infos}
use mistake_agent.Kernel.Registry.Unchanged.{IsKeyed}

-- The entry is a tool of the plugin, with the policy and the parameters that were declared for it.
abbrev pub IsToolOf : Text → RegisteredEntry → Info → Type 0
IsToolOf full e info =
    (short : Text) × (def : ToolDef) × (find (λ d. same_text d.name short) info.tools ≡ some def)
    × (full ≡ full_name info.namespace short)
    × (e.policy ≡ def.policy)
    × (e.params ≡ def.params)

-- Or it is a command or an event, which only the user and the program call.
abbrev pub IsInternal : RegisteredEntry → Type 0
IsInternal e = (e.policy ≡ user_only) × (same_kind e.kind tool_entry ≡ false)

abbrev pub IsBoundIn : List Info → Text × RegisteredEntry → Type 0
IsBoundIn is entry = Exists (IsToolOf entry.0 entry.1) is ⊎ IsInternal entry.1

abbrev pub IsWired : Text × Text → Type 0
IsWired e = full_to_wire e.1 ≡ e.0

abbrev pub AreBound : List Info → Targets → Type 0
AreBound is t = All (IsBoundIn is) t.handlers × All IsWired t.wire_to_full

abbrev pub IsBound : Registry → Type 0
IsBound r = IsKeyed r.entries × AreBound (infos r.entries) r.targets

insert-AreBound :
    (is : List Info) (full : Text) (e : RegisteredEntry) (t : Targets)
    → IsBoundIn is (full, e)
    → AreBound is t
    → AreBound is (insert full e t).1
insert-AreBound is full e t h (handlers, wires) = elim (Bool-cases (has_name full t.handlers)) [
  | inl taken ↦ rw taken (handlers, wires)
  | inr free ↦ rw free (
    All-put same_text (IsBoundIn is) full e t.handlers h handlers,
    All-put same_text IsWired (full_to_wire full) full t.wire_to_full refl wires,
  )
]

module _ (is : List Info) (info : Info) (there : Exists (λ i. i ≡ info) is) where
  found_tool-AreBound :
      (short : Text) (h : ℕ) (t : Targets) (o : Option ToolDef)
      → find (λ d. same_text d.name short) info.tools ≡ o
      → AreBound is t
      → AreBound is (found_tool info.namespace short h t o).1
  found_tool-AreBound short h t none e b = b
  found_tool-AreBound short h t (some def) e b =
      insert-AreBound is full (tool_record full h def) t
        (inl (
          Exists-map (λ i. i ≡ info) (IsToolOf full (tool_record full h def)) is
            (λ i q.
              subst (IsToolOf full (tool_record full h def)) (sym q)
                (short, def, e, refl, refl, refl))
            there))
        b
    where
      full : Text
      full = full_name info.namespace short

  found_command-AreBound :
      (short : Text) (h : ℕ) (t : Targets) (o : Option CommandDef)
      → AreBound is t
      → AreBound is (found_command info.namespace short h t o).1
  found_command-AreBound short h t none b = b
  found_command-AreBound short h t (some def) b =
      insert-AreBound is (full_name info.namespace short) _ t (inr (refl, refl)) b

  found_event-AreBound :
      (short : Text) (h : ℕ) (t : Targets) (known : Bool)
      → AreBound is t
      → AreBound is (found_event info.namespace short h t known).1
  found_event-AreBound short h t false b = b
  found_event-AreBound short h t true b =
      insert-AreBound is (full_name info.namespace short) _ t (inr (refl, refl)) b

  bind-AreBound :
      (b : Binding) (t : Targets) → AreBound is t → AreBound is (bind info.namespace info b t).1
  bind-AreBound (bind_tool short h) t =
      found_tool-AreBound short h t (find (λ d. same_text d.name short) info.tools) refl
  bind-AreBound (bind_command short h) t =
      found_command-AreBound short h t (find (λ d. same_text d.name short) info.commands)
  bind-AreBound (bind_event short h) t =
      found_event-AreBound short h t (any (λ d. same_text d.name short) info.events)

  pub run_register-AreBound :
      (code : Register) (t : Targets)
      → AreBound is t
      → AreBound is (run_register info.namespace info code t).1
  run_register-AreBound (returns answer) t b = b
  run_register-AreBound (binds one next) t b =
      run_register-AreBound (next (bind info.namespace info one t).0)
        (bind info.namespace info one t).1 (bind-AreBound one t b)
