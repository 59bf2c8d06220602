-- ===== src/Kernel/Registry/Bound.antt =====
-- Each entry point that can be called was declared (src/kernel/context.rs, src/kernel/registry/mod.rs).
pub mod Bindings
pub use mistake_agent.Kernel.Registry.Bound.Bindings.{
  IsToolOf, IsInternal, IsBoundIn, IsWired, AreBound, IsBound, run_register-AreBound,
}
use mistake_agent.Prelude.{
  ℕ, ◌≡◌, ◌⊎◌, refl, Option, none, some, Bool, true, false, List, [], ◌∷◌, any, find, Bool-cases,
  inl, inr, ap, sym, subst, ◌∙◌, All, All-map, All-put, remove-absent, Exists, Exists-map, lookup,
}
use mistake_agent.Prelude.Results.{Result, ok, err}
use mistake_agent.Relay.Text.{Text, same_text}
use mistake_agent.Relay.Text.Equality.{same_text_iff}
use mistake_agent.Kernel.Contract.{
  user_only, ToolDef, CommandDef, Info, PluginError, is_eager, full_name, full_to_wire,
}
use mistake_agent.Kernel.Registry.{
  EntryKind, tool_entry, same_kind, Binding, bind_tool, bind_command, bind_event, Register, returns,
  binds, PluginBody, is_kernel, PluginEntry, RegisteredEntry, Targets, Registry, has_name, insert,
  tool_record, found_tool, found_command, found_event, bind, run_register,
}
use mistake_agent.Kernel.Registry.Loading.{
  infos, set_loaded, code_of, finish_load, load_found, load_plugin, add_plugin, admit, check_plugin,
  register_inner, ensure, ensured, first_part, resolve_wire, resolve_known, after_loading,
}
use mistake_agent.Kernel.Registry.Unchanged.{IsKeyed, SameInfos, load_plugin-SameInfos}
use mistake_agent.Kernel.Registry.Unique.{
  check_plugin-absent, Step, registers, loads, ensures, resolves, step, run,
}

-- The plugin that is found under a name is among those that are registered, and has that name.
lookup-info :
    (ns : Text) (entries : List (Text × PluginEntry)) (entry : PluginEntry)
    → IsKeyed entries
    → lookup same_text ns entries ≡ some entry
    → (entry.info.namespace ≡ ns) × Exists (λ i. i ≡ entry.info) (infos entries)
lookup-info ns [] entry keyed h = absurd (cc h)
lookup-info ns (e ∷ es) entry (k, ks) h = elim (Bool-cases (same_text e.0 ns)) [
  | inl t ↦
      let q : some e.1 ≡ some entry = rw t at h in
      let same : e.1 ≡ entry = cc q in
      (
        ap (λ x. x.info.namespace) (sym same) ∙ k ∙ (same_text_iff e.0 ns).0 t,
        inl (ap (λ x. x.info) same),
      )
  | inr n ↦ let (named, there) = lookup-info ns es entry ks (rw n at h) in (named, inr there)
]

SameInfos-AreBound :
    (r s : Registry) (t : Targets)
    → SameInfos r s
    → AreBound (infos r.entries) t
    → AreBound (infos s.entries) t
SameInfos-AreBound r s t (e, f) = subst (λ is. AreBound is t) (sym e)

pub finish_load-targets :
    (ns : Text) (r : Registry) (p : Result PluginError (Unit {0}) × Targets)
    → (finish_load ns r p).1.targets ≡ p.1
finish_load-targets ns r (ok u, t) = refl
finish_load-targets ns r (err e, t) = refl

load_found-AreBound :
    (ns : Text) (r : Registry) (o : Option PluginEntry)
    → lookup same_text ns r.entries ≡ o
    → IsBound r
    → AreBound (infos r.entries) (load_found ns r o).1.targets
load_found-AreBound ns r none e (keyed, bound) = bound
load_found-AreBound ns r (some entry) e (keyed, bound) = elim (Bool-cases entry.loaded) [
  | inl t ↦ rw t bound
  | inr n ↦
      let (named, there) = lookup-info ns r.entries entry keyed e in
      rw
        (
          n,
          finish_load-targets ns (set_loaded ns true r)
              (run_register ns entry.info (code_of r.services entry) r.targets),
        )
        (subst
          (λ m.
            AreBound (infos r.entries)
              (run_register m entry.info (code_of r.services entry) r.targets).1)
          named
          (run_register-AreBound (infos r.entries) entry.info there (code_of r.services entry)
            r.targets bound))
]

pub load_plugin-IsBound : (ns : Text) (r : Registry) → IsBound r → IsBound (load_plugin ns r).1
unfolding load_plugin
load_plugin-IsBound ns r (keyed, bound) =
    let same = load_plugin-SameInfos ns r in
    (
      same.1 keyed,
      SameInfos-AreBound r (load_plugin ns r).1 (load_plugin ns r).1.targets same
          (load_found-AreBound ns r (lookup same_text ns r.entries) refl (keyed, bound)),
    )

ensured-IsBound :
    (full : Text) (kind : EntryKind) (p : Result PluginError (Unit {0}) × Registry)
    → IsBound p.1
    → IsBound (ensured full kind p).1
ensured-IsBound full kind (ok u, s) h = h
ensured-IsBound full kind (err e, s) h = h

pub ensure-IsBound :
    (full : Text) (kind : EntryKind) (r : Registry) → IsBound r → IsBound (ensure full kind r).1
unfolding ensure
ensure-IsBound full kind r b = elim (Bool-cases (has_name full r.targets.handlers)) [
  | inl t ↦ rw t b
  | inr n ↦ rw n (
      ensured-IsBound full kind (load_plugin (first_part full) r)
        (load_plugin-IsBound (first_part full) r b))
]

after_loading-IsBound :
    (wire : Text) (r : Registry) (o : Option (Text × PluginEntry))
    → IsBound r
    → IsBound (after_loading wire r o).1
after_loading-IsBound wire r none b = b
after_loading-IsBound wire r (some e) b = load_plugin-IsBound e.1.info.namespace r b

resolve_known-IsBound :
    (wire : Text) (r : Registry) (o : Option Text) → IsBound r → IsBound (resolve_known wire r o).1
resolve_known-IsBound wire r (some full) b = b
resolve_known-IsBound wire r none b = after_loading-IsBound wire r _ b

pub resolve_wire-IsBound :
    (wire : Text) (r : Registry) → IsBound r → IsBound (resolve_wire wire r).1
unfolding resolve_wire
resolve_wire-IsBound wire r = resolve_known-IsBound wire r _

-- A plugin more leaves the entries of the others declared.
add_plugin-IsBound :
    (info : Info) (body : PluginBody) (r : Registry)
    → has_name info.namespace r.entries ≡ false
    → IsBound r
    → IsBound (add_plugin info body r)
add_plugin-IsBound info body r absent (keyed, (handlers, wires)) =
    rw (remove-absent same_text info.namespace r.entries absent) (
      (refl, keyed),
      (
        All-map (IsBoundIn (infos r.entries)) (IsBoundIn (info ∷ infos r.entries))
            r.targets.handlers (λ entry. more entry) handlers,
        wires,
      ),
    )
  where
    more :
        (entry : Text × RegisteredEntry)
        → IsBoundIn (infos r.entries) entry
        → IsBoundIn (info ∷ infos r.entries) entry
    more entry (inl declared) = inl (inr declared)
    more entry (inr internal) = inr internal

admit-IsBound :
    (info : Info) (body : PluginBody) (r : Registry) (checked : Result PluginError (Unit {0}))
    → check_plugin r info (is_kernel body) ≡ checked
    → IsBound r
    → IsBound (admit info body r checked).1
admit-IsBound info body r (err e) c b = b
admit-IsBound info body r (ok u) c b = elim (Bool-cases (is_eager info.load)) [
  | inl t ↦ rw t (load_plugin-IsBound info.namespace (add_plugin info body r) added)
  | inr n ↦ rw n added
]
  where
    added : IsBound (add_plugin info body r)
    added = add_plugin-IsBound info body r (check_plugin-absent r info (is_kernel body) c) b

pub register_inner-IsBound :
    (info : Info) (body : PluginBody) (r : Registry)
    → IsBound r
    → IsBound (register_inner info body r).1
unfolding register_inner
register_inner-IsBound info body r =
    admit-IsBound info body r (check_plugin r info (is_kernel body)) refl

step-IsBound : (s : Step) (r : Registry) → IsBound r → IsBound (step s r)
unfolding step
step-IsBound (registers info body) r = register_inner-IsBound info body r
step-IsBound (loads namespace) r = load_plugin-IsBound namespace r
step-IsBound (ensures full kind) r = ensure-IsBound full kind r
step-IsBound (resolves wire) r = resolve_wire-IsBound wire r

-- After any calls, each entry point that can be called is a tool that a registered plugin declares,
-- with the declared policy and parameters, or a command or event for the user only, and each name on
-- the wire leads to a full name that it stands for, if that held at the start.
pub run-IsBound : (steps : List Step) (r : Registry) → IsBound r → IsBound (run steps r)
run-IsBound [] r b = b
run-IsBound (s ∷ steps) r b = run-IsBound steps (step s r) (step-IsBound s r b)
