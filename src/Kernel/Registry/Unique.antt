-- ===== src/Kernel/Registry/Unique.antt =====
-- No two entry points share a name on the wire (src/kernel/registry/mod.rs).
pub mod Checks
pub use mistake_agent.Kernel.Registry.Unique.Checks.{
  IsUnique, AreUnique, check_plugin-absent, check_plugin-AreUnique,
}
use mistake_agent.Prelude.{
  ◌≡◌, ◌↔◌, refl, Bool, true, false, List, [], ◌∷◌, ◌++◌, map, any, Bool-cases, inl, inr, sym,
  subst, IsDistinct, IsDistinct-insert, IsDistinct-move, remove-absent,
}
use mistake_agent.Prelude.Results.{Result, ok, err, >>=-eq-ok}
use mistake_agent.Relay.Text.{Text, same_text}
use mistake_agent.Relay.Text.Equality.{same_text_iff}
use mistake_agent.Kernel.Contract.{
  ServiceId, storage, memory, compute, model, same_service, Info, PluginError, is_eager, full_name,
  full_to_wire,
}
use mistake_agent.Kernel.Registry.{
  EntryKind, PluginBody, is_kernel, PluginEntry, Registry, has_name,
}
use mistake_agent.Kernel.Registry.Loading.{
  member, has_service, short_names, wires_of, infos, declared_wires, provided, check_provides,
  check_names, check_free, check_services, check_requires, check_plugin, load_plugin, add_plugin,
  admit, register_inner, ensure, resolve_wire,
}
use mistake_agent.Kernel.Registry.Unchanged.{
  IsKeyed, SameInfos, load_plugin-SameInfos, ensure-SameInfos, resolve_wire-SameInfos,
}

SameInfos-IsUnique : (r s : Registry) → SameInfos r s → IsUnique r → IsUnique s
SameInfos-IsUnique r s (e, f) (keyed, unique) = (f keyed, subst AreUnique (sym e) unique)

add_plugin-IsUnique :
    (info : Info) (body : PluginBody) (r : Registry)
    → has_name info.namespace r.entries ≡ false
    → IsKeyed r.entries
    → AreUnique (info ∷ infos r.entries)
    → IsUnique (add_plugin info body r)
add_plugin-IsUnique info body r absent keyed unique =
    rw (remove-absent same_text info.namespace r.entries absent) ((refl, keyed), unique)

admit-IsUnique :
    (info : Info) (body : PluginBody) (r : Registry) (checked : Result PluginError (Unit {0}))
    → check_plugin r info (is_kernel body) ≡ checked
    → IsUnique r
    → IsUnique (admit info body r checked).1
admit-IsUnique info body r (err e) c unique = unique
admit-IsUnique info body r (ok u) c unique = elim (Bool-cases (is_eager info.load)) [
  | inl t ↦ rw t (
      SameInfos-IsUnique added (load_plugin info.namespace added).1
        (load_plugin-SameInfos info.namespace added) added-IsUnique)
  | inr n ↦ rw n added-IsUnique
]
  where
    added : Registry
    added = add_plugin info body r

    added-IsUnique : IsUnique added
    added-IsUnique =
        let (absent, fresh) = check_plugin-AreUnique r info (is_kernel body) unique c in
        add_plugin-IsUnique info body r absent unique.0 fresh

pub register_inner-IsUnique :
    (info : Info) (body : PluginBody) (r : Registry)
    → IsUnique r
    → IsUnique (register_inner info body r).1
unfolding register_inner
register_inner-IsUnique info body r =
    admit-IsUnique info body r (check_plugin r info (is_kernel body)) refl

-- The calls that change the registry.
pub data Step : Type 0 where
  registers : Info → PluginBody → Step
  loads : Text → Step
  ensures : Text → EntryKind → Step
  resolves : Text → Step

unfoldable pub step : Step → Registry → Registry
unfolding register_inner load_plugin ensure resolve_wire
step (registers info body) r = (register_inner info body r).1
step (loads namespace) r = (load_plugin namespace r).1
step (ensures full kind) r = (ensure full kind r).1
step (resolves wire) r = (resolve_wire wire r).1

abbrev pub run : List Step → Registry → Registry
run [] r = r
run (s ∷ steps) r = run steps (step s r)

step-IsUnique : (s : Step) (r : Registry) → IsUnique r → IsUnique (step s r)
unfolding step
step-IsUnique (registers info body) r = register_inner-IsUnique info body r
step-IsUnique (loads namespace) r =
    SameInfos-IsUnique r (load_plugin namespace r).1 (load_plugin-SameInfos namespace r)
step-IsUnique (ensures full kind) r =
    SameInfos-IsUnique r (ensure full kind r).1 (ensure-SameInfos full kind r)
step-IsUnique (resolves wire) r =
    SameInfos-IsUnique r (resolve_wire wire r).1 (resolve_wire-SameInfos wire r)

-- After any calls, failed registrations among them, no two registered plugins have the same
-- namespace, no two declared entries the same name on the wire, and no service two providers, if that
-- held at the start.
pub run-IsUnique : (steps : List Step) (r : Registry) → IsUnique r → IsUnique (run steps r)
run-IsUnique [] r u = u
run-IsUnique (s ∷ steps) r u = run-IsUnique steps (step s r) (step-IsUnique s r u)
