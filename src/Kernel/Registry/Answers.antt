-- ===== src/Kernel/Registry/Answers.antt =====
-- What the registry answers to names on the wire and to a load after a load (src/kernel/registry/mod.rs).
use mistake_agent.Prelude.{◌≡◌, refl, Option, none, some, find, ap, ◌∙◌, lookup}
use mistake_agent.Relay.Text.{Text, same_text}
use mistake_agent.Relay.Text.Equality.{lookup-All}
use mistake_agent.Kernel.Contract.{full_to_wire}
use mistake_agent.Kernel.Registry.{PluginEntry, Registry}
use mistake_agent.Kernel.Registry.Loading.{
  load_plugin, resolve_wire, resolve_known, after_loading, declares,
}
use mistake_agent.Kernel.Registry.Bound.{IsWired, IsBound, load_plugin-IsBound}

wired-lookup :
    (wire full : Text) (r : Registry)
    → IsBound r
    → lookup same_text wire r.targets.wire_to_full ≡ some full
    → full_to_wire full ≡ wire
wired-lookup wire full r bound h = lookup-All IsWired wire r.targets.wire_to_full full bound.1.1 h

after_loading-wire :
    (wire full : Text) (r : Registry) (o : Option (Text × PluginEntry))
    → IsBound r
    → (after_loading wire r o).0 ≡ some full
    → full_to_wire full ≡ wire
after_loading-wire wire full r none bound h = absurd (cc h)
after_loading-wire wire full r (some e) bound h =
    wired-lookup wire full (load_plugin e.1.info.namespace r).1
      (load_plugin-IsBound e.1.info.namespace r bound) h

resolve_known-wire :
    (wire full : Text) (r : Registry) (o : Option Text)
    → lookup same_text wire r.targets.wire_to_full ≡ o
    → IsBound r
    → (resolve_known wire r o).0 ≡ some full
    → full_to_wire full ≡ wire
resolve_known-wire wire full r none e bound h =
    after_loading-wire wire full r (find (declares wire) r.entries) bound h
resolve_known-wire wire full r (some f) e bound h =
    let same : f ≡ full = cc h in wired-lookup wire full r bound (e ∙ ap some same)

-- The full name that a name on the wire is resolved to has that name on the wire, whether its plugin
-- was loaded before or is loaded by the call. Each entry of the registry is bound as it was declared.
pub resolve_wire-wire :
    (wire full : Text) (r : Registry)
    → IsBound r
    → (resolve_wire wire r).0 ≡ some full
    → full_to_wire full ≡ wire
unfolding resolve_wire
resolve_wire-wire wire full r =
    resolve_known-wire wire full r (lookup same_text wire r.targets.wire_to_full) refl
