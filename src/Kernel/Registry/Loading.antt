-- ===== src/Kernel/Registry/Loading.antt =====
-- src/kernel/registry/mod.rs: the calls of the registry.
use mistake_agent.Prelude.{
  Option, none, some, Bool, true, false, not, List, [], ◌∷◌, ◌++◌, map, if◌then◌else◌, any, find,
  retain, lookup, put, change_at,
}
use mistake_agent.Prelude.Results.{Result, ok, err, ◌>>=◌}
use mistake_agent.Relay.Text.{Text, same_text, strip_prefix}
use mistake_agent.Kernel.Contract.{
  is_eager, ServiceId, same_service, Info, PluginError, namespace_taken, capability_unavailable,
  service_taken, provision_not_allowed, duplicate_entry, wire_name_collision, unknown_plugin,
  no_entry_point, full_to_wire, full_name,
}
use mistake_agent.Kernel.Registry.{
  EntryKind, same_kind, RegisteredEntry, ServiceHandles, available, filter, Register, PluginBody,
  user_body, kernel_body, is_kernel, PluginEntry, Targets, Registry, has_name, run_register,
}

abbrev pub member : Text → List Text → Bool
member t ts = any (same_text t) ts

abbrev pub has_service : ServiceId → List ServiceId → Bool
has_service id ids = any (same_service id) ids

-- The short names of a plugin's entries, in the order in which they are checked.
abbrev pub short_names : Info → List Text
short_names info =
    map (λ t. t.name) info.tools ++ map (λ c. c.name) info.commands ++ map (λ e. e.name) info.events

abbrev pub wires_of : Text → List Text → List Text
wires_of namespace names = map (λ n. full_to_wire (full_name namespace n)) names

abbrev pub infos : List (Text × PluginEntry) → List Info
infos entries = map (λ e. e.1.info) entries

-- The names on the wire that the registered plugins declare.
abbrev pub declared_wires : List Info → List Text
declared_wires [] = []
declared_wires (i ∷ is) = wires_of i.namespace (short_names i) ++ declared_wires is

abbrev pub provided : List Info → List ServiceId
provided [] = []
provided (i ∷ is) = i.provides ++ provided is

-- `provided.insert(id)` for each service, the first that is there is the error.
abbrev pub check_provides : List ServiceId → List ServiceId → Result PluginError (Unit {0})
check_provides taken [] = ok tt
check_provides taken (id ∷ ids) =
    let rest = check_provides (id ∷ taken) ids in
    if has_service id taken then err (service_taken id) else rest

-- `check_name` for each of the names.
abbrev pub check_names : Text → List Text → List Text → List Text → Result PluginError (Unit {0})
check_names namespace fulls wires [] = ok tt
check_names namespace fulls wires (short ∷ names) =
    let full = full_name namespace short in
    let wire = full_to_wire full in
    let rest = check_names namespace (full ∷ fulls) (wire ∷ wires) names in
    if member full fulls
    then err (duplicate_entry full)
    else if member wire wires
    then err (wire_name_collision short wire)
    else rest

abbrev pub check_free : Registry → Info → Result PluginError (Unit {0})
check_free r info =
    if has_name info.namespace r.entries then err (namespace_taken info.namespace) else ok tt

abbrev pub check_services : Registry → Info → Bool → Result PluginError (Unit {0})
check_services r info true = check_provides (provided (infos r.entries)) info.provides
check_services r info false = none_provided info.provides
  where
    none_provided : List ServiceId → Result PluginError (Unit {0})
    none_provided [] = ok tt
    none_provided (id ∷ ids) = err (provision_not_allowed (id ∷ ids))

abbrev pub check_requires : Registry → Info → Bool → Result PluginError (Unit {0})
check_requires r info true = ok tt
check_requires r info false =
    none_missing (retain (λ id. not (has_service id (available r.services))) info.requires)
  where
    none_missing : List ServiceId → Result PluginError (Unit {0})
    none_missing [] = ok tt
    none_missing (id ∷ ids) = err (capability_unavailable (id ∷ ids))

-- What `register_inner` checks before it takes the plugin in.
unfoldable pub check_plugin : Registry → Info → Bool → Result PluginError (Unit {0})
unfolding available
check_plugin r info kernel = check_free r info >>= λ _. check_services r info kernel >>= λ _.
    check_requires r info kernel >>= λ _.
    check_names info.namespace [] (declared_wires (infos r.entries)) (short_names info)

abbrev pub set_loaded : Text → Bool → Registry → Registry
set_loaded namespace b r = record r {
  entries = change_at same_text namespace (λ e. record e { loaded = b }) r.entries;
}

-- The code of the plugin with the services that it is given.
abbrev pub code_of : ServiceHandles → PluginEntry → Register
code_of services entry = given_to entry.body
  where
    given_to : PluginBody → Register
    given_to (user_body register) = register (filter services entry.info.requires)
    given_to (kernel_body register) = register services

abbrev pub finish_load :
    Text
    → Registry
    → Result PluginError (Unit {0}) × Targets
    → Result PluginError (Unit {0}) × Registry
finish_load namespace r (ok u, t) = (ok u, record r { targets = t })
finish_load namespace r (err e, t) = (err e, set_loaded namespace false (record r { targets = t }))

abbrev pub load_entry : Text → Registry → PluginEntry → Result PluginError (Unit {0}) × Registry
load_entry namespace r entry =
    if entry.loaded
    then (ok tt, r)
    else finish_load namespace (set_loaded namespace true r)
        (run_register namespace entry.info (code_of r.services entry) r.targets)

abbrev pub load_found :
    Text → Registry → Option PluginEntry → Result PluginError (Unit {0}) × Registry
load_found namespace r none = (err (unknown_plugin namespace), r)
load_found namespace r (some entry) = load_entry namespace r entry

unfoldable pub load_plugin : Text → Registry → Result PluginError (Unit {0}) × Registry
load_plugin namespace r = load_found namespace r (lookup same_text namespace r.entries)

abbrev pub add_plugin : Info → PluginBody → Registry → Registry
add_plugin info body r = record r {
  entries =
      put same_text info.namespace (record { info = info; body = body; loaded = false }) r.entries;
}

abbrev pub admit :
    Info
    → PluginBody
    → Registry
    → Result PluginError (Unit {0})
    → Result PluginError (Unit {0}) × Registry
admit info body r (err e) = (err e, r)
admit info body r (ok u) =
    if is_eager info.load
    then load_plugin info.namespace (add_plugin info body r)
    else (ok tt, add_plugin info body r)

unfoldable pub register_inner :
    Info → PluginBody → Registry → Result PluginError (Unit {0}) × Registry
unfolding check_plugin load_plugin
register_inner info body r = admit info body r (check_plugin r info (is_kernel body))

-- `full.split("::").next()`.
abbrev pub first_part : Text → Text
first_part [] = []
first_part (c ∷ t) =
    let rest = first_part t in if is_cut (strip_prefix (58 ∷ 58 ∷ []) (c ∷ t)) then [] else c ∷ rest
  where
    is_cut : Option Text → Bool
    is_cut none = false
    is_cut (some u) = true

abbrev pub of_kind : Text → EntryKind → Option RegisteredEntry → Result PluginError RegisteredEntry
of_kind full kind none = err (no_entry_point full)
of_kind full kind (some e) = if same_kind e.kind kind then ok e else err (no_entry_point full)

abbrev pub ensured :
    Text
    → EntryKind
    → Result PluginError (Unit {0}) × Registry
    → Result PluginError RegisteredEntry × Registry
ensured full kind (err e, r) = (err e, r)
ensured full kind (ok u, r) = (of_kind full kind (lookup same_text full r.targets.handlers), r)

unfoldable pub ensure : Text → EntryKind → Registry → Result PluginError RegisteredEntry × Registry
unfolding load_plugin
ensure full kind r =
    if has_name full r.targets.handlers
    then ensured full kind (ok tt, r)
    else ensured full kind (load_plugin (first_part full) r)

-- The plugin that declares the name on the wire.
abbrev pub declares : Text → Text × PluginEntry → Bool
declares wire e = member wire (wires_of e.1.info.namespace (short_names e.1.info))

abbrev pub after_loading : Text → Registry → Option (Text × PluginEntry) → Option Text × Registry
after_loading wire r none = (none, r)
after_loading wire r (some e) =
    let loaded = (load_plugin e.1.info.namespace r).1 in
    (lookup same_text wire loaded.targets.wire_to_full, loaded)

abbrev pub resolve_known : Text → Registry → Option Text → Option Text × Registry
resolve_known wire r (some full) = (some full, r)
resolve_known wire r none = after_loading wire r (find (declares wire) r.entries)

unfoldable pub resolve_wire : Text → Registry → Option Text × Registry
unfolding load_plugin
resolve_wire wire r = resolve_known wire r (lookup same_text wire r.targets.wire_to_full)
