-- ===== src/Kernel/Registry/Unchanged.antt =====
-- What the plugins of src/kernel/registry/mod.rs declare stays as it is when they are loaded.
use mistake_agent.Prelude.{
  ◌≡◌, refl, Option, none, some, Bool, true, false, List, [], ◌∷◌, Bool-cases, inl, inr, ap, ◌∙◌,
  All, lookup, change_at,
}
use mistake_agent.Prelude.Results.{Result, ok, err}
use mistake_agent.Relay.Text.{Text, same_text}
use mistake_agent.Kernel.Contract.{PluginError}
use mistake_agent.Kernel.Registry.{
  EntryKind, PluginEntry, Registry, has_name, Targets, run_register,
}
use mistake_agent.Kernel.Registry.Loading.{
  infos, set_loaded, code_of, finish_load, load_found, load_plugin, ensure, ensured, first_part,
  resolve_wire, resolve_known, after_loading,
}

abbrev pub IsKeyed : List (Text × PluginEntry) → Type 0
IsKeyed = All (λ e. e.1.info.namespace ≡ e.0)

-- What the plugins declare does not change when one is loaded.
abbrev pub SameInfos : Registry → Registry → Type 0
SameInfos r s = (infos s.entries ≡ infos r.entries) × (IsKeyed r.entries → IsKeyed s.entries)

set_loaded-infos :
    (ns : Text) (b : Bool) (entries : List (Text × PluginEntry))
    → infos (change_at same_text ns (λ e. record e { loaded = b }) entries) ≡ infos entries
set_loaded-infos ns b [] = refl
set_loaded-infos ns b (e ∷ es) = elim (Bool-cases (same_text e.0 ns)) [
  | inl t ↦ rw t (ap (◌∷◌ e.1.info) (set_loaded-infos ns b es))
  | inr n ↦ rw n (ap (◌∷◌ e.1.info) (set_loaded-infos ns b es))
]

set_loaded-IsKeyed :
    (ns : Text) (b : Bool) (entries : List (Text × PluginEntry))
    → IsKeyed entries
    → IsKeyed (change_at same_text ns (λ e. record e { loaded = b }) entries)
set_loaded-IsKeyed ns b [] h = tt
set_loaded-IsKeyed ns b (e ∷ es) (k, ks) = elim (Bool-cases (same_text e.0 ns)) [
  | inl t ↦ rw t (k, set_loaded-IsKeyed ns b es ks)
  | inr n ↦ rw n (k, set_loaded-IsKeyed ns b es ks)
]

set_loaded-SameInfos : (ns : Text) (b : Bool) (r : Registry) → SameInfos r (set_loaded ns b r)
set_loaded-SameInfos ns b r = (set_loaded-infos ns b r.entries, set_loaded-IsKeyed ns b r.entries)

SameInfos-trans : (r s t : Registry) → SameInfos r s → SameInfos s t → SameInfos r t
SameInfos-trans r s t (e, f) (d, g) = (d ∙ e, λ k. g (f k))

finish_load-SameInfos :
    (ns : Text) (r : Registry) (p : Result PluginError (Unit {0}) × Targets)
    → SameInfos r (finish_load ns r p).1
finish_load-SameInfos ns r (ok u, t) = (refl, λ k. k)
finish_load-SameInfos ns r (err e, t) = set_loaded-SameInfos ns false (record r { targets = t })

load_found-SameInfos :
    (ns : Text) (r : Registry) (o : Option PluginEntry) → SameInfos r (load_found ns r o).1
load_found-SameInfos ns r none = (refl, λ k. k)
load_found-SameInfos ns r (some entry) = elim (Bool-cases entry.loaded) [
  | inl t ↦ rw t (refl, λ k. k)
  | inr n ↦ rw n (by_run (run_register ns entry.info (code_of r.services entry) r.targets))
]
  where
    by_run :
        (p : Result PluginError (Unit {0}) × Targets)
        → SameInfos r (finish_load ns (set_loaded ns true r) p).1
    by_run p =
        SameInfos-trans r (set_loaded ns true r) (finish_load ns (set_loaded ns true r) p).1
          (set_loaded-SameInfos ns true r) (finish_load-SameInfos ns (set_loaded ns true r) p)

pub load_plugin-SameInfos : (ns : Text) (r : Registry) → SameInfos r (load_plugin ns r).1
unfolding load_plugin
load_plugin-SameInfos ns r = load_found-SameInfos ns r (lookup same_text ns r.entries)

ensured-SameInfos :
    (full : Text) (kind : EntryKind) (r : Registry) (p : Result PluginError (Unit {0}) × Registry)
    → SameInfos r p.1
    → SameInfos r (ensured full kind p).1
ensured-SameInfos full kind r (ok u, s) h = h
ensured-SameInfos full kind r (err e, s) h = h

pub ensure-SameInfos :
    (full : Text) (kind : EntryKind) (r : Registry) → SameInfos r (ensure full kind r).1
unfolding ensure
ensure-SameInfos full kind r = elim (Bool-cases (has_name full r.targets.handlers)) [
  | inl t ↦ rw t (refl, λ k. k)
  | inr n ↦ rw n (ensured-SameInfos full kind r _ (load_plugin-SameInfos (first_part full) r))
]

after_loading-SameInfos :
    (wire : Text) (r : Registry) (o : Option (Text × PluginEntry))
    → SameInfos r (after_loading wire r o).1
after_loading-SameInfos wire r none = (refl, λ k. k)
after_loading-SameInfos wire r (some e) = load_plugin-SameInfos e.1.info.namespace r

resolve_known-SameInfos :
    (wire : Text) (r : Registry) (o : Option Text) → SameInfos r (resolve_known wire r o).1
resolve_known-SameInfos wire r (some full) = (refl, λ k. k)
resolve_known-SameInfos wire r none = after_loading-SameInfos wire r _

pub resolve_wire-SameInfos : (wire : Text) (r : Registry) → SameInfos r (resolve_wire wire r).1
unfolding resolve_wire
resolve_wire-SameInfos wire r = resolve_known-SameInfos wire r _
