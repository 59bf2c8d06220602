-- ===== src/Kernel/Registry/Again.antt =====
-- A second load of a plugin (src/kernel/registry/mod.rs).
use mistake_agent.Prelude.{
  ℕ, zero, suc, ◌≡◌, refl, Option, none, some, Bool, true, false, ◌||◌, any, find, Bool-cases, inl,
  inr, ap, sym, subst, ◌∙◌, lookup, lookup-change_at, map_some, remove-absent,
}
use mistake_agent.Prelude.Results.{Result, ok, err}
use mistake_agent.Relay.Text.{Text, same_text}
use mistake_agent.Relay.Text.Equality.{same_text_refl}
use mistake_agent.Kernel.Contract.{
  ToolDef, CommandDef, Info, PluginError, duplicate_entry, full_name,
}
use mistake_agent.Kernel.Registry.{
  Binding, bind_tool, bind_command, bind_event, Register, returns, binds, PluginEntry,
  RegisteredEntry, Targets, Registry, has_name, insert, tool_record, found_tool, found_command,
  found_event, bind, run_register,
}
use mistake_agent.Kernel.Registry.Loading.{set_loaded, code_of, finish_load, load_plugin}

-- Bindings are not taken back.
insert-has_name :
    (x full : Text) (e : RegisteredEntry) (t : Targets)
    → has_name x t.handlers ≡ true
    → has_name x (insert full e t).1.handlers ≡ true
insert-has_name x full e t h = elim (Bool-cases (has_name full t.handlers)) [
  | inl taken ↦ rw taken h
  | inr free ↦
      rw (free, remove-absent same_text full t.handlers free, h) (or_true (same_text full x))
]
  where
    or_true : (b : Bool) → (b || true) ≡ true
    or_true true = refl
    or_true false = refl

bind-has_name :
    (x namespace : Text) (info : Info) (b : Binding) (t : Targets)
    → has_name x t.handlers ≡ true
    → has_name x (bind namespace info b t).1.handlers ≡ true
bind-has_name x namespace info (bind_tool short h) t there =
    by_tool (find (λ d. same_text d.name short) info.tools)
  where
    by_tool : (o : Option ToolDef) → has_name x (found_tool namespace short h t o).1.handlers ≡ true
    by_tool none = there
    by_tool (some def) =
        insert-has_name x (full_name namespace short)
          (tool_record (full_name namespace short) h def) t there
bind-has_name x namespace info (bind_command short h) t there =
    by_command (find (λ d. same_text d.name short) info.commands)
  where
    by_command :
        (o : Option CommandDef) → has_name x (found_command namespace short h t o).1.handlers ≡ true
    by_command none = there
    by_command (some def) = insert-has_name x (full_name namespace short) _ t there
bind-has_name x namespace info (bind_event short h) t there =
    by_event (any (λ d. same_text d.name short) info.events)
  where
    by_event : (b : Bool) → has_name x (found_event namespace short h t b).1.handlers ≡ true
    by_event false = there
    by_event true = insert-has_name x (full_name namespace short) _ t there

run_register-has_name :
    (x namespace : Text) (info : Info) (code : Register) (t : Targets)
    → has_name x t.handlers ≡ true
    → has_name x (run_register namespace info code t).1.handlers ≡ true
run_register-has_name x namespace info (returns a) t h = h
run_register-has_name x namespace info (binds b next) t h =
    run_register-has_name x namespace info (next (bind namespace info b t).0)
      (bind namespace info b t).1 (bind-has_name x namespace info b t h)

-- The entry that stands under the name after the flag is set.
set_loaded-lookup :
    (ns : Text) (b : Bool) (r : Registry) (entry : PluginEntry)
    → lookup same_text ns r.entries ≡ some entry
    → lookup same_text ns (set_loaded ns b r).entries ≡ some (record entry { loaded = b })
set_loaded-lookup ns b r entry h =
    lookup-change_at same_text ns (λ e. record e { loaded = b }) r.entries
    ∙ ap (map_some same_text (λ e. record e { loaded = b })) h

-- A plugin whose code binds a tool that is there already, and passes the error on.
bind-again :
    (ns : Text) (info : Info) (short : Text) (h : ℕ) (def : ToolDef)
    (next : Result PluginError (Unit {0}) → Register) (t : Targets)
    → ((x : PluginError) → next (err x) ≡ returns (err x))
    → find (λ d. same_text d.name short) info.tools ≡ some def
    → has_name (full_name ns short) t.handlers ≡ true
    → (run_register ns info (binds (bind_tool short h) next) t).0
      ≡ err (duplicate_entry (full_name ns short))
bind-again ns info short h def next t passes found there =
    ap (λ p. (run_register ns info (next p.0) p.1).0) bound
    ∙ ap (λ code. (run_register ns info code t).0) (passes (duplicate_entry (full_name ns short)))
  where
    bound : bind ns info (bind_tool short h) t ≡ (err (duplicate_entry (full_name ns short)), t)
    bound = rw (found, there) refl

-- The plugin waits to be loaded, and the tool that its code binds first is bound.
abbrev IsStuck : Text → PluginEntry → Text → Registry → Registry → Type 0
IsStuck ns entry short r s =
    (lookup same_text ns s.entries ≡ some (record entry { loaded = false }))
    × (s.services ≡ r.services)
    × (has_name (full_name ns short) s.targets.handlers ≡ true)

module _ (ns : Text) (r : Registry) (entry : PluginEntry) (short : Text) (h : ℕ) (def : ToolDef)
    (next : Result PluginError (Unit {0}) → Register)
    (code : code_of r.services entry ≡ binds (bind_tool short h) next)
    (passes : (x : PluginError) → next (err x) ≡ returns (err x))
    (declared : find (λ d. same_text d.name short) entry.info.tools ≡ some def) where
  load_again :
      (s : Registry)
      → IsStuck ns entry short r s
      → ((load_plugin ns s).0 ≡ err (duplicate_entry (full_name ns short)))
        × IsStuck ns entry short r (load_plugin ns s).1
  unfolding load_plugin
  load_again s (found, same, there) =
      rw (found, ap (λ v. code_of v entry) same ∙ code)
        (answer (run_register ns entry.info (binds (bind_tool short h) next) s.targets)
          (bind-again ns entry.info short h def next s.targets passes declared there)
          (run_register-has_name (full_name ns short) ns entry.info (binds (bind_tool short h) next)
            s.targets there))
    where
      answer :
          (p : Result PluginError (Unit {0}) × Targets)
          → p.0 ≡ err (duplicate_entry (full_name ns short))
          → has_name (full_name ns short) p.1.handlers ≡ true
          → ((finish_load ns (set_loaded ns true s) p).0
              ≡ err (duplicate_entry (full_name ns short)))
            × IsStuck ns entry short r (finish_load ns (set_loaded ns true s) p).1
      answer (ok u, t) e there = absurd (cc e)
      answer (err x, t) e there = (
        e,
        (
          set_loaded-lookup ns false (record (set_loaded ns true s) { targets = t })
              (record entry { loaded = true })
              (set_loaded-lookup ns true s (record entry { loaded = false }) found),
          same,
          there,
        ),
      )

-- The plugin is loaded that often, one time after the other.
abbrev pub loads : ℕ → Text → Registry → Registry
loads zero ns r = r
loads (suc n) ns r = (load_plugin ns (loads n ns r)).1

-- A plugin that binds its first tool and whose registration then fails: its tool stays bound, and
-- however often the plugin is then loaded, one time after the other, each load answers that the tool
-- is there already. The plugin stood in the registry and was not loaded, its code binds a tool that
-- it declares and that was not bound, and it passes on the errors of the binding, as `?` does.
pub load_plugin-stuck :
    (ns : Text) (r : Registry) (entry : PluginEntry) (short : Text) (h : ℕ) (def : ToolDef)
    (next : Result PluginError (Unit {0}) → Register) (e : PluginError) (n : ℕ)
    → lookup same_text ns r.entries ≡ some entry
    → entry.loaded ≡ false
    → code_of r.services entry ≡ binds (bind_tool short h) next
    → ((x : PluginError) → next (err x) ≡ returns (err x))
    → find (λ d. same_text d.name short) entry.info.tools ≡ some def
    → has_name (full_name ns short) r.targets.handlers ≡ false
    → (load_plugin ns r).0 ≡ err e
    → (has_name (full_name ns short) (load_plugin ns r).1.targets.handlers ≡ true)
      × ((load_plugin ns (loads n ns (load_plugin ns r).1)).0
          ≡ err (duplicate_entry (full_name ns short)))
unfolding load_plugin
load_plugin-stuck ns r entry short h def next e n found waits code passes declared free =
    subst
      (λ q.
        q.0 ≡ err e
        → (has_name full q.1.targets.handlers ≡ true)
          × ((load_plugin ns (loads n ns q.1)).0 ≡ err (duplicate_entry full)))
      (sym first_load) (after_failure ended still)
  where
    full : Text
    full = full_name ns short

    ended : Result PluginError (Unit {0}) × Targets
    ended = run_register ns entry.info (binds (bind_tool short h) next) r.targets

    first_load : load_plugin ns r ≡ finish_load ns (set_loaded ns true r) ended
    first_load = rw (found, waits, code) refl

    bound :
        bind ns entry.info (bind_tool short h) r.targets
        ≡ (ok tt, (insert full (tool_record full h def) r.targets).1)
    bound = rw (declared, free) refl

    taken : has_name full (insert full (tool_record full h def) r.targets).1.handlers ≡ true
    taken = rw (free, same_text_refl full) refl

    still : has_name full ended.1.handlers ≡ true
    still =
        subst (λ q. has_name full (run_register ns entry.info (next q.0) q.1).1.handlers ≡ true)
          (sym bound)
          (run_register-has_name full ns entry.info (next (ok tt))
            (insert full (tool_record full h def) r.targets).1 taken)

    step :
        (s : Registry) → IsStuck ns entry short r s → IsStuck ns entry short r (load_plugin ns s).1
    step s stuck = (load_again ns r entry short h def next code passes declared s stuck).1

    stays :
        (k : ℕ) (s : Registry)
        → IsStuck ns entry short r s
        → IsStuck ns entry short r (loads k ns s)
    stays zero s stuck = stuck
    stays (suc k) s stuck = step (loads k ns s) (stays k s stuck)

    after_failure :
        (p : Result PluginError (Unit {0}) × Targets)
        → has_name full p.1.handlers ≡ true
        → (finish_load ns (set_loaded ns true r) p).0 ≡ err e
        → (has_name full (finish_load ns (set_loaded ns true r) p).1.targets.handlers ≡ true)
          × ((load_plugin ns (loads n ns (finish_load ns (set_loaded ns true r) p).1)).0
              ≡ err (duplicate_entry full))
    after_failure (ok u, t) there x = absurd (cc x)
    after_failure (err d, t) there x = (
      there,
      (load_again ns r entry short h def next code passes declared
          (loads n ns (set_loaded ns false (record (set_loaded ns true r) { targets = t })))
          (stays n (set_loaded ns false (record (set_loaded ns true r) { targets = t })) (
            set_loaded-lookup ns false (record (set_loaded ns true r) { targets = t })
                (record entry { loaded = true }) (set_loaded-lookup ns true r entry found),
            refl,
            there,
          ))).0,
    )
