-- ===== src/Kernel/Tests/Plugins.antt =====
-- Runs of the registry and of the dispatch (src/kernel/registry/mod.rs, src/kernel/agent/dispatch.rs).
use mistake_agent.Prelude.{◌≡◌, refl, none, some, true, false, List, [], ◌∷◌, arith}
use mistake_agent.Prelude.Results.{Result, ok, err}
use mistake_agent.Relay.Text.{Text, codes}
use mistake_agent.Kernel.Contract.{
  user_and_model, user_only, lazy, ToolDef, Info, PluginError, failure, duplicate_entry,
  wire_name_collision, forbidden_error, full_name, full_to_wire, empty_params,
}
use mistake_agent.Kernel.Registry.{
  Register, returns, binds, bind_tool, user_body, Registry, PluginEntry, has_name,
}
use mistake_agent.Kernel.Registry.Loading.{infos, register_inner, load_plugin, resolve_wire}
use mistake_agent.Kernel.Registry.Unique.{
  IsUnique, Step, registers, resolves, step, run, run-IsUnique,
}
use mistake_agent.Kernel.Registry.Bound.{IsBound, run-IsBound}
use mistake_agent.Kernel.Registry.Again.{loads, load_plugin-stuck}
use mistake_agent.Kernel.Dispatch.{by_model, Dispatch, Environment, finished, call_tool}
use mistake_agent.Kernel.Dispatch.Policy.{IsAllowed, call_tool-IsAllowed}
use mistake_agent.Kernel.Dispatch.Watch.{Happening, extends, wakes, start_watch, watch, watch_step}

abbrev tool_named : Text → ToolDef
tool_named name = record {
  name = name;
  user_visible = true;
  title = none;
  group = none;
  description = [];
  params = empty_params;
  policy = user_and_model;
  timeout = none;
  icon = none;
}

-- `a` has a tool for the model and one for the user only.
abbrev info_a : Info
info_a = record {
  namespace = codes "a";
  requires = [];
  provides = [];
  load = lazy;
  tools =
      tool_named (codes "b__c") ∷ record (tool_named (codes "wipe")) { policy = user_only } ∷ [];
  commands = [];
  events = [];
}

-- Its tool has the same name on the wire as `a::b__c`.
abbrev info_b : Info
info_b = record info_a { namespace = codes "a__b"; tools = tool_named (codes "c") ∷ [] }

abbrev pass_on : Register → Result PluginError (Unit {0}) → Register
pass_on next (err e) = returns (err e)
pass_on next (ok u) = next

abbrev code_a : Register
code_a = binds (bind_tool (codes "b__c") 1) (pass_on (binds (bind_tool (codes "wipe") 2) returns))

-- A registration that fails after its first tool is bound.
abbrev code_failing : Register
code_failing =
    binds (bind_tool (codes "b__c") 1) (pass_on (returns (err (failure (codes "no model")))))

abbrev fresh : Registry
fresh = record {
  entries = [];
  targets = record { handlers = []; wire_to_full = [] };
  services = record { storage = true; memory = false; compute = false; model = false };
}

abbrev steps : List Step
steps =
    registers info_a (user_body (λ h. code_a))
    ∷ registers info_b (user_body (λ h. code_a))
    ∷ resolves (codes "a__b__c")
    ∷ []

abbrev with_a : Registry
with_a = run (registers info_a (user_body (λ h. code_a)) ∷ []) fresh

collision :
    (register_inner info_b (user_body (λ h. code_a)) with_a).0
    ≡ err (wire_name_collision (codes "c") (codes "a__b__c"))
unfolding register_inner step full_to_wire full_name
collision = refl

resolved : (resolve_wire (codes "a__b__c") with_a).0 ≡ some (codes "a::b__c")
unfolding resolve_wire step full_to_wire full_name
resolved = refl

run-IsUnique_example : IsUnique (run steps fresh)
run-IsUnique_example =
    run-IsUnique steps fresh (tt, (λ x. omega arith, λ x. omega arith, λ x. omega arith))

run-IsBound_example : IsBound (run steps fresh)
run-IsBound_example = run-IsBound steps fresh (tt, (tt, tt))

with_a-IsBound : IsBound with_a
with_a-IsBound = run-IsBound (registers info_a (user_body (λ h. code_a)) ∷ []) fresh (tt, (tt, tt))

abbrev pub permissive : Environment
permissive = record {
  compiles = λ schema. none;
  refuses = λ schema params. none;
  execute = λ h params. finished (ok params);
  describe = λ e. [];
}

abbrev pub idle : Dispatch
idle = record { registry = with_a; audit = []; ran = [] }

wiped : (call_tool permissive (codes "a::wipe") [] by_model idle).0 ≡ err forbidden_error
unfolding call_tool step full_to_wire full_name
wiped = refl

called : (call_tool permissive (codes "a::b__c") (7 ∷ []) by_model idle).1.ran ≡ (1, 7 ∷ []) ∷ []
unfolding call_tool step full_to_wire full_name
called = refl

call_tool-IsAllowed_example :
    IsAllowed permissive
      (infos with_a.entries)
      (codes "a::b__c")
      (7 ∷ [])
      idle
      (call_tool permissive (codes "a::b__c") (7 ∷ []) by_model idle).1
call_tool-IsAllowed_example =
    call_tool-IsAllowed permissive (codes "a::b__c") (7 ∷ []) idle with_a-IsBound

abbrev failing_entry : PluginEntry
failing_entry = record { info = info_a; body = user_body (λ h. code_failing); loaded = false }

abbrev with_failing : Registry
with_failing = record fresh { entries = (codes "a", failing_entry) ∷ [] }

load_plugin-stuck_example :
    (has_name
        (full_name (codes "a") (codes "b__c"))
        (load_plugin (codes "a") with_failing).1.targets.handlers
      ≡ true)
    × ((load_plugin (codes "a") (loads 3 (codes "a") (load_plugin (codes "a") with_failing).1)).0
        ≡ err (duplicate_entry (full_name (codes "a") (codes "b__c"))))
unfolding load_plugin
load_plugin-stuck_example =
    load_plugin-stuck (codes "a") with_failing failing_entry (codes "b__c") 1
      (tool_named (codes "b__c")) (pass_on (returns (err (failure (codes "no model")))))
      (failure (codes "no model")) 3 refl refl refl (λ x. refl) refl refl refl

-- A handler asks for more time once, and is stopped at its new deadline.
abbrev one_extension : List Happening
one_extension = extends 4 20 ∷ wakes ∷ wakes ∷ []

stopped : (watch one_extension (start_watch 0 (some 10) 30 60 5)).clock ≡ 24
unfolding watch_step start_watch
stopped = refl
