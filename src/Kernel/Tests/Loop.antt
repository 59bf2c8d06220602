-- ===== src/Kernel/Tests/Loop.antt =====
-- Runs of the agent's loop (src/kernel/agent/loop_mod/mod.rs).
use mistake_agent.Prelude.{ℕ, ◌+◌, ◌≤◌, ◌≡◌, ◌⊎◌, refl, none, true, false, List, [], ◌∷◌, length}
use mistake_agent.Prelude.Results.{ok}
use mistake_agent.Relay.Text.{Text, codes}
use mistake_agent.Kernel.Contract.{full_name, full_to_wire}
use mistake_agent.Kernel.Registry.Unique.{step}
use mistake_agent.Kernel.Dispatch.{call_tool}
use mistake_agent.Kernel.Loop.{
  ToolCallAcc, Round, stops, consecutive_failures, natural, run_turn, new_turn,
}
use mistake_agent.Kernel.Loop.Limits.{is_over, run_turn-ends}
use mistake_agent.Kernel.Loop.Failures.{EndsIn, run_turn-EndsIn}
use mistake_agent.Kernel.Tests.Plugins.{idle, permissive}

abbrev call : Text → ToolCallAcc
call wire = record { name = wire; arguments = []; call_id = [] }

-- The model calls these tools, and nothing goes wrong.
abbrev calling : List ToolCallAcc → Round
calling calls = record {
  stopped = false;
  late = false;
  first = ok (record { calls_done = calls; broken = none; stopped_after = false });
  stopped_in_retry = false;
  second = ok (record { calls_done = []; broken = none; stopped_after = false });
}

abbrev same_text : Text → Text
same_text t = t

one_call :
    (run_turn permissive same_text
      (calling (call (codes "a__b__c") ∷ []) ∷ calling [] ∷ [])
      (new_turn idle)).0
    ≡ stops natural
unfolding run_turn call_tool step full_to_wire full_name
one_call = refl

-- The third call that fails with the same code ends the turn.
abbrev wipes : Round
wipes = calling (call (codes "a__wipe") ∷ call (codes "a__wipe") ∷ [])

three_failures :
    (run_turn permissive same_text (wipes ∷ wipes ∷ []) (new_turn idle)).0
    ≡ stops consecutive_failures
unfolding run_turn call_tool step full_to_wire full_name
three_failures = refl

run_turn-ends_example :
    ((is_over permissive same_text
          (run_turn permissive same_text (wipes ∷ wipes ∷ []) (new_turn idle)).0
        ≡ true)
      ⊎ (2 ≤ 25))
    × (length (run_turn permissive same_text (wipes ∷ wipes ∷ []) (new_turn idle)).1.dispatch.ran
        ≤ length idle.ran + 25)
run_turn-ends_example = run_turn-ends permissive same_text (wipes ∷ wipes ∷ []) idle

run_turn-EndsIn_example :
    (k : ℕ) × (3 ≤ k)
    × EndsIn k (run_turn permissive same_text (wipes ∷ wipes ∷ []) (new_turn idle)).1.answered
run_turn-EndsIn_example =
    run_turn-EndsIn permissive same_text (wipes ∷ wipes ∷ []) idle three_failures
