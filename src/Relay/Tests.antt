-- ===== src/Relay/Tests.antt =====
-- Runs of server/src/relay/ at concrete data.
use mistake_agent.Prelude.{
  ℕ, ◌≤◌, ◌≡◌, refl, some, none, Bool, true, false, if◌then◌else◌, List, [], ◌∷◌, arith,
}
use mistake_agent.Billing.Model.{reserved}
use mistake_agent.Billing.Tables.{UsageEvent, Db}
use mistake_agent.Billing.Settle.{settle}
use mistake_agent.Relay.Text.{same_text}
use mistake_agent.Relay.Json.{Json}
use mistake_agent.Relay.Observe.{no_result, observe_responses}
use mistake_agent.Relay.Probe.{responses, anthropic, new_probe, take_line, line_text, push, finish}
use mistake_agent.Relay.Probe.Chunks.{feed, concat, push_all, push_all-concat}
use mistake_agent.Relay.Probe.Silence.{IsHonest, push_all-IsHonest}
use mistake_agent.Relay.Settlement.{settlement_for}
use mistake_agent.Relay.Settlement.Charge.{Cost, settlement_for-Cost, silent-charged}
use mistake_agent.Relay.Gate.{GateGuard, acquire, drop}
use mistake_agent.Relay.Gate.Histories.{
  State, Reach, start, next, admits, refuses, ends, first, IsFair,
}
use mistake_agent.Relay.Gate.Slots.{Reach-IsFair, Reach-admits}

abbrev guard : GateGuard
guard = record { user_id = 4 }

abbrev one_held : State
one_held = record { gate = record { in_flight = (4, 1) ∷ [] }; guards = guard ∷ [] }

abbrev none_held : State
none_held = record { gate = drop guard one_held.gate; guards = [] }

held_one : Reach 1 one_held
unfolding acquire
held_one = next (next start (admits 4 guard refl)) (refuses 4 refl)

held_none : Reach 1 none_held
held_none = next held_one (ends guard first)

Reach-IsFair_example : IsFair 1 one_held
Reach-IsFair_example = Reach-IsFair held_one

Reach-admits_example : (acquire none_held.gate 4 1).0 ≡ some guard
Reach-admits_example = Reach-admits 4 held_none (omega arith)

-- A library that reads `{` as an object with a usage of 5 tokens, and nothing else.
abbrev toy_json : Json
toy_json = record {
  Value = Bool;
  parse = λ t. if same_text t (123 ∷ []) then some true else none;
  get = λ key v. if v then some false else none;
  index = λ key v. v;
  pointer = λ path v. some true;
  is_object = λ v. v;
  as_str = λ v. none;
  as_u64 = λ v. some 5;
  as_array = λ v. none;
}

-- `data: {`, a carriage return, and the empty line, in two cuts.
abbrev cut_early : List (List ℕ)
cut_early = (100 ∷ 97 ∷ []) ∷ (116 ∷ 97 ∷ 58 ∷ 32 ∷ 123 ∷ 13 ∷ 10 ∷ []) ∷ (10 ∷ []) ∷ []

abbrev cut_late : List (List ℕ)
cut_late = (100 ∷ 97 ∷ 116 ∷ 97 ∷ 58 ∷ 32 ∷ 123 ∷ 13 ∷ 10 ∷ 10 ∷ []) ∷ []

push_all-concat_example :
    (push_all toy_json (new_probe anthropic) cut_early
      ≡ push_all toy_json (new_probe anthropic) cut_late)
    × (push_all toy_json (new_probe anthropic) cut_early
        ≡ feed toy_json (new_probe anthropic) (concat toy_json cut_early))
push_all-concat_example = push_all-concat toy_json anthropic cut_early cut_late refl

saw_it :
    (push_all toy_json (new_probe responses) cut_early).result.usage
    ≡ some (record { input_total = 5; cached = 5; output = 5; reasoning = 5 })
unfolding push take_line line_text new_probe observe_responses
saw_it = refl

push_all-IsHonest_example : IsHonest (push_all toy_json (new_probe responses) cut_early).result
push_all-IsHonest_example = push_all-IsHonest toy_json responses cut_early

settlement_for-Cost_example :
    let result = finish (push_all toy_json (new_probe responses) cut_early) in
    Cost result (settlement_for result (100 ∷ []) 7).billed_uses
settlement_for-Cost_example = settlement_for-Cost toy_json responses cut_early (100 ∷ []) 7

abbrev open_row : UsageEvent
open_row = record {
  id = 1;
  user_id = 3;
  entitlement_id = some 7;
  token_id = 9;
  request_id = "r";
  turn_id = none;
  protocol = "responses";
  model = "m";
  input_tokens = none;
  cached_tokens = none;
  output_tokens = none;
  reasoning_tokens = none;
  billed_uses = 1;
  latency_ms = none;
  status = reserved;
  created_at = 50;
}

abbrev one_open : Db
one_open = record { plans = []; entitlements = []; usage_events = open_row ∷ []; next_event_id = 2 }

silent-charged_example :
    ((settlement_for no_result [] 7).billed_uses ≡ 0)
    × (n : ℕ) × ((settle one_open 1 (settlement_for no_result [] 7) []).0 ≡ some n)
    × (1 ≤ n)
silent-charged_example = silent-charged one_open 1 [] 7 open_row refl
