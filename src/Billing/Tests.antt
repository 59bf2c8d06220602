-- ===== src/Billing/Tests.antt =====
-- Runs of server/src/billing/ at concrete data: a user on a monthly plan, and a turn of two requests.
use mistake_agent.Prelude.{
  ℕ, ◌+◌, ◌≤◌, ◌≡◌, refl, none, some, true, false, List, [], ◌∷◌, arith, All, length, sum_by,
}
use mathlib.Core.List.{Memᴰ}
use mistake_agent.Prelude.Results.{ok}
use mistake_agent.Billing.Ladder.{billed_uses, crossed, billed_uses_mono, billed_uses_tier}
use mistake_agent.Billing.Model.{
  Entitlement, Plan, PlanKind, EntitlementSource, UsageStatus, PlanKind_parse, PlanKind_as_str,
  EntitlementSource_as_str, Settlement, QuotaView, WindowUsage, uses_exhausted,
}
use mistake_agent.Billing.Quota.{Verdict, decide, decide_lem}
use mistake_agent.Billing.Tables.{
  PlanRow, EntitlementRow, active, same_turn, Db, Request, ReserveOutcome, granted,
}
use mistake_agent.Billing.Reads.{
  BillingRow, earliest, split, is_effective, effective_rows, window_usage, used_in,
  find_entitlement,
}
use mistake_agent.Billing.Reads.Decode.{IsChecked}
use mistake_agent.Billing.Reads.Effective.{find_entitlement-earliest}
use mistake_agent.Billing.Reserve.{turn_rows, free_turn, new_event, insert_event, charge, reserve}
use mistake_agent.Billing.Reserve.Effect.{Effect, reserve-Effect}
use mistake_agent.Billing.Reserve.Denials.{reserve_total, reserve_never_uses_exhausted}
use mistake_agent.Billing.Settle.{recompute_turn_charge, settle}
use mistake_agent.Billing.Settle.Once.{settle_once}
use mistake_agent.Billing.Rows.{Ascending}
use mistake_agent.Billing.Turn.{turn_bill, recompute_turn_charge-bill}
use mistake_agent.Billing.Ledger.{IsLedger}
use mistake_agent.Billing.Ledger.Settling.{here, next, reserves, settles, Reach-IsLedger}
use mistake_agent.Billing.Order.{settle_comm}
use mistake_agent.Billing.View.{build_view, quota_view}
use mistake_agent.Billing.View.Agreement.{promises, is_granted, quota_view-agrees}

abbrev gold : PlanRow
gold = record {
  id = 1;
  code = "gold";
  name = "Gold";
  kind = "monthly";
  total_uses = none;
  limit_5h = some 2;
  limit_week = some 50;
  limit_month = none;
  enabled = true;
}

abbrev paid : EntitlementRow
paid = record {
  id = 7;
  user_id = 3;
  plan_id = 1;
  source = "redeem";
  expires_at = 5000;
  total_uses = none;
  used_uses = 0;
  status = active;
}

abbrev empty : Db
empty = record { plans = gold ∷ []; entitlements = paid ∷ []; usage_events = []; next_event_id = 1 }

abbrev ask : Request
ask = record {
  user_id = 3;
  token_id = 9;
  request_id = "r";
  turn_id = some "t";
  protocol = "openai";
  model = "m";
}

abbrev answered : Settlement
answered = record {
  status = UsageStatus.ok;
  billed_uses = 1;
  usage = record { input_total = 40; cached = 0; output = 80; reasoning = 0 };
  latency_ms = 12;
}

abbrev ladder : List ℕ
ladder = 100 ∷ 200 ∷ []

abbrev once : Db
once =
    insert_event (record empty { entitlements = record paid { used_uses = 1 } ∷ [] }) 1000 ask 7 1

abbrev twice : Db
twice = insert_event once 1001 ask 7 0

first_request : reserve empty 1000 ask ≡ ok (granted 1 7 true, once)
unfolding reserve charge turn_rows earliest effective_rows is_effective split PlanKind_parse decide
first_request = refl

second_request : reserve once 1001 ask ≡ ok (granted 2 7 false, twice)
unfolding reserve charge turn_rows same_turn
second_request = refl

reserve-Effect_example : Effect empty 1000 ask (granted 1 7 true, once)
reserve-Effect_example = reserve-Effect empty 1000 ask first_request

checked : IsChecked twice
unfolding PlanKind_as_str EntitlementSource_as_str insert_event
checked = record {
  sources = ((EntitlementSource.redeem, refl), tt);
  kinds = ((PlanKind.monthly, refl), tt);
}

reserve_total_example : (r : ReserveOutcome × Db) × (reserve twice 1002 ask ≡ ok r)
reserve_total_example = reserve_total twice 1002 ask checked

reserve_never_uses_exhausted_example :
    reserve empty 1000 ask ≡ ok (ReserveOutcome.denied (uses_exhausted 3 3), empty) → ⊥
reserve_never_uses_exhausted_example = reserve_never_uses_exhausted empty 1000 ask 3 3 empty

settle_once_example :
    settle (settle twice 1 answered ladder).1 1 answered ladder
    ≡ (none, (settle twice 1 answered ladder).1)
settle_once_example = settle_once twice 1 answered answered ladder refl

-- One after the other the two requests cost three uses; where neither sees what the other has
-- written, both report one.
overlapping :
    ((settle (settle twice 1 answered ladder).1 2 answered ladder).0 ≡ some 3)
    × ((settle twice 1 answered ladder).0 ≡ some 1)
    × ((settle twice 2 answered ladder).0 ≡ some 1)
unfolding settle insert_event recompute_turn_charge billed_uses crossed
overlapping = (refl, refl, refl)

settle_comm_example :
    (settle (settle twice 1 answered ladder).1 2 answered ladder
      ≡ settle (settle twice 2 answered ladder).1 1 answered ladder)
    × ((settle twice 1 answered ladder).0 ≡ (settle twice 2 answered ladder).0)
unfolding insert_event
settle_comm_example =
    settle_comm twice 3 "t" ladder (new_event empty 1000 ask 7 1) (new_event once 1001 ask 7 0) 1 2
      answered answered (λ e. absurd (cc e)) refl refl refl refl refl refl

ascending : Ascending 0 twice.usage_events
unfolding insert_event
ascending = (omega arith, (omega arith, tt))

recompute_turn_charge-bill_example :
    let (charged, db') = recompute_turn_charge twice 3 (some "t") 1 ladder in
    sum_by (turn_bill 3 (some "t") 1) db'.usage_events ≡ charged
recompute_turn_charge-bill_example =
    recompute_turn_charge-bill twice 0 3 (some "t") 1 ladder ascending

Reach-IsLedger_example : IsLedger (settle twice 2 answered ladder).1
Reach-IsLedger_example = Reach-IsLedger {db = empty} refl (
    next
      (next (next here (reserves 1000 ask (granted 1 7 true) first_request))
        (reserves 1001 ask (granted 2 7 false) second_request))
      (settles 2 answered ladder refl))

abbrev gold_plan : Plan
gold_plan = record {
  id = 1;
  code = "gold";
  name = "Gold";
  kind = PlanKind.monthly;
  total_uses = none;
  limit_5h = some 2;
  limit_week = some 50;
  limit_month = none;
}

abbrev paid_entitlement : Entitlement
paid_entitlement = record {
  id = 7;
  plan_id = 1;
  source = EntitlementSource.redeem;
  expires_at = 5000;
  total_uses = none;
  used_uses = 0;
}

abbrev full : WindowUsage
full = record { used_5h = 2; used_week = 2; used_month = 2 }

decide_lem_example :
    Verdict gold_plan paid_entitlement full (decide gold_plan paid_entitlement full)
decide_lem_example = decide_lem gold_plan paid_entitlement full

found_paid : find_entitlement empty 1000 3 ≡ ok (some (paid_entitlement, gold_plan))
unfolding find_entitlement earliest effective_rows is_effective split PlanKind_parse
found_paid = refl

find_entitlement-earliest_example :
    let rows = effective_rows empty.plans 1000 3 empty.entitlements in
    (row : BillingRow) × Memᴰ row rows
    × (split row ≡ ok (paid_entitlement, gold_plan))
    × (is_effective 1000 3 row ≡ true)
    × All (λ other. paid_entitlement.expires_at ≤ other.e.expires_at) rows
find_entitlement-earliest_example =
    find_entitlement-earliest empty 1000 3 paid_entitlement gold_plan found_paid

empty_view : (view : QuotaView) × (quota_view empty 1000 3 ≡ ok view) × (promises view ≡ true)
unfolding quota_view find_entitlement earliest effective_rows is_effective split PlanKind_parse
    build_view window_usage used_in
empty_view = (_, refl, refl)

no_turn : free_turn empty 1000 3 (some "t") ≡ none
unfolding free_turn turn_rows
no_turn = refl

quota_view-agrees_example : is_granted (granted 1 7 true) ≡ promises empty_view.0
quota_view-agrees_example =
    quota_view-agrees empty 1000 ask empty_view.0 (granted 1 7 true) once no_turn empty_view.1
      first_request

billed_uses_mono_example :
    (1 ≤ billed_uses 100 ladder)
    × (billed_uses 100 ladder ≤ billed_uses 150 ladder)
    × (billed_uses 150 ladder ≤ length ladder + 1)
billed_uses_mono_example = billed_uses_mono 100 150 ladder (omega arith)

billed_uses_tier_example : billed_uses 150 (100 ∷ 200 ∷ []) ≡ 2
billed_uses_tier_example =
    billed_uses_tier 150 (100 ∷ []) (200 ∷ []) (omega arith, tt) (omega arith, tt) (omega arith)
