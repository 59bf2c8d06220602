-- ===== src/Relay/Settlement.antt =====
-- server/src/relay/handlers.rs: the settlement of a relayed stream. Milliseconds are natural numbers.
pub mod Charge
use mistake_agent.Prelude.{ℕ, Option, none, some, Bool, true, false, List, if◌then◌else◌, min}
use mistake_agent.Billing.Ladder.{billed_uses}
use mistake_agent.Billing.Model.{
  TokenUsage, no_tokens, billable_tokens, UsageStatus, upstream_error, aborted, Settlement,
}
use mistake_agent.Billing.Settle.{to_i32}
use mistake_agent.Relay.Observe.{Terminal, failed, ProbeResult}

abbrev pub is_failed : Terminal → Bool
is_failed failed = true
is_failed _ = false

-- `u32::from(bool)`.
abbrev pub one_if : Bool → ℕ
one_if true = 1
one_if false = 0

abbrev or_no_tokens : Option TokenUsage → TokenUsage
or_no_tokens none = no_tokens
or_no_tokens (some usage) = usage

abbrev pub settlement_of : UsageStatus → ℕ → TokenUsage → ℕ → Settlement
settlement_of status billed usage elapsed = record {
  status = status;
  billed_uses = billed;
  usage = usage;
  latency_ms = to_i32 elapsed;
}

-- The settlement of a stream that has not failed.
abbrev pub settle_usage : Option TokenUsage → Bool → List ℕ → ℕ → Settlement
settle_usage (some usage) saw_event ladder elapsed =
    settlement_of UsageStatus.ok (billed_uses (billable_tokens usage) ladder) usage elapsed
settle_usage none saw_event ladder elapsed =
    settlement_of aborted (one_if saw_event) no_tokens elapsed

unfoldable pub settlement_for : ProbeResult → List ℕ → ℕ → Settlement
settlement_for result ladder elapsed =
    if is_failed result.terminal
    then settlement_of upstream_error 0 (or_no_tokens result.usage) elapsed
    else settle_usage result.usage result.saw_event ladder elapsed
