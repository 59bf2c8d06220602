-- ===== src/Billing/Model.antt =====
-- server/src/billing/model.rs: the types of the billing domain.
-- Identifiers (uuid) are natural numbers, of which only equality is used; instants are microseconds.
-- The columns behind the i32 and i64 fields are never negative (CHECK constraints of
-- server/migrations/0002_billing.sql), so these are natural numbers too.
use mistake_agent.Prelude.{ℕ, Option, none, some, Bool, List, String, str_eq, if◌then◌else◌}
use mistake_agent.Billing.Ladder.{saturating_add_u64}

pub record TokenUsage : Type 0 where
  pub input_total : ℕ
  pub cached : ℕ
  pub output : ℕ
  pub reasoning : ℕ

-- `TokenUsage::default()`.
abbrev pub no_tokens : TokenUsage
no_tokens = record { input_total = 0; cached = 0; output = 0; reasoning = 0 }

unfoldable pub billable_tokens : TokenUsage → ℕ
billable_tokens u = saturating_add_u64 u.input_total u.output

pub data PlanKind : Type 0 where
  experience monthly : PlanKind

pub data EntitlementSource : Type 0 where
  redeem grant payment : EntitlementSource

pub data UsageStatus : Type 0 where
  reserved ok upstream_error aborted : UsageStatus

unfoldable pub PlanKind_as_str : PlanKind → String
PlanKind_as_str experience = "experience"
PlanKind_as_str monthly = "monthly"

unfoldable pub PlanKind_parse : String → Option PlanKind
PlanKind_parse raw =
    if str_eq raw "experience"
    then some experience
    else if str_eq raw "monthly"
    then some monthly
    else none

unfoldable pub EntitlementSource_as_str : EntitlementSource → String
EntitlementSource_as_str redeem = "redeem"
EntitlementSource_as_str grant = "grant"
EntitlementSource_as_str payment = "payment"

pub record Plan : Type 0 where
  pub id : ℕ
  pub code : String
  pub name : String
  pub kind : PlanKind
  pub total_uses : Option ℕ
  pub limit_5h : Option ℕ
  pub limit_week : Option ℕ
  pub limit_month : Option ℕ

pub record Entitlement : Type 0 where
  pub id : ℕ
  pub plan_id : ℕ
  pub source : EntitlementSource
  pub expires_at : ℕ
  pub total_uses : Option ℕ
  pub used_uses : ℕ

pub record WindowUsage : Type 0 where
  pub used_5h : ℕ
  pub used_week : ℕ
  pub used_month : ℕ

pub record QuotaGrant : Type 0 where
  pub entitlement : Entitlement
  pub plan : Plan
  pub windows : WindowUsage

-- Each denial but the first carries the limit and the number of uses.
pub data QuotaDenial : Type 0 where
  no_entitlement : QuotaDenial
  uses_exhausted window_5h window_week window_month : ℕ → ℕ → QuotaDenial

pub data QuotaDecision : Type 0 where
  allowed : QuotaGrant → QuotaDecision
  denied : QuotaDenial → QuotaDecision

unfoldable pub code : QuotaDenial → String
code no_entitlement = "no_entitlement"
code (uses_exhausted total used) = "uses_exhausted"
code (window_5h limit used) = "window_5h_exceeded"
code (window_week limit used) = "window_week_exceeded"
code (window_month limit used) = "window_month_exceeded"

pub record Settlement : Type 0 where
  pub status : UsageStatus
  pub billed_uses : ℕ
  pub usage : TokenUsage
  pub latency_ms : ℕ

pub record WindowView : Type 0 where
  pub key : String
  pub limit : Option ℕ
  pub used : ℕ
  pub remaining : Option ℕ
  pub resets_at : Option ℕ

pub record PlanView : Type 0 where
  pub code : String
  pub name : String
  pub kind : String

pub record EntitlementView : Type 0 where
  pub total_uses : Option ℕ
  pub used_uses : ℕ
  pub expires_at : ℕ

pub record QuotaView : Type 0 where
  pub has_entitlement : Bool
  pub plan : Option PlanView
  pub entitlement : Option EntitlementView
  pub windows : List WindowView
