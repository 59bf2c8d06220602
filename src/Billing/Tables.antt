-- ===== src/Billing/Tables.antt =====
-- server/src/billing/store.rs, server/migrations/0002_billing.sql and 0003_turn_billing.sql: the
-- tables of the ledger, and the types of the store.
-- A transaction is a function of the tables and of `now()`. A history is a sequence of transactions
-- each of which begins when the one before has committed: the advisory lock sees to that for the
-- reservations of a user only, and what a settlement or a reading does that overlaps with another
-- transaction is left out. A table is the list of its rows, `usage_events` in the order of `id`. A
-- failing query (connection lost, integer out of range) rolls the transaction back and is left out;
-- a row that does not decode is an error value.
use mistake_agent.Prelude.{
  ℕ, ◌+◌, Option, none, some, Bool, true, false, List, String, str_eq, ltb, ◌==◌, update_where,
}
use mistake_agent.Billing.Model.{QuotaDenial, UsageStatus, reserved, aborted}

-- The columns of `plans` that this code reads.
pub record PlanRow : Type 0 where
  pub id : ℕ
  pub code : String
  pub name : String
  pub kind : String
  pub total_uses : Option ℕ
  pub limit_5h : Option ℕ
  pub limit_week : Option ℕ
  pub limit_month : Option ℕ
  pub enabled : Bool

pub data EntitlementStatus : Type 0 where
  active expired exhausted revoked : EntitlementStatus

pub record EntitlementRow : Type 0 where
  pub id : ℕ
  pub user_id : ℕ
  pub plan_id : ℕ
  pub source : String
  pub expires_at : ℕ
  pub total_uses : Option ℕ
  pub used_uses : ℕ
  pub status : EntitlementStatus

pub record UsageEvent : Type 0 where
  pub id : ℕ
  pub user_id : ℕ
  pub entitlement_id : Option ℕ
  pub token_id : ℕ
  pub request_id : String
  pub turn_id : Option String
  pub protocol : String
  pub model : String
  pub input_tokens : Option ℕ
  pub cached_tokens : Option ℕ
  pub output_tokens : Option ℕ
  pub reasoning_tokens : Option ℕ
  pub billed_uses : ℕ
  pub latency_ms : Option ℕ
  pub status : UsageStatus
  pub created_at : ℕ

-- `next_event_id` is the sequence behind `bigserial`.
pub record Db : Type 0 where
  pub plans : List PlanRow
  pub entitlements : List EntitlementRow
  pub usage_events : List UsageEvent
  pub next_event_id : ℕ

-- The arguments of `reserve` that end up in the new row.
pub record Request : Type 0 where
  pub user_id : ℕ
  pub token_id : ℕ
  pub request_id : String
  pub turn_id : Option String
  pub protocol : String
  pub model : String

pub data ReserveOutcome : Type 0 where
  granted : ℕ → ℕ → Bool → ReserveOutcome
  denied : QuotaDenial → ReserveOutcome

pub data StoreError : Type 0 where
  decode_error : String → StoreError

-- Intervals in microseconds: 5 hours, 7 and 30 days, and the 15 minutes of a turn.
abbrev pub five_hours : ℕ
five_hours = 18_000_000_000

abbrev pub seven_days : ℕ
seven_days = 604_800_000_000

abbrev pub thirty_days : ℕ
thirty_days = 2_592_000_000_000

abbrev pub turn_window : ℕ
turn_window = 900_000_000

abbrev pub turn_max_requests : ℕ
turn_max_requests = 12

-- `created_at > now() - span`.
abbrev pub recent : ℕ → ℕ → ℕ → Bool
recent now span created_at = ltb now (created_at + span)

abbrev pub is_active : EntitlementStatus → Bool
is_active active = true
is_active _ = false

abbrev pub is_reserved : UsageStatus → Bool
is_reserved reserved = true
is_reserved _ = false

abbrev pub is_ok : UsageStatus → Bool
is_ok UsageStatus.ok = true
is_ok _ = false

abbrev pub is_aborted : UsageStatus → Bool
is_aborted aborted = true
is_aborted _ = false

-- `turn_id = $2`, false on NULL.
unfoldable pub same_turn : String → Option String → Bool
same_turn turn none = false
same_turn turn (some t) = str_eq t turn

-- `UPDATE entitlements SET used_uses = … WHERE id = $1`.
unfoldable pub set_used : ℕ → (ℕ → ℕ) → Db → Db
set_used entitlement f db = record db {
  entitlements =
      update_where (λ e. e.id == entitlement) (λ e. record e { used_uses = f e.used_uses })
        db.entitlements;
}
