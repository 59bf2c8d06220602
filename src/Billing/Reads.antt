-- ===== src/Billing/Reads.antt =====
-- server/src/billing/store.rs: the queries for the effective entitlement and the three windows.
pub mod Effective
pub mod Decode
use mistake_agent.Prelude.{
  ℕ, Option, none, some, Bool, true, ◌&&◌, List, [], ◌∷◌, ◌++◌, String, str_eq, ltb, ◌==◌,
  if◌then◌else◌, find, sum_by,
}
use mistake_agent.Prelude.Results.{Result, ok, err, ◌>>=◌}
use mistake_agent.Billing.Model.{
  EntitlementSource, redeem, grant, payment, PlanKind_parse, Plan, Entitlement, WindowUsage,
  PlanKind,
}
use mistake_agent.Billing.Tables.{
  PlanRow, EntitlementRow, UsageEvent, Db, StoreError, decode_error, five_hours, seven_days,
  thirty_days, recent, is_active,
}

-- A row of the join of `entitlements` and `plans`.
pub record BillingRow : Type 0 where
  pub e : EntitlementRow
  pub p : PlanRow

unfoldable pub parse_source : String → Result StoreError EntitlementSource
parse_source raw =
    if str_eq raw "redeem"
    then ok redeem
    else if str_eq raw "grant"
    then ok grant
    else if str_eq raw "payment"
    then ok payment
    else err (decode_error raw)

unfoldable pub parse_kind : String → Result StoreError PlanKind
parse_kind raw = elim (PlanKind_parse raw) [ some kind ↦ ok kind | none ↦ err (decode_error raw) ]

abbrev pub decoded : BillingRow → EntitlementSource → PlanKind → Entitlement × Plan
decoded row source kind = (
  record {
    id = row.e.id;
    plan_id = row.e.plan_id;
    source = source;
    expires_at = row.e.expires_at;
    total_uses = row.e.total_uses;
    used_uses = row.e.used_uses;
  },
  record {
    id = row.p.id;
    code = row.p.code;
    name = row.p.name;
    kind = kind;
    total_uses = row.p.total_uses;
    limit_5h = row.p.limit_5h;
    limit_week = row.p.limit_week;
    limit_month = row.p.limit_month;
  },
)

unfoldable pub split : BillingRow → Result StoreError (Entitlement × Plan)
unfolding parse_source parse_kind
split row = do
  source ← parse_source row.e.source
  kind ← parse_kind row.p.kind
  ok (decoded row source kind)

-- `e.total_uses IS NULL OR e.used_uses < e.total_uses`.
abbrev pub has_uses_left : Option ℕ → ℕ → Bool
has_uses_left none used = true
has_uses_left (some total) used = ltb used total

-- The WHERE clause of `find_entitlement_tx`.
unfoldable pub is_effective : ℕ → ℕ → BillingRow → Bool
is_effective now user row =
    row.e.user_id == user
    && is_active row.e.status
    && ltb now row.e.expires_at
    && row.p.enabled
    && has_uses_left row.e.total_uses row.e.used_uses

unfoldable pub effective_rows : List PlanRow → ℕ → ℕ → List EntitlementRow → List BillingRow
effective_rows plans now user [] = []
effective_rows plans now user (e ∷ es) = elim (find (λ p. p.id == e.plan_id) plans) [
  | none ↦ effective_rows plans now user es
  | some p ↦
      (if is_effective now user (record { e = e; p = p }) then record { e = e; p = p } ∷ [] else [])
      ++ effective_rows plans now user es
]

-- `ORDER BY e.expires_at ASC LIMIT 1`; of rows that expire together, the one that the table has first.
abbrev pub sooner : BillingRow → Option BillingRow → Option BillingRow
sooner row none = some row
sooner row (some best) = if ltb best.e.expires_at row.e.expires_at then some best else some row

unfoldable pub earliest : List BillingRow → Option BillingRow
earliest [] = none
earliest (row ∷ rows) = sooner row (earliest rows)

-- `row.map(BillingRow::split).transpose()`.
abbrev pub split_found : Option BillingRow → Result StoreError (Option (Entitlement × Plan))
split_found none = ok none
split_found (some row) = do found ← split row; ok (some found)

unfoldable pub find_entitlement : Db → ℕ → ℕ → Result StoreError (Option (Entitlement × Plan))
find_entitlement db now user =
    split_found (earliest (effective_rows db.plans now user db.entitlements))

-- `SUM(billed_uses) FILTER (WHERE created_at > now() - span)` over the user's rows.
unfoldable pub counted : ℕ → ℕ → ℕ → UsageEvent → ℕ
counted now user span r =
    if r.user_id == user && recent now span r.created_at then r.billed_uses else 0

unfoldable pub used_in : Db → ℕ → ℕ → ℕ → ℕ
used_in db now user span = sum_by (counted now user span) db.usage_events

unfoldable pub window_usage : Db → ℕ → ℕ → WindowUsage
window_usage db now user = record {
  used_5h = used_in db now user five_hours;
  used_week = used_in db now user seven_days;
  used_month = used_in db now user thirty_days;
}
