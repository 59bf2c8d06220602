-- ===== src/Billing/View.antt =====
-- server/src/billing/store.rs: the quota card, `quota_view`. Its three queries read the same tables:
-- nothing is committed between them.
pub mod Agreement
use mistake_agent.Prelude.{
  ℕ, ◌+◌, ◌-◌, ◌<◌, min, Option, none, some, Bool, true, false, ◌&&◌, List, [], ◌∷◌, String, ltb,
  leb, ◌==◌, if◌then◌else◌,
}
use mistake_agent.Prelude.Results.{Result, ok, ◌>>=◌}
use mistake_agent.Billing.Model.{
  Plan, Entitlement, WindowUsage, PlanKind_as_str, WindowView, QuotaView,
}
use mistake_agent.Billing.Tables.{
  UsageEvent, Db, StoreError, five_hours, seven_days, thirty_days, recent,
}
use mistake_agent.Billing.Reads.{find_entitlement, window_usage}

pub record ResetRow : Type 0 where
  pub first_5h : Option ℕ
  pub first_week : Option ℕ
  pub first_month : Option ℕ

abbrev pub least : ℕ → Option ℕ → Option ℕ
least t none = some t
least t (some u) = some (min t u)

-- `MIN(created_at) FILTER (WHERE created_at > now() - span)` over the user's rows that count.
unfoldable pub first_in : ℕ → ℕ → ℕ → List UsageEvent → Option ℕ
first_in now user span [] = none
first_in now user span (r ∷ rs) =
    let rest = first_in now user span rs in
    if r.user_id == user && ltb 0 r.billed_uses && recent now span r.created_at
    then least r.created_at rest
    else rest

unfoldable pub window_resets : Db → ℕ → ℕ → ResetRow
unfolding first_in
window_resets db now user = record {
  first_5h = first_in now user five_hours db.usage_events;
  first_week = first_in now user seven_days db.usage_events;
  first_month = first_in now user thirty_days db.usage_events;
}

-- `(limit - used).max(0)`: `-` on ℕ stops at 0.
abbrev pub remaining_of : Option ℕ → ℕ → Option ℕ
remaining_of none used = none
remaining_of (some limit) used = some (limit - used)

abbrev pub resets_after : Option ℕ → ℕ → Option ℕ
resets_after none span = none
resets_after (some t) span = some (t + span)

abbrev pub window_view : String → Option ℕ → ℕ → Option ℕ → ℕ → WindowView
window_view key limit used first span = record {
  key = key;
  limit = limit;
  used = used;
  remaining = remaining_of limit used;
  resets_at = resets_after first span;
}

unfoldable pub build_view : Option (Entitlement × Plan) → WindowUsage → ResetRow → QuotaView
unfolding PlanKind_as_str
build_view none windows resets = record {
  has_entitlement = false;
  plan = none;
  entitlement = none;
  windows = [];
}
build_view (some (entitlement, plan)) windows resets = record {
  has_entitlement = true;
  plan = some (record { code = plan.code; name = plan.name; kind = PlanKind_as_str plan.kind });
  entitlement = some (record {
    total_uses = entitlement.total_uses;
    used_uses = entitlement.used_uses;
    expires_at = entitlement.expires_at;
  });
  windows =
      window_view "five_hour" plan.limit_5h windows.used_5h resets.first_5h five_hours
      ∷ window_view "week" plan.limit_week windows.used_week resets.first_week seven_days
      ∷ window_view "month" plan.limit_month windows.used_month resets.first_month thirty_days
      ∷ [];
}

unfoldable pub quota_view : Db → ℕ → ℕ → Result StoreError QuotaView
unfolding build_view window_resets
quota_view db now user = do
  effective ← find_entitlement db now user
  ok (build_view effective (window_usage db now user) (window_resets db now user))
