-- ===== src/Billing/Quota.antt =====
-- server/src/billing/quota.rs: whether a request may pass.
use mistake_agent.Prelude.{ℕ, ◌≤◌, ◌<◌, ◌≡◌, Option, none, some, leb, if◌then◌else◌, arith}
use mistake_agent.Billing.Model.{
  Plan, Entitlement, WindowUsage, QuotaDenial, no_entitlement, uses_exhausted, window_5h,
  window_week, window_month, QuotaDecision, allowed, denied,
}

-- `if let Some(limit) = limit && used >= limit { return Denied(reason { limit, used }) }`,
-- followed by what comes after it.
abbrev pub deny_at : Option ℕ → ℕ → (ℕ → ℕ → QuotaDenial) → QuotaDecision → QuotaDecision
deny_at none used reason rest = rest
deny_at (some limit) used reason rest = if leb limit used then denied (reason limit used) else rest

unfoldable pub decide : Plan → Entitlement → WindowUsage → QuotaDecision
decide plan entitlement windows =
    deny_at entitlement.total_uses entitlement.used_uses uses_exhausted (
      deny_at plan.limit_5h windows.used_5h window_5h (
        deny_at plan.limit_week windows.used_week window_week (
          deny_at plan.limit_month windows.used_month window_month
            (allowed (record { entitlement = entitlement; plan = plan; windows = windows })))))

-- A limit leaves room for one more use; no limit always does.
abbrev pub HasRoom : Option ℕ → ℕ → Type 0
HasRoom none used = Unit {0}
HasRoom (some limit) used = used < limit

-- What the denial says is a limit that the uses have reached, and the limits checked before it
-- have room.
abbrev pub Justified : Plan → Entitlement → WindowUsage → QuotaDenial → Type 0
Justified p e w no_entitlement = ⊥
Justified p e w (uses_exhausted total used) =
    (e.total_uses ≡ some total) × (used ≡ e.used_uses) × (total ≤ used)
Justified p e w (window_5h limit used) =
    (p.limit_5h ≡ some limit)
    × (used ≡ w.used_5h)
    × (limit ≤ used)
    × HasRoom e.total_uses e.used_uses
Justified p e w (window_week limit used) =
    (p.limit_week ≡ some limit)
    × (used ≡ w.used_week)
    × (limit ≤ used)
    × HasRoom e.total_uses e.used_uses
    × HasRoom p.limit_5h w.used_5h
Justified p e w (window_month limit used) =
    (p.limit_month ≡ some limit)
    × (used ≡ w.used_month)
    × (limit ≤ used)
    × HasRoom e.total_uses e.used_uses
    × HasRoom p.limit_5h w.used_5h
    × HasRoom p.limit_week w.used_week

abbrev pub Verdict : Plan → Entitlement → WindowUsage → QuotaDecision → Type 0
Verdict p e w (allowed g) =
    (g ≡ record { entitlement = e; plan = p; windows = w })
    × HasRoom e.total_uses e.used_uses
    × HasRoom p.limit_5h w.used_5h
    × HasRoom p.limit_week w.used_week
    × HasRoom p.limit_month w.used_month
Verdict p e w (denied d) = Justified p e w d

-- A request is allowed only where the entitlement and each of the three windows has room for it,
-- and is granted what it was decided on; a denial names the first limit that is reached, in the
-- order total uses, five hours, week, month, with the uses counted against it.
pub decide_lem : (p : Plan) (e : Entitlement) (w : WindowUsage) → Verdict p e w (decide p e w)
unfolding decide
decide_lem p e w = ground arith
