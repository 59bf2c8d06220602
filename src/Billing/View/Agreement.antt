-- ===== src/Billing/View/Agreement.antt =====
-- The quota card and the gate agree (server/src/billing/store.rs).
use mistake_agent.Prelude.{
  ℕ, ◌≡◌, refl, sym, ◌∙◌, ◌≤◌, Option, none, some, Bool, true, false, ◌&&◌, List, [], ◌∷◌, arith,
  ap, ◌<◌, ◌==◌, not,
}
use mistake_agent.Prelude.Results.{Result, ok, >>=-eq-ok}
use mistake_agent.Billing.Model.{
  Plan, Entitlement, QuotaDecision, no_entitlement, uses_exhausted, window_5h, window_week,
  window_month, WindowUsage, WindowView, QuotaView,
}
use mistake_agent.Billing.Quota.{HasRoom, Verdict, decide, decide_lem}
use mistake_agent.Billing.Tables.{Db, Request, ReserveOutcome, granted, denied, StoreError}
use mistake_agent.Billing.Reads.{find_entitlement, window_usage}
use mistake_agent.Billing.Reads.Effective.{find_entitlement-HasRoom}
use mistake_agent.Billing.Reserve.{free_turn, charge_decided, charge, charge_found, reserve}
use mistake_agent.Billing.View.{ResetRow, build_view, quota_view, window_resets, remaining_of}

-- What the card tells the user: there is a package, and no window is down to zero.
abbrev pub has_remaining : Option ℕ → Bool
has_remaining none = true
has_remaining (some n) = not (n == 0)

abbrev pub all_remaining : List WindowView → Bool
all_remaining [] = true
all_remaining (w ∷ ws) = has_remaining w.remaining && all_remaining ws

abbrev pub promises : QuotaView → Bool
promises v = v.has_entitlement && all_remaining v.windows

abbrev pub is_granted : ReserveOutcome → Bool
is_granted (granted event entitlement charged) = true
is_granted (denied reason) = false

remaining_some :
    (limit : Option ℕ) (used : ℕ)
    → HasRoom limit used
    → has_remaining (remaining_of limit used) ≡ true
remaining_some none used h = refl
remaining_some (some limit) used h = ground arith

remaining_zero :
    (limit : Option ℕ) (used : ℕ) {l u : ℕ}
    → limit ≡ some l
    → u ≡ used
    → l ≤ u
    → has_remaining (remaining_of limit used) ≡ false
remaining_zero none used e f h = cc
remaining_zero (some limit) used e f h = ground arith

module _ (db : Db) (now : ℕ) (rq : Request) (e : Entitlement) (p : Plan) (resets : ResetRow) where
  decided-promises :
      (w : WindowUsage) (d : QuotaDecision)
      → HasRoom e.total_uses e.used_uses
      → Verdict p e w d
      → is_granted (charge_decided db now rq d).0 ≡ promises (build_view (some (e, p)) w resets)
  unfolding build_view
  decided-promises w (QuotaDecision.allowed g) room (_, _, a, b, c) = rw (
    remaining_some p.limit_5h w.used_5h a,
    remaining_some p.limit_week w.used_week b,
    remaining_some p.limit_month w.used_month c,
  )
  decided-promises w (QuotaDecision.denied no_entitlement) room v = absurd v
  decided-promises w (QuotaDecision.denied (uses_exhausted a b)) room (t, u, le) =
      let left : e.used_uses < a = rw t at room in absurd (omega arith)
  decided-promises w (QuotaDecision.denied (window_5h a b)) room (t, u, le, _) =
      rw (remaining_zero p.limit_5h w.used_5h t u le)
  decided-promises w (QuotaDecision.denied (window_week a b)) room (t, u, le, _, m) =
      rw (remaining_some p.limit_5h w.used_5h m, remaining_zero p.limit_week w.used_week t u le)
  decided-promises w (QuotaDecision.denied (window_month a b)) room (t, u, le, _, m, n) = rw (
    remaining_some p.limit_5h w.used_5h m,
    remaining_some p.limit_week w.used_week n,
    remaining_zero p.limit_month w.used_month t u le,
  )

found-promises :
    (db : Db) (now : ℕ) (rq : Request) (found : Option (Entitlement × Plan)) (resets : ResetRow)
    → find_entitlement db now rq.user_id ≡ ok found
    → is_granted (charge_found db now rq found).0
      ≡ promises (build_view found (window_usage db now rq.user_id) resets)
unfolding charge build_view
found-promises db now rq none resets q = refl
found-promises db now rq (some (e, p)) resets q =
    let w = window_usage db now rq.user_id in
    decided-promises db now rq e p resets w (decide p e w)
      (find_entitlement-HasRoom db now rq.user_id e p q) (decide_lem p e w)

-- A request that does not continue a turn for free is granted exactly when the card read at the
-- same moment shows a package and no window with nothing remaining.
pub quota_view-agrees :
    (db : Db) (now : ℕ) (rq : Request) (view : QuotaView) (outcome : ReserveOutcome) (db' : Db)
    → free_turn db now rq.user_id rq.turn_id ≡ none
    → quota_view db now rq.user_id ≡ ok view
    → reserve db now rq ≡ ok (outcome, db')
    → is_granted outcome ≡ promises view
unfolding reserve quota_view
quota_view-agrees db now rq view outcome db' fresh v r =
    let (found, q, last) =
      >>=-eq-ok (find_entitlement db now rq.user_id) (λ f. ok (charge_found db now rq f))
        (rw (fresh, reserve) at r) in
    let same : charge_found db now rq found ≡ (outcome, db') = cc last in
    let (found', q', last') =
      >>=-eq-ok (find_entitlement db now rq.user_id)
        (λ f. ok (build_view f (window_usage db now rq.user_id) (window_resets db now rq.user_id)))
        v in
    let seen : ◌≡◌ {A = Result StoreError (Option (Entitlement × Plan))} (ok found) (ok found') =
      sym q ∙ q' in
    let one : found ≡ found' = cc seen in
    let shown : build_view found' (window_usage db now rq.user_id) (window_resets db now rq.user_id)
        ≡ view =
      cc last' in
    rw (← ap (λ c. c.0) same, ← shown, ← one)
      (found-promises db now rq found (window_resets db now rq.user_id) q)
