-- ===== src/Billing/Reserve/Denials.antt =====
-- When `reserve` answers, and with which refusal (server/src/billing/store.rs).
use mistake_agent.Prelude.{
  ℕ, ◌≡◌, Option, none, some, false, ap, ◌<◌, ◌≢◌, arith, Option-cases, inl, inr,
}
use mistake_agent.Prelude.Results.{Result, ok, >>=-eq-ok}
use mistake_agent.Billing.Model.{
  Plan, Entitlement, QuotaDecision, QuotaDenial, no_entitlement, uses_exhausted, window_5h,
  window_week, window_month,
}
use mistake_agent.Billing.Quota.{HasRoom, Verdict, decide, decide_lem}
use mistake_agent.Billing.Tables.{Db, Request, ReserveOutcome, granted, denied, StoreError}
use mistake_agent.Billing.Reads.{find_entitlement, window_usage}
use mistake_agent.Billing.Reads.Decode.{IsChecked, find_entitlement_total}
use mistake_agent.Billing.Reads.Effective.{find_entitlement-HasRoom}
use mistake_agent.Billing.Reserve.{
  free_turn, insert_event, charge_decided, charge, charge_found, reserve,
}

-- Under the CHECK constraints of the tables every request is answered.
pub reserve_total :
    (db : Db) (now : ℕ) (rq : Request)
    → IsChecked db
    → (r : ReserveOutcome × Db) × (reserve db now rq ≡ ok r)
unfolding reserve
reserve_total db now rq c = elim (Option-cases (free_turn db now rq.user_id rq.turn_id)) [
  | inl e ↦
      let (found, q) = find_entitlement_total db now rq.user_id c in
      (charge_found db now rq found, rw (e, reserve) (rw q))
  | inr (ent, e) ↦
      ((granted db.next_event_id ent false, insert_event db now rq ent 0), rw (e, reserve))
]

-- The reason of a refusal, if there is one.
abbrev pub refusal : ReserveOutcome → Option QuotaDenial
refusal (granted event entitlement charged) = none
refusal (denied reason) = some reason

module _ (db : Db) (now : ℕ) (rq : Request) (e : Entitlement) (p : Plan) where
  decided_not_exhausted :
      (d : QuotaDecision) (total used : ℕ)
      → HasRoom e.total_uses e.used_uses
      → Verdict p e (window_usage db now rq.user_id) d
      → refusal (charge_decided db now rq d).0 ≢ some (uses_exhausted total used)
  decided_not_exhausted (QuotaDecision.allowed g) total used room v h = cc
  decided_not_exhausted (QuotaDecision.denied no_entitlement) total used room v h = v
  decided_not_exhausted (QuotaDecision.denied (uses_exhausted a b)) total used room v h =
      let left : e.used_uses < a = rw v.0 at room in omega arith
  decided_not_exhausted (QuotaDecision.denied (window_5h a b)) total used room v h = cc
  decided_not_exhausted (QuotaDecision.denied (window_week a b)) total used room v h = cc
  decided_not_exhausted (QuotaDecision.denied (window_month a b)) total used room v h = cc

found_not_exhausted :
    (db : Db) (now : ℕ) (rq : Request) (found : Option (Entitlement × Plan)) (total used : ℕ)
    → find_entitlement db now rq.user_id ≡ ok found
    → refusal (charge_found db now rq found).0 ≢ some (uses_exhausted total used)
unfolding charge
found_not_exhausted db now rq none total used q h = cc
found_not_exhausted db now rq (some (e, p)) total used q h =
    decided_not_exhausted db now rq e p (decide p e (window_usage db now rq.user_id)) total used
      (find_entitlement-HasRoom db now rq.user_id e p q)
      (decide_lem p e (window_usage db now rq.user_id)) h

-- The refusal that names a used-up package is never given: the query for the paying entitlement
-- already leaves used-up packages out, so such a user is told that there is no package.
pub reserve_never_uses_exhausted :
    (db : Db) (now : ℕ) (rq : Request) (total used : ℕ) (db' : Db)
    → ¬ (reserve db now rq ≡ ok (denied (uses_exhausted total used), db'))
unfolding reserve
reserve_never_uses_exhausted db now rq total used db' h =
    elim (Option-cases (free_turn db now rq.user_id rq.turn_id)) [
      | inl fresh ↦
          let (found, q, last) =
            >>=-eq-ok (find_entitlement db now rq.user_id) (λ f. ok (charge_found db now rq f))
              (rw (fresh, reserve) at h) in
          let same : charge_found db now rq found ≡ (denied (uses_exhausted total used), db') =
            cc last in
          found_not_exhausted db now rq found total used q (ap (λ r. refusal r.0) same)
      | inr (e, free) ↦
          let last : ◌≡◌ {A = Result StoreError (ReserveOutcome × Db)}
              (ok (granted db.next_event_id e false, insert_event db now rq e 0))
              (ok (denied (uses_exhausted total used), db')) =
            rw (free, reserve) at h in
          cc last
    ]
