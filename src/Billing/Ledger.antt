-- ===== src/Billing/Ledger.antt =====
-- The books of server/src/billing/store.rs balance: no entitlement is charged less than what its
-- rows are billed.
pub mod Settling
use mistake_agent.Prelude.{
  ℕ, suc, ◌+◌, ◌-◌, ◌≤◌, ◌<◌, ◌≡◌, refl, Option, none, some, Bool, true, false, ◌&&◌, not, List, [],
  ◌∷◌, ◌++◌, arith, ◌==◌, ==_refl, if◌then◌else◌, find, find-retain, retain, update_where, sum_by,
  sum_by-append, sum_by-update_where_le, sum_by-update_where_eq, All, All-append, All-map,
  All-updated, All-update_where, Bool-cases, Option-cases, inl, inr, subst, ap, sym, ◌∙◌, String,
}
use mistake_agent.Prelude.Results.{Result, ok, err, ◌>>=◌, >>=-eq-ok}
use mistake_agent.Billing.Model.{Plan, Entitlement, QuotaDecision}
use mistake_agent.Billing.Quota.{decide}
use mistake_agent.Billing.Tables.{
  UsageEvent, EntitlementRow, Db, Request, ReserveOutcome, granted, denied, StoreError, set_used,
}
use mistake_agent.Billing.Reads.{find_entitlement, window_usage}
use mistake_agent.Billing.Reserve.{
  new_event, insert_event, charge_decided, charge, charge_found, free_turn, reserve,
}
use mistake_agent.Billing.Rows.{Ascending, Ascending-append, Ascending-update, sum_by-set_billed}
use mistake_agent.Billing.Settle.{
  is_open, settled, write_settlement, in_turn, is_extra, set_billed, refund, charge_first,
  clear_extra, desired_charge, recompute_rows, recompute_turn_charge, settle,
}
use mistake_agent.Billing.Settle.Once.{refund_events}
use mistake_agent.Billing.Turn.{charge_first-set_billed}

-- What a row asks of an entitlement.
abbrev pub owed_under : Option ℕ → ℕ → ℕ → ℕ
owed_under none billed entitlement = 0
owed_under (some e) billed entitlement = if e == entitlement then billed else 0

abbrev pub owed : ℕ → UsageEvent → ℕ
owed entitlement r = owed_under r.entitlement_id r.billed_uses entitlement

abbrev pub Covers : List UsageEvent → EntitlementRow → Type 0
Covers rows e = sum_by (owed e.id) rows ≤ e.used_uses

-- The rows stand in the order of their ids, below the next one, and each entitlement has been
-- charged at least what its rows are billed.
pub record IsLedger (db : Db) : Type 0 where
  pub ordered : Ascending 0 db.usage_events
  pub fresh : All (λ r. r.id < db.next_event_id) db.usage_events
  pub covered : All (Covers db.usage_events) db.entitlements

module _ (db : Db) (now : ℕ) (rq : Request) (e b : ℕ) where
  owed_insert :
      (entitlement : ℕ)
      → sum_by (owed entitlement) (insert_event db now rq e b).usage_events
        ≡ sum_by (owed entitlement) db.usage_events + (if e == entitlement then b else 0)
  unfolding insert_event
  owed_insert entitlement = omega (
    arith,
    sum_by-append (owed entitlement) db.usage_events (new_event db now rq e b ∷ []),
    new_owed,
  )
    where
      new_owed : owed entitlement (new_event db now rq e b) ≡ (if e == entitlement then b else 0)
      new_owed = refl

  insert-ordered : IsLedger db → Ascending 0 (insert_event db now rq e b).usage_events
  unfolding insert_event
  insert-ordered v =
      Ascending-append 0 db.next_event_id db.usage_events (new_event db now rq e b) (omega arith)
        (omega arith) v.ordered v.fresh

  insert-fresh :
      IsLedger db → All (λ r. r.id < suc db.next_event_id) (insert_event db now rq e b).usage_events
  unfolding insert_event
  insert-fresh v =
      All-append _ db.usage_events _ (All-map _ _ db.usage_events (λ r h. omega arith) v.fresh)
        (omega arith, tt)

  free-IsLedger : b ≡ 0 → IsLedger db → IsLedger (insert_event db now rq e b)
  unfolding insert_event
  free-IsLedger z v = record {
    ordered = insert-ordered v;
    fresh = insert-fresh v;
    covered =
        All-map (Covers db.usage_events) (Covers (insert_event db now rq e b).usage_events)
          db.entitlements (λ ent h. ground (arith, owed_insert ent.id)) v.covered;
  }

set_used-IsLedger_rows :
    (db : Db) (now : ℕ) (rq : Request) (e : ℕ)
    → IsLedger db
    → IsLedger (insert_event (set_used e (λ n. n + 1) db) now rq e 1)
unfolding insert_event set_used
set_used-IsLedger_rows db now rq e v = record {
  ordered = insert-ordered db now rq e 1 v;
  fresh = insert-fresh db now rq e 1 v;
  covered =
      All-updated (Covers db.usage_events) (Covers (insert_event db now rq e 1).usage_events)
        (λ ent. ent.id == e) (λ ent. record ent { used_uses = ent.used_uses + 1 }) db.entitlements
        paid v.covered;
}
  where
    paid :
        (ent : EntitlementRow)
        → Covers db.usage_events ent
        → Covers
            (insert_event db now rq e 1).usage_events
            (if ent.id == e then record ent { used_uses = ent.used_uses + 1 } else ent)
    paid ent h = ground (arith, owed_insert db now rq e 1 ent.id)

charge_found-IsLedger :
    (db : Db) (now : ℕ) (rq : Request) (found : Option (Entitlement × Plan))
    → IsLedger db
    → IsLedger (charge_found db now rq found).1
unfolding charge
charge_found-IsLedger db now rq none v = v
charge_found-IsLedger db now rq (some (e, p)) v =
    decided (decide p e (window_usage db now rq.user_id))
  where
    decided : (d : QuotaDecision) → IsLedger (charge_decided db now rq d).1
    decided (QuotaDecision.denied reason) = v
    decided (QuotaDecision.allowed g) = set_used-IsLedger_rows db now rq g.entitlement.id v

-- A reservation keeps the books: ids stay in order and below the next one, and every entitlement
-- stays charged at least what its rows are billed.
pub reserve-IsLedger :
    (db : Db) (now : ℕ) (rq : Request) (outcome : ReserveOutcome) (db' : Db)
    → IsLedger db
    → reserve db now rq ≡ ok (outcome, db')
    → IsLedger db'
unfolding reserve
reserve-IsLedger db now rq outcome db' v h =
    elim (Option-cases (free_turn db now rq.user_id rq.turn_id)) [
      | inl fresh ↦
          let (found, q, last) =
            >>=-eq-ok (find_entitlement db now rq.user_id) (λ f. ok (charge_found db now rq f))
              (rw (fresh, reserve) at h) in
          let same : charge_found db now rq found ≡ (outcome, db') = cc last in
          subst IsLedger (ap (λ c. c.1) same) (charge_found-IsLedger db now rq found v)
      | inr (e, free) ↦
          let last : ◌≡◌ {A = Result StoreError (ReserveOutcome × Db)}
              (ok (granted db.next_event_id e false, insert_event db now rq e 0))
              (ok (outcome, db')) =
            rw (free, reserve) at h in
          let same : insert_event db now rq e 0 ≡ db' = cc last in
          subst IsLedger same (free-IsLedger db now rq e 0 refl v)
    ]
