-- ===== src/Billing/Ledger/Settling.antt =====
-- Settlement keeps the books (server/src/billing/store.rs).
use mistake_agent.Prelude.{
  ℕ, ◌+◌, ◌-◌, ◌≤◌, ◌≡◌, refl, Option, none, some, Bool, List, [], ◌∷◌, arith, ◌==◌, if◌then◌else◌,
  find, find-retain, retain, update_where, sum_by, sum_by-update_where_le, sum_by-update_where_eq,
  All, All-map, All-updated, All-update_where, Bool-cases, Option-cases, inl, inr, subst, sym,
  String,
}
use mistake_agent.Prelude.Results.{ok}
use mistake_agent.Billing.Model.{Settlement}
use mistake_agent.Billing.Tables.{UsageEvent, EntitlementRow, Db, Request, ReserveOutcome, set_used}
use mistake_agent.Billing.Reserve.{reserve}
use mistake_agent.Billing.Rows.{Ascending-update, sum_by-set_billed}
use mistake_agent.Billing.Settle.{
  is_open, settled, write_settlement, in_turn, is_extra, set_billed, refund, charge_first,
  clear_extra, desired_charge, recompute_rows, recompute_turn_charge, settle,
}
use mistake_agent.Billing.Settle.Once.{refund_events}
use mistake_agent.Billing.Ledger.{owed_under, owed, Covers, IsLedger, reserve-IsLedger}

write_settlement-IsLedger :
    (db : Db) (event : ℕ) (s : Settlement) → IsLedger db → IsLedger (write_settlement db event s)
unfolding write_settlement
write_settlement-IsLedger db event s v = record {
  ordered = Ascending-update 0 (is_open event) (settled s) db.usage_events (λ r. refl) v.ordered;
  fresh = All-update_where _ _ _ db.usage_events (λ r h. h) v.fresh;
  covered =
      All-map (Covers db.usage_events) _ db.entitlements
        (λ e h. omega (
          arith,
          sum_by-update_where_eq (owed e.id) (is_open event) (settled s) (λ r. refl)
              db.usage_events,
        ))
        v.covered;
}

clear_extra-IsLedger :
    (db : Db) (user : ℕ) (turn : Option String) (first : ℕ)
    → IsLedger db
    → IsLedger (clear_extra db user turn first)
unfolding clear_extra
clear_extra-IsLedger db user turn first v = record {
  ordered = Ascending-update 0 _ _ db.usage_events (λ r. refl) v.ordered;
  fresh = All-update_where _ _ _ db.usage_events (λ r h. h) v.fresh;
  covered = All-map (Covers db.usage_events) _ db.entitlements (λ e h. cleared e h) v.covered;
}
  where
    free : (o : Option ℕ) (b e : ℕ) → owed_under o 0 e ≤ owed_under o b e
    free none b e = omega arith
    free (some x) b e = ground arith

    cleared :
        (e : EntitlementRow)
        → Covers db.usage_events e
        → Covers
            (update_where
              (is_extra user turn first)
              (λ r. record r { billed_uses = 0 })
              db.usage_events)
            e
    cleared e h = omega (
      arith,
      sum_by-update_where_le (owed e.id) (is_extra user turn first)
          (λ r. record r { billed_uses = 0 }) (λ r. free r.entitlement_id r.billed_uses e.id)
          db.usage_events,
    )

module _ (first : UsageEvent) (d : ℕ) where
  -- The entitlements after the refund, given what the table's sums became.
  refund-covered :
      (o : Option ℕ) (db : Db) (rows : List UsageEvent)
      → ((e : ℕ)
          → sum_by (owed e) rows + owed_under o first.billed_uses e
            ≡ sum_by (owed e) db.usage_events + owed_under o d e)
      → All (Covers db.usage_events) db.entitlements
      → All
          (Covers rows)
          (refund o d first.billed_uses (record db { usage_events = rows })).entitlements
  unfolding set_used
  refund-covered none db rows sums c =
      All-map (Covers db.usage_events) (Covers rows) db.entitlements
        (λ e h. omega (arith, sums e.id)) c
  refund-covered (some x) db rows sums c =
      All-updated (Covers db.usage_events) (Covers rows) (λ e. e.id == x)
        (λ e. record e { used_uses = (e.used_uses + d) - first.billed_uses }) db.entitlements paid c
    where
      paid :
          (e : EntitlementRow)
          → Covers db.usage_events e
          → Covers rows (
              if e.id == x
              then record e { used_uses = (e.used_uses + d) - first.billed_uses }
              else e)
      paid e h = ground (arith, sums e.id)

  refund_ids :
      (o : Option ℕ) (billed : ℕ) (db : Db)
      → (refund o d billed db).next_event_id ≡ db.next_event_id
  unfolding set_used
  refund_ids none billed db = refl
  refund_ids (some e) billed db = refl

charge_first-IsLedger :
    (db : Db) (p : UsageEvent → Bool) (first : UsageEvent) (d : ℕ)
    → IsLedger db
    → find p db.usage_events ≡ some first
    → IsLedger (charge_first db first d)
unfolding charge_first
charge_first-IsLedger db p first d v found = elim (Bool-cases (first.billed_uses == d)) [
  | inl e ↦ rw e v
  | inr e ↦ rw e (record {
    ordered =
        rw (refund_events first.entitlement_id d first.billed_uses changed)
          (Ascending-update 0 _ _ db.usage_events (λ r. refl) v.ordered);
    fresh =
        rw
          (
            refund_events first.entitlement_id d first.billed_uses changed,
            refund_ids first d first.entitlement_id first.billed_uses changed,
          )
          (All-update_where _ _ _ db.usage_events (λ r h. h) v.fresh);
    covered = rw (refund_events first.entitlement_id d first.billed_uses changed) (
        refund-covered first d first.entitlement_id db changed.usage_events
          (λ x. sum_by-set_billed (owed x) 0 d p db.usage_events v.ordered found) v.covered);
  })
]
  where
    changed : Db
    changed = record db { usage_events = set_billed first.id d db.usage_events }

recompute_rows-IsLedger :
    (db : Db) (user : ℕ) (turn : Option String) (row_id : ℕ) (ladder : List ℕ)
    (rows : List UsageEvent)
    → retain (in_turn user turn row_id) db.usage_events ≡ rows
    → IsLedger db
    → IsLedger (recompute_rows db user turn ladder rows).1
recompute_rows-IsLedger db user turn row_id ladder [] e v = v
recompute_rows-IsLedger db user turn row_id ladder (first ∷ rest) e v =
    clear_extra-IsLedger _ user turn first.id (
      charge_first-IsLedger db (in_turn user turn row_id) first
        (desired_charge (first ∷ rest) first.billed_uses ladder) v
        (find-retain (in_turn user turn row_id) db.usage_events e))

-- A settlement keeps the books, on every branch: settled before, in flight, answered, aborted or
-- failed.
pub settle-IsLedger :
    (db : Db) (event : ℕ) (s : Settlement) (ladder : List ℕ)
    → IsLedger db
    → IsLedger (settle db event s ladder).1
unfolding settle
settle-IsLedger db event s ladder v = elim (Option-cases (find (is_open event) db.usage_events)) [
  | inl e ↦ rw (e, settle) v
  | inr (row, e) ↦
      rw (e, settle)
        (unfold recompute_turn_charge in
          recompute_rows-IsLedger (write_settlement db event s) row.user_id row.turn_id event ladder
            (retain (in_turn row.user_id row.turn_id event)
              (write_settlement db event s).usage_events)
            refl (write_settlement-IsLedger db event s v))
]

-- One transaction of the store.
pub data Step (db : Db) : Db → Type 0 where
  reserves :
      (now : ℕ) (rq : Request) (outcome : ReserveOutcome) {db' : Db}
      → reserve db now rq ≡ ok (outcome, db')
      → Step db db'
  settles :
      (event : ℕ) (s : Settlement) (ladder : List ℕ) {db' : Db}
      → db' ≡ (settle db event s ladder).1
      → Step db db'

pub data Reach (db : Db) : Db → Type 0 where
  here : Reach db db
  next : {db' db'' : Db} → Reach db db' → Step db' db'' → Reach db db''

Step-IsLedger : {db db' : Db} → Step db db' → IsLedger db → IsLedger db'
Step-IsLedger {db} {db'} (reserves now rq outcome h) v = reserve-IsLedger db now rq outcome db' v h
Step-IsLedger {db} (settles event s ladder e) v =
    subst IsLedger (sym e) (settle-IsLedger db event s ladder v)

-- From tables with no usage yet, no sequence of reservations and settlements, in any order and at
-- any times, charges an entitlement less than what its rows are billed.
pub Reach-IsLedger : {db db' : Db} → db.usage_events ≡ [] → Reach db db' → IsLedger db'
Reach-IsLedger {db} empty here = record {
  ordered = rw empty tt;
  fresh = rw empty tt;
  covered = none_owed db.entitlements;
}
  where
    none_owed : (es : List EntitlementRow) → All (Covers db.usage_events) es
    none_owed [] = tt
    none_owed (e ∷ es) = (rw empty (omega arith), none_owed es)
Reach-IsLedger empty (next r s) = Step-IsLedger s (Reach-IsLedger empty r)
