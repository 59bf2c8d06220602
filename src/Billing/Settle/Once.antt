-- ===== src/Billing/Settle/Once.antt =====
-- A reservation is settled once (server/src/billing/store.rs).
use mistake_agent.Prelude.{
  ℕ, ◌≡◌, refl, Option, none, some, Bool, true, false, List, [], ◌∷◌, arith, ◌==◌, if◌then◌else◌,
  find, retain, update_where, All, All-update_where, find-none, Option-cases, Bool-cases, inl, inr,
  String,
}
use mistake_agent.Billing.Model.{Settlement}
use mistake_agent.Billing.Tables.{UsageEvent, Db, is_reserved, set_used}
use mistake_agent.Billing.Settle.{
  is_open, settled, write_settlement, settle, recompute_rows, charge_first, clear_extra, in_turn,
  set_billed, refund, desired_charge,
}

-- The row is not waiting for its settlement.
abbrev IsClosed : ℕ → UsageEvent → Type 0
IsClosed event r = is_open event r ≡ false

update-IsClosed :
    (event : ℕ) (s : Settlement) (rows : List UsageEvent)
    → is_reserved s.status ≡ false
    → All (IsClosed event) (update_where (is_open event) (settled s) rows)
update-IsClosed event s [] h = tt
update-IsClosed event s (r ∷ rows) h = (row (is_open event r) refl, update-IsClosed event s rows h)
  where
    row : (b : Bool) → is_open event r ≡ b → IsClosed event (if b then settled s r else r)
    row true e = ground arith
    row false e = e

pub refund_events :
    (e : Option ℕ) (desired billed : ℕ) (db : Db)
    → (refund e desired billed db).usage_events ≡ db.usage_events
unfolding set_used
refund_events none desired billed db = refl
refund_events (some e) desired billed db = refl

-- The rows after the charge of the first one.
pub charge_first_events :
    (db : Db) (first : UsageEvent) (desired : ℕ)
    → (charge_first db first desired).usage_events ≡ (
        if first.billed_uses == desired
        then db.usage_events
        else set_billed first.id desired db.usage_events)
unfolding charge_first
charge_first_events db first desired = elim (Bool-cases (first.billed_uses == desired)) [
  | inl e ↦ rw e
  | inr e ↦ rw e (refund_events first.entitlement_id desired first.billed_uses _)
]

recompute-IsClosed :
    (event : ℕ) (db : Db) (user : ℕ) (turn : Option String) (ladder : List ℕ)
    (rows : List UsageEvent)
    → All (IsClosed event) db.usage_events
    → All (IsClosed event) (recompute_rows db user turn ladder rows).1.usage_events
unfolding clear_extra
recompute-IsClosed event db user turn ladder [] h = h
recompute-IsClosed event db user turn ladder (first ∷ rest) h =
    All-update_where (IsClosed event) _ _ _ (λ r k. k)
      (rw (charge_first_events db first (desired_charge (first ∷ rest) first.billed_uses ladder)) (
        first_charged
          (first.billed_uses == desired_charge (first ∷ rest) first.billed_uses ladder)))
  where
    first_charged :
        (b : Bool)
        → All (IsClosed event) (
            if b
            then db.usage_events
            else set_billed first.id
                (desired_charge (first ∷ rest) first.billed_uses ladder)
                db.usage_events)
    first_charged true = h
    first_charged false = All-update_where (IsClosed event) _ _ _ (λ r k. k) h

settle_closed :
    (db : Db) (event : ℕ) (s : Settlement) (ladder : List ℕ)
    → find (is_open event) db.usage_events ≡ none
    → settle db event s ladder ≡ (none, db)
unfolding settle
settle_closed db event s ladder e = rw (e, settle)

settle_closes :
    (db : Db) (event : ℕ) (s : Settlement) (ladder : List ℕ)
    → is_reserved s.status ≡ false
    → find (is_open event) (settle db event s ladder).1.usage_events ≡ none
unfolding settle
settle_closes db event s ladder h = elim (Option-cases (find (is_open event) db.usage_events)) [
  | inl e ↦ rw (e, settle) e
  | inr (row, e) ↦
      rw (e, settle)
        (find-none (is_open event) _ (
          recompute-IsClosed event (write_settlement db event s) row.user_id row.turn_id ladder
            (retain (in_turn row.user_id row.turn_id event)
              (write_settlement db event s).usage_events)
            (update-IsClosed event s db.usage_events h)))
]

-- Settling a row a second time, with whatever figures, reports that it was settled already and
-- writes nothing; the status of the first settlement is a final one.
pub settle_once :
    (db : Db) (event : ℕ) (s t : Settlement) (ladder : List ℕ)
    → is_reserved s.status ≡ false
    → settle (settle db event s ladder).1 event t ladder ≡ (none, (settle db event s ladder).1)
settle_once db event s t ladder h =
    settle_closed (settle db event s ladder).1 event t ladder (settle_closes db event s ladder h)
