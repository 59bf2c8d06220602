-- ===== src/Billing/Order/Commute.antt =====
-- The writes of a settlement and those of a billing commute (server/src/billing/store.rs).
use mistake_agent.Prelude.{
  ℕ, ◌≡◌, ◌≢◌, refl, Option, none, some, true, List, arith, ◌==◌, max, if◌then◌else◌, update_where,
  update_where_comm, update_where_swap, Bool-cases, inl, inr, ap, ◌∙◌, String, any,
}
use mistake_agent.Billing.Model.{Settlement}
use mistake_agent.Billing.Tables.{UsageEvent, Db, is_reserved, set_used}
use mistake_agent.Billing.Settle.{
  is_open, settled, write_settlement, in_turn, is_extra, set_billed, refund, charge_first,
  clear_extra, desired_charge,
}

-- What a recomputation writes once it knows the figure `d`.
abbrev pub bill_turn : Db → ℕ → String → UsageEvent → ℕ → Db
bill_turn db user turn first d = clear_extra (charge_first db first d) user (some turn) first.id

abbrev pub settle_row : ℕ → Settlement → UsageEvent → UsageEvent
settle_row event s r = if is_open event r then settled s r else r

pub write_refund :
    (o : Option ℕ) (d billed event : ℕ) (s : Settlement) (db : Db)
    → write_settlement (refund o d billed db) event s
      ≡ refund o d billed (write_settlement db event s)
unfolding write_settlement set_used
write_refund none d billed event s db = refl
write_refund (some e) d billed event s db = refl

-- A settlement writes other columns than a billing does.
pub write_billed :
    (event id d : ℕ) (s : Settlement) (rows : List UsageEvent)
    → update_where (is_open event) (settled s) (set_billed id d rows)
      ≡ set_billed id d (update_where (is_open event) (settled s) rows)
write_billed event id d s =
    update_where_swap (λ r. r.id == id) (is_open event) (λ r. record r { billed_uses = d })
      (settled s) (λ r. refl) (λ r. refl) (λ r. refl)

pub write_cleared :
    (event user : ℕ) (turn : String) (first : ℕ) (s : Settlement) (rows : List UsageEvent)
    → update_where
        (is_open event)
        (settled s)
        (update_where (is_extra user (some turn) first) (λ r. record r { billed_uses = 0 }) rows)
      ≡ update_where
          (is_extra user (some turn) first)
          (λ r. record r { billed_uses = 0 })
          (update_where (is_open event) (settled s) rows)
unfolding is_extra
write_cleared event user turn first s =
    update_where_swap (is_extra user (some turn) first) (is_open event)
      (λ r. record r { billed_uses = 0 }) (settled s) (λ r. refl) (λ r. refl) (λ r. refl)

pub write_clear :
    (db : Db) (event : ℕ) (s : Settlement) (user : ℕ) (turn : String) (first : ℕ)
    → write_settlement (clear_extra db user (some turn) first) event s
      ≡ clear_extra (write_settlement db event s) user (some turn) first
unfolding write_settlement clear_extra
write_clear db event s user turn first =
    λ i. record db { usage_events = write_cleared event user turn first s db.usage_events i }

pub write_charge :
    (db : Db) (event : ℕ) (s : Settlement) (first : UsageEvent) (d : ℕ)
    → write_settlement (charge_first db first d) event s
      ≡ charge_first (write_settlement db event s) first d
unfolding charge_first
write_charge db event s first d = elim (Bool-cases (first.billed_uses == d)) [
  | inl e ↦ rw e
  | inr e ↦ rw e (
      write_refund first.entitlement_id d first.billed_uses event s
        (record db { usage_events = set_billed first.id d db.usage_events })
      ∙ ap (refund first.entitlement_id d first.billed_uses) moved)
]
  where
    moved :
        write_settlement
          (record db { usage_events = set_billed first.id d db.usage_events })
          event
          s
        ≡ record (write_settlement db event s) {
          usage_events = set_billed first.id d (write_settlement db event s).usage_events;
        }
    moved =
        unfold write_settlement in
        λ i. record db { usage_events = write_billed event first.id d s db.usage_events i }

pub write_bill_turn :
    (db : Db) (event : ℕ) (s : Settlement) (user : ℕ) (turn : String) (first : UsageEvent) (d : ℕ)
    → write_settlement (bill_turn db user turn first d) event s
      ≡ bill_turn (write_settlement db event s) user turn first d
write_bill_turn db event s user turn first d =
    write_clear (charge_first db first d) event s user turn first.id
    ∙ ap (λ (x : Db). clear_extra x user (some turn) first.id) (write_charge db event s first d)

-- Two settlements of different rows.
pub write_write :
    (db : Db) (a b : ℕ) (sa sb : Settlement)
    → a ≢ b
    → write_settlement (write_settlement db a sa) b sb
      ≡ write_settlement (write_settlement db b sb) a sa
unfolding write_settlement
write_write db a b sa sb ne = λ i. record db {
  usage_events =
      update_where_comm (is_open a) (is_open b) (settled sa) (settled sb) (λ r. row r)
        db.usage_events i;
}
  where
    row :
        (r : UsageEvent) → settle_row b sb (settle_row a sa r) ≡ settle_row a sa (settle_row b sb r)
    row r = ground arith

pub settled-in_turn :
    (user : ℕ) (turn : Option String) (row_id event : ℕ) (s : Settlement) (r : UsageEvent)
    → in_turn user turn row_id (settle_row event s r) ≡ in_turn user turn row_id r
unfolding in_turn
settled-in_turn user none row_id event s r = ground arith
settled-in_turn user (some turn) row_id event s r = ground arith

pub settled-is_open :
    (a b : ℕ) (s : Settlement) (r : UsageEvent) → a ≢ b → is_open b (settle_row a s r) ≡ is_open b r
settled-is_open a b s r ne = ground arith

-- A billing reads of the first row what a settlement does not write.
pub bill_turn-settled :
    (db : Db) (user : ℕ) (turn : String) (first : UsageEvent) (event : ℕ) (s : Settlement) (d : ℕ)
    → bill_turn db user turn (settle_row event s first) d ≡ bill_turn db user turn first d
unfolding charge_first
bill_turn-settled db user turn first event s d = elim (Bool-cases (is_open event first)) [
  | inl e ↦ rw e
  | inr e ↦ rw e
]

pub settled_billed :
    (event : ℕ) (s : Settlement) (r : UsageEvent)
    → (settle_row event s r).billed_uses ≡ r.billed_uses
settled_billed event s r = ground arith

pub desired_busy :
    (rows : List UsageEvent) (billed : ℕ) (ladder : List ℕ)
    → any (λ r. is_reserved r.status) rows ≡ true
    → desired_charge rows billed ladder ≡ max billed 1
unfolding desired_charge
desired_busy rows billed ladder h = rw h
