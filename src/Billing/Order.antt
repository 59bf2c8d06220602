-- ===== src/Billing/Order.antt =====
-- The order in which the requests of a turn settle does not matter (server/src/billing/store.rs).
pub mod Commute
pub mod Flight
pub mod Preserved
use mistake_agent.Prelude.{
  ℕ, ◌≡◌, ◌≢◌, refl, Option, none, some, Bool, true, false, List, [], ◌∷◌, arith, ◌==◌, ==_refl,
  str_eq_iff, max, if◌then◌else◌, find, find-some, find-update_where, retain, retain-update_where,
  any-retain, update_where, update_where_comm, update_where_swap, Bool-cases, inl, inr, subst, ap,
  sym, ◌∙◌, String, any,
}
use mistake_agent.Billing.Model.{Settlement}
use mistake_agent.Billing.Tables.{UsageEvent, Db, is_reserved, set_used, same_turn}
use mistake_agent.Billing.Settle.{
  is_open, settled, write_settlement, in_turn, is_extra, set_billed, refund, charge_first,
  clear_extra, desired_charge, recompute_rows, recompute_turn_charge, settle,
}
use mistake_agent.Billing.Settle.Once.{charge_first_events}
use mistake_agent.Billing.Order.Commute.{
  bill_turn, settle_row, write_refund, write_billed, write_cleared, write_clear, write_charge,
  write_bill_turn, write_write, settled-in_turn, settled-is_open, bill_turn-settled, settled_billed,
  desired_busy,
}
use mistake_agent.Billing.Order.Flight.{settled_rows, still_open, busy, in_flight}
use mistake_agent.Billing.Order.Preserved.{Kept, update-Kept, bill_turn-Kept, settled-Kept}

abbrev pair : ℕ × Db → Option ℕ × Db
pair (charged, db) = (some charged, db)

settle_open :
    (db : Db) (event : ℕ) (s : Settlement) (ladder : List ℕ) (r : UsageEvent)
    → find (is_open event) db.usage_events ≡ some r
    → settle db event s ladder
      ≡ pair (recompute_turn_charge (write_settlement db event s) r.user_id r.turn_id event ladder)
unfolding settle
settle_open db event s ladder r e = rw (e, settle)

in_turn_of :
    (user : ℕ) (turn : String) (r : UsageEvent)
    → r.user_id ≡ user
    → r.turn_id ≡ some turn
    → in_turn user (some turn) 0 r ≡ true
in_turn_of user turn r u t =
    unfold in_turn same_turn in ground (arith, str_eq_iff turn turn, ==_refl user)

-- A settlement while another row of the turn is in flight.
first_settle :
    (db : Db) (user : ℕ) (turn : String) (ladder : List ℕ) (first ra rb : UsageEvent)
    (rest : List UsageEvent)
    → retain (in_turn user (some turn) 0) db.usage_events ≡ first ∷ rest
    → (a b : ℕ) (sa : Settlement) → a ≢ b
    → find (is_open a) db.usage_events ≡ some ra
    → ra.user_id ≡ user
    → ra.turn_id ≡ some turn
    → find (is_open b) db.usage_events ≡ some rb
    → rb.user_id ≡ user
    → rb.turn_id ≡ some turn
    → settle db a sa ladder
      ≡ pair (
        max first.billed_uses 1,
        bill_turn (write_settlement db a sa) user turn first (max first.billed_uses 1),
      )
first_settle db user turn ladder first ra rb rest rows a b sa ne fa ua ta fb ub tb =
    let w = write_settlement db a sa in
    settle_open db a sa ladder ra fa
    ∙ (λ i. pair (recompute_turn_charge w (ua i) (ta i) a ladder))
    ∙ ap pair (in_flight db user turn ladder rows a b a sa ne fb (in_turn_of user turn rb ub tb))

-- The second of two settlements of a turn, seen from the start.
second_settle :
    (db : Db) (user : ℕ) (turn : String) (ladder : List ℕ) (first ra rb : UsageEvent)
    (rest : List UsageEvent)
    → retain (in_turn user (some turn) 0) db.usage_events ≡ first ∷ rest
    → (a b : ℕ) (sa sb : Settlement) → a ≢ b
    → find (is_open a) db.usage_events ≡ some ra
    → ra.user_id ≡ user
    → ra.turn_id ≡ some turn
    → find (is_open b) db.usage_events ≡ some rb
    → rb.user_id ≡ user
    → rb.turn_id ≡ some turn
    → settle (settle db a sa ladder).1 b sb ladder
      ≡ pair (
          recompute_turn_charge
            (bill_turn
              (write_settlement (write_settlement db a sa) b sb)
              user
              turn
              first
              (max first.billed_uses 1))
            user
            (some turn)
            b
            ladder)
second_settle db user turn ladder first ra rb rest rows a b sa sb ne fa ua ta fb ub tb =
    let m = max first.billed_uses 1 in
    let w = write_settlement db a sa in
    let once = first_settle db user turn ladder first ra rb rest rows a b sa ne fa ua ta fb ub tb in
    let (r', found, u, t) =
      bill_turn-Kept w user turn first m b rb (settled-Kept db a b sa rb ne fb) in
    ap (λ (x : Option ℕ × Db). settle x.1 b sb ladder) once
    ∙ settle_open (bill_turn w user turn first m) b sb ladder r' found
    ∙ (λ i. pair (
        recompute_turn_charge (write_bill_turn w b sb user turn first m i) ((u ∙ ub) i) ((t ∙ tb) i)
          b ladder))

recompute_same :
    (db : Db) (user : ℕ) (turn : String) (a b : ℕ) (ladder : List ℕ)
    → recompute_turn_charge db user (some turn) a ladder
      ≡ recompute_turn_charge db user (some turn) b ladder
unfolding recompute_turn_charge in_turn
recompute_same db user turn a b ladder = refl

-- Two requests in flight in one turn of one user may settle in either order, the second transaction
-- beginning after the first has committed: the charge reported by the second and all tables end up
-- the same. Each of the two, settled with the other still in flight, reports the same charge,
-- whatever tokens either records.
pub settle_comm :
    (db : Db) (user : ℕ) (turn : String) (ladder : List ℕ) (ra rb : UsageEvent) (a b : ℕ)
    (sa sb : Settlement)
    → a ≢ b
    → find (is_open a) db.usage_events ≡ some ra
    → ra.user_id ≡ user
    → ra.turn_id ≡ some turn
    → find (is_open b) db.usage_events ≡ some rb
    → rb.user_id ≡ user
    → rb.turn_id ≡ some turn
    → (settle (settle db a sa ladder).1 b sb ladder ≡ settle (settle db b sb ladder).1 a sa ladder)
      × ((settle db a sa ladder).0 ≡ (settle db b sb ladder).0)
settle_comm db user turn ladder ra rb a b sa sb ne fa ua ta fb ub tb =
    by_rows (retain (in_turn user (some turn) 0) db.usage_events) refl
  where
    mine : in_turn user (some turn) 0 ra ≡ true
    mine = in_turn_of user turn ra ua ta

    by_rows :
        (rows : List UsageEvent)
        → retain (in_turn user (some turn) 0) db.usage_events ≡ rows
        → (settle (settle db a sa ladder).1 b sb ladder
            ≡ settle (settle db b sb ladder).1 a sa ladder)
          × ((settle db a sa ladder).0 ≡ (settle db b sb ladder).0)
    by_rows [] rows =
        let some_row =
          any-retain (is_open a) (in_turn user (some turn) 0) (λ r. true) db.usage_events fa mine
            refl in
        absurd (let no : false ≡ true = rw rows at some_row in cc)
    by_rows (first ∷ rest) rows =
        let m = max first.billed_uses 1 in
        (
          second_settle db user turn ladder first ra rb rest rows a b sa sb ne fa ua ta fb ub tb
              ∙ (λ i. pair (
                  recompute_turn_charge
                    (bill_turn (write_write db a b sa sb ne i) user turn first m) user (some turn) b
                    ladder))
              ∙ ap pair (
                  recompute_same
                    (bill_turn (write_settlement (write_settlement db b sb) a sa) user turn first m)
                    user turn b a ladder)
              ∙ sym (
                  second_settle db user turn ladder first rb ra rest rows b a sb sa
                    (λ e. ne (sym e)) fb ub tb fa ua ta),
          ap (λ (x : Option ℕ × Db). x.0)
                (first_settle db user turn ladder first ra rb rest rows a b sa ne fa ua ta fb ub tb)
              ∙ sym (
                  ap (λ (x : Option ℕ × Db). x.0)
                    (first_settle db user turn ladder first rb ra rest rows b a sb (λ e. ne (sym e))
                      fb ub tb fa ua ta)),
        )
