-- ===== src/Billing/Order/Flight.antt =====
-- A turn with a request in flight (server/src/billing/store.rs).
use mistake_agent.Prelude.{
  ℕ, ◌≡◌, ◌≢◌, some, true, List, ◌∷◌, arith, max, find, find-some, find-update_where, retain,
  retain-update_where, any-retain, update_where, subst, ap, ◌∙◌, String, any,
}
use mistake_agent.Billing.Model.{Settlement}
use mistake_agent.Billing.Tables.{UsageEvent, Db, is_reserved}
use mistake_agent.Billing.Settle.{
  is_open, settled, write_settlement, in_turn, desired_charge, recompute_rows,
  recompute_turn_charge,
}
use mistake_agent.Billing.Order.Commute.{
  bill_turn, settle_row, settled-in_turn, settled-is_open, bill_turn-settled, settled_billed,
  desired_busy,
}

-- While the row `b` is in flight, settling `a` bills the turn what its first row was billed, and
-- one use at least.
module _ (db : Db) (user : ℕ) (turn : String) (ladder : List ℕ) {first rb : UsageEvent}
    {rest : List UsageEvent}
    (rows : retain (in_turn user (some turn) 0) db.usage_events ≡ first ∷ rest) (a b row_id : ℕ)
    (s : Settlement) (ne : a ≢ b) (found : find (is_open b) db.usage_events ≡ some rb)
    (mine : in_turn user (some turn) 0 rb ≡ true) where
  pub settled_rows :
      retain (in_turn user (some turn) row_id) (write_settlement db a s).usage_events
      ≡ settle_row a s first ∷ update_where (is_open a) (settled s) rest
  unfolding write_settlement in_turn
  settled_rows =
      retain-update_where (in_turn user (some turn) row_id) (is_open a) (settled s)
        (settled-in_turn user (some turn) row_id a s) db.usage_events
      ∙ ap (update_where (is_open a) (settled s)) rows

  pub still_open :
      find (is_open b) (write_settlement db a s).usage_events ≡ some (settle_row a s rb)
  unfolding write_settlement
  still_open =
      find-update_where (is_open b) (is_open a) (settled s) (λ r. settled-is_open a b s r ne)
        db.usage_events found

  pub busy :
      any
        (λ r. is_reserved r.status)
        (settle_row a s first ∷ update_where (is_open a) (settled s) rest)
      ≡ true
  unfolding in_turn
  busy =
      let open_now = find-some (is_open b) (write_settlement db a s).usage_events still_open in
      let reserved_now : is_reserved (settle_row a s rb).status ≡ true =
        both (settle_row a s rb) open_now in
      subst (λ l. any (λ r. is_reserved r.status) l ≡ true) settled_rows
        (any-retain (is_open b) (in_turn user (some turn) row_id) (λ r. is_reserved r.status)
          (write_settlement db a s).usage_events still_open
          (settled-in_turn user (some turn) row_id a s rb ∙ mine) reserved_now)
    where
      both : (r : UsageEvent) → is_open b r ≡ true → is_reserved r.status ≡ true
      both r h = ground arith

  pub in_flight : recompute_turn_charge (write_settlement db a s) user (some turn) row_id ladder ≡ (
    max first.billed_uses 1,
    bill_turn (write_settlement db a s) user turn first (max first.billed_uses 1),
  )
  unfolding recompute_turn_charge
  in_flight =
      ap (recompute_rows (write_settlement db a s) user (some turn) ladder) settled_rows
      ∙ (λ i. (
        figure i,
        bill_turn (write_settlement db a s) user turn (settle_row a s first) (figure i),
      ))
      ∙ ap (λ (x : Db). (max first.billed_uses 1, x))
          (bill_turn-settled (write_settlement db a s) user turn first a s
            (max first.billed_uses 1))
    where
      figure :
          desired_charge
            (settle_row a s first ∷ update_where (is_open a) (settled s) rest)
            (settle_row a s first).billed_uses
            ladder
          ≡ max first.billed_uses 1
      figure =
          desired_busy (settle_row a s first ∷ update_where (is_open a) (settled s) rest)
            (settle_row a s first).billed_uses ladder busy
          ∙ ap (λ n. max n 1) (settled_billed a s first)
