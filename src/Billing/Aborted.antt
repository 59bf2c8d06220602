-- ===== src/Billing/Aborted.antt =====
-- What an aborted request costs its turn (server/src/billing/store.rs).
use mistake_agent.Prelude.{
  ℕ, ◌≤◌, ◌≡◌, refl, Option, none, some, Bool, true, List, [], ◌∷◌, arith, ==_refl, str_eq_iff,
  String, any, find, find-some, retain, update_where, Bool-cases, inl, inr,
}
use mistake_agent.Billing.Ladder.{billed_uses_mono}
use mistake_agent.Billing.Model.{Settlement}
use mistake_agent.Billing.Tables.{UsageEvent, Db, is_reserved, is_ok, is_aborted, same_turn}
use mistake_agent.Billing.Settle.{
  is_open, settled, write_settlement, in_turn, desired_charge, turn_tokens, recompute_rows,
  recompute_turn_charge, settle,
}

-- Where a row of the turn is aborted, the turn costs one use at least.
desired_charge-aborted :
    (rows : List UsageEvent) (billed : ℕ) (ladder : List ℕ)
    → any (λ r. is_aborted r.status) rows ≡ true
    → 1 ≤ desired_charge rows billed ladder
unfolding desired_charge
desired_charge-aborted rows billed ladder h =
    let least = (billed_uses_mono (turn_tokens rows) (turn_tokens rows) ladder (omega arith)).0 in
    elim (Bool-cases (any (λ r. is_reserved r.status) rows)) [
      | inl busy ↦ rw busy (omega arith)
      | inr idle ↦ rw idle (elim (Bool-cases (any (λ r. is_ok r.status) rows)) [
        | inl good ↦ rw good (omega (arith, least))
        | inr bad ↦ rw (bad, h) (omega arith)
      ])
    ]

recompute_rows-aborted :
    (db : Db) (user : ℕ) (turn : Option String) (ladder : List ℕ) (rows : List UsageEvent)
    → any (λ r. is_aborted r.status) rows ≡ true
    → 1 ≤ (recompute_rows db user turn ladder rows).0
recompute_rows-aborted db user turn ladder [] h = absurd (cc h)
recompute_rows-aborted db user turn ladder (first ∷ rest) h =
    desired_charge-aborted (first ∷ rest) first.billed_uses ladder h

-- The row that was open is there as settled, among the rows of its turn.
settled_there :
    (event : ℕ) (s : Settlement) (turn : UsageEvent → Bool) (rows : List UsageEvent)
    {row : UsageEvent}
    → is_aborted s.status ≡ true
    → find (is_open event) rows ≡ some row
    → turn (settled s row) ≡ true
    → any (λ r. is_aborted r.status) (retain turn (update_where (is_open event) (settled s) rows))
      ≡ true
settled_there event s turn [] a h t = absurd (cc h)
settled_there event s turn (x ∷ rows) {row = row} a h t = elim (Bool-cases (is_open event x)) [
  | inl o ↦
      let q : some x ≡ some row = rw o at h in
      let same : x ≡ row = cc q in rw (same, rw same at o, t, a) refl
  | inr o ↦ rw o (elim (Bool-cases (turn x)) [
    | inl mine ↦ rw mine (
        let rest = settled_there event s turn rows a (rw o at h) t in
        elim (Bool-cases (is_aborted x.status)) [ inl y ↦ rw y refl | inr n ↦ rw n rest ])
    | inr other ↦ rw other (settled_there event s turn rows a (rw o at h) t)
  ])
]

own_turn :
    (event : ℕ) (s : Settlement) (row : UsageEvent)
    → is_open event row ≡ true
    → in_turn row.user_id row.turn_id event (settled s row) ≡ true
unfolding in_turn same_turn
own_turn event s row o = by_turn row.turn_id refl
  where
    by_turn :
        (turn : Option String)
        → row.turn_id ≡ turn
        → in_turn row.user_id turn event (settled s row) ≡ true
    by_turn none e = ground arith
    by_turn (some t) e = rw (e, ==_refl row.user_id, (str_eq_iff t t).1 refl) refl

-- The settlement of an open row as aborted charges its turn one use at least, whatever number of
-- uses the settlement itself asks for.
pub settle-aborted :
    (db : Db) (event : ℕ) (s : Settlement) (ladder : List ℕ) (row : UsageEvent)
    → find (is_open event) db.usage_events ≡ some row
    → is_aborted s.status ≡ true
    → (n : ℕ) × ((settle db event s ladder).0 ≡ some n) × (1 ≤ n)
unfolding settle write_settlement recompute_turn_charge
settle-aborted db event s ladder row e a =
    let open_row = find-some (is_open event) db.usage_events e in
    rw (e, settle)
      (
        _,
        refl,
        recompute_rows-aborted (write_settlement db event s) row.user_id row.turn_id ladder
            (retain (in_turn row.user_id row.turn_id event)
              (update_where (is_open event) (settled s) db.usage_events))
            (settled_there event s (in_turn row.user_id row.turn_id event) db.usage_events a e
              (own_turn event s row open_row)),
      )
