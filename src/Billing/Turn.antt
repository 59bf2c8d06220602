-- ===== src/Billing/Turn.antt =====
-- What a whole turn is billed after `recompute_turn_charge` (server/src/billing/store.rs).
use mistake_agent.Prelude.{
  ℕ, suc, ◌≡◌, refl, Option, none, some, Bool, true, false, List, [], ◌∷◌, arith, ◌==◌, ==_refl,
  if◌then◌else◌, find, find-retain, retain, update_where, update_where_none, sum_by, All,
  Bool-cases, inl, inr, subst, sym, ◌∙◌, String,
}
use mistake_agent.Billing.Tables.{UsageEvent, Db}
use mistake_agent.Billing.Rows.{Ascending, find-Ascending, Ascending-ne, set_billed-same}
use mistake_agent.Billing.Settle.{
  in_turn, is_extra, set_billed, charge_first, recompute_rows, recompute_turn_charge,
  desired_charge,
}
use mistake_agent.Billing.Settle.Once.{charge_first_events}

-- After the charge of its first row the table is the one with that row's figure set.
pub charge_first-set_billed :
    (lo d : ℕ) (p : UsageEvent → Bool) (db : Db) {first : UsageEvent}
    → Ascending lo db.usage_events
    → find p db.usage_events ≡ some first
    → (charge_first db first d).usage_events ≡ set_billed first.id d db.usage_events
charge_first-set_billed lo d p db {first} a h =
    charge_first_events db first d ∙ pick (first.billed_uses == d) refl
  where
    pick :
        (b : Bool)
        → (first.billed_uses == d) ≡ b
        → (if b then db.usage_events else set_billed first.id d db.usage_events)
          ≡ set_billed first.id d db.usage_events
    pick true e = sym (set_billed-same lo d p db.usage_events a h (ground arith))
    pick false e = refl

abbrev zeroed : UsageEvent → UsageEvent
zeroed r = record r { billed_uses = 0 }

-- What a row of the turn is billed.
abbrev pub turn_bill : ℕ → Option String → ℕ → UsageEvent → ℕ
turn_bill user turn row_id r = if in_turn user turn row_id r then r.billed_uses else 0

-- A later row of the turn is billed nothing, cleared or not.
cleared_bill :
    (user : ℕ) (turn : Option String) (row_id first : ℕ) (r : UsageEvent)
    → (turn ≡ none → row_id ≡ first)
    → (r.id == first) ≡ false
    → turn_bill user turn row_id (if is_extra user turn first r then zeroed r else r) ≡ 0
unfolding in_turn is_extra
cleared_bill user none row_id first r only other = ground (arith, only refl)
cleared_bill user (some turn) row_id first r only other = ground arith

first_bill :
    (user : ℕ) (turn : Option String) (row_id d : ℕ) (r : UsageEvent)
    → in_turn user turn row_id r ≡ true
    → let r' = record r { billed_uses = d } in
      turn_bill user turn row_id (if is_extra user turn r.id r' then zeroed r' else r') ≡ d
unfolding in_turn is_extra
first_bill user none row_id d r h = ground arith
first_bill user (some turn) row_id d r h = ground (arith, ==_refl r.id)

other_bill :
    (user : ℕ) (turn : Option String) (row_id first : ℕ) (r : UsageEvent)
    → in_turn user turn row_id r ≡ false
    → turn_bill user turn row_id (if is_extra user turn first r then zeroed r else r) ≡ 0
unfolding in_turn is_extra
other_bill user none row_id first r h = ground arith
other_bill user (some turn) row_id first r h = ground arith

single_row :
    (user : ℕ) (turn : Option String) (row_id : ℕ) (r : UsageEvent)
    → in_turn user turn row_id r ≡ true
    → turn ≡ none
    → row_id ≡ r.id
unfolding in_turn
single_row user none row_id r h e = ground arith
single_row user (some turn) row_id r h e = absurd (cc e)

module _ (user : ℕ) (turn : Option String) (row_id : ℕ) where
  later_bill :
      (first : ℕ) (rows : List UsageEvent)
      → (turn ≡ none → row_id ≡ first)
      → All (λ r. (r.id == first) ≡ false) rows
      → sum_by (turn_bill user turn row_id) (update_where (is_extra user turn first) zeroed rows)
        ≡ 0
  later_bill first [] only h = refl
  later_bill first (r ∷ rows) only h =
      omega (arith, cleared_bill user turn row_id first r only h.0, later_bill first rows only h.1)

  bill_at_head :
      (d : ℕ) (x : UsageEvent) (rows : List UsageEvent)
      → Ascending (suc x.id) rows
      → in_turn user turn row_id x ≡ true
      → sum_by
          (turn_bill user turn row_id)
          (update_where (is_extra user turn x.id) zeroed (set_billed x.id d (x ∷ rows)))
        ≡ d
  bill_at_head d x rows a t =
      let others = Ascending-ne (suc x.id) x.id rows (omega arith) a in
      rw
        (
          ==_refl x.id,
          update_where_none (λ r. r.id == x.id) (λ r. record r { billed_uses = d }) rows others,
        )
        (omega (
          arith,
          first_bill user turn row_id d x t,
          later_bill x.id rows (single_row user turn row_id x t) others,
        ))

  bill_of_turn :
      (lo d : ℕ) (rows : List UsageEvent) {first : UsageEvent}
      → Ascending lo rows
      → find (in_turn user turn row_id) rows ≡ some first
      → sum_by
          (turn_bill user turn row_id)
          (update_where (is_extra user turn first.id) zeroed (set_billed first.id d rows))
        ≡ d
  bill_of_turn lo d [] a h = absurd (cc h)
  bill_of_turn lo d (x ∷ rows) {first} a h = elim (Bool-cases (in_turn user turn row_id x)) [
    | inl t ↦
        let e : some x ≡ some first = rw t at h in
        let same : x ≡ first = cc e in
        subst
          (λ (f : UsageEvent).
            sum_by (turn_bill user turn row_id)
              (update_where (is_extra user turn f.id) zeroed (set_billed f.id d (x ∷ rows)))
            ≡ d)
          same (bill_at_head d x rows a.1 t)
    | inr f ↦
        let found : find (in_turn user turn row_id) rows ≡ some first = rw f at h in
        let later = find-Ascending (suc x.id) (in_turn user turn row_id) rows a.1 found in
        let other : (x.id == first.id) ≡ false = ground arith in
        rw other (
          omega (
            arith,
            other_bill user turn row_id first.id x f,
            bill_of_turn (suc x.id) d rows a.1 found,
          ))
  ]

  no_bill :
      (rows : List UsageEvent)
      → retain (in_turn user turn row_id) rows ≡ []
      → sum_by (turn_bill user turn row_id) rows ≡ 0
  no_bill [] h = refl
  no_bill (x ∷ rows) h = elim (Bool-cases (in_turn user turn row_id x)) [
    | inl t ↦ absurd (let e : x ∷ retain (in_turn user turn row_id) rows ≡ [] = rw t at h in cc)
    | inr f ↦ rw f (omega (arith, no_bill rows (rw f at h)))
  ]

-- After a recomputation the rows of the turn are together billed exactly the figure that is
-- reported, whatever they were billed before; the table is in the order of its ids.
pub recompute_turn_charge-bill :
    (db : Db) (lo user : ℕ) (turn : Option String) (row_id : ℕ) (ladder : List ℕ)
    → Ascending lo db.usage_events
    → let (charged, db') = recompute_turn_charge db user turn row_id ladder in
      sum_by (turn_bill user turn row_id) db'.usage_events ≡ charged
unfolding recompute_turn_charge
recompute_turn_charge-bill db lo user turn row_id ladder a =
    by_rows (retain (in_turn user turn row_id) db.usage_events) refl
  where
    by_rows :
        (rows : List UsageEvent)
        → retain (in_turn user turn row_id) db.usage_events ≡ rows
        → let (charged, db') = recompute_rows db user turn ladder rows in
          sum_by (turn_bill user turn row_id) db'.usage_events ≡ charged
    by_rows [] e = no_bill user turn row_id db.usage_events e
    by_rows (first ∷ rest) e =
        let found = find-retain (in_turn user turn row_id) db.usage_events e in
        let d = desired_charge (first ∷ rest) first.billed_uses ladder in
        rw (charge_first-set_billed lo d (in_turn user turn row_id) db a found)
          (bill_of_turn user turn row_id lo d db.usage_events a found)
