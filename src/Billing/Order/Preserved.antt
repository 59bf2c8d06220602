-- ===== src/Billing/Order/Preserved.antt =====
-- What a billing keeps of an open row (server/src/billing/store.rs).
use mistake_agent.Prelude.{
  ℕ, ◌≡◌, ◌≢◌, refl, some, Bool, true, false, List, arith, ◌==◌, if◌then◌else◌, find,
  find-update_where, update_where, subst, sym, ◌∙◌, String,
}
use mistake_agent.Billing.Model.{Settlement}
use mistake_agent.Billing.Tables.{UsageEvent, Db}
use mistake_agent.Billing.Settle.{
  is_open, settled, write_settlement, is_extra, set_billed, charge_first, clear_extra,
}
use mistake_agent.Billing.Settle.Once.{charge_first_events}
use mistake_agent.Billing.Order.Commute.{bill_turn, settle_row, settled-is_open}

abbrev pub Kept : ℕ → UsageEvent → List UsageEvent → Type 0
Kept b r rows =
    (r' : UsageEvent) × (find (is_open b) rows ≡ some r')
    × (r'.user_id ≡ r.user_id)
    × (r'.turn_id ≡ r.turn_id)

-- An update of the billed uses neither closes a row nor moves it to another turn.
pub update-Kept :
    (b d : ℕ) (p : UsageEvent → Bool) (r : UsageEvent) (rows : List UsageEvent)
    → Kept b r rows
    → Kept b r (update_where p (λ x. record x { billed_uses = d }) rows)
update-Kept b d p r rows (r', found, u, t) = (
  billed (p r'),
  find-update_where (is_open b) p (λ x. record x { billed_uses = d }) (λ x. same (p x) x) rows
      found,
  same_user (p r') ∙ u,
  same_turn_id (p r') ∙ t,
)
  where
    billed : Bool → UsageEvent
    billed c = if c then record r' { billed_uses = d } else r'

    same :
        (c : Bool) (x : UsageEvent)
        → is_open b (if c then record x { billed_uses = d } else x) ≡ is_open b x
    same true x = refl
    same false x = refl

    same_user : (c : Bool) → (billed c).user_id ≡ r'.user_id
    same_user true = refl
    same_user false = refl

    same_turn_id : (c : Bool) → (billed c).turn_id ≡ r'.turn_id
    same_turn_id true = refl
    same_turn_id false = refl

pub bill_turn-Kept :
    (db : Db) (user : ℕ) (turn : String) (first : UsageEvent) (d b : ℕ) (r : UsageEvent)
    → Kept b r db.usage_events
    → Kept b r (bill_turn db user turn first d).usage_events
unfolding clear_extra
bill_turn-Kept db user turn first d b r k =
    update-Kept b 0 (is_extra user (some turn) first.id) r (charge_first db first d).usage_events
      (subst (Kept b r) (sym (charge_first_events db first d)) (charged (first.billed_uses == d)))
  where
    charged :
        (c : Bool) → Kept b r (if c then db.usage_events else set_billed first.id d db.usage_events)
    charged true = k
    charged false = update-Kept b d (λ x. x.id == first.id) r db.usage_events k

pub settled-Kept :
    (db : Db) (a b : ℕ) (s : Settlement) (r : UsageEvent)
    → a ≢ b
    → find (is_open b) db.usage_events ≡ some r
    → Kept b r (write_settlement db a s).usage_events
unfolding write_settlement
settled-Kept db a b s r ne found = (
  settle_row a s r,
  find-update_where (is_open b) (is_open a) (settled s) (λ x. settled-is_open a b s x ne)
      db.usage_events found,
  ground arith,
  ground arith,
)
