-- ===== src/Billing/Settle.antt =====
-- server/src/billing/store.rs: `settle` and the recomputation of what a turn costs.
pub mod Once
use mistake_agent.Prelude.{
  ℕ, ◌+◌, ◌-◌, ◌%◌, max, min, Option, none, some, Bool, false, not, ◌&&◌, List, [], ◌∷◌, String,
  ◌==◌, if◌then◌else◌, any, find, retain, update_where, sum_by,
}
use mistake_agent.Billing.Ladder.{billed_uses}
use mistake_agent.Billing.Model.{Settlement}
use mistake_agent.Billing.Tables.{
  UsageEvent, Db, is_reserved, is_ok, is_aborted, same_turn, set_used,
}

abbrev pub i32_max : ℕ
i32_max = 2147483647

-- `i32::try_from(n).unwrap_or(i32::MAX)`.
abbrev pub to_i32 : ℕ → ℕ
to_i32 n = min n i32_max

-- `as_i64`.
abbrev pub as_i64 : ℕ → ℕ
as_i64 n = min n 9223372036854775807

-- The rows that `recompute_turn_charge` reads: the turn, or the one row where there is no turn.
unfoldable pub in_turn : ℕ → Option String → ℕ → UsageEvent → Bool
unfolding same_turn
in_turn user none row_id r = r.user_id == user && r.id == row_id
in_turn user (some turn) row_id r = r.user_id == user && same_turn turn r.turn_id

abbrev pub or_zero : Option ℕ → ℕ
or_zero none = 0
or_zero (some n) = n

abbrev pub row_tokens : UsageEvent → ℕ
row_tokens r = or_zero r.input_tokens + or_zero r.output_tokens

-- The u64 sum of the turn's tokens.
unfoldable pub turn_tokens : List UsageEvent → ℕ
turn_tokens rows = sum_by row_tokens rows % 18446744073709551616

-- What the turn costs, `billed` being what its first row has at present.
unfoldable pub desired_charge : List UsageEvent → ℕ → List ℕ → ℕ
unfolding turn_tokens
desired_charge rows billed ladder =
    if any (λ r. is_reserved r.status) rows
    then max billed 1
    else if any (λ r. is_ok r.status) rows
    then to_i32 (billed_uses (turn_tokens rows) ladder)
    else if any (λ r. is_aborted r.status) rows
    then max (to_i32 (billed_uses (turn_tokens rows) ladder)) 1
    else 0

-- `UPDATE usage_events SET billed_uses = $2 WHERE id = $1`.
abbrev pub set_billed : ℕ → ℕ → List UsageEvent → List UsageEvent
set_billed id billed = update_where (λ r. r.id == id) (λ r. record r { billed_uses = billed })

-- `GREATEST(used_uses + (desired - billed), 0)`: `-` on ℕ stops at 0.
abbrev pub refund : Option ℕ → ℕ → ℕ → Db → Db
refund none desired billed db = db
refund (some entitlement) desired billed db =
    set_used entitlement (λ used. (used + desired) - billed) db

unfoldable pub charge_first : Db → UsageEvent → ℕ → Db
unfolding set_used
charge_first db first desired =
    if first.billed_uses == desired
    then db
    else refund first.entitlement_id desired first.billed_uses
        (record db { usage_events = set_billed first.id desired db.usage_events })

-- The last statement: the other rows of the turn are free.
unfoldable pub is_extra : ℕ → Option String → ℕ → UsageEvent → Bool
unfolding same_turn
is_extra user none first_id r = false
is_extra user (some turn) first_id r =
    r.user_id == user
    && not (r.id == first_id)
    && not (r.billed_uses == 0)
    && same_turn turn r.turn_id

unfoldable pub clear_extra : Db → ℕ → Option String → ℕ → Db
unfolding is_extra
clear_extra db user turn first_id = record db {
  usage_events =
      update_where (is_extra user turn first_id) (λ r. record r { billed_uses = 0 })
        db.usage_events;
}

abbrev pub recompute_rows : Db → ℕ → Option String → List ℕ → List UsageEvent → ℕ × Db
recompute_rows db user turn ladder [] = (0, db)
recompute_rows db user turn ladder (first ∷ rest) =
    let desired = desired_charge (first ∷ rest) first.billed_uses ladder in
    (desired, clear_extra (charge_first db first desired) user turn first.id)

unfoldable pub recompute_turn_charge : Db → ℕ → Option String → ℕ → List ℕ → ℕ × Db
unfolding in_turn desired_charge charge_first clear_extra
recompute_turn_charge db user turn row_id ladder =
    recompute_rows db user turn ladder (retain (in_turn user turn row_id) db.usage_events)

-- The reserved row with this id; `id` is the primary key.
abbrev pub is_open : ℕ → UsageEvent → Bool
is_open event r = r.id == event && is_reserved r.status

abbrev pub settled : Settlement → UsageEvent → UsageEvent
settled s r = record r {
  input_tokens = some (as_i64 s.usage.input_total);
  cached_tokens = some (as_i64 s.usage.cached);
  output_tokens = some (as_i64 s.usage.output);
  reasoning_tokens = some (as_i64 s.usage.reasoning);
  latency_ms = some s.latency_ms;
  status = s.status;
}

unfoldable pub write_settlement : Db → ℕ → Settlement → Db
write_settlement db event s = record db {
  usage_events = update_where (is_open event) (settled s) db.usage_events;
}

unfoldable pub settle : Db → ℕ → Settlement → List ℕ → Option ℕ × Db
unfolding recompute_turn_charge write_settlement
settle db event s ladder = elim (find (is_open event) db.usage_events) [
  | none ↦ (none, db)
  | some row ↦
      let (charged, db') =
        recompute_turn_charge (write_settlement db event s) row.user_id row.turn_id event ladder in
      (some charged, db')
]
