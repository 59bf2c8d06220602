-- ===== src/Billing/Reserve.antt =====
-- server/src/billing/store.rs: `reserve`, which decides on a request and writes its row.
pub mod Effect
pub mod Denials
use mistake_agent.Prelude.{
  ℕ, suc, ◌+◌, Option, none, some, true, false, ◌&&◌, List, [], ◌∷◌, ◌++◌, String, ltb, ◌==◌,
  if◌then◌else◌, length, retain,
}
use mistake_agent.Prelude.Results.{Result, ok, ◌>>=◌}
use mistake_agent.Billing.Model.{Plan, Entitlement, QuotaDecision, no_entitlement, reserved}
use mistake_agent.Billing.Quota.{decide}
use mistake_agent.Billing.Tables.{
  UsageEvent, Db, Request, ReserveOutcome, granted, denied, StoreError, turn_window,
  turn_max_requests, recent, same_turn, set_used,
}
use mistake_agent.Billing.Reads.{find_entitlement, window_usage, used_in}

-- The rows from which `TurnHead` is aggregated.
unfoldable pub turn_rows : Db → ℕ → ℕ → String → List UsageEvent
turn_rows db now user turn =
    retain
      (λ r. r.user_id == user && same_turn turn r.turn_id && recent now turn_window r.created_at)
      db.usage_events

-- The entitlement under which the request continues its turn for free, if it may.
abbrev pub free_head : List UsageEvent → Option ℕ
free_head [] = none
free_head (first ∷ rest) =
    if ltb (length (first ∷ rest)) turn_max_requests then first.entitlement_id else none

unfoldable pub free_turn : Db → ℕ → ℕ → Option String → Option ℕ
free_turn db now user none = none
free_turn db now user (some turn) = free_head (turn_rows db now user turn)

-- `INSERT INTO usage_events …`: the new row, and the table with it.
unfoldable pub new_event : Db → ℕ → Request → ℕ → ℕ → UsageEvent
new_event db now request entitlement billed = record {
  id = db.next_event_id;
  user_id = request.user_id;
  entitlement_id = some entitlement;
  token_id = request.token_id;
  request_id = request.request_id;
  turn_id = request.turn_id;
  protocol = request.protocol;
  model = request.model;
  input_tokens = none;
  cached_tokens = none;
  output_tokens = none;
  reasoning_tokens = none;
  billed_uses = billed;
  latency_ms = none;
  status = reserved;
  created_at = now;
}

unfoldable pub insert_event : Db → ℕ → Request → ℕ → ℕ → Db
unfolding new_event
insert_event db now request entitlement billed = record db {
  usage_events = db.usage_events ++ (new_event db now request entitlement billed ∷ []);
  next_event_id = suc db.next_event_id;
}

-- The tail of `reserve`, once an entitlement and its plan are found.
abbrev pub charge_decided : Db → ℕ → Request → QuotaDecision → ReserveOutcome × Db
charge_decided db now request (QuotaDecision.denied reason) = (denied reason, db)
charge_decided db now request (QuotaDecision.allowed g) = (
  granted db.next_event_id g.entitlement.id true,
  insert_event (set_used g.entitlement.id (λ n. n + 1) db) now request g.entitlement.id 1,
)

unfoldable pub charge : Db → ℕ → Request → Entitlement → Plan → ReserveOutcome × Db
unfolding insert_event set_used window_usage used_in
charge db now request entitlement plan =
    charge_decided db now request (decide plan entitlement (window_usage db now request.user_id))

abbrev pub charge_found : Db → ℕ → Request → Option (Entitlement × Plan) → ReserveOutcome × Db
charge_found db now request none = (denied no_entitlement, db)
charge_found db now request (some (entitlement, plan)) = charge db now request entitlement plan

unfoldable pub reserve : Db → ℕ → Request → Result StoreError (ReserveOutcome × Db)
unfolding insert_event find_entitlement free_turn
reserve db now request = elim (free_turn db now request.user_id request.turn_id) [
  | some entitlement ↦
      ok (granted db.next_event_id entitlement false, insert_event db now request entitlement 0)
  | none ↦
      find_entitlement db now request.user_id >>= λ found. ok (charge_found db now request found)
]
