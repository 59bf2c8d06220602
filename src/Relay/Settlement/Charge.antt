-- ===== src/Relay/Settlement/Charge.antt =====
-- What a relayed stream costs by its settlement (server/src/relay/handlers.rs, sse.rs).
use mistake_agent.Prelude.{
  ℕ, ◌≤◌, ◌≡◌, ◌⊎◌, refl, Option, none, some, true, false, List, arith, find, inl, inr, Bool-cases,
  subst, sym, ◌∙◌,
}
use mistake_agent.Billing.Ladder.{billed_uses_mono}
use mistake_agent.Billing.Model.{TokenUsage, billable_tokens, Settlement}
use mistake_agent.Billing.Tables.{Db, UsageEvent}
use mistake_agent.Billing.Settle.{is_open, settle}
use mistake_agent.Billing.Aborted.{settle-aborted}
use mistake_agent.Relay.Json.{Json}
use mistake_agent.Relay.Observe.{ProbeResult, no_result}
use mistake_agent.Relay.Probe.{Protocol, new_probe, finish}
use mistake_agent.Relay.Probe.Chunks.{push_all}
use mistake_agent.Relay.Probe.Silence.{IsHonest, push_all-IsHonest}
use mistake_agent.Relay.Settlement.{is_failed, settle_usage, settlement_for}

-- A stream is free if it failed or had no event, and costs one use at least otherwise.
abbrev pub Cost : ProbeResult → ℕ → Type 0
Cost r billed =
    ((is_failed r.terminal ≡ true) × (billed ≡ 0))
    ⊎ ((is_failed r.terminal ≡ false) × (r.saw_event ≡ false) × (billed ≡ 0))
    ⊎ ((is_failed r.terminal ≡ false) × (r.saw_event ≡ true) × (1 ≤ billed))

settle_usage-Cost :
    (r : ProbeResult) (o : Option TokenUsage) (ladder : List ℕ) (elapsed : ℕ)
    → is_failed r.terminal ≡ false
    → r.usage ≡ o
    → IsHonest r
    → Cost r (settle_usage o r.saw_event ladder elapsed).billed_uses
settle_usage-Cost r none ladder elapsed f u (inl seen) = inr (inr (f, seen, rw seen (omega arith)))
settle_usage-Cost r (some usage) ladder elapsed f u (inl seen) =
    let total = billable_tokens usage in
    inr (inr (f, seen, (billed_uses_mono total total ladder (omega arith)).0))
settle_usage-Cost r none ladder elapsed f u (inr silent) =
    let unseen : r.saw_event ≡ false = rw silent refl in inr (inl (f, unseen, rw unseen refl))
settle_usage-Cost r (some usage) ladder elapsed f u (inr silent) =
    let unknown : r.usage ≡ none = rw silent refl in absurd (cc (sym unknown ∙ u))

module _ (J : Json) where
  -- The settlement of a relayed stream, whatever its bytes and chunks, bills nothing where the
  -- upstream reported a failure or sent no event at all, and one use at least in every other case.
  pub settlement_for-Cost :
      (protocol : Protocol) (chunks : List (List ℕ)) (ladder : List ℕ) (elapsed : ℕ)
      → let result = finish (push_all J (new_probe protocol) chunks) in
        Cost result (settlement_for result ladder elapsed).billed_uses
  unfolding settlement_for
  settlement_for-Cost protocol chunks ladder elapsed =
      let result = finish (push_all J (new_probe protocol) chunks) in
      elim (Bool-cases (is_failed result.terminal)) [
        | inl t ↦ inl (t, rw t refl)
        | inr f ↦
            subst (λ (x : Settlement). Cost result x.billed_uses)
              (let same : settle_usage result.usage result.saw_event ladder elapsed
                    ≡ settlement_for result ladder elapsed =
                  rw (f, settlement_for) refl in
                same)
              (settle_usage-Cost result result.usage ladder elapsed f refl
                (push_all-IsHonest J protocol chunks))
      ]

-- An open row whose stream had no event and did not fail: the settlement asks for no use, as
-- `settlement_for` says it should, and yet the store charges the turn one use at least.
pub silent-charged :
    (db : Db) (event : ℕ) (ladder : List ℕ) (elapsed : ℕ) (row : UsageEvent)
    → find (is_open event) db.usage_events ≡ some row
    → let s = settlement_for no_result ladder elapsed in
      (s.billed_uses ≡ 0) × (n : ℕ) × ((settle db event s ladder).0 ≡ some n) × (1 ≤ n)
unfolding settlement_for
silent-charged db event ladder elapsed row e =
    let (n, charged, least) =
      settle-aborted db event (settlement_for no_result ladder elapsed) ladder row e refl in
    (refl, n, charged, least)
