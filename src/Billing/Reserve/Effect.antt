-- ===== src/Billing/Reserve/Effect.antt =====
-- What `reserve` does on each of its branches (server/src/billing/store.rs).
use mistake_agent.Prelude.{
  String, ℕ, ◌+◌, ◌≤◌, ◌<◌, ◌≡◌, refl, subst, Option, none, some, true, false, List, [], ◌∷◌, arith,
  ==_refl, length, sum_by-append, Option-cases, inl, inr,
}
use mistake_agent.Prelude.Results.{Result, ok, >>=-eq-ok}
use mistake_agent.Billing.Model.{Plan, Entitlement, WindowUsage, QuotaDecision}
use mistake_agent.Billing.Quota.{decide, HasRoom, Verdict, decide_lem}
use mistake_agent.Billing.Tables.{
  UsageEvent, Db, Request, ReserveOutcome, granted, denied, StoreError, turn_max_requests,
  five_hours, seven_days, thirty_days, set_used,
}
use mistake_agent.Billing.Reads.{find_entitlement, window_usage, used_in, counted}
use mistake_agent.Billing.Reserve.{
  turn_rows, free_head, free_turn, new_event, insert_event, charge_decided, charge, charge_found,
  reserve,
}

abbrev pub one_more : WindowUsage → WindowUsage
one_more w = record {
  used_5h = w.used_5h + 1;
  used_week = w.used_week + 1;
  used_month = w.used_month + 1;
}

-- The uses do not pass the limit.
abbrev pub Within : Option ℕ → ℕ → Type 0
Within none used = Unit {0}
Within (some limit) used = used ≤ limit

abbrev pub IsWithin : Plan → WindowUsage → Type 0
IsWithin p w =
    Within p.limit_5h w.used_5h
    × Within p.limit_week w.used_week
    × Within p.limit_month w.used_month

-- The turn had an earlier row within its window, fewer than the maximum, and the first is under
-- the entitlement.
abbrev pub Continues : List UsageEvent → ℕ → Type 0
Continues [] entitlement = ⊥
Continues (first ∷ rest) entitlement =
    (first.entitlement_id ≡ some entitlement) × (length (first ∷ rest) < turn_max_requests)

abbrev pub TurnContinues : Db → ℕ → ℕ → Option String → ℕ → Type 0
TurnContinues db now user none entitlement = ⊥
TurnContinues db now user (some turn) entitlement =
    Continues (turn_rows db now user turn) entitlement

-- A charged request is paid by the effective entitlement, raises each window by one and keeps it
-- within the plan. A free one continues its turn, and leaves the windows of every user and the
-- entitlements as they were. A denied one leaves the tables as they were.
abbrev pub Effect : Db → ℕ → Request → ReserveOutcome × Db → Type 0
Effect db now rq (granted event entitlement true, db') =
    (e : Entitlement) × (p : Plan) × (find_entitlement db now rq.user_id ≡ ok (some (e, p)))
    × (e.id ≡ entitlement)
    × (window_usage db' now rq.user_id ≡ one_more (window_usage db now rq.user_id))
    × IsWithin p (window_usage db' now rq.user_id)
Effect db now rq (granted event entitlement false, db') =
    TurnContinues db now rq.user_id rq.turn_id entitlement
    × ((later user : ℕ) → window_usage db' later user ≡ window_usage db later user)
    × (db'.entitlements ≡ db.entitlements)
Effect db now rq (denied reason, db') = db' ≡ db

used_in-insert :
    (db : Db) (now : ℕ) (rq : Request) (e b later user span : ℕ)
    → used_in (insert_event db now rq e b) later user span
      ≡ used_in db later user span + counted later user span (new_event db now rq e b)
unfolding used_in insert_event
used_in-insert db now rq e b later user span =
    omega (
      arith,
      sum_by-append (counted later user span) db.usage_events (new_event db now rq e b ∷ []),
    )

counted_new :
    (db : Db) (now : ℕ) (rq : Request) (e b span : ℕ)
    → 0 < span
    → counted now rq.user_id span (new_event db now rq e b) ≡ b
unfolding counted new_event
counted_new db now rq e b span h = ground (arith, ==_refl rq.user_id)

counted_free :
    (db : Db) (now : ℕ) (rq : Request) (e later user span : ℕ)
    → counted later user span (new_event db now rq e 0) ≡ 0
unfolding counted new_event
counted_free db now rq e later user span = ground arith

used_in-set_used :
    (db : Db) (e : ℕ) (f : ℕ → ℕ) (later user span : ℕ)
    → used_in (set_used e f db) later user span ≡ used_in db later user span
unfolding used_in set_used
used_in-set_used db e f later user span = refl

module _ (db : Db) (now : ℕ) (rq : Request) (e : ℕ) where
  used_in-charge :
      (span : ℕ)
      → 0 < span
      → used_in (insert_event (set_used e (λ n. n + 1) db) now rq e 1) now rq.user_id span
        ≡ used_in db now rq.user_id span + 1
  used_in-charge span h =
      let db' = set_used e (λ n. n + 1) db in
      omega (
        arith,
        used_in-insert db' now rq e 1 now rq.user_id span,
        used_in-set_used db e (λ n. n + 1) now rq.user_id span,
        counted_new db' now rq e 1 span h,
      )

  used_in-free :
      (later user span : ℕ)
      → used_in (insert_event db now rq e 0) later user span ≡ used_in db later user span
  used_in-free later user span = omega (
    arith,
    used_in-insert db now rq e 0 later user span,
    counted_free db now rq e later user span,
  )

  window_usage-charge :
      window_usage (insert_event (set_used e (λ n. n + 1) db) now rq e 1) now rq.user_id
      ≡ one_more (window_usage db now rq.user_id)
  unfolding window_usage
  window_usage-charge = λ i. record {
    used_5h = used_in-charge five_hours (omega arith) i;
    used_week = used_in-charge seven_days (omega arith) i;
    used_month = used_in-charge thirty_days (omega arith) i;
  }

  window_usage-free :
      (later user : ℕ)
      → window_usage (insert_event db now rq e 0) later user ≡ window_usage db later user
  unfolding window_usage
  window_usage-free later user = λ i. record {
    used_5h = used_in-free later user five_hours i;
    used_week = used_in-free later user seven_days i;
    used_month = used_in-free later user thirty_days i;
  }

HasRoom-Within : (limit : Option ℕ) (used : ℕ) → HasRoom limit used → Within limit (used + 1)
HasRoom-Within none used h = tt
HasRoom-Within (some limit) used h = omega arith

module _ (db : Db) (now : ℕ) (rq : Request) (e : Entitlement) (p : Plan)
    (found : find_entitlement db now rq.user_id ≡ ok (some (e, p))) where
  decided-Effect :
      (d : QuotaDecision)
      → Verdict p e (window_usage db now rq.user_id) d
      → Effect db now rq (charge_decided db now rq d)
  decided-Effect (QuotaDecision.denied reason) v = refl
  decided-Effect (QuotaDecision.allowed g) (same, _, h, k, m) = rw same (
    e,
    p,
    found,
    refl,
    window_usage-charge db now rq e.id,
    rw (window_usage-charge db now rq e.id) (
      HasRoom-Within p.limit_5h _ h,
      HasRoom-Within p.limit_week _ k,
      HasRoom-Within p.limit_month _ m,
    ),
  )

  charge-Effect : Effect db now rq (charge db now rq e p)
  unfolding charge
  charge-Effect =
      decided-Effect (decide p e (window_usage db now rq.user_id))
        (decide_lem p e (window_usage db now rq.user_id))

free_turn-TurnContinues :
    (db : Db) (now user : ℕ) (turn : Option String) {e : ℕ}
    → free_turn db now user turn ≡ some e
    → TurnContinues db now user turn e
unfolding free_turn
free_turn-TurnContinues db now user none h = cc
free_turn-TurnContinues db now user (some turn) h = head_continues (turn_rows db now user turn) h
  where
    head_continues : (rows : List UsageEvent) {e : ℕ} → free_head rows ≡ some e → Continues rows e
    head_continues [] h = cc
    head_continues (first ∷ rest) h = ground arith

charge_found-Effect :
    (db : Db) (now : ℕ) (rq : Request) (found : Option (Entitlement × Plan))
    → find_entitlement db now rq.user_id ≡ ok found
    → Effect db now rq (charge_found db now rq found)
charge_found-Effect db now rq none h = refl
charge_found-Effect db now rq (some (e, p)) h = charge-Effect db now rq e p h

-- Whatever `reserve` returns, its outcome and the new tables are as `Effect` says: a charged
-- request raises each of the user's windows by exactly one and keeps it within the plan's limits,
-- a free one continues its turn and moves no window and no entitlement, a denied one writes nothing.
pub reserve-Effect :
    (db : Db) (now : ℕ) (rq : Request) {r : ReserveOutcome × Db}
    → reserve db now rq ≡ ok r
    → Effect db now rq r
unfolding reserve
reserve-Effect db now rq {r} h = elim (Option-cases (free_turn db now rq.user_id rq.turn_id)) [
  | inl fresh ↦
      let (found, q, last) =
        >>=-eq-ok (find_entitlement db now rq.user_id) (λ f. ok (charge_found db now rq f))
          (rw (fresh, reserve) at h) in
      let same : charge_found db now rq found ≡ r = cc last in
      subst (Effect db now rq) same (charge_found-Effect db now rq found q)
  | inr (e, free) ↦
      let last : ◌≡◌ {A = Result StoreError (ReserveOutcome × Db)}
          (ok (granted db.next_event_id e false, insert_event db now rq e 0)) (ok r) =
        rw (free, reserve) at h in
      let same : (granted db.next_event_id e false, insert_event db now rq e 0) ≡ r = cc last in
      subst (Effect db now rq) same (
        free_turn-TurnContinues db now rq.user_id rq.turn_id free,
        λ later user. window_usage-free db now rq e later user,
        unfold insert_event in refl,
      )
]
