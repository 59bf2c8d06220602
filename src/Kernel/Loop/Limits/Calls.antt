-- ===== src/Kernel/Loop/Limits/Calls.antt =====
-- The calls of one answer of the model are counted (src/kernel/agent/loop_mod/mod.rs).
use mistake_agent.Prelude.{
  ℕ, suc, ◌+◌, ◌≤◌, ◌≡◌, refl, Option, none, some, false, List, [], ◌∷◌, ltb, leb, length,
  length-append, arith, Bool-cases, inl, inr, ap,
}
use mistake_agent.Prelude.Results.{Result, ok, err}
use mistake_agent.Relay.Text.{Text, is_empty}
use mistake_agent.Kernel.Contract.{ToolError}
use mistake_agent.Kernel.Registry.Loading.{resolve_wire}
use mistake_agent.Kernel.Dispatch.{by_model, Dispatch, Environment, call_tool}
use mistake_agent.Kernel.Dispatch.Audit.{Ends, call_tool-Ends}
use mistake_agent.Kernel.Loop.{
  StopReason, ToolCallAcc, RoundEnd, goes_on, stops, returns_early, fails, Turn, max_tool_calls,
  max_consecutive_failures, is_error, call_named, or_empty_name, call_one, judged, run_calls,
}

-- `b` handlers were started before the turn.
abbrev pub IsWithin : ℕ → Turn → Type 0
IsWithin b t = (length t.dispatch.ran ≤ b + t.tool_calls) × (t.tool_calls ≤ 25)

abbrev pub IsCapped : ℕ → Turn → Type 0
IsCapped b t = length t.dispatch.ran ≤ b + 25

-- A list of calls that was gone through counts each of them.
abbrev pub CallsKept : ℕ → ℕ → Option StopReason × Turn → Type 0
CallsKept b n (none, t) = IsWithin b t × (n ≤ t.tool_calls)
CallsKept b n (some s, t) = IsCapped b t

abbrev pub RoundKept : ℕ → ℕ → RoundEnd × Turn → Type 0
RoundKept b n (goes_on, t) = IsWithin b t × (n ≤ t.tool_calls)
RoundKept b n (stops s, t) = IsCapped b t
RoundKept b n (returns_early s, t) = IsCapped b t
RoundKept b n (fails e, t) = IsCapped b t

pub IsWithin-IsCapped : (b : ℕ) (t : Turn) → IsWithin b t → IsCapped b t
IsWithin-IsCapped b t (ran, calls) = omega (arith, ran, calls)

module _ (E : Environment) (parse : Text → Text) where
  Ends-ran :
      (full params : Text) (d : Dispatch) (r : Result ToolError Text × Dispatch)
      → Ends full params by_model d r
      → length r.1.ran ≤ suc (length d.ran)
  Ends-ran full params d r (inl (h, ran, audit)) =
      rw ran (omega (arith, length-append d.ran ((h, params) ∷ [])))
  Ends-ran full params d r (inr (inl (answer, ran, audit, model))) = rw ran (omega arith)
  Ends-ran full params d r (inr (inr (answer, ran, audit))) = rw ran (omega arith)

  call_named-ran :
      (full : Text) (acc : ToolCallAcc) (d : Dispatch)
      → length (call_named E parse full acc d).1.ran ≤ suc (length d.ran)
  call_named-ran full acc d = elim (Bool-cases (is_empty full)) [
    | inl t ↦ rw t (omega arith)
    | inr f ↦ rw f (
        Ends-ran full (parse acc.arguments) d (call_tool E full (parse acc.arguments) by_model d)
          (call_tool-Ends E full (parse acc.arguments) by_model d))
  ]

  judged-keeps :
      (acc : ToolCallAcc) (t : Turn) (r : Result ToolError Text × Dispatch)
      → ((judged E parse acc t r).dispatch ≡ r.1)
        × ((judged E parse acc t r).tool_calls ≡ t.tool_calls)
  judged-keeps acc t (ok v, d) = (refl, refl)
  judged-keeps acc t (err e, d) = (refl, refl)

  CallsKept-less :
      (b m n : ℕ) (r : Option StopReason × Turn) → m ≤ n → CallsKept b n r → CallsKept b m r
  CallsKept-less b m n (none, t) le (within, calls) = (within, omega (arith, le, calls))
  CallsKept-less b m n (some s, t) le capped = capped

  pub run_calls-CallsKept :
      (b : ℕ) (calls : List ToolCallAcc) (t : Turn)
      → IsWithin b t
      → CallsKept b (t.tool_calls + length calls) (run_calls E parse calls t)
  unfolding run_calls
  run_calls-CallsKept b [] t within = (within, omega arith)
  run_calls-CallsKept b (acc ∷ calls) t (ran, low) =
      elim (Bool-cases (ltb max_tool_calls (suc t.tool_calls))) [
        | inl over ↦ rw over (omega (arith, ran, low))
        | inr room ↦ rw room (elim (Bool-cases (is_error called.0)) [
          | inl failed ↦
              rw failed (elim (Bool-cases (leb max_consecutive_failures after.failures)) [
                | inl third ↦ rw third (IsWithin-IsCapped b after (within room))
                | inr fewer ↦ rw fewer (rest room (λ w. run_calls-CallsKept b calls after w))
              ])
          | inr fine ↦ rw fine (rest room (λ w. run_calls-CallsKept b calls after w))
        ])
      ]
    where
      counted : Turn
      counted = record t { tool_calls = suc t.tool_calls }

      called : Result ToolError Text × Dispatch
      called = call_one E parse acc counted.dispatch

      after : Turn
      after = judged E parse acc counted called

      same : (after.dispatch ≡ called.1) × (after.tool_calls ≡ suc t.tool_calls)
      same = judged-keeps acc counted called

      more : length called.1.ran ≤ suc (length t.dispatch.ran)
      more =
          call_named-ran (or_empty_name (resolve_wire acc.name t.dispatch.registry).0) acc
            (record t.dispatch { registry = (resolve_wire acc.name t.dispatch.registry).1 })

      within : ltb max_tool_calls (suc t.tool_calls) ≡ false → IsWithin b after
      within room = (
        omega (arith, ran, more, same.1, ap (λ d. length d.ran) same.0),
        ground (arith, room, same.1),
      )

      rest :
          ltb max_tool_calls (suc t.tool_calls) ≡ false
          → (IsWithin b after
              → CallsKept b (after.tool_calls + length calls) (run_calls E parse calls after))
          → CallsKept b (t.tool_calls + suc (length calls)) (run_calls E parse calls after)
      rest room further =
          CallsKept-less b (t.tool_calls + suc (length calls)) (after.tool_calls + length calls)
            (run_calls E parse calls after) (omega (arith, same.1)) (further (within room))
