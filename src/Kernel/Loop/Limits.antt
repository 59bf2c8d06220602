-- ===== src/Kernel/Loop/Limits.antt =====
-- A turn comes to an end, and starts so many handlers at most (src/kernel/agent/loop_mod/mod.rs).
pub mod Calls
pub use mistake_agent.Kernel.Loop.Limits.Calls.{
  IsWithin, IsCapped, CallsKept, RoundKept, IsWithin-IsCapped, run_calls-CallsKept,
}
use mistake_agent.Prelude.{
  ℕ, suc, ◌+◌, ◌≤◌, ◌≡◌, ◌⊎◌, refl, Option, none, some, Bool, true, false, List, [], ◌∷◌, ltb, leb,
  length, length-append, arith, Bool-cases, inl, inr, ap,
}
use mistake_agent.Prelude.Results.{Result, ok, err}
use mistake_agent.Relay.Text.{Text, is_empty}
use mistake_agent.Kernel.Contract.{ToolError}
use mistake_agent.Kernel.Registry.Loading.{resolve_wire}
use mistake_agent.Kernel.Dispatch.{by_model, Dispatch, Environment, call_tool}
use mistake_agent.Kernel.Dispatch.Audit.{Ends, call_tool-Ends}
use mistake_agent.Kernel.Loop.{
  StopReason, ModelError, systemic, cancelled, transient, ToolCallAcc, Stream, Round, RoundEnd,
  goes_on, stops, returns_early, fails, Turn, max_tool_calls, max_consecutive_failures, stop_of,
  open_again, open_stream, break_of, is_error, call_named, or_empty_name, call_one, judged,
  run_calls, end_of_calls, after_stream, read_stream, with_stream, run_round, next_round, run_turn,
  new_turn,
}

module _ (E : Environment) (parse : Text → Text) where
  end_of_calls-RoundKept :
      (b m n : ℕ) (r : Option StopReason × Turn)
      → m ≤ n
      → CallsKept b n r
      → RoundKept b m (end_of_calls E parse r)
  end_of_calls-RoundKept b m n (none, t) le (within, calls) = (within, omega (arith, le, calls))
  end_of_calls-RoundKept b m n (some s, t) le capped = capped

  -- Every end of a round but the last leaves the handlers as they were.
  break_of-RoundKept :
      (b n : ℕ) (t : Turn) (e : ModelError) → IsCapped b t → RoundKept b n (break_of e, t)
  break_of-RoundKept b n t systemic h = h
  break_of-RoundKept b n t cancelled h = h
  break_of-RoundKept b n t (transient m) h = h

  stop_of-RoundKept :
      (b n : ℕ) (t : Turn) (e : ModelError) → IsCapped b t → RoundKept b n (stop_of e, t)
  stop_of-RoundKept b n t systemic h = h
  stop_of-RoundKept b n t cancelled h = h
  stop_of-RoundKept b n t (transient m) h = h

  after_stream-RoundKept :
      (b : ℕ) (s : Stream) (t : Turn)
      → IsWithin b t
      → RoundKept b (suc t.tool_calls) (after_stream E parse s t)
  after_stream-RoundKept b s t within = elim (Bool-cases s.stopped_after) [
    | inl stopped ↦ rw stopped (IsWithin-IsCapped b t within)
    | inr on ↦ rw on (by_calls s.calls_done refl)
  ]
    where
      by_calls :
          (calls : List ToolCallAcc)
          → s.calls_done ≡ calls
          → RoundKept b
              (suc t.tool_calls)
              (after_stream E parse (record s { stopped_after = false; calls_done = calls }) t)
      by_calls [] e = IsWithin-IsCapped b t within
      by_calls (c ∷ cs) e =
          end_of_calls-RoundKept b (suc t.tool_calls) (t.tool_calls + length (c ∷ cs))
            (run_calls E parse (c ∷ cs) t) (omega arith)
            (run_calls-CallsKept E parse b (c ∷ cs) t within)

  read_stream-RoundKept :
      (b : ℕ) (s : Stream) (t : Turn) (o : Option ModelError)
      → IsWithin b t
      → RoundKept b (suc t.tool_calls) (read_stream E parse s t o)
  read_stream-RoundKept b s t none within = after_stream-RoundKept b s t within
  read_stream-RoundKept b s t (some e) within =
      break_of-RoundKept b (suc t.tool_calls) t e (IsWithin-IsCapped b t within)

  -- A round whose stream is not there ends the loop, and one with a stream is read.
  again-RoundKept :
      (b : ℕ) (t : Turn) (second : Result ModelError Stream)
      → IsWithin b t
      → RoundKept b (suc t.tool_calls) (with_stream E parse t (open_again second))
  again-RoundKept b t (ok s) within = read_stream-RoundKept b s t s.broken within
  again-RoundKept b t (err e) within =
      stop_of-RoundKept b (suc t.tool_calls) t e (IsWithin-IsCapped b t within)

  opened-RoundKept :
      (b : ℕ) (r : Round) (t : Turn) (first : Result ModelError Stream)
      → IsWithin b t
      → RoundKept b (suc t.tool_calls) (with_stream E parse t (open_stream r first))
  opened-RoundKept b r t (ok s) within = read_stream-RoundKept b s t s.broken within
  opened-RoundKept b r t (err systemic) within = IsWithin-IsCapped b t within
  opened-RoundKept b r t (err cancelled) within = IsWithin-IsCapped b t within
  opened-RoundKept b r t (err (transient m)) within = elim (Bool-cases r.stopped_in_retry) [
    | inl stopped ↦ rw stopped (IsWithin-IsCapped b t within)
    | inr on ↦ rw on (again-RoundKept b t r.second within)
  ]

  run_round-RoundKept :
      (b : ℕ) (r : Round) (t : Turn)
      → IsWithin b t
      → RoundKept b (suc t.tool_calls) (run_round E parse r t)
  unfolding run_round
  run_round-RoundKept b r t within = elim (Bool-cases r.stopped) [
    | inl stopped ↦ rw stopped (IsWithin-IsCapped b t within)
    | inr on ↦ rw on (elim (Bool-cases r.late) [
      | inl late ↦ rw late (IsWithin-IsCapped b t within)
      | inr early ↦ rw early (opened-RoundKept b r t r.first within)
    ])
  ]

  RoundKept-less : (b m n : ℕ) (r : RoundEnd × Turn) → m ≤ n → RoundKept b n r → RoundKept b m r
  RoundKept-less b m n (goes_on, t) le (within, calls) = (within, omega (arith, le, calls))
  RoundKept-less b m n (stops s, t) le capped = capped
  RoundKept-less b m n (returns_early s, t) le capped = capped
  RoundKept-less b m n (fails e, t) le capped = capped

  run_turn-RoundKept :
      (b : ℕ) (rounds : List Round) (t : Turn)
      → IsWithin b t
      → RoundKept b (t.tool_calls + length rounds) (run_turn E parse rounds t)
  unfolding run_turn
  run_turn-RoundKept b [] t within = (within, omega arith)
  run_turn-RoundKept b (r ∷ rounds) t within =
      by_round (λ u w. run_turn-RoundKept b rounds u w) (run_round E parse r t)
        (run_round-RoundKept b r t within)
    where
      by_round :
          ((u : Turn)
            → IsWithin b u
            → RoundKept b (u.tool_calls + length rounds) (run_turn E parse rounds u))
          → (p : RoundEnd × Turn) → RoundKept b (suc t.tool_calls) p
          → RoundKept b
              (t.tool_calls + suc (length rounds))
              (next_round E parse p (run_turn E parse rounds))
      by_round further (goes_on, u) (w, calls) =
          RoundKept-less b (t.tool_calls + suc (length rounds)) (u.tool_calls + length rounds)
            (run_turn E parse rounds u) (omega (arith, calls)) (further u w)
      by_round further (stops s, u) capped = capped
      by_round further (returns_early s, u) capped = capped
      by_round further (fails e, u) capped = capped

  abbrev pub is_over : RoundEnd → Bool
  is_over goes_on = false
  is_over (stops s) = true
  is_over (returns_early s) = true
  is_over (fails e) = true

  RoundKept-ends :
      (b n : ℕ) (r : RoundEnd × Turn)
      → RoundKept b n r
      → ((is_over r.0 ≡ true) ⊎ (n ≤ 25)) × IsCapped b r.1
  RoundKept-ends b n (goes_on, t) (within, calls) =
      (inr (omega (arith, calls, within.1)), IsWithin-IsCapped b t within)
  RoundKept-ends b n (stops s, t) capped = (inl refl, capped)
  RoundKept-ends b n (returns_early s, t) capped = (inl refl, capped)
  RoundKept-ends b n (fails e, t) capped = (inl refl, capped)

  -- Whatever the model answers, a turn is over after at most 26 rounds, and it starts at most 25
  -- handlers: a turn that is still going on after its rounds has had at most 25 of them.
  pub run_turn-ends :
      (rounds : List Round) (d : Dispatch)
      → let after = run_turn E parse rounds (new_turn d) in
        ((is_over after.0 ≡ true) ⊎ (length rounds ≤ 25))
        × (length after.1.dispatch.ran ≤ length d.ran + 25)
  run_turn-ends rounds d =
      RoundKept-ends (length d.ran) (length rounds) (run_turn E parse rounds (new_turn d)) (
        RoundKept-less (length d.ran) (length rounds) (0 + length rounds)
          (run_turn E parse rounds (new_turn d)) (omega arith)
          (run_turn-RoundKept (length d.ran) rounds (new_turn d) (omega arith, omega arith)))
