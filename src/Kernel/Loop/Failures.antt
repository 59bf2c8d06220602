-- ===== src/Kernel/Loop/Failures.antt =====
-- A turn ends for failures after three of one kind (src/kernel/agent/loop_mod/mod.rs).
use mistake_agent.Prelude.{
  ℕ, suc, ◌≤◌, ◌≡◌, refl, Option, none, some, true, false, List, [], ◌∷◌, ◌++◌, ==_iff, ltb, leb,
  length, length-append, arith, Bool-cases, inl, inr, ap, sym, subst, ◌∙◌, All, All-append,
}
use mathlib.Core.List.{append-nil, append_assoc}
use mistake_agent.Prelude.Results.{Result, ok, err}
use mistake_agent.Relay.Text.{Text}
use mistake_agent.Kernel.Contract.{ToolError, ToolErrorCode}
use mistake_agent.Kernel.Dispatch.{Dispatch, Environment}
use mistake_agent.Kernel.Loop.{
  StopReason, natural, tool_call_limit, consecutive_failures, turn_timeout, user_aborted, failed,
  model_gone, ModelError, systemic, cancelled, transient, ToolCallAcc, Stream, Round, RoundEnd,
  goes_on, stops, returns_early, fails, Turn, max_tool_calls, max_consecutive_failures, stop_of,
  open_again, open_stream, break_of, code_number, same_code, is_error, call_one, judged, run_calls,
  end_of_calls, after_stream, read_stream, with_stream, run_round, next_round, run_turn, new_turn,
}

abbrev pub Answer : Type 0
Answer = Text × Result ToolError Text

-- The answer is an error with the code of this number.
abbrev pub HasCode : ℕ → Answer → Type 0
HasCode n (id, ok v) = true ≡ false
HasCode n (id, err e) = code_number e.code ≡ n

-- The last `k` answers are errors of one code.
abbrev pub EndsIn : ℕ → List Answer → Type 0
EndsIn k answers =
    (n : ℕ) × (xs : List Answer) × (ys : List Answer) × (answers ≡ xs ++ ys)
    × (length ys ≡ k)
    × All (HasCode n) ys

-- The count of the failures is that of the last answers with the last code.
abbrev Streak : ℕ → Turn → Type 0
Streak n t =
    (xs : List Answer) × (ys : List Answer) × (t.answered ≡ xs ++ ys)
    × (length ys ≡ t.failures)
    × All (HasCode n) ys

abbrev number : Option ToolErrorCode → ℕ
number none = 8
number (some c) = code_number c

abbrev IsCounted : Turn → Type 0
IsCounted t = Streak (number t.last_code) t

same_code-number :
    (c : ToolErrorCode) (o : Option ToolErrorCode) → same_code c o ≡ true → code_number c ≡ number o
same_code-number c none h = absurd (cc h)
same_code-number c (some d) h = (==_iff (code_number c) (code_number d)).0 h

module _ (E : Environment) (parse : Text → Text) where
  judged-IsCounted :
      (acc : ToolCallAcc) (t : Turn) (r : Result ToolError Text × Dispatch)
      → IsCounted t
      → IsCounted (judged E parse acc t r)
  judged-IsCounted acc t (ok v, d) h =
      (t.answered ++ ((acc.call_id, ok v) ∷ []), [], sym (append-nil _), refl, tt)
  judged-IsCounted acc t (err e, d) (xs, ys, whole, size, codes) =
      elim (Bool-cases (same_code e.code t.last_code)) [
        | inl same ↦
            let n : code_number e.code ≡ number t.last_code =
              same_code-number e.code t.last_code same in
            rw same (
              xs,
              ys ++ ((acc.call_id, err e) ∷ []),
              ap (λ l. l ++ ((acc.call_id, err e) ∷ [])) whole
                  ∙ append_assoc xs ys ((acc.call_id, err e) ∷ []),
              omega (arith, size, length-append ys ((acc.call_id, err e) ∷ [])),
              All-append (HasCode (code_number e.code)) ys ((acc.call_id, err e) ∷ [])
                  (subst (λ m. All (HasCode m) ys) (sym n) codes) (refl, tt),
            )
        | inr other ↦ rw other (t.answered, (acc.call_id, err e) ∷ [], refl, refl, (refl, tt))
      ]

  -- A list of calls that is left for failures is left at the third of them.
  abbrev CallsStop : Option StopReason × Turn → Type 0
  CallsStop (none, t) = IsCounted t
  CallsStop (some consecutive_failures, t) = IsCounted t × (3 ≤ t.failures)
  CallsStop (some s, t) = Unit

  run_calls-CallsStop :
      (calls : List ToolCallAcc) (t : Turn) → IsCounted t → CallsStop (run_calls E parse calls t)
  unfolding run_calls
  run_calls-CallsStop [] t h = h
  run_calls-CallsStop (acc ∷ calls) t h =
      elim (Bool-cases (ltb max_tool_calls (suc t.tool_calls))) [
        | inl over ↦ rw over tt
        | inr room ↦ rw room (elim (Bool-cases (is_error called.0)) [
          | inl bad ↦ rw bad (elim (Bool-cases (leb max_consecutive_failures after.failures)) [
            | inl third ↦ rw third (counted, ground (arith, third))
            | inr fewer ↦ rw fewer (run_calls-CallsStop calls after counted)
          ])
          | inr fine ↦ rw fine (run_calls-CallsStop calls after counted)
        ])
      ]
    where
      called : Result ToolError Text × Dispatch
      called = call_one E parse acc t.dispatch

      after : Turn
      after = judged E parse acc (record t { tool_calls = suc t.tool_calls }) called

      counted : IsCounted after
      counted = judged-IsCounted acc (record t { tool_calls = suc t.tool_calls }) called h

  abbrev RoundStop : RoundEnd × Turn → Type 0
  RoundStop (goes_on, t) = IsCounted t
  RoundStop (stops consecutive_failures, t) = IsCounted t × (3 ≤ t.failures)
  RoundStop (stops s, t) = Unit
  RoundStop (returns_early s, t) = Unit
  RoundStop (fails e, t) = Unit

  end_of_calls-RoundStop :
      (r : Option StopReason × Turn) → CallsStop r → RoundStop (end_of_calls E parse r)
  end_of_calls-RoundStop (none, t) h = h
  end_of_calls-RoundStop (some consecutive_failures, t) h = h
  end_of_calls-RoundStop (some natural, t) h = tt
  end_of_calls-RoundStop (some tool_call_limit, t) h = tt
  end_of_calls-RoundStop (some turn_timeout, t) h = tt
  end_of_calls-RoundStop (some user_aborted, t) h = tt
  end_of_calls-RoundStop (some failed, t) h = tt
  end_of_calls-RoundStop (some model_gone, t) h = tt

  break_of-RoundStop : (t : Turn) (e : ModelError) → RoundStop (break_of e, t)
  break_of-RoundStop t systemic = tt
  break_of-RoundStop t cancelled = tt
  break_of-RoundStop t (transient m) = tt

  stop_of-RoundStop : (t : Turn) (e : ModelError) → RoundStop (stop_of e, t)
  stop_of-RoundStop t systemic = tt
  stop_of-RoundStop t cancelled = tt
  stop_of-RoundStop t (transient m) = tt

  after_stream-RoundStop :
      (s : Stream) (t : Turn) → IsCounted t → RoundStop (after_stream E parse s t)
  after_stream-RoundStop s t h = elim (Bool-cases s.stopped_after) [
    | inl stopped ↦ rw stopped tt
    | inr on ↦ rw on (by_calls s.calls_done refl)
  ]
    where
      by_calls :
          (calls : List ToolCallAcc)
          → s.calls_done ≡ calls
          → RoundStop
              (after_stream E parse (record s { stopped_after = false; calls_done = calls }) t)
      by_calls [] e = tt
      by_calls (c ∷ cs) e =
          end_of_calls-RoundStop (run_calls E parse (c ∷ cs) t) (run_calls-CallsStop (c ∷ cs) t h)

  read_stream-RoundStop :
      (s : Stream) (t : Turn) (o : Option ModelError)
      → IsCounted t
      → RoundStop (read_stream E parse s t o)
  read_stream-RoundStop s t none h = after_stream-RoundStop s t h
  read_stream-RoundStop s t (some e) h = break_of-RoundStop t e

  again-RoundStop :
      (t : Turn) (second : Result ModelError Stream)
      → IsCounted t
      → RoundStop (with_stream E parse t (open_again second))
  again-RoundStop t (ok s) h = read_stream-RoundStop s t s.broken h
  again-RoundStop t (err e) h = stop_of-RoundStop t e

  opened-RoundStop :
      (r : Round) (t : Turn) (first : Result ModelError Stream)
      → IsCounted t
      → RoundStop (with_stream E parse t (open_stream r first))
  opened-RoundStop r t (ok s) h = read_stream-RoundStop s t s.broken h
  opened-RoundStop r t (err systemic) h = tt
  opened-RoundStop r t (err cancelled) h = tt
  opened-RoundStop r t (err (transient m)) h = elim (Bool-cases r.stopped_in_retry) [
    | inl stopped ↦ rw stopped tt
    | inr on ↦ rw on (again-RoundStop t r.second h)
  ]

  run_round-RoundStop : (r : Round) (t : Turn) → IsCounted t → RoundStop (run_round E parse r t)
  unfolding run_round
  run_round-RoundStop r t h = elim (Bool-cases r.stopped) [
    | inl stopped ↦ rw stopped tt
    | inr on ↦ rw on (elim (Bool-cases r.late) [
      | inl late ↦ rw late tt
      | inr early ↦ rw early (opened-RoundStop r t r.first h)
    ])
  ]

  run_turn-RoundStop :
      (rounds : List Round) (t : Turn) → IsCounted t → RoundStop (run_turn E parse rounds t)
  unfolding run_turn
  run_turn-RoundStop [] t h = h
  run_turn-RoundStop (r ∷ rounds) t h =
      by_round (λ u k. run_turn-RoundStop rounds u k) (run_round E parse r t)
        (run_round-RoundStop r t h)
    where
      by_round :
          ((u : Turn) → IsCounted u → RoundStop (run_turn E parse rounds u))
          → (p : RoundEnd × Turn) → RoundStop p
          → RoundStop (next_round E parse p (run_turn E parse rounds))
      by_round further (goes_on, u) k = further u k
      by_round further (stops s, u) k = k
      by_round further (returns_early s, u) k = tt
      by_round further (fails e, u) k = tt

  -- A turn that is ended for its failures ends in at least three answers one after the other that are
  -- errors with the same code, whatever came before them.
  pub run_turn-EndsIn :
      (rounds : List Round) (d : Dispatch)
      → (run_turn E parse rounds (new_turn d)).0 ≡ stops consecutive_failures
      → (k : ℕ) × (3 ≤ k) × EndsIn k (run_turn E parse rounds (new_turn d)).1.answered
  run_turn-EndsIn rounds d =
      by_end (run_turn E parse rounds (new_turn d))
        (run_turn-RoundStop rounds (new_turn d) ([], [], refl, refl, tt))
    where
      by_end :
          (p : RoundEnd × Turn)
          → RoundStop p
          → p.0 ≡ stops consecutive_failures
          → (k : ℕ) × (3 ≤ k) × EndsIn k p.1.answered
      by_end (stops consecutive_failures, t) ((xs, ys, whole, size, codes), third) e =
          (t.failures, third, (number t.last_code, xs, ys, whole, size, codes))
      by_end (goes_on, t) h e = absurd (cc e)
      by_end (returns_early s, t) h e = absurd (cc e)
      by_end (fails x, t) h e = absurd (cc e)
      by_end (stops natural, t) h e = absurd (cc e)
      by_end (stops tool_call_limit, t) h e = absurd (cc e)
      by_end (stops turn_timeout, t) h e = absurd (cc e)
      by_end (stops user_aborted, t) h e = absurd (cc e)
      by_end (stops failed, t) h e = absurd (cc e)
      by_end (stops model_gone, t) h e = absurd (cc e)
