-- ===== src/Kernel/Loop.antt =====
-- src/kernel/agent/loop_mod/: the turns of the agent, `run_turn`. What the model does in a round, what
-- the clock says and whether the user has stopped the turn is a list of rounds; of a stream the calls
-- that it completed are given, and a message that is appended is left out but for the tool calls.
pub mod Limits
pub mod Failures
use mistake_agent.Prelude.{
  ℕ, suc, ◌+◌, ◌*◌, Option, none, some, Bool, true, false, List, [], ◌∷◌, ◌++◌, ◌==◌, ltb, leb,
  if◌then◌else◌,
}
use mistake_agent.Prelude.Results.{Result, ok, err}
use mistake_agent.Relay.Text.{Text, codes, is_empty}
use mistake_agent.Kernel.Contract.{
  ToolErrorCode, unknown_tool, invalid_params, handler_error, timeout, aborted, forbidden,
  model_unavailable, internal, ToolError,
}
use mistake_agent.Kernel.Registry.{Registry}
use mistake_agent.Kernel.Registry.Loading.{resolve_wire}
use mistake_agent.Kernel.Dispatch.{by_model, Dispatch, Environment, call_tool}

-- `model_gone` is the one `InternalAbort` that the loop itself gives.
pub data StopReason : Type 0 where
  natural tool_call_limit consecutive_failures turn_timeout user_aborted failed model_gone :
      StopReason

-- The errors of a model, by what the loop does with them.
pub data ModelError : Type 0 where
  systemic cancelled : ModelError
  transient : Text → ModelError

pub record ToolCallAcc : Type 0 where
  pub name : Text
  pub arguments : Text
  pub call_id : Text

-- A stream that was read: the calls that it completed, its error, and whether the user stopped it.
pub record Stream : Type 0 where
  pub calls_done : List ToolCallAcc
  pub broken : Option ModelError
  pub stopped_after : Bool

pub record Round : Type 0 where
  pub stopped : Bool
  pub late : Bool
  pub first : Result ModelError Stream
  pub stopped_in_retry : Bool
  pub second : Result ModelError Stream

-- How a round ends: the loop goes on, it is left, or `run_turn` returns from within it.
pub data RoundEnd : Type 0 where
  goes_on : RoundEnd
  stops returns_early : StopReason → RoundEnd
  fails : ModelError → RoundEnd

pub record Turn : Type 0 where
  pub dispatch : Dispatch
  pub tool_calls : ℕ
  pub failures : ℕ
  pub last_code : Option ToolErrorCode
  pub answered : List (Text × Result ToolError Text)

abbrev pub max_tool_calls : ℕ
max_tool_calls = 25

abbrev pub max_consecutive_failures : ℕ
max_consecutive_failures = 3

abbrev pub code_number : ToolErrorCode → ℕ
code_number unknown_tool = 0
code_number invalid_params = 1
code_number handler_error = 2
code_number timeout = 3
code_number aborted = 4
code_number forbidden = 5
code_number model_unavailable = 6
code_number internal = 7

abbrev pub same_code : ToolErrorCode → Option ToolErrorCode → Bool
same_code c none = false
same_code c (some d) = code_number c == code_number d

abbrev unknown_tool_error : Text → ToolError
unknown_tool_error name = record {
  code = unknown_tool;
  message = codes "未知工具：" ++ name;
  retryable = false;
}

abbrev pub or_empty_name : Option Text → Text
or_empty_name none = []
or_empty_name (some t) = t

abbrev pub stop_of : ModelError → RoundEnd
stop_of systemic = stops model_gone
stop_of cancelled = stops user_aborted
stop_of (transient m) = fails (transient m)

abbrev pub open_again : Result ModelError Stream → Result RoundEnd Stream
open_again (ok s) = ok s
open_again (err e) = err (stop_of e)

-- The stream of a round: a transient error is tried again once.
abbrev pub open_stream : Round → Result ModelError Stream → Result RoundEnd Stream
open_stream r (ok s) = ok s
open_stream r (err (transient m)) =
    if r.stopped_in_retry then err (stops user_aborted) else open_again r.second
open_stream r (err systemic) = err (stop_of systemic)
open_stream r (err cancelled) = err (stop_of cancelled)

abbrev pub break_of : ModelError → RoundEnd
break_of systemic = returns_early model_gone
break_of cancelled = fails cancelled
break_of (transient m) = fails (transient m)

-- The count of the failures with one code; a success sets it back.
abbrev pub count_failure : Result ToolError Text → Turn → Turn
count_failure (ok v) t = record t { failures = 0 }
count_failure (err e) t = record t {
  failures = if same_code e.code t.last_code then suc t.failures else 1;
  last_code = some e.code;
}

abbrev pub is_error : Result ToolError Text → Bool
is_error (ok v) = false
is_error (err e) = true

module _ (E : Environment) (parse : Text → Text) where
  abbrev pub call_named : Text → ToolCallAcc → Dispatch → Result ToolError Text × Dispatch
  call_named full acc d =
      if is_empty full
      then (err (unknown_tool_error acc.name), d)
      else call_tool E full (parse acc.arguments) by_model d

  -- The name on the wire is resolved, which may load a plugin, and the tool called.
  abbrev pub call_one : ToolCallAcc → Dispatch → Result ToolError Text × Dispatch
  call_one acc d =
      let resolved = resolve_wire acc.name d.registry in
      call_named (or_empty_name resolved.0) acc (record d { registry = resolved.1 })

  abbrev pub judged : ToolCallAcc → Turn → Result ToolError Text × Dispatch → Turn
  judged acc t (result, d) =
      count_failure result
        (record t { dispatch = d; answered = t.answered ++ ((acc.call_id, result) ∷ []) })

  unfoldable pub run_calls : List ToolCallAcc → Turn → Option StopReason × Turn
  unfolding call_tool resolve_wire
  run_calls [] t = (none, t)
  run_calls (acc ∷ calls) t =
      let counted : Turn = record t { tool_calls = suc t.tool_calls } in
      let called = call_one acc counted.dispatch in
      let after = judged acc counted called in
      let rest = run_calls calls after in
      if ltb max_tool_calls counted.tool_calls
      then (some tool_call_limit, counted)
      else if is_error called.0
      then if leb max_consecutive_failures after.failures
        then (some consecutive_failures, after)
        else rest
      else rest

  abbrev pub end_of_calls : Option StopReason × Turn → RoundEnd × Turn
  end_of_calls (none, t) = (goes_on, t)
  end_of_calls (some s, t) = (stops s, t)

  abbrev pub after_stream : Stream → Turn → RoundEnd × Turn
  after_stream s t = if s.stopped_after then (stops user_aborted, t) else by_calls s.calls_done
    where
      by_calls : List ToolCallAcc → RoundEnd × Turn
      by_calls [] = (stops natural, t)
      by_calls (c ∷ cs) = end_of_calls (run_calls (c ∷ cs) t)

  abbrev pub read_stream : Stream → Turn → Option ModelError → RoundEnd × Turn
  read_stream s t (some e) = (break_of e, t)
  read_stream s t none = after_stream s t

  abbrev pub with_stream : Turn → Result RoundEnd Stream → RoundEnd × Turn
  with_stream t (err e) = (e, t)
  with_stream t (ok s) = read_stream s t s.broken

  unfoldable pub run_round : Round → Turn → RoundEnd × Turn
  unfolding run_calls
  run_round r t =
      if r.stopped
      then (stops user_aborted, t)
      else if r.late
      then (stops turn_timeout, t)
      else with_stream t (open_stream r r.first)

  abbrev pub next_round : RoundEnd × Turn → (Turn → RoundEnd × Turn) → RoundEnd × Turn
  next_round (goes_on, t) rest = rest t
  next_round (stops s, t) rest = (stops s, t)
  next_round (returns_early s, t) rest = (returns_early s, t)
  next_round (fails e, t) rest = (fails e, t)

  unfoldable pub run_turn : List Round → Turn → RoundEnd × Turn
  unfolding run_round
  run_turn [] t = (goes_on, t)
  run_turn (r ∷ rounds) t = next_round (run_round r t) (run_turn rounds)

abbrev pub new_turn : Dispatch → Turn
new_turn d = record { dispatch = d; tool_calls = 0; failures = 0; last_code = none; answered = [] }
