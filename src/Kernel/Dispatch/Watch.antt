-- ===== src/Kernel/Dispatch/Watch.antt =====
-- src/kernel/agent/dispatch.rs: the watch over a handler's task, `run`. Instants are numbers. What
-- happens to the task is a list: a call of `extend`, its end, a cancel, or the wake of the sleep that
-- the loop waits for, which comes at its time or at once where that has passed.
pub mod Deadline
use mistake_agent.Prelude.{
  ℕ, ◌+◌, Option, none, some, Bool, true, false, List, [], ◌∷◌, ◌==◌, ltb, if◌then◌else◌, min, max,
}
use mistake_agent.Prelude.Results.{Result}
use mistake_agent.Relay.Text.{Text}
use mistake_agent.Kernel.Contract.{ToolError}
use mistake_agent.Kernel.Dispatch.{Outcome, finished, panicked, timed_out, aborted}

pub record Watch : Type 0 where
  pub clock : ℕ
  pub deadline : ℕ
  pub turn_end : ℕ
  pub grace : ℕ
  pub watched : ℕ
  pub grace_end : Option ℕ
  pub ended : Option Outcome

pub data Happening : Type 0 where
  extends : ℕ → ℕ → Happening
  ends : ℕ → Result ToolError Text → Happening
  panics : ℕ → Text → Happening
  cancels : ℕ → Happening
  wakes : Happening

abbrev pub or_default : ℕ → Option ℕ → ℕ
or_default default none = default
or_default default (some t) = t

unfoldable pub start_watch : ℕ → Option ℕ → ℕ → ℕ → ℕ → Watch
start_watch now timeout default budget grace =
    let limit = min (or_default default timeout) budget in
    record {
      clock = now;
      deadline = now + limit;
      turn_end = now + budget;
      grace = grace;
      watched = now + limit;
      grace_end = none;
      ended = none;
    }

-- `DeadlineHandle::extend` at the time of the clock.
abbrev pub extend : ℕ → Watch → Watch
extend extra w =
    if ltb w.turn_end (w.clock + extra) then w else record w { deadline = w.clock + extra }

abbrev pub woken : Watch → Watch
woken w =
    if w.deadline == w.watched
    then record w { ended = some timed_out }
    else record w { watched = w.deadline }

abbrev pub waiting : Watch → Happening → Watch
waiting w (extends at extra) = extend extra (record w { clock = at })
waiting w (ends at result) = record w { clock = at; ended = some (finished result) }
waiting w (panics at message) = record w { clock = at; ended = some (panicked message) }
waiting w (cancels at) = record w { clock = at; grace_end = some (at + w.grace) }
waiting w wakes = woken (record w { clock = max w.clock w.watched })

-- After a cancel the task has the grace period to end.
abbrev pub in_grace : ℕ → Watch → Happening → Watch
in_grace g w (extends at extra) = extend extra (record w { clock = at })
in_grace g w (ends at result) = record w { clock = at; ended = some (finished result) }
in_grace g w (panics at message) = record w { clock = at; ended = some (panicked message) }
in_grace g w (cancels at) = record w { clock = at }
in_grace g w wakes = record w { clock = max w.clock g; ended = some aborted }

abbrev pub live : Option ℕ → Watch → Happening → Watch
live none w h = waiting w h
live (some g) w h = in_grace g w h

abbrev pub unless_ended : Option Outcome → Watch → Happening → Watch
unless_ended none w h = live w.grace_end w h
unless_ended (some o) w h = w

unfoldable pub watch_step : Watch → Happening → Watch
watch_step w h = unless_ended w.ended w h

abbrev pub watch : List Happening → Watch → Watch
watch [] w = w
watch (h ∷ hs) w = watch hs (watch_step w h)
