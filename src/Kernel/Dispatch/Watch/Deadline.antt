-- ===== src/Kernel/Dispatch/Watch/Deadline.antt =====
-- A handler is stopped in time, and not before its deadline (src/kernel/agent/dispatch.rs).
use mistake_agent.Prelude.{ℕ, ◌+◌, ◌≤◌, ◌≡◌, Option, none, some, List, [], ◌∷◌, max, arith}
use mistake_agent.Kernel.Dispatch.{Outcome, finished, panicked, timed_out, aborted}
use mistake_agent.Kernel.Dispatch.Watch.{
  Watch, Happening, extends, ends, panics, cancels, wakes, watch_step,
}

-- The time at which the sleep wakes.
abbrev pub wake_time : Option ℕ → Watch → ℕ
wake_time none w = max w.clock w.watched
wake_time (some g) w = max w.clock g

-- Time goes on, and nothing comes later than the wake of the sleep.
abbrev pub IsNext : Watch → Happening → Type 0
IsNext w (extends at extra) = (w.clock ≤ at) × (at ≤ wake_time w.grace_end w)
IsNext w (ends at result) = (w.clock ≤ at) × (at ≤ wake_time w.grace_end w)
IsNext w (panics at message) = (w.clock ≤ at) × (at ≤ wake_time w.grace_end w)
IsNext w (cancels at) = (w.clock ≤ at) × (at ≤ wake_time w.grace_end w)
IsNext w wakes = Unit

abbrev pub IsTimed : List Happening → Watch → Type 0
IsTimed [] w = Unit
IsTimed (h ∷ hs) w = IsNext w h × IsTimed hs (watch_step w h)

abbrev pub InTime : ℕ → ℕ → Option ℕ → ℕ → Type 0
InTime turn_end grace none clock = clock ≤ turn_end
InTime turn_end grace (some g) clock = (g ≤ turn_end + grace) × (clock ≤ turn_end + grace)

-- Past its deadline only, and within the turn; or after the grace period of a cancel.
abbrev pub IsJust : ℕ → Option Outcome → ℕ → Option ℕ → ℕ → Type 0
IsJust turn_end none deadline grace_end clock = Unit
IsJust turn_end (some (finished r)) deadline grace_end clock = Unit
IsJust turn_end (some (panicked m)) deadline grace_end clock = Unit
IsJust turn_end (some timed_out) deadline grace_end clock = (deadline ≤ clock) × (clock ≤ turn_end)
IsJust turn_end (some aborted) deadline grace_end clock =
    (g : ℕ) × (grace_end ≡ some g) × (g ≤ clock)

abbrev pub IsKept : ℕ → ℕ → Watch → Type 0
IsKept turn_end grace w =
    (w.turn_end ≡ turn_end)
    × (w.grace ≡ grace)
    × (w.deadline ≤ turn_end)
    × (w.watched ≤ turn_end)
    × InTime turn_end grace w.grace_end w.clock
    × IsJust turn_end w.ended w.deadline w.grace_end w.clock

module _ (t g : ℕ) where
  wake_time-le : (w : Watch) → w.clock ≤ wake_time w.grace_end w
  wake_time-le w = by_phase w.grace_end
    where
      by_phase : (o : Option ℕ) → w.clock ≤ wake_time o w
      by_phase none = omega arith
      by_phase (some e) = omega arith
