-- ===== src/Relay/Gate/Histories.antt =====
-- Histories of the gate of server/src/relay/concurrency.rs: requests that come and guards that end.
use mistake_agent.Prelude.{
  ℕ, ◌+◌, ◌≤◌, ◌≡◌, max, Option, none, some, List, [], ◌∷◌, ◌==◌, lookup, if◌then◌else◌,
}
use mistake_agent.Relay.Gate.{ConcurrencyGate, GateGuard, new_gate, acquire, drop}

-- The guards of a user among those alive.
abbrev pub held : ℕ → List GateGuard → ℕ
held user [] = 0
held user (g ∷ guards) = (if g.user_id == user then 1 else 0) + held user guards

-- One guard leaves the list.
pub data Leaves (g : GateGuard) : List GateGuard → List GateGuard → Type 0 where
  first : {guards : List GateGuard} → Leaves g (g ∷ guards) guards
  later :
      {other : GateGuard} {guards rest : List GateGuard}
      → Leaves g guards rest
      → Leaves g (other ∷ guards) (other ∷ rest)

-- The gate and the guards alive.
pub record State : Type 0 where
  pub gate : ConcurrencyGate
  pub guards : List GateGuard

-- One call: a request that gets a guard or is refused, and the end of a guard, which the language
-- runs once for each guard.
pub data Step (limit : ℕ) (s : State) : State → Type 0 where
  admits :
      (user : ℕ) (g : GateGuard) {gate : ConcurrencyGate}
      → acquire s.gate user limit ≡ (some g, gate)
      → Step limit s (record { gate = gate; guards = g ∷ s.guards })
  refuses :
      (user : ℕ) {gate : ConcurrencyGate}
      → acquire s.gate user limit ≡ (none, gate)
      → Step limit s (record { gate = gate; guards = s.guards })
  ends :
      (g : GateGuard) {rest : List GateGuard}
      → Leaves g s.guards rest
      → Step limit s (record { gate = drop g s.gate; guards = rest })

pub data Reach (limit : ℕ) : State → Type 0 where
  start : Reach limit (record { gate = new_gate; guards = [] })
  next : {s t : State} → Reach limit s → Step limit s t → Reach limit t

-- An entry is there if and only if it counts something, and counts the user's guards, which are
-- within the limit.
abbrev pub Counts : Option ℕ → ℕ → Type 0
Counts none n = n ≡ 0
Counts (some count) n = (count ≡ n) × (1 ≤ n)

abbrev pub IsFair : ℕ → State → Type 0
IsFair limit s =
    (user : ℕ)
    → Counts (lookup ◌==◌ user s.gate.in_flight) (held user s.guards)
      × (held user s.guards ≤ max limit 1)
