-- ===== src/Relay/Gate/Slots.antt =====
-- The slots of server/src/relay/concurrency.rs: the gate counts the guards that are alive.
use mistake_agent.Prelude.{
  ℕ, ◌+◌, ◌≤◌, ◌<◌, ◌≡◌, refl, max, Option, none, some, true, false, List, [], ◌∷◌, arith, ◌==◌,
  ==_iff, ==_refl, ◌-◌, lookup, lookup-remove, lookup-remove_other, Bool-cases, inl, inr,
  if◌then◌else◌, ap, sym, subst, ◌⊎◌, remove, leb,
}
use mistake_agent.Relay.Gate.{
  ConcurrencyGate, GateGuard, or_absent, in_flight, acquire, give_back, drop, set_count,
}
use mistake_agent.Relay.Gate.Histories.{
  held, Leaves, first, later, State, admits, refuses, ends, Reach, start, next, Counts, IsFair,
}

held-Leaves :
    (user : ℕ) (g : GateGuard) {guards rest : List GateGuard}
    → Leaves g guards rest
    → held user guards ≡ (if g.user_id == user then 1 else 0) + held user rest
held-Leaves user g first = refl
held-Leaves user g (later l) = omega (arith, held-Leaves user g l)

-- The figure of the gate is the number of guards.
counted : (o : Option ℕ) (n : ℕ) → Counts o n → or_absent o ≡ n
counted none n h = ground arith
counted (some c) n h = h.0

in_flight-held :
    (limit user : ℕ) (s : State) → IsFair limit s → in_flight s.gate user ≡ held user s.guards
in_flight-held limit user s v = counted _ _ (v user).0

at_other :
    (limit user other : ℕ) (s : State)
    → IsFair limit s
    → (user == other) ≡ true
    → in_flight s.gate user ≡ held other s.guards
at_other limit user other s v t =
    subst (λ u. in_flight s.gate user ≡ held u s.guards) ((==_iff user other).0 t)
      (in_flight-held limit user s v)

lookup-set_count :
    (user count other : ℕ) (gate : ConcurrencyGate)
    → lookup ◌==◌ other (set_count user count gate).in_flight
      ≡ (if user == other then some count else lookup ◌==◌ other gate.in_flight)
lookup-set_count user count other gate = elim (Bool-cases (user == other)) [
  | inl t ↦ rw t refl
  | inr f ↦ rw f (lookup-remove_other ◌==◌ ==_iff other user gate.in_flight f)
]

-- What a call leaves of the entries, given those of the user that it is about.
set_count-Counts :
    (limit user count other : ℕ) (gate : ConcurrencyGate) (before after : ℕ)
    → Counts (lookup ◌==◌ other gate.in_flight) before
    → before ≤ max limit 1
    → ((user == other) ≡ true → (count ≡ after) × (1 ≤ after) × (after ≤ max limit 1))
    → ((user == other) ≡ false → after ≡ before)
    → Counts (lookup ◌==◌ other (set_count user count gate).in_flight) after × (after ≤ max limit 1)
set_count-Counts limit user count other gate before after h most mine theirs =
    rw (lookup-set_count user count other gate) (elim (Bool-cases (user == other)) [
      | inl t ↦ let (e, least, below) = mine t in rw t ((e, least), below)
      | inr f ↦ rw (f, theirs f) (h, most)
    ])

acquired :
    (gate : ConcurrencyGate) (user limit : ℕ) {o : Option GateGuard} {gate' : ConcurrencyGate}
    → acquire gate user limit ≡ (o, gate')
    → ((o ≡ none)
        × (max limit 1 ≤ in_flight gate user)
        × (gate' ≡ set_count user (in_flight gate user) gate))
      ⊎ ((o ≡ some (record { user_id = user }))
          × (in_flight gate user < max limit 1)
          × (gate' ≡ set_count user (in_flight gate user + 1) gate))
unfolding acquire
acquired gate user limit {o = o} {gate' = gate'} h =
    elim (Bool-cases (leb (max limit 1) (in_flight gate user))) [
      | inl t ↦
          let p : (none, set_count user (in_flight gate user) gate) ≡ (o, gate') = rw t at h in
          inl (sym (ap (λ q. q.0) p), ground arith, sym (ap (λ q. q.1) p))
      | inr f ↦
          let p : (some (record { user_id = user }), set_count user (in_flight gate user + 1) gate)
              ≡ (o, gate') =
            rw f at h in
          inr (sym (ap (λ q. q.0) p), ground arith, sym (ap (λ q. q.1) p))
    ]

admits-IsFair :
    (limit user : ℕ) (s : State) (g : GateGuard) {gate : ConcurrencyGate}
    → IsFair limit s
    → acquire s.gate user limit ≡ (some g, gate)
    → IsFair limit (record { gate = gate; guards = g ∷ s.guards })
admits-IsFair limit user s g v h other = elim (acquired s.gate user limit h) [
  | inl (e, full, q) ↦ absurd (cc e)
  | inr (e, room, q) ↦
      let same : g ≡ record { user_id = user } = cc e in
      let (h, most) = v other in
      rw (q, same)
        (set_count-Counts limit user (in_flight s.gate user + 1) other s.gate (held other s.guards)
          ((if user == other then 1 else 0) + held other s.guards) h most
          (λ t.
            let figure = at_other limit user other s v t in
            rw t (omega arith, omega arith, omega arith))
          (λ f. rw f (omega arith)))
]

refuses-IsFair :
    (limit user : ℕ) (s : State) {gate : ConcurrencyGate}
    → IsFair limit s
    → acquire s.gate user limit ≡ (none, gate)
    → IsFair limit (record { gate = gate; guards = s.guards })
refuses-IsFair limit user s v h other = elim (acquired s.gate user limit h) [
  | inl (e, full, q) ↦
      let (h, most) = v other in
      rw q (
        set_count-Counts limit user (in_flight s.gate user) other s.gate (held other s.guards)
          (held other s.guards) h most
          (λ t. let figure = at_other limit user other s v t in (figure, omega arith, most))
          (λ f. refl))
  | inr (e, room, q) ↦ absurd (cc e)
]

give_back-Counts :
    (limit user other : ℕ) (gate : ConcurrencyGate) (before after : ℕ) (o : Option ℕ)
    → lookup ◌==◌ user gate.in_flight ≡ o
    → Counts (lookup ◌==◌ other gate.in_flight) before
    → before ≤ max limit 1
    → before ≡ (if user == other then 1 else 0) + after
    → Counts (lookup ◌==◌ other (give_back gate user o).in_flight) after × (after ≤ max limit 1)
give_back-Counts limit user other gate before after none e h most b =
    elim (Bool-cases (user == other)) [
      | inl t ↦
          let absent : lookup ◌==◌ other gate.in_flight ≡ none =
            subst (λ u. lookup ◌==◌ u gate.in_flight ≡ none) ((==_iff user other).0 t) e in
          let gone : before ≡ 0 = rw absent at h in
          let one : before ≡ 1 + after = rw t at b in absurd (omega arith)
      | inr f ↦
          let same : before ≡ after = (let m : before ≡ 0 + after = rw f at b in omega arith) in
          rw (← same) (h, most)
    ]
give_back-Counts limit user other gate before after (some count) e h most b =
    elim (Bool-cases (user == other)) [
      | inl t ↦
          let present : lookup ◌==◌ other gate.in_flight ≡ some count =
            subst (λ u. lookup ◌==◌ u gate.in_flight ≡ some count) ((==_iff user other).0 t) e in
          let all : (count ≡ before) × (1 ≤ before) = rw present at h in
          let one : before ≡ 1 + after = rw t at b in
          elim (Bool-cases (leb count 1)) [
            | inl last ↦
                let cleared : lookup ◌==◌ other (remove ◌==◌ user gate.in_flight) ≡ none =
                  subst (λ u. lookup ◌==◌ u (remove ◌==◌ user gate.in_flight) ≡ none)
                    ((==_iff user other).0 t) (lookup-remove ◌==◌ ==_iff user gate.in_flight) in
                rw (last, cleared) (ground arith, omega arith)
            | inr more ↦ rw more (
                set_count-Counts limit user (count - 1) other gate before after h most
                  (λ _. ground arith) (λ f. absurd (cc f)))
          ]
      | inr f ↦
          let same : before ≡ after = (let m : before ≡ 0 + after = rw f at b in omega arith) in
          elim (Bool-cases (leb count 1)) [
            | inl last ↦
                rw (last, lookup-remove_other ◌==◌ ==_iff other user gate.in_flight f, ← same)
                  (h, most)
            | inr more ↦ rw more (
                set_count-Counts limit user (count - 1) other gate before after h most
                  (λ t. absurd (cc t)) (λ _. sym same))
          ]
    ]

ends-IsFair :
    (limit : ℕ) (s : State) (g : GateGuard) (rest : List GateGuard)
    → IsFair limit s
    → Leaves g s.guards rest
    → IsFair limit (record { gate = drop g s.gate; guards = rest })
unfolding drop
ends-IsFair limit s g rest v l other =
    give_back-Counts limit g.user_id other s.gate (held other s.guards) (held other rest)
      (lookup ◌==◌ g.user_id s.gate.in_flight) refl (v other).0 (v other).1 (held-Leaves other g l)

-- In every state that requests and ends of guards lead to, in any order, the gate counts for each
-- user exactly the guards alive, an entry stands only for a user who has some, and nobody has more
-- of them than the limit (or than one, where the limit is less).
pub Reach-IsFair : {limit : ℕ} {s : State} → Reach limit s → IsFair limit s
Reach-IsFair {limit = limit} start user = (refl, omega arith)
Reach-IsFair {limit = limit} (next {s = s} r (admits user g h)) other =
    admits-IsFair limit user s g (Reach-IsFair r) h other
Reach-IsFair {limit = limit} (next {s = s} r (refuses user h)) other =
    refuses-IsFair limit user s (Reach-IsFair r) h other
Reach-IsFair {limit = limit} (next {s = s} r (ends g {rest = rest} l)) other =
    ends-IsFair limit s g rest (Reach-IsFair r) l other

-- A request is refused only while the user's guards are as many as the limit, so that a slot is
-- never lost: once they all have ended, the next request gets one.
pub Reach-admits :
    {limit : ℕ} {s : State} (user : ℕ)
    → Reach limit s
    → held user s.guards < max limit 1
    → (acquire s.gate user limit).0 ≡ some (record { user_id = user })
unfolding acquire
Reach-admits {limit = limit} {s = s} user r room =
    let figure = in_flight-held limit user s (Reach-IsFair r) in ground arith

-- Once every guard has ended, the map is empty again.
pub Reach-empty : {limit : ℕ} {s : State} → Reach limit s → s.guards ≡ [] → s.gate.in_flight ≡ []
Reach-empty {limit = limit} {s = s} r e = no_entries s.gate.in_flight refl
  where
    no_entries : (m : List (ℕ × ℕ)) → s.gate.in_flight ≡ m → m ≡ []
    no_entries [] q = refl
    no_entries (x ∷ m) q =
        let present : lookup ◌==◌ x.0 s.gate.in_flight ≡ some x.1 = rw (q, ==_refl x.0) refl in
        let counts : (x.1 ≡ held x.0 s.guards) × (1 ≤ held x.0 s.guards) =
          rw present at (Reach-IsFair r x.0).0 in
        let none_held : held x.0 s.guards ≡ 0 = rw e refl in absurd (omega arith)
