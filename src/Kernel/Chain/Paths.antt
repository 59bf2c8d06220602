-- ===== src/Kernel/Chain/Paths.antt =====
-- The walk of src/kernel/plugin/storage/core/chain.rs ends, at the root of the message.
use mistake_agent.Prelude.{
  ℕ, zero, suc, ◌+◌, ◌≤◌, ◌<◌, ◌≡◌, refl, Option, none, some, List, [], ◌∷◌, ◌++◌, ◌==◌, ==_iff,
  arith, length, if◌then◌else◌, Option-cases, Bool-cases, inl, inr, ap, sym, ◌∙◌,
}
use mistake_agent.Kernel.Messages.{Message}
use mistake_agent.Kernel.Chain.{by_id, append_to, chain_to, active_chain}

-- The list leads to the message from its root: each message is the parent of the next, the last has
-- the id, and the first has no parent, or one that is not there.
pub data IsPathTo (messages : List Message) : Option ℕ → List Message → Type 0 where
  root : IsPathTo messages none []
  lost : (id : ℕ) → by_id messages id ≡ none → IsPathTo messages (some id) []
  child :
      (id : ℕ) {m : Message} {front : List Message}
      → by_id messages id ≡ some m
      → m.id ≡ id
      → IsPathTo messages m.parent_id front
      → IsPathTo messages (some id) (front ++ (m ∷ []))

by_id-id : (messages : List Message) (id : ℕ) {m : Message} → by_id messages id ≡ some m → m.id ≡ id
by_id-id [] id e = absurd (cc e)
by_id-id (x ∷ messages) id {m = m} e = elim (Option-cases (by_id messages id)) [
  | inr (y, q) ↦ by_id-id messages id (q ∙ (let s : some y ≡ some m = rw q at e in s))
  | inl q ↦
      let s : (if x.id == id then some x else none) ≡ some m = rw q at e in
      elim (Bool-cases (x.id == id)) [
        | inl t ↦
            let u : some x ≡ some m = rw t at s in
            let same : x ≡ m = cc u in ap (λ z. z.id) (sym same) ∙ (==_iff x.id id).0 t
        | inr f ↦ (let u : none ≡ some m = rw f at s in absurd (cc u))
      ]
]

-- The parent of a message is below it.
abbrev pub Falls : List Message → (ℕ → ℕ) → Type 0
Falls messages rank =
    (id p : ℕ) (m : Message) → by_id messages id ≡ some m → m.parent_id ≡ some p → rank p < rank id

module _ (messages : List Message) (rank : ℕ → ℕ) (falls : Falls messages rank) where
  walk :
      (fuel : ℕ) (cur : Option ℕ)
      → ((id : ℕ) → cur ≡ some id → rank id < fuel)
      → (chain : List Message) × (chain_to fuel messages cur ≡ some chain)
        × IsPathTo messages cur chain
  unfolding chain_to
  walk zero none room = ([], refl, root)
  walk (suc fuel) none room = ([], refl, root)
  walk zero (some id) room = (let below = room id refl in absurd (omega arith))
  walk (suc fuel) (some id) room = elim (Option-cases (by_id messages id)) [
    | inl e ↦ ([], rw (e, chain_to) refl, lost id e)
    | inr (m, e) ↦
        let (front, q, path) =
          walk fuel m.parent_id
            (λ p eq. let fall = falls id p m e eq in let below = room id refl in omega arith) in
        (
          front ++ (m ∷ []),
          rw (e, chain_to) (ap (λ o. append_to o m) q),
          child id e (by_id-id messages id e) path,
        )
  ]

  -- Where the parents have no cycle (each message has a rank above its parent's, of at most their
  -- number), the walk to a message that is there ends within its fuel, and gives the path from the
  -- root to that message.
  pub active_chain-IsPathTo :
      (end : ℕ) (m : Message)
      → ((id : ℕ) → rank id ≤ length messages)
      → by_id messages end ≡ some m
      → (chain : List Message) × (active_chain messages (some end) ≡ some chain)
        × IsPathTo messages (some end) chain
  unfolding active_chain
  active_chain-IsPathTo end m bound e =
      let (chain, q, path) =
        walk (length messages + 1) (some end) (λ id same. let top = bound id in omega arith) in
      (chain, rw (e, active_chain) q, path)
