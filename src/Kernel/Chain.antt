-- ===== src/Kernel/Chain.antt =====
-- src/kernel/plugin/storage/core/chain.rs: the active path of a message tree.
pub mod Paths
use mistake_agent.Prelude.{
  ℕ, suc, zero, ◌+◌, Option, none, some, Bool, true, false, List, [], ◌∷◌, ◌++◌, ◌==◌,
  if◌then◌else◌, length,
}
use mistake_agent.Kernel.Messages.{Message}

-- `by_id.get(&id)`: the map is collected from the messages, so the last one with the id counts.
abbrev pub or_else : Option Message → Option Message → Option Message
or_else none o = o
or_else (some m) o = some m

abbrev pub by_id : List Message → ℕ → Option Message
by_id [] id = none
by_id (m ∷ messages) id = or_else (by_id messages id) (if m.id == id then some m else none)

abbrev pub append_to : Option (List Message) → Message → Option (List Message)
append_to none m = none
append_to (some chain) m = some (chain ++ (m ∷ []))

-- The loop and the final `reverse`: the messages from the root to `cur`. The loop does not end on a
-- cycle of parents; none is no result within the fuel.
unfoldable pub chain_to : ℕ → List Message → Option ℕ → Option (List Message)
chain_to fuel messages none = some []
chain_to zero messages (some id) = none
chain_to (suc fuel) messages (some id) = elim (by_id messages id) [
  | none ↦ some []
  | some m ↦ append_to (chain_to fuel messages m.parent_id) m
]

-- One round for each message and one more.
unfoldable pub active_chain : List Message → Option ℕ → Option (List Message)
unfolding chain_to
active_chain messages none = some messages
active_chain messages (some end) = elim (by_id messages end) [
  | none ↦ some messages
  | some _ ↦ chain_to (length messages + 1) messages (some end)
]
