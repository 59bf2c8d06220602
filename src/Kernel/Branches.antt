-- ===== src/Kernel/Branches.antt =====
-- src/kernel/plugin/storage/mem.rs: the operations on the branches of a session's message tree.
use mistake_agent.Prelude.{
  ℕ, Option, none, some, List, [], ◌∷◌, ◌++◌, ◌==◌, if◌then◌else◌, any, lookup, put,
}
use mistake_agent.Prelude.Results.{ok}
use mistake_agent.Relay.Text.{Text}
use mistake_agent.Kernel.Messages.{MessageKind, user, Message}
use mistake_agent.Kernel.Chain.{active_chain}
use mistake_agent.Kernel.Store.{
  session_not_found, not_on_active_path, only_user_messages, no_such_message, no_tail, out_of_fuel,
  Action, return, fail, ◌>>=◌, ok_or, path_of, append_message, set_active_path, read_all,
}

abbrev pub after_head : Message → Option (List Message × Message) → Option (List Message × Message)
after_head m none = none
after_head m (some (front, x)) = some (m ∷ front, x)

-- The messages before the one with the id, and that message: `position` and the two slices.
abbrev pub split_at : ℕ → List Message → Option (List Message × Message)
split_at id [] = none
split_at id (m ∷ chain) = if m.id == id then some ([], m) else after_head m (split_at id chain)

-- Only a user's message can be edited; its attachments stay.
abbrev pub edited : Text → MessageKind → Option MessageKind
edited text (user old display refs) = some (user text none refs)
edited text _ = none

unfoldable pub derive_branch : ℕ → ℕ → Text → ℕ → ℕ → Action (List Message)
unfolding active_chain append_message set_active_path
derive_branch key message_id text new_id now s =
    (ok_or (session_not_found key) (lookup ◌==◌ key s.messages) >>= λ messages.
    ok_or out_of_fuel (active_chain messages (path_of (lookup ◌==◌ key s.sessions))) >>= λ chain.
    ok_or not_on_active_path (split_at message_id chain) >>= λ found.
    ok_or only_user_messages (edited text found.1.kind) >>= λ kind.
    let new_msg : Message = record {
      id = new_id;
      parent_id = found.1.parent_id;
      kind = kind;
      created_at = now;
    } in
    append_message key new_msg >>= λ _.
    set_active_path key (some new_id) >>= λ _. return (found.0 ++ (new_msg ∷ [])))
      s

abbrev pub switch_to : ℕ → ℕ → List Message → Action (List Message)
switch_to key message_id chain = set_active_path key (some message_id) >>= λ _. return chain

abbrev pub switch_found : ℕ → ℕ → List Message → Action (List Message)
switch_found key message_id messages =
    if any (λ m. m.id == message_id) messages
    then (ok_or out_of_fuel (active_chain messages (some message_id)) >>= switch_to key message_id)
    else fail no_such_message

unfoldable pub switch_branch : ℕ → ℕ → Action (List Message)
unfolding active_chain read_all set_active_path
switch_branch key message_id = read_all key >>= λ messages. switch_found key message_id messages

abbrev pub keep_head : Message → Option (List Message) → Option (List Message)
keep_head m none = none
keep_head m (some path) = some (m ∷ path)

-- The first message with the id hangs below `parent`.
abbrev pub rehang : ℕ → ℕ → List Message → Option (List Message)
rehang id parent [] = none
rehang id parent (m ∷ path) =
    let rest = rehang id parent path in
    if m.id == id then some (record m { parent_id = some parent } ∷ path) else keep_head m rest

unfoldable pub splice_compaction : ℕ → Message → ℕ → Action (Unit {0})
splice_compaction key summary tail_start s =
    (ok_or (session_not_found key) (lookup ◌==◌ key s.messages) >>= λ path.
    ok_or no_tail (rehang tail_start summary.id path) >>= λ spliced.
    λ t. (ok tt, record t { messages = put ◌==◌ key (spliced ++ (summary ∷ [])) t.messages }))
      s
