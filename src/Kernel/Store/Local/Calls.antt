-- ===== src/Kernel/Store/Local/Calls.antt =====
-- Each call of src/kernel/plugin/storage/mem.rs on one session touches only that session.
use mistake_agent.Prelude.{
  ℕ, ◌≡◌, refl, Option, none, some, List, [], ◌∷◌, ◌++◌, ◌==◌, ==_iff, any, lookup, Bool-cases, inl,
  inr, lookup-put, lookup-put_other,
}
use mistake_agent.Relay.Text.{Text}
use mistake_agent.Kernel.Messages.{Message, Goal, SessionMeta, active, archived}
use mistake_agent.Kernel.Chain.{active_chain}
use mistake_agent.Kernel.Store.{
  Inner, StorageError, session_not_found, Action, ◌>>=◌, ok_or, has_key, create_session,
  push_message, append_message, set_active_path, set_goal, set_title, clean_title, archive,
  activate, set_last_activity, or_empty, path_of, read_all, not_on_active_path, only_user_messages,
  no_tail, out_of_fuel,
}
use mistake_agent.Kernel.Branches.{
  derive_branch, switch_branch, splice_compaction, split_at, edited, rehang, switch_found,
}
use mistake_agent.Kernel.Store.Local.{
  Fits, IsPresent, IsLocal, IsDone, IsUntouched-refl, IsPresent-messages, done-IsLocal,
  IsDone-continue, update_meta-IsLocal, update_meta-IsDone, IsPresent-put, IsUntouched-put,
}

-- The calls that change the session's entry.
pub set_active_path-IsLocal :
    (key : ℕ) (id : Option ℕ) (s : Inner) → Fits s → IsLocal key s (set_active_path key id s)
unfolding set_active_path
set_active_path-IsLocal key id s =
    update_meta-IsLocal key (λ m. record m { active_path = id }) s (λ m. refl)

set_active_path-IsDone :
    (key : ℕ) (id : Option ℕ) (s : Inner)
    → IsPresent key s
    → IsDone key s (set_active_path key id s)
unfolding set_active_path
set_active_path-IsDone key id s =
    update_meta-IsDone key (λ m. record m { active_path = id }) s (λ m. refl)

pub set_goal-IsLocal :
    (key : ℕ) (goal : Goal) (s : Inner) → Fits s → IsLocal key s (set_goal key goal s)
unfolding set_goal
set_goal-IsLocal key goal s =
    update_meta-IsLocal key (λ m. record m { goal = some goal }) s (λ m. refl)

pub set_title-IsLocal :
    (key : ℕ) (title : Option Text) (s : Inner) → Fits s → IsLocal key s (set_title key title s)
unfolding set_title
set_title-IsLocal key title s =
    update_meta-IsLocal key (λ m. record m { title = clean_title title }) s (λ m. refl)

pub archive-IsLocal : (now key : ℕ) (s : Inner) → Fits s → IsLocal key s (archive now key s)
unfolding archive
archive-IsLocal now key s =
    update_meta-IsLocal key (λ m. record m { status = archived; archived_at = some now }) s
      (λ m. refl)

pub activate-IsLocal : (key : ℕ) (s : Inner) → Fits s → IsLocal key s (activate key s)
unfolding activate
activate-IsLocal key s =
    update_meta-IsLocal key (λ m. record m { status = active; archived_at = none }) s (λ m. refl)

pub set_last_activity-IsLocal :
    (key at : ℕ) (s : Inner) → Fits s → IsLocal key s (set_last_activity key at s)
unfolding set_last_activity
set_last_activity-IsLocal key at s =
    update_meta-IsLocal key (λ m. record m { last_activity_at = at }) s (λ m. refl)

pub create_session-IsLocal :
    (key : ℕ) (meta : SessionMeta) (s : Inner)
    → meta.key ≡ key
    → IsLocal key s (create_session key meta s)
unfolding create_session
create_session-IsLocal key meta s keyed = elim (Bool-cases (has_key key s)) [
  | inl t ↦ rw t refl
  | inr n ↦ rw n (
    (
      (meta, lookup-put ◌==◌ ==_iff key meta s.sessions, keyed),
      ([], lookup-put ◌==◌ ==_iff key [] s.messages),
    ),
    λ k d. (
      lookup-put_other ◌==◌ ==_iff k key meta s.sessions d,
      lookup-put_other ◌==◌ ==_iff k key [] s.messages d,
    ),
  )
]

push_message-IsDone :
    (key : ℕ) (msg : Message) (s : Inner) (found : Option (List Message))
    → lookup ◌==◌ key s.messages ≡ found
    → Fits s
    → IsLocal key s (push_message key msg found s)
push_message-IsDone key msg s none e fits = refl
push_message-IsDone key msg s (some path) e fits = (
  IsPresent-put key (path ++ (msg ∷ [])) s (IsPresent-messages key s path fits e),
  IsUntouched-put key (path ++ (msg ∷ [])) s,
)

pub append_message-IsLocal :
    (key : ℕ) (msg : Message) (s : Inner) → Fits s → IsLocal key s (append_message key msg s)
unfolding append_message
append_message-IsLocal key msg s = push_message-IsDone key msg s (lookup ◌==◌ key s.messages) refl

append_message-IsDone :
    (key : ℕ) (msg : Message) (s : Inner)
    → IsPresent key s
    → IsDone key s (append_message key msg s)
unfolding append_message
append_message-IsDone key msg s (here, (ms, found)) = rw found (
  IsPresent-put key (ms ++ (msg ∷ [])) s (here, (ms, found)),
  IsUntouched-put key (ms ++ (msg ∷ [])) s,
)

-- A value that is missing ends the call before it changes anything.
ok_or-IsLocal :
    {A B : Type 0} (key : ℕ) (s : Inner) (e : StorageError) (o : Option A) (k : A → Action B)
    → ((a : A) → o ≡ some a → IsLocal key s (k a s))
    → IsLocal key s ((ok_or e o >>= k) s)
ok_or-IsLocal key s e none k f = refl
ok_or-IsLocal key s e (some a) k f = f a refl

pub derive_branch-IsLocal :
    (key message_id : ℕ) (text : Text) (new_id now : ℕ) (s : Inner)
    → Fits s
    → IsLocal key s (derive_branch key message_id text new_id now s)
unfolding derive_branch
derive_branch-IsLocal key message_id text new_id now s fits =
    ok_or-IsLocal key s (session_not_found key) (lookup ◌==◌ key s.messages) _ (λ messages there.
      ok_or-IsLocal key s out_of_fuel (active_chain messages (path_of (lookup ◌==◌ key s.sessions)))
        _
        (λ chain _. ok_or-IsLocal key s not_on_active_path (split_at message_id chain) _ (λ found _.
          ok_or-IsLocal key s only_user_messages (edited text found.1.kind) _ (λ kind _.
            done-IsLocal key s _ (
              IsDone-continue key s _ _
                (append_message-IsDone key _ s (IsPresent-messages key s messages fits there))
                (λ _ t present.
                  IsDone-continue key t _ _ (set_active_path-IsDone key (some new_id) t present)
                    (λ _ u here. (here, IsUntouched-refl key u))))))))

pub switch_branch-IsLocal :
    (key message_id : ℕ) (s : Inner) → Fits s → IsLocal key s (switch_branch key message_id s)
unfolding switch_branch read_all
switch_branch-IsLocal key message_id s fits = by_messages (lookup ◌==◌ key s.messages) refl
  where
    by_messages :
        (o : Option (List Message))
        → lookup ◌==◌ key s.messages ≡ o
        → IsLocal key s (switch_found key message_id (or_empty o) s)
    by_messages none e = refl
    by_messages (some ms) e = elim (Bool-cases (any (λ m. m.id == message_id) ms)) [
      | inl t ↦ rw t (
          ok_or-IsLocal key s out_of_fuel (active_chain ms (some message_id)) _ (λ chain _.
            done-IsLocal key s _ (
              IsDone-continue key s _ _
                (set_active_path-IsDone key (some message_id) s
                  (IsPresent-messages key s ms fits e))
                (λ _ u here. (here, IsUntouched-refl key u)))))
      | inr n ↦ rw n refl
    ]

pub splice_compaction-IsLocal :
    (key : ℕ) (summary : Message) (tail_start : ℕ) (s : Inner)
    → Fits s
    → IsLocal key s (splice_compaction key summary tail_start s)
unfolding splice_compaction
splice_compaction-IsLocal key summary tail_start s fits =
    ok_or-IsLocal key s (session_not_found key) (lookup ◌==◌ key s.messages) _ (λ path there.
      ok_or-IsLocal key s no_tail (rehang tail_start summary.id path) _ (λ spliced _. (
        IsPresent-put key (spliced ++ (summary ∷ [])) s (IsPresent-messages key s path fits there),
        IsUntouched-put key (spliced ++ (summary ∷ [])) s,
      )))
