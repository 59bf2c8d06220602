-- ===== src/Kernel/Scheduler.antt =====
-- src/kernel/agent/session/scheduler.rs: the scheduler of sessions, over the store in memory.
-- The calls run one after the other. The summarizer is a parameter, as are new identifiers and the
-- current time; the events (a notice that a session was idle) are left out.
pub mod Single
pub mod Switch
pub mod Steps
use mistake_agent.Prelude.{
  ℕ, zero, suc, Option, none, some, Bool, true, false, not, List, [], ◌∷◌, ◌++◌, ◌==◌,
  if◌then◌else◌, find, retain, String,
}
use mistake_agent.Prelude.Results.{Result, ok, err}
use mistake_agent.Relay.Text.{Text, codes, is_empty, trim}
use mistake_agent.Kernel.Messages.{
  AttachmentRef, user, system, Message, Goal, SessionMeta, new_meta, is_active,
}
use mistake_agent.Kernel.Store.{
  Inner, StorageError, session_not_found, Action, return, fail, ◌>>=◌, get_session, append_message,
  read_path, read_all, set_active_path, archive, activate, list_sessions, set_last_activity,
}
use mistake_agent.Kernel.Store as Store

-- `chars().take(n)`.
abbrev pub take_chars : ℕ → Text → Text
take_chars zero t = []
take_chars (suc n) [] = []
take_chars (suc n) (c ∷ t) = c ∷ take_chars n t

-- The user's message, with its identifier and time.
pub record Said : Type 0 where
  pub id : ℕ
  pub text : Text
  pub display_text : Option Text
  pub attachment_refs : List AttachmentRef
  pub created_at : ℕ

abbrev pub goal_of : Text → Goal
goal_of text = record { text = take_chars 40 text }

pub record TurnContext : Type 0 where
  pub session_key : ℕ
  pub messages : List Message

pub record CreatedSession : Type 0 where
  pub key : ℕ
  pub archived : Option ℕ
  pub summary_attached : Bool

unfoldable pub create_session : ℕ → Option Goal → ℕ → Action (Unit {0})
unfolding new_meta
create_session key goal now =
    Store.create_session key
      (record (new_meta key now) { goal = goal; created_at = now; last_activity_at = now })

-- `path.last().map(|m| m.id)`.
abbrev pub last_id : List Message → Option ℕ
last_id [] = none
last_id (m ∷ []) = some m.id
last_id (m ∷ n ∷ path) = last_id (n ∷ path)

abbrev pub user_message : Said → List Message → Message
user_message said path = record {
  id = said.id;
  parent_id = last_id path;
  kind = user said.text said.display_text said.attachment_refs;
  created_at = said.created_at;
}

unfoldable pub append_user : ℕ → Said → Action TurnContext
unfolding read_path append_message set_active_path
append_user key said = read_path key >>= λ path.
    append_message key (user_message said path) >>= λ _. set_active_path key (some said.id) >>= λ _.
    read_path key >>= λ messages. return (record { session_key = key; messages = messages })

-- The same code as `append_user` follows the note of the activity.
unfoldable pub continue_in : SessionMeta → Said → ℕ → Action TurnContext
unfolding append_user set_last_activity
continue_in meta said now = set_last_activity meta.key now >>= λ _. append_user meta.key said

abbrev pub said_in : Option SessionMeta → Said → ℕ → ℕ → Action TurnContext
said_in none said new_key now =
    create_session new_key (some (goal_of said.text)) now >>= λ _. append_user new_key said
said_in (some meta) said new_key now = continue_in meta said now

unfoldable pub on_new_message : Said → ℕ → ℕ → Action TurnContext
unfolding list_sessions create_session continue_in
on_new_message said new_key now =
    list_sessions >>= λ metas. said_in (find (λ m. is_active m.status) metas) said new_key now

-- The loop of `archive_all_active`.
unfoldable pub archive_each : ℕ → List SessionMeta → Action (Unit {0})
unfolding archive
archive_each now [] = return tt
archive_each now (m ∷ metas) = archive now m.key >>= λ _. archive_each now metas

abbrev pub actives : List SessionMeta → List SessionMeta
actives metas = retain (λ m. is_active m.status) metas

unfoldable pub archive_all_active : ℕ → Action (Unit {0})
unfolding list_sessions archive_each
archive_all_active now = list_sessions >>= λ metas. archive_each now (actives metas)

abbrev pub open_found : ℕ → ℕ → Option SessionMeta → Action (Unit {0})
open_found key now none = fail (session_not_found key)
open_found key now (some _) = archive_all_active now >>= λ _. activate key

unfoldable pub open_existing : ℕ → ℕ → Action (Unit {0})
unfolding get_session archive_all_active activate
open_existing key now = get_session key >>= open_found key now

module _ (summarize : List Message → Option Goal → Text) where
  abbrev pub summary_of : Option Goal → List Message → Option Text
  summary_of goal [] = none
  summary_of goal (m ∷ messages) =
      let text = summarize (m ∷ messages) goal in if is_empty (trim text) then none else some text

  abbrev pub handoff : Bool → List SessionMeta → Action (Option Text)
  handoff false metas = return none
  handoff true [] = return none
  handoff true (old ∷ metas) = read_all old.key >>= λ all. return (summary_of old.goal all)

  abbrev pub goal_for : Option Goal → Option Text → Option Goal
  goal_for (some goal) summary = some goal
  goal_for none none = none
  goal_for none (some text) = some (goal_of text)

  abbrev pub summary_message : Text → ℕ → ℕ → Message
  summary_message text id now = record {
    id = id;
    parent_id = none;
    kind = system (codes "上一会话梗概：" ++ text) none;
    created_at = now;
  }

  abbrev pub attach : ℕ → Option Text → ℕ → ℕ → Action Bool
  attach key none id now = return false
  attach key (some text) id now = append_message key (summary_message text id now) >>= λ _.
      set_active_path key (some id) >>= λ _. return true

  abbrev pub first_key : List SessionMeta → Option ℕ
  first_key [] = none
  first_key (m ∷ metas) = some m.key

  unfoldable pub create_new_session : Option Goal → Bool → ℕ → ℕ → ℕ → Action CreatedSession
  unfolding list_sessions read_all archive_all_active create_session append_message set_active_path
  create_new_session goal carry_summary key summary_id now = list_sessions >>= λ metas.
      handoff carry_summary (actives metas) >>= λ summary. archive_all_active now >>= λ _.
      create_session key (goal_for goal summary) now >>= λ _.
      attach key summary summary_id now >>= λ attached.
      return
        (record { key = key; archived = first_key (actives metas); summary_attached = attached })
