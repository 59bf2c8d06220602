-- ===== src/Kernel/Messages.antt =====
-- src/kernel/message.rs, src/kernel/agent/session/mod.rs: messages and sessions.
-- Identifiers and instants are natural numbers. The JSON values of a tool call and the image bytes
-- that are kept in memory only are left out: nothing modelled reads them.
use mistake_agent.Prelude.{ℕ, Option, none, Bool, true, false}
use mistake_agent.Prelude.{List}
use mistake_agent.Relay.Text.{Text}

pub record AttachmentRef : Type 0 where
  pub name : Text
  pub mime : Text
  pub display_name : Option Text

pub data MessageKind : Type 0 where
  user : Text → Option Text → List AttachmentRef → MessageKind
  assistant : Text → MessageKind
  tool_call : Text → Text → MessageKind
  reasoning : Text → Text → MessageKind
  system : Text → Option Text → MessageKind

pub record Message : Type 0 where
  pub id : ℕ
  pub parent_id : Option ℕ
  pub kind : MessageKind
  pub created_at : ℕ

pub record Goal : Type 0 where
  pub text : Text

pub data SessionStatus : Type 0 where
  active archived : SessionStatus

pub record SessionMeta : Type 0 where
  pub key : ℕ
  pub goal : Option Goal
  pub title : Option Text
  pub status : SessionStatus
  pub created_at : ℕ
  pub archived_at : Option ℕ
  pub last_activity_at : ℕ
  pub active_path : Option ℕ

-- `SessionMeta::new`.
unfoldable pub new_meta : ℕ → ℕ → SessionMeta
new_meta key now = record {
  key = key;
  goal = none;
  title = none;
  status = active;
  created_at = now;
  archived_at = none;
  last_activity_at = now;
  active_path = none;
}

abbrev pub is_active : SessionStatus → Bool
is_active active = true
is_active archived = false
