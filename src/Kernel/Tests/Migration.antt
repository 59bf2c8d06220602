-- ===== src/Kernel/Tests/Migration.antt =====
-- Runs of the migration of session files (src/kernel/plugin/storage/file/migrate.rs).
use mistake_agent.Prelude.{
  ℕ, suc, ◌+◌, ◌-◌, ◌*◌, find, map, ◌≡◌, refl, Option, none, some, Bool, List, [], ◌∷◌, length,
  ◌==◌, lookup,
}
use mistake_agent.Relay.Text.{Text, codes}
use mistake_agent.Kernel.Messages.{
  MessageKind, user, assistant, system, Message, SessionMeta, active,
}
use mistake_agent.Kernel.Store.{Inner, or_empty}
use mistake_agent.Kernel.Files.{SessionJson, serialize_session}
use mistake_agent.Kernel.Files.Opening.{open_files}
use mistake_agent.Kernel.Branches.{splice_compaction}
use mistake_agent.Kernel.Migration.{mark_boundaries, no_marks, split_segments, filled}
use mistake_agent.Kernel.Migration.Partition.{tally, total, split_segments-total}

abbrev message : ℕ → Option ℕ → MessageKind → Message
message id parent kind = record { id = id; parent_id = parent; kind = kind; created_at = id }

abbrev count_segments : Option (List (List Message)) → ℕ
count_segments none = 0
count_segments (some groups) = filled groups

-- A session that starts with the summary of the one before it is left alone.
abbrev handed_over : List Message
handed_over =
    message 1 none (system (codes "上一会话梗概：x") none)
    ∷ message 2 (some 1) (user (codes "a") none [])
    ∷ message 3 (some 2) (assistant (codes "b"))
    ∷ message 4 (some 3) (user (codes "c") none [])
    ∷ []

left_alone : count_segments (split_segments handed_over) ≡ 1
unfolding split_segments
left_alone = refl

-- The summary of a compaction hangs below nothing, and the rest of the conversation below it.
abbrev compacted : List Message
compacted = or_empty (
    lookup ◌==◌ 7
      (splice_compaction 7 (message 9 none (system (codes "上下文压缩摘要：y") none)) 4
        (record { sessions = []; messages = (7, handed_over) ∷ [] })).1.messages)

-- After the compaction the same session is split in two at the next start.
split_after_compaction : count_segments (split_segments compacted) ≡ 2
unfolding split_segments splice_compaction
split_after_compaction = refl

abbrev old_meta : SessionMeta
old_meta = record {
  key = 7;
  goal = none;
  title = none;
  status = active;
  created_at = 1;
  archived_at = none;
  last_activity_at = 4;
  active_path = some 4;
}

-- A format that keeps the keys and the numbers of the messages only.
abbrev keys_only : SessionJson
keys_only = record {
  write_meta = λ m. (m.key + 100) ∷ [];
  read_meta = λ t. elim t [ [] ↦ none | c ∷ rest ↦ some (record old_meta { key = c - 100 }) ];
  write_message = λ m. (m.id + 100) ∷ [];
  read_message = λ t. elim t [ [] ↦ none | c ∷ rest ↦ find (λ m. m.id == (c - 100)) compacted ];
}

abbrev compacted_file : List (ℕ × Text)
compacted_file = (7, serialize_session keys_only old_meta compacted) ∷ []

abbrev opened : Inner
opened = open_files keys_only (λ name idx. name * 100 + idx) 9 compacted_file

-- Its key is not there then, and its messages are under two new ones.
keys_after_start : map (λ (e : ℕ × SessionMeta). e.0) opened.sessions ≡ 700 ∷ 701 ∷ []
unfolding open_files splice_compaction serialize_session
keys_after_start = refl

split_segments-total_example :
    (groups : List (List Message)) × (split_segments handed_over ≡ some groups)
    × (length groups ≡ suc (mark_boundaries handed_over no_marks).boundary_count)
    × ((p : Message → Bool) → total p groups ≡ tally p handed_over)
split_segments-total_example = split_segments-total handed_over
