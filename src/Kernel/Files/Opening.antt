-- ===== src/Kernel/Files/Opening.antt =====
-- `FileStorage::open` (src/kernel/plugin/storage/file/mod.rs): the migration of the session files
-- (src/kernel/plugin/storage/file/migrate.rs) and then the reading. The keys that the migration draws
-- and its time are arguments; its own writes and renames succeed. A file that it has written is not
-- split again, and the original, under its new name, is not read. The file of the mistakes is not
-- modelled.
use mistake_agent.Prelude.{
  ℕ, suc, ◌≡◌, ◌≤◌, ◌==◌, lookup, Option, none, some, List, [], ◌∷◌, ◌++◌, leb, if◌then◌else◌,
}
use mistake_agent.Relay.Text.{Text, lines}
use mistake_agent.Kernel.Messages.{Message, SessionMeta}
use mistake_agent.Kernel.Store.{Inner}
use mistake_agent.Kernel.Files.{SessionJson, serialize_session, read_messages, load_files}
use mistake_agent.Kernel.Migration.{split_segments, is_blank, filled, build_segment}

-- The number of topics in the messages of a session: of its segments that are not empty.
abbrev pub filled_of : Option (List (List Message)) → ℕ
filled_of none = 0
filled_of (some groups) = filled groups

unfoldable pub topics : List Message → ℕ
unfolding split_segments
topics messages = filled_of (split_segments messages)

-- Each session has one topic at most.
abbrev pub AreSingle : Inner → Type 0
AreSingle s = (k : ℕ) (ms : List Message) → lookup ◌==◌ k s.messages ≡ some ms → topics ms ≤ 1

-- `new_key` gives the key of the segment with the number in the file with the name.
module _ (J : SessionJson) (new_key : ℕ → ℕ → ℕ) (now : ℕ) where
  abbrev segment_file : SessionMeta × List Message → ℕ × Text
  segment_file (meta, messages) = (meta.key, serialize_session J meta messages)

  abbrev segment_files : ℕ → SessionMeta → ℕ → List (List Message) → List (ℕ × Text)
  segment_files name old idx [] = []
  segment_files name old idx (g ∷ groups) =
      let rest = segment_files name old (suc idx) groups in
      if is_blank g
      then rest
      else segment_file (build_segment idx g old (new_key name idx) now) ∷ rest

  -- A file with one topic at most stays as it is; the `none` would be the panic.
  abbrev pub split_file : ℕ × Text → SessionMeta → Option (List (List Message)) → List (ℕ × Text)
  split_file e old none = e ∷ []
  split_file e old (some groups) =
      if leb (filled groups) 1 then e ∷ [] else segment_files e.0 old 0 groups

  abbrev pub with_meta : ℕ × Text → List Text → Option SessionMeta → List (ℕ × Text)
  with_meta e rest none = e ∷ []
  with_meta e rest (some old) = split_file e old (split_segments (read_messages J rest))

  abbrev pub with_lines : ℕ × Text → List Text → List (ℕ × Text)
  with_lines e [] = e ∷ []
  with_lines e (meta_line ∷ rest) = with_meta e rest (J.read_meta meta_line)

  -- What is there in place of one file.
  unfoldable pub migrate_file : ℕ × Text → List (ℕ × Text)
  unfolding build_segment split_segments serialize_session
  migrate_file e = with_lines e (lines e.1)

  unfoldable pub migrate_legacy_sessions : List (ℕ × Text) → List (ℕ × Text)
  unfolding migrate_file
  migrate_legacy_sessions [] = []
  migrate_legacy_sessions (e ∷ files) = migrate_file e ++ migrate_legacy_sessions files

  unfoldable pub open_files : List (ℕ × Text) → Inner
  unfolding migrate_legacy_sessions load_files
  open_files files = load_files J (migrate_legacy_sessions files)
