-- ===== src/Kernel/Files.antt =====
-- src/kernel/plugin/storage/file/mod.rs: the session store in files, one `<key>.jsonl` for a session.
-- The store keeps what the store in memory keeps, changes it by the same code, and then writes. The
-- files are a map from the session's key to the text. A session is written at once (a temporary file
-- is renamed), and a write that fails leaves the file as it was; a message is added to the file, and
-- a write that fails can leave a part of the line there, cut between two characters, or a new file.
-- The argument `io` says how the write of the call ends. Calls come one after the other: the source
-- gives the mutex back between the change and the write, and calls that overlap are not modelled.
pub mod Format
pub mod Calls
pub mod Synced
pub mod Writes
pub mod Follows
pub mod Unwritten
pub mod Opening
pub mod Reload
pub mod Removing
use mistake_agent.Prelude.{
  ℕ, zero, suc, Option, none, some, Bool, true, false, List, [], ◌∷◌, ◌++◌, ◌==◌, if◌then◌else◌,
  any, lookup, put, remove,
}
use mistake_agent.Prelude.Results.{Result, ok, err}
use mistake_agent.Relay.Text.{Text, is_empty, trim, lines}
use mistake_agent.Relay.Probe.{split_line}
use mistake_agent.Kernel.Messages.{Message, Goal, SessionMeta}
use mistake_agent.Kernel.Store.{Inner, StorageError, session_not_found, Action, or_empty}
use mistake_agent.Kernel.Store
use mistake_agent.Kernel.Branches

-- `serde_json::to_string` and `from_str` for the two types of a session file.
pub record SessionJson : Type 0 where
  pub write_meta : SessionMeta → Text
  pub read_meta : Text → Option SessionMeta
  pub write_message : Message → Text
  pub read_message : Text → Option Message

pub record FileStorage : Type 0 where
  pub inner : Inner
  pub files : List (ℕ × Text)

-- The write succeeds; it fails before anything of the file is changed; or an append breaks off after
-- this many characters of the line.
pub data Io : Type 0 where
  succeeds : Io
  fails : Io
  breaks_off : ℕ → Io

abbrev pub succeeded : Io → Bool
succeeded succeeds = true
succeeded fails = false
succeeded (breaks_off n) = false

abbrev take : ℕ → Text → Text
take zero t = []
take (suc n) [] = []
take (suc n) (c ∷ t) = c ∷ take n t

-- What of the line `append_line` has put into the file; none where the file was not opened.
abbrev pub appended : Io → Text → Option Text
appended succeeds line = some line
appended fails line = none
appended (breaks_off n) line = some (take n line)

pub data FileError : Type 0 where
  storage : StorageError → FileError
  io_error : FileError

abbrev pub FileAction : Type 0 → Type 0
FileAction A = Io → FileStorage → Result FileError A × FileStorage

abbrev drop_first : List Text → List Text
drop_first [] = []
drop_first (l ∷ ls) = ls

module _ (J : SessionJson) where
  abbrev pub write_messages : List Message → Text
  write_messages [] = []
  write_messages (m ∷ ms) = J.write_message m ++ 10 ∷ write_messages ms

  -- The text that `persist_session_meta` writes.
  unfoldable pub serialize_session : SessionMeta → List Message → Text
  serialize_session meta messages = J.write_meta meta ++ 10 ∷ write_messages messages

  abbrev pub keep_read : Option Message → List Message → List Message
  keep_read none ms = ms
  keep_read (some m) ms = m ∷ ms

  -- `filter(|l| !l.trim().is_empty()).filter_map(|l| from_str(l).ok())`.
  abbrev pub read_messages : List Text → List Message
  read_messages [] = []
  read_messages (l ∷ ls) =
      let rest = read_messages ls in
      if is_empty (trim l) then rest else keep_read (J.read_message l) rest

  abbrev pub read_body : Text → Option SessionMeta → Option (SessionMeta × List Message)
  read_body text none = none
  read_body text (some meta) = some (meta, read_messages (drop_first (lines text)))

  abbrev pub read_head : Text → Option (Text × Text) → Option (SessionMeta × List Message)
  read_head text none = none
  read_head text (some (meta_line, rest)) = read_body text (J.read_meta meta_line)

  -- One file of `open`; none for a file that is passed over.
  unfoldable pub load_file : Text → Option (SessionMeta × List Message)
  load_file text = read_head text (split_line text)

  abbrev pub insert_loaded : Option (SessionMeta × List Message) → Inner → Inner
  insert_loaded none s = s
  insert_loaded (some (meta, messages)) s = record {
    sessions = put ◌==◌ meta.key meta s.sessions;
    messages = put ◌==◌ meta.key messages s.messages;
  }

  -- The loop of `open` over the files, which have different names: their order does not matter.
  unfoldable pub load_files : List (ℕ × Text) → Inner
  unfolding load_file
  load_files [] = record { sessions = []; messages = [] }
  load_files (e ∷ files) = insert_loaded (load_file e.1) (load_files files)

  abbrev pub persist_found :
      ℕ → Io → FileStorage → Option SessionMeta → Result FileError (Unit {0}) × FileStorage
  persist_found key io fs none = (err (storage (session_not_found key)), fs)
  persist_found key io fs (some meta) =
      if succeeded io
      then (
        ok tt,
        record fs {
          files =
              put ◌==◌ key (serialize_session meta (or_empty (lookup ◌==◌ key fs.inner.messages)))
                fs.files;
        },
      )
      else (err io_error, fs)

  unfoldable pub persist_session_meta : ℕ → FileAction (Unit {0})
  unfolding serialize_session
  persist_session_meta key io fs = persist_found key io fs (lookup ◌==◌ key fs.inner.sessions)

  abbrev answer :
      {A : Type 0}
      → A
      → Result FileError (Unit {0}) × FileStorage
      → Result FileError A × FileStorage
  answer a (err e, fs) = (err e, fs)
  answer a (ok u, fs) = (ok a, fs)

  -- What comes after the change in memory: an error of it is passed on, and the file written.
  abbrev pub then_persist :
      {A : Type 0}
      → ℕ
      → Io
      → FileStorage
      → Result StorageError A × Inner
      → Result FileError A × FileStorage
  then_persist key io fs (err e, s) = (err (storage e), record fs { inner = s })
  then_persist key io fs (ok a, s) =
      answer a (persist_session_meta key io (record fs { inner = s }))

  abbrev pub persisted : {A : Type 0} → ℕ → Action A → FileAction A
  persisted key change io fs = then_persist key io fs (change fs.inner)

  unfoldable pub create_session : ℕ → SessionMeta → FileAction (Unit {0})
  unfolding persist_session_meta Store.create_session
  create_session key meta = persisted key (Store.create_session key meta)

  abbrev pub append_found : ℕ → Text → Option Text → Text
  append_found key line none = line
  append_found key line (some text) = text ++ line

  -- `append_line`, which makes a file that is not there.
  abbrev pub append_line : ℕ → Option Text → List (ℕ × Text) → List (ℕ × Text)
  append_line key none files = files
  append_line key (some part) files =
      put ◌==◌ key (append_found key part (lookup ◌==◌ key files)) files

  abbrev pub ended : Io → FileStorage → Result FileError (Unit {0}) × FileStorage
  ended io fs = if succeeded io then (ok tt, fs) else (err io_error, fs)

  abbrev pub then_append :
      ℕ
      → Text
      → Io
      → FileStorage
      → Result StorageError (Unit {0}) × Inner
      → Result FileError (Unit {0}) × FileStorage
  then_append key line io fs (err e, s) = (err (storage e), record fs { inner = s })
  then_append key line io fs (ok u, s) =
      ended io (record { inner = s; files = append_line key (appended io line) fs.files })

  unfoldable pub append_message : ℕ → Message → FileAction (Unit {0})
  unfolding Store.append_message
  append_message key msg io fs =
      then_append key (J.write_message msg ++ 10 ∷ []) io fs (Store.append_message key msg fs.inner)

  unfoldable pub set_active_path : ℕ → Option ℕ → FileAction (Unit {0})
  unfolding persist_session_meta Store.set_active_path
  set_active_path key message_id = persisted key (Store.set_active_path key message_id)

  unfoldable pub derive_branch : ℕ → ℕ → Text → ℕ → ℕ → FileAction (List Message)
  unfolding persist_session_meta Branches.derive_branch
  derive_branch key message_id text new_id now =
      persisted key (Branches.derive_branch key message_id text new_id now)

  -- The check, the chain and the new active path, which is written.
  unfoldable pub switch_branch : ℕ → ℕ → FileAction (List Message)
  unfolding persist_session_meta Branches.switch_branch
  switch_branch key message_id = persisted key (Branches.switch_branch key message_id)

  unfoldable pub splice_compaction : ℕ → Message → ℕ → FileAction (Unit {0})
  unfolding persist_session_meta Branches.splice_compaction
  splice_compaction key summary tail_start =
      persisted key (Branches.splice_compaction key summary tail_start)

  unfoldable pub set_goal : ℕ → Goal → FileAction (Unit {0})
  unfolding persist_session_meta Store.set_goal
  set_goal key goal = persisted key (Store.set_goal key goal)

  unfoldable pub set_title : ℕ → Option Text → FileAction (Unit {0})
  unfolding persist_session_meta Store.set_title
  set_title key title = persisted key (Store.set_title key title)

  unfoldable pub archive : ℕ → ℕ → FileAction (Unit {0})
  unfolding persist_session_meta Store.archive
  archive now key = persisted key (Store.archive now key)

  unfoldable pub activate : ℕ → FileAction (Unit {0})
  unfolding persist_session_meta Store.activate
  activate key = persisted key (Store.activate key)

  unfoldable pub set_last_activity : ℕ → ℕ → FileAction (Unit {0})
  unfolding persist_session_meta Store.set_last_activity
  set_last_activity key at = persisted key (Store.set_last_activity key at)

abbrev pub remove_file :
    ℕ → Io → FileStorage → Option Text → Result FileError (Unit {0}) × FileStorage
remove_file key io fs none = (ok tt, fs)
remove_file key io fs (some text) =
    if succeeded io
    then (ok tt, record fs { files = remove ◌==◌ key fs.files })
    else (err io_error, fs)

abbrev pub then_remove :
    ℕ
    → Io
    → FileStorage
    → Result StorageError (Unit {0}) × Inner
    → Result FileError (Unit {0}) × FileStorage
then_remove key io fs (err e, s) = (err (storage e), record fs { inner = s })
then_remove key io fs (ok u, s) =
    remove_file key io (record fs { inner = s }) (lookup ◌==◌ key fs.files)

unfoldable pub remove_session : ℕ → FileAction (Unit {0})
unfolding Store.remove_session
remove_session key io fs = then_remove key io fs (Store.remove_session key fs.inner)
