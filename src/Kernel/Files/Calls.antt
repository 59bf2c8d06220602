-- ===== src/Kernel/Files/Calls.antt =====
-- The calls of the session store that change it, as data: on the store in memory
-- (src/kernel/plugin/storage/mem.rs) and on the files (src/kernel/plugin/storage/file/mod.rs).
use mistake_agent.Prelude.{ℕ, ◌≡◌, Option, List, [], ◌∷◌}
use mistake_agent.Prelude.Results.{Result, ok, err}
use mistake_agent.Relay.Text.{Text}
use mistake_agent.Kernel.Messages.{Message, Goal, SessionMeta}
use mistake_agent.Kernel.Store.{Inner, StorageError, Action}
use mistake_agent.Kernel.Store
use mistake_agent.Kernel.Store.Local.{Fits, IsLocal}
use mistake_agent.Kernel.Store.Local.Calls.{
  create_session-IsLocal, append_message-IsLocal, set_active_path-IsLocal, derive_branch-IsLocal,
  switch_branch-IsLocal, splice_compaction-IsLocal, set_goal-IsLocal, set_title-IsLocal,
  archive-IsLocal, activate-IsLocal, set_last_activity-IsLocal,
}
use mistake_agent.Kernel.Branches
use mistake_agent.Kernel.Files
use mistake_agent.Kernel.Files.{SessionJson, FileStorage, FileError, storage, io_error, FileAction}

-- The calls on one session that leave it there; `SessionStore::remove_session` is apart.
pub data Call : Type 0 where
  creates : ℕ → SessionMeta → Call
  appends : ℕ → Message → Call
  sets_path : ℕ → Option ℕ → Call
  derives : ℕ → ℕ → Text → ℕ → ℕ → Call
  switches : ℕ → ℕ → Call
  splices : ℕ → Message → ℕ → Call
  sets_goal : ℕ → Goal → Call
  sets_title : ℕ → Option Text → Call
  archives : ℕ → ℕ → Call
  activates : ℕ → Call
  touches : ℕ → ℕ → Call

abbrev pub key_of : Call → ℕ
key_of (creates key meta) = key
key_of (appends key msg) = key
key_of (sets_path key id) = key
key_of (derives key id text new_id now) = key
key_of (switches key id) = key
key_of (splices key summary tail) = key
key_of (sets_goal key goal) = key
key_of (sets_title key title) = key
key_of (archives now key) = key
key_of (activates key) = key
key_of (touches key at) = key

-- A new session is created under its own key, as the scheduler does it.
abbrev pub IsKeyedCall : Call → Type 0
IsKeyedCall (creates key meta) = meta.key ≡ key
IsKeyedCall _ = Unit {0}

-- What a call answers: the path of the messages, empty where it answers nothing.
abbrev pub reply :
    Result StorageError (Unit {0}) × Inner → Result StorageError (List Message) × Inner
reply (err e, s) = (err e, s)
reply (ok u, s) = (ok [], s)

abbrev pub file_reply :
    Result FileError (Unit {0}) × FileStorage → Result FileError (List Message) × FileStorage
file_reply (err e, fs) = (err e, fs)
file_reply (ok u, fs) = (ok [], fs)

unfoldable pub in_memory : Call → Action (List Message)
unfolding Store.create_session Store.append_message Store.set_active_path Branches.derive_branch
    Branches.switch_branch Branches.splice_compaction Store.set_goal Store.set_title Store.archive
    Store.activate Store.set_last_activity
in_memory (creates key meta) s = reply (Store.create_session key meta s)
in_memory (appends key msg) s = reply (Store.append_message key msg s)
in_memory (sets_path key id) s = reply (Store.set_active_path key id s)
in_memory (derives key id text new_id now) s = Branches.derive_branch key id text new_id now s
in_memory (switches key id) s = Branches.switch_branch key id s
in_memory (splices key summary tail) s = reply (Branches.splice_compaction key summary tail s)
in_memory (sets_goal key goal) s = reply (Store.set_goal key goal s)
in_memory (sets_title key title) s = reply (Store.set_title key title s)
in_memory (archives now key) s = reply (Store.archive now key s)
in_memory (activates key) s = reply (Store.activate key s)
in_memory (touches key at) s = reply (Store.set_last_activity key at s)

unfoldable pub in_files : SessionJson → Call → FileAction (List Message)
unfolding Files.create_session Files.append_message Files.set_active_path Files.derive_branch
    Files.switch_branch Files.splice_compaction Files.set_goal Files.set_title Files.archive
    Files.activate Files.set_last_activity
in_files J (creates key meta) io fs = file_reply (Files.create_session J key meta io fs)
in_files J (appends key msg) io fs = file_reply (Files.append_message J key msg io fs)
in_files J (sets_path key id) io fs = file_reply (Files.set_active_path J key id io fs)
in_files J (derives key id text new_id now) io fs =
    Files.derive_branch J key id text new_id now io fs
in_files J (switches key id) io fs = Files.switch_branch J key id io fs
in_files J (splices key summary tail) io fs =
    file_reply (Files.splice_compaction J key summary tail io fs)
in_files J (sets_goal key goal) io fs = file_reply (Files.set_goal J key goal io fs)
in_files J (sets_title key title) io fs = file_reply (Files.set_title J key title io fs)
in_files J (archives now key) io fs = file_reply (Files.archive J now key io fs)
in_files J (activates key) io fs = file_reply (Files.activate J key io fs)
in_files J (touches key at) io fs = file_reply (Files.set_last_activity J key at io fs)

reply-IsLocal :
    (key : ℕ) (s : Inner) (r : Result StorageError (Unit {0}) × Inner)
    → IsLocal key s r
    → IsLocal key s (reply r)
reply-IsLocal key s (err e, t) h = h
reply-IsLocal key s (ok u, t) h = h

-- Each of the calls on one session that leave it there, in memory: it changes at most the session
-- with its key, and nothing where it fails. Before it, each session has its own key and its messages,
-- and a created session carries its own key.
pub in_memory-IsLocal :
    (c : Call) (s : Inner) → IsKeyedCall c → Fits s → IsLocal (key_of c) s (in_memory c s)
unfolding in_memory
in_memory-IsLocal (creates key meta) s k f =
    reply-IsLocal key s _ (create_session-IsLocal key meta s k)
in_memory-IsLocal (appends key msg) s k f =
    reply-IsLocal key s _ (append_message-IsLocal key msg s f)
in_memory-IsLocal (sets_path key id) s k f =
    reply-IsLocal key s _ (set_active_path-IsLocal key id s f)
in_memory-IsLocal (derives key id text new_id now) s k f =
    derive_branch-IsLocal key id text new_id now s f
in_memory-IsLocal (switches key id) s k f = switch_branch-IsLocal key id s f
in_memory-IsLocal (splices key summary tail) s k f =
    reply-IsLocal key s _ (splice_compaction-IsLocal key summary tail s f)
in_memory-IsLocal (sets_goal key goal) s k f = reply-IsLocal key s _ (set_goal-IsLocal key goal s f)
in_memory-IsLocal (sets_title key title) s k f =
    reply-IsLocal key s _ (set_title-IsLocal key title s f)
in_memory-IsLocal (archives now key) s k f = reply-IsLocal key s _ (archive-IsLocal now key s f)
in_memory-IsLocal (activates key) s k f = reply-IsLocal key s _ (activate-IsLocal key s f)
in_memory-IsLocal (touches key at) s k f =
    reply-IsLocal key s _ (set_last_activity-IsLocal key at s f)

-- A history of calls in memory, with the answers.
abbrev pub run_memory : List Call → Inner → List (Result StorageError (List Message)) × Inner
run_memory [] s = ([], s)
run_memory (c ∷ cs) s =
    let first = in_memory c s in let rest = run_memory cs first.1 in (first.0 ∷ rest.0, rest.1)
