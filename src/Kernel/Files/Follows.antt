-- ===== src/Kernel/Files/Follows.antt =====
-- The calls on the files do what the calls in memory do
-- (src/kernel/plugin/storage/file/mod.rs).
use mistake_agent.Prelude.{
  ℕ, ◌≡◌, ◌⊎◌, refl, List, [], ◌∷◌, inl, inr, ap, sym, subst, ◌∙◌, map, All,
}
use mistake_agent.Prelude.Results.{Result, ok, err}
use mistake_agent.Kernel.Messages.{Message}
use mistake_agent.Kernel.Store.{Inner, StorageError, append_message, or_empty}
use mistake_agent.Kernel.Store
use mistake_agent.Kernel.Branches
use mistake_agent.Kernel.Files.{
  SessionJson, FileStorage, Io, succeeds, FileError, storage, io_error, FileAction, then_persist,
  serialize_session, load_file, load_files, insert_loaded, persist_session_meta, persisted,
}
use mistake_agent.Kernel.Files
use mistake_agent.Kernel.Files.Calls.{
  Call, creates, appends, sets_path, derives, switches, splices, sets_goal, sets_title, archives,
  activates, touches, key_of, IsKeyedCall, reply, file_reply, in_memory, in_files,
  in_memory-IsLocal,
}
use mistake_agent.Kernel.Files.Synced.{
  IsSynced, IsSynced-Fits, Follows, lift, then_persist-Follows, append-Follows,
}
use mistake_agent.Kernel.Files.Calls.{run_memory}

module _ (J : SessionJson) where
  -- The calls that write the whole file, and the one that adds a line.
  abbrev pub Persists : Call → Type 0
  Persists c =
      (io : Io) (fs : FileStorage)
      → in_files J c io fs ≡ then_persist J (key_of c) io fs (in_memory c fs.inner)

  file_reply-persist :
      (key : ℕ) (io : Io) (fs : FileStorage) (r : Result StorageError (Unit {0}) × Inner)
      → file_reply (then_persist J key io fs r) ≡ then_persist J key io fs (reply r)
  file_reply-persist key io fs (err e, t) = refl
  file_reply-persist key io fs (ok u, t) =
      file_reply-answer (persist_session_meta J key io (record fs { inner = t }))
    where
      file_reply-answer :
          (p : Result FileError (Unit {0}) × FileStorage)
          → file_reply (Files.answer J tt p) ≡ Files.answer J [] p
      file_reply-answer (err e, u) = refl
      file_reply-answer (ok u, v) = refl

  pub Call-cases : (c : Call) → ((key : ℕ) × (msg : Message) × (c ≡ appends key msg)) ⊎ Persists c
  unfolding in_files in_memory
  Call-cases (creates key meta) =
      inr (λ io fs. file_reply-persist key io fs (Store.create_session key meta fs.inner))
  Call-cases (appends key msg) = inl (key, msg, refl)
  Call-cases (sets_path key id) =
      inr (λ io fs. file_reply-persist key io fs (Store.set_active_path key id fs.inner))
  Call-cases (derives key id text new_id now) = inr (λ io fs. refl)
  Call-cases (switches key id) = inr (λ io fs. refl)
  Call-cases (splices key summary tail) =
      inr (λ io fs.
        file_reply-persist key io fs (Branches.splice_compaction key summary tail fs.inner))
  Call-cases (sets_goal key goal) =
      inr (λ io fs. file_reply-persist key io fs (Store.set_goal key goal fs.inner))
  Call-cases (sets_title key title) =
      inr (λ io fs. file_reply-persist key io fs (Store.set_title key title fs.inner))
  Call-cases (archives now key) =
      inr (λ io fs. file_reply-persist key io fs (Store.archive now key fs.inner))
  Call-cases (activates key) =
      inr (λ io fs. file_reply-persist key io fs (Store.activate key fs.inner))
  Call-cases (touches key at) =
      inr (λ io fs. file_reply-persist key io fs (Store.set_last_activity key at fs.inner))

  file_reply-Follows :
      (r : Result FileError (Unit {0}) × FileStorage) (s : Result StorageError (Unit {0}) × Inner)
      → Follows J r s
      → Follows J (file_reply r) (reply s)
  file_reply-Follows (err e, fs) (err d, t) (answer, same, synced) =
      let cause : e ≡ storage d = cc answer in (ap err cause, same, synced)
  file_reply-Follows (err e, fs) (ok u, t) (answer, same, synced) = absurd (cc answer)
  file_reply-Follows (ok u, fs) (err e, t) (answer, same, synced) = absurd (cc answer)
  file_reply-Follows (ok u, fs) (ok v, t) (answer, same, synced) = (refl, same, synced)

  appends-Follows :
      (key : ℕ) (msg : Message) (fs : FileStorage)
      → IsSynced J fs
      → Follows J (in_files J (appends key msg) succeeds fs) (in_memory (appends key msg) fs.inner)
  unfolding in_files in_memory
  appends-Follows key msg fs synced =
      file_reply-Follows (Files.append_message J key msg succeeds fs)
        (Store.append_message key msg fs.inner) (append-Follows J key msg fs synced)

  -- A call on the files whose write succeeds gives the answer of the same call in memory and leaves
  -- the same sessions and messages there, with each session's file equal to the text of what is in
  -- memory, if that held before and a created session carries its own key.
  pub in_files-Follows :
      (c : Call) (fs : FileStorage)
      → IsKeyedCall c
      → IsSynced J fs
      → Follows J (in_files J c succeeds fs) (in_memory c fs.inner)
  in_files-Follows c fs keyed synced = elim (Call-cases c) [
    | inl append ↦
        subst (λ d. Follows J (in_files J d succeeds fs) (in_memory d fs.inner)) (sym append.2)
          (appends-Follows append.0 append.1 fs synced)
    | inr whole ↦
        subst (λ r. Follows J r (in_memory c fs.inner)) (sym (whole succeeds fs))
          (then_persist-Follows J (key_of c) fs (in_memory c fs.inner) synced
            (in_memory-IsLocal c fs.inner keyed (IsSynced-Fits J fs synced)))
  ]

  abbrev pub run_files :
      List Call → FileStorage → List (Result FileError (List Message)) × FileStorage
  run_files [] fs = ([], fs)
  run_files (c ∷ cs) fs =
      let first = in_files J c succeeds fs in
      let rest = run_files cs first.1 in (first.0 ∷ rest.0, rest.1)

  -- A history of calls on the files, one after the other, whose writes succeed gives the answers of
  -- the same history in memory, ends with the same sessions and messages, and with each session's file
  -- equal to the text of what is in memory, if that held at the start and each created session carries
  -- its own key.
  pub run_files-Follows :
      (cs : List Call) (fs : FileStorage)
      → All IsKeyedCall cs
      → IsSynced J fs
      → let after = run_files cs fs in
        let abstract = run_memory cs fs.inner in
        (after.0 ≡ map (lift J) abstract.0) × (after.1.inner ≡ abstract.1) × IsSynced J after.1
  run_files-Follows [] fs keyed synced = (refl, refl, synced)
  run_files-Follows (c ∷ cs) fs (keyed, later) synced =
      let (answer, same, next) = in_files-Follows c fs keyed synced in
      let (answers, ends, final) = run_files-Follows cs (in_files J c succeeds fs).1 later next in
      (
        (λ i. answer i ∷ answers i)
            ∙ ap (λ s. lift J (in_memory c fs.inner).0 ∷ map (lift J) (run_memory cs s).0) same,
        ends ∙ ap (λ s. (run_memory cs s).1) same,
        final,
      )
