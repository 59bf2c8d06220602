-- ===== src/Kernel/Files/Removing.antt =====
-- A session is removed with its file (src/kernel/plugin/storage/file/mod.rs).
use mistake_agent.Prelude.{
  ℕ, ◌≡◌, refl, none, some, false, List, ◌==◌, ==_iff, lookup, remove, Bool-cases, inl, inr, subst,
  ◌∙◌, All-remove, lookup-remove, lookup-remove_other,
}
use mistake_agent.Prelude.Results.{ok, err}
use mistake_agent.Kernel.Messages.{Message, SessionMeta}
use mistake_agent.Kernel.Store.{Inner, has_key}
use mistake_agent.Kernel.Store
use mistake_agent.Kernel.Store.Local.{IsPresent-has_key, IsPresent-meta}
use mistake_agent.Kernel.Files.{
  SessionJson, FileStorage, Io, succeeds, succeeded, io_error, remove_session, serialize_session,
}
use mistake_agent.Kernel.Files.Format.{IsFaithful}
use mistake_agent.Kernel.Files.Synced.{IsWritten, IsSynced, IsSyncedAt, IsSynced-Fits}
use mistake_agent.Kernel.Files.Opening.{AreSingle, open_files}
use mistake_agent.Kernel.Files.Writes.{IsMap}
use mistake_agent.Kernel.Files.Reload.{open_files-IsSynced}

module _ (J : SessionJson) where
  without : ℕ → FileStorage → FileStorage
  without key fs = record {
    inner = record {
      sessions = remove ◌==◌ key fs.inner.sessions;
      messages = remove ◌==◌ key fs.inner.messages;
    };
    files = remove ◌==◌ key fs.files;
  }

  without-IsSynced : (key : ℕ) (fs : FileStorage) → IsSynced J fs → IsSynced J (without key fs)
  unfolding without
  without-IsSynced key fs (written, synced) = (
    All-remove ◌==◌ (IsWritten J) key fs.files written,
    λ k. elim (Bool-cases (key == k)) [
      | inl same ↦
          subst (λ j. IsSyncedAt J j (without key fs)) ((==_iff key k).0 same)
            (rw
              (
                lookup-remove ◌==◌ ==_iff key fs.files,
                lookup-remove ◌==◌ ==_iff key fs.inner.sessions,
                lookup-remove ◌==◌ ==_iff key fs.inner.messages,
              )
              (tt, refl))
      | inr other ↦
          rw
            (
              lookup-remove_other ◌==◌ ==_iff k key fs.files other,
              lookup-remove_other ◌==◌ ==_iff k key fs.inner.sessions other,
              lookup-remove_other ◌==◌ ==_iff k key fs.inner.messages other,
            )
            (synced k)
    ],
  )

  -- A session's file is there with the session.
  session-file :
      (key : ℕ) (fs : FileStorage) (m : SessionMeta)
      → IsSynced J fs
      → lookup ◌==◌ key fs.inner.sessions ≡ some m
      → (ms : List Message) × (lookup ◌==◌ key fs.files ≡ some (serialize_session J m ms))
  session-file key fs m synced found =
      let (here, (ms, messages)) =
        IsPresent-meta key fs.inner m (IsSynced-Fits J fs synced) found in
      (ms, (synced.1 key).1 ∙ rw (found, messages) refl)

  -- A session that is there is removed from memory, and its file with it where that can be removed:
  -- each file is then still the text of a session in memory, if it was before.
  pub remove_session-IsSynced :
      (key : ℕ) (fs : FileStorage) (m : SessionMeta)
      → IsSynced J fs
      → lookup ◌==◌ key fs.inner.sessions ≡ some m
      → ((remove_session key succeeds fs).0 ≡ ok tt)
        × (lookup ◌==◌ key (remove_session key succeeds fs).1.inner.sessions ≡ none)
        × IsSynced J (remove_session key succeeds fs).1
  unfolding remove_session Store.remove_session without
  remove_session-IsSynced key fs m synced found =
      let present = IsPresent-meta key fs.inner m (IsSynced-Fits J fs synced) found in
      let (ms, file) = session-file key fs m synced found in
      rw (IsPresent-has_key key fs.inner present, file)
        (refl, lookup-remove ◌==◌ ==_iff key fs.inner.sessions, without-IsSynced key fs synced)

  -- Where the file of a session that is there cannot be removed, the call answers the error, the
  -- session is gone from memory, and it is there again at the next start, which migrates the files
  -- and reads them. Every session has one topic at most, the files, of different names, held what the
  -- store held before, and the JSON of sessions and messages reads back as it was.
  pub remove_session-returns :
      (faithful : IsFaithful J) (new_key : ℕ → ℕ → ℕ) (now key : ℕ) (io : Io) (fs : FileStorage)
      (m : SessionMeta)
      → succeeded io ≡ false
      → IsSynced J fs
      → IsMap fs.files
      → AreSingle fs.inner
      → lookup ◌==◌ key fs.inner.sessions ≡ some m
      → ((remove_session key io fs).0 ≡ err io_error)
        × (lookup ◌==◌ key (remove_session key io fs).1.inner.sessions ≡ none)
        × (lookup ◌==◌ key (open_files J new_key now (remove_session key io fs).1.files).sessions
            ≡ some m)
  unfolding remove_session Store.remove_session
  remove_session-returns faithful new_key now key io fs m failed synced map single found =
      let present = IsPresent-meta key fs.inner m (IsSynced-Fits J fs synced) found in
      let (ms, file) = session-file key fs m synced found in
      rw (IsPresent-has_key key fs.inner present, file, failed)
        (
          refl,
          lookup-remove ◌==◌ ==_iff key fs.inner.sessions,
          (open_files-IsSynced J faithful new_key now fs key synced map single).0 ∙ found,
        )
