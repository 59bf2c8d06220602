-- ===== src/Kernel/Files/Reload.antt =====
-- What is read at a start is what was there (src/kernel/plugin/storage/file/mod.rs).
use mistake_agent.Prelude.{
  ℕ, ◌≡◌, ◌≤◌, refl, Option, none, some, false, List, [], ◌∷◌, ◌++◌, ◌==◌, leb, arith, ==_iff,
  lookup, Bool-cases, inl, inr, ap, sym, subst, ◌∙◌, All, All-map, lookup-remove_other,
}
use mistake_agent.Relay.Text.{Text, lines}
use mistake_agent.Kernel.Messages.{Message, SessionMeta}
use mistake_agent.Kernel.Store.{Inner}
use mistake_agent.Kernel.Migration.{split_segments, filled}
use mistake_agent.Kernel.Files.{
  SessionJson, FileStorage, load_file, load_files, serialize_session, write_messages,
}
use mistake_agent.Kernel.Files.Opening.{
  topics, AreSingle, filled_of, with_lines, with_meta, split_file, migrate_file,
  migrate_legacy_sessions, open_files,
}
use mistake_agent.Kernel.Files.Writes.{IsMap, run_files-IsMap}
use mistake_agent.Kernel.Files.Format.{
  IsFaithful, load_file-serialize_session, lines-object, read_messages-write,
}
use mistake_agent.Kernel.Files.Calls.{Call, IsKeyedCall}
use mistake_agent.Kernel.Files.Synced.{SyncedAt, text_of, IsWritten, IsSynced}
use mistake_agent.Kernel.Files.Follows.{run_files, run_files-Follows}
use mistake_agent.Kernel.Files.Calls.{run_memory}

module _ (J : SessionJson) (faithful : IsFaithful J) where
  abbrev first : Option (SessionMeta × List Message) → Option SessionMeta
  first none = none
  first (some p) = some p.0

  abbrev second : Option (SessionMeta × List Message) → Option (List Message)
  second none = none
  second (some p) = some p.1

  abbrev read_file : Option Text → Option (SessionMeta × List Message)
  read_file none = none
  read_file (some text) = load_file J text

  load_files-lookup :
      (k : ℕ) (files : List (ℕ × Text))
      → All (IsWritten J) files
      → (lookup ◌==◌ k (load_files J files).sessions ≡ first (read_file (lookup ◌==◌ k files)))
        × (lookup ◌==◌ k (load_files J files).messages ≡ second (read_file (lookup ◌==◌ k files)))
  unfolding load_files
  load_files-lookup k [] h = (refl, refl)
  load_files-lookup k (e ∷ files) ((m, ms, written, keyed), h) = elim (Bool-cases (e.0 == k)) [
    | inl here ↦ rw (here, back, ap (λ j. j == k) keyed ∙ here) (refl, refl)
    | inr other ↦
        let (sessions, messages) = load_files-lookup k files h in
        let apart : (m.key == k) ≡ false = ap (λ j. j == k) keyed ∙ other in
        rw (other, back, apart)
          (
            lookup-remove_other ◌==◌ ==_iff k m.key (load_files J files).sessions apart ∙ sessions,
            lookup-remove_other ◌==◌ ==_iff k m.key (load_files J files).messages apart ∙ messages,
          )
  ]
    where
      back : load_file J e.1 ≡ some (m, ms)
      back = ap (load_file J) written ∙ load_file-serialize_session J faithful m ms

  -- What a session and its file agree on is read from the file.
  SyncedAt-read :
      (k : ℕ) (text : Option Text) (o : Option SessionMeta) (p : Option (List Message))
      → SyncedAt J k text o p
      → (first (read_file text) ≡ o) × (second (read_file text) ≡ p)
  SyncedAt-read k text none none (fits, e) = rw e (refl, refl)
  SyncedAt-read k text none (some ms) (fits, e) = absurd (cc fits)
  SyncedAt-read k text (some m) none (fits, e) = absurd (cc fits)
  SyncedAt-read k text (some m) (some ms) (fits, e) =
      rw (e, load_file-serialize_session J faithful m ms) (refl, refl)

  -- What is read at a start is what the store has, where each file is the text of its session.
  load_files-IsSynced :
      (fs : FileStorage) (k : ℕ)
      → IsSynced J fs
      → (lookup ◌==◌ k (load_files J fs.files).sessions ≡ lookup ◌==◌ k fs.inner.sessions)
        × (lookup ◌==◌ k (load_files J fs.files).messages ≡ lookup ◌==◌ k fs.inner.messages)
  load_files-IsSynced fs k (written, synced) =
      let loaded = load_files-lookup k fs.files written in
      let read =
        SyncedAt-read k (lookup ◌==◌ k fs.files) (lookup ◌==◌ k fs.inner.sessions)
          (lookup ◌==◌ k fs.inner.messages) (synced k) in
      (loaded.0 ∙ read.0, loaded.1 ∙ read.1)

  -- The text of a session with one topic at most.
  abbrev IsSingle : ℕ × Text → Type 0
  IsSingle e =
      (m : SessionMeta) × (ms : List Message) × (e.1 ≡ serialize_session J m ms) × (topics ms ≤ 1)

  SyncedAt-IsSingle :
      (s : Inner) (e : ℕ × Text) (o : Option SessionMeta) (p : Option (List Message))
      → AreSingle s
      → lookup ◌==◌ e.0 s.messages ≡ p
      → some e.1 ≡ text_of J o p
      → IsSingle e
  SyncedAt-IsSingle s e (some m) (some ms) single found h =
      (m, ms, let text : e.1 ≡ serialize_session J m ms = cc h in text, single e.0 ms found)
  SyncedAt-IsSingle s e (some m) none single found h = absurd (cc h)
  SyncedAt-IsSingle s e none p single found h = absurd (cc h)

  IsSynced-AreSingle :
      (fs : FileStorage)
      → IsSynced J fs
      → IsMap fs.files
      → AreSingle fs.inner
      → All IsSingle fs.files
  IsSynced-AreSingle fs (written, synced) map single =
      All-map (λ e. lookup ◌==◌ e.0 fs.files ≡ some e.1) IsSingle fs.files
        (λ e found.
          SyncedAt-IsSingle fs.inner e (lookup ◌==◌ e.0 fs.inner.sessions)
            (lookup ◌==◌ e.0 fs.inner.messages) single refl (sym found ∙ (synced e.0).1))
        map

  serialized_lines :
      (m : SessionMeta) (ms : List Message)
      → lines (serialize_session J m ms) ≡ J.write_meta m ∷ lines (write_messages J ms)
  unfolding serialize_session
  serialized_lines m ms =
      lines-object (J.write_meta m) (write_messages J ms) (faithful.meta_object m)

  -- The start splits no file of a session with one topic.
  module _ (new_key : ℕ → ℕ → ℕ) (now : ℕ) where
    migrate_file-keeps : (e : ℕ × Text) → IsSingle e → migrate_file J new_key now e ≡ e ∷ []
    unfolding migrate_file topics
    migrate_file-keeps e (m, ms, written, single) =
        ap (λ t. with_lines J new_key now e (lines t)) written
        ∙ ap (with_lines J new_key now e) (serialized_lines m ms)
        ∙ ap (with_meta J new_key now e (lines (write_messages J ms))) (faithful.meta_back m)
        ∙ ap (λ l. split_file J new_key now e m (split_segments l))
            (read_messages-write J faithful ms)
        ∙ by_groups (split_segments ms) single
      where
        by_groups :
            (groups : Option (List (List Message)))
            → filled_of groups ≤ 1
            → split_file J new_key now e m groups ≡ e ∷ []
        by_groups none h = refl
        by_groups (some groups) h = elim (Bool-cases (leb (filled groups) 1)) [
          | inl few ↦ rw few refl
          | inr many ↦ absurd (ground (arith, many, h))
        ]

    migrate_legacy_sessions-keeps :
        (files : List (ℕ × Text))
        → All IsSingle files
        → migrate_legacy_sessions J new_key now files ≡ files
    unfolding migrate_legacy_sessions
    migrate_legacy_sessions-keeps [] h = refl
    migrate_legacy_sessions-keeps (e ∷ files) (single, h) =
        ap (λ l. l ++ migrate_legacy_sessions J new_key now files) (migrate_file-keeps e single)
        ∙ ap (◌∷◌ e) (migrate_legacy_sessions-keeps files h)

    pub open_files-IsSynced :
        (fs : FileStorage) (k : ℕ)
        → IsSynced J fs
        → IsMap fs.files
        → AreSingle fs.inner
        → let opened = open_files J new_key now fs.files in
          (lookup ◌==◌ k opened.sessions ≡ lookup ◌==◌ k fs.inner.sessions)
          × (lookup ◌==◌ k opened.messages ≡ lookup ◌==◌ k fs.inner.messages)
    unfolding open_files
    open_files-IsSynced fs k synced map single =
        subst
          (λ files.
            (lookup ◌==◌ k (load_files J files).sessions ≡ lookup ◌==◌ k fs.inner.sessions)
            × (lookup ◌==◌ k (load_files J files).messages ≡ lookup ◌==◌ k fs.inner.messages))
          (sym (migrate_legacy_sessions-keeps fs.files (IsSynced-AreSingle fs synced map single)))
          (load_files-IsSynced fs k synced)

    -- After any history of calls, one after the other, whose writes succeed, the next start, which
    -- migrates the files and reads them, finds the same session and the same messages under every
    -- key as the same history leaves in a store in memory, if every session that is left there has
    -- one topic at most, the files, of different names, held what the store held before, each
    -- created session carries its own key, and the JSON of sessions and messages reads back as it
    -- was.
    pub run_files-reload :
        (cs : List Call) (fs : FileStorage) (k : ℕ)
        → All IsKeyedCall cs
        → IsSynced J fs
        → IsMap fs.files
        → AreSingle (run_memory cs fs.inner).1
        → let opened = open_files J new_key now (run_files J cs fs).1.files in
          let kept = (run_memory cs fs.inner).1 in
          (lookup ◌==◌ k opened.sessions ≡ lookup ◌==◌ k kept.sessions)
          × (lookup ◌==◌ k opened.messages ≡ lookup ◌==◌ k kept.messages)
    run_files-reload cs fs k keyed synced map single =
        let (answers, same, final) = run_files-Follows J cs fs keyed synced in
        subst
          (λ s.
            let opened = open_files J new_key now (run_files J cs fs).1.files in
            (lookup ◌==◌ k opened.sessions ≡ lookup ◌==◌ k s.sessions)
            × (lookup ◌==◌ k opened.messages ≡ lookup ◌==◌ k s.messages))
          same
          (open_files-IsSynced (run_files J cs fs).1 k final (run_files-IsMap J cs fs map)
            (subst AreSingle (sym same) single))
