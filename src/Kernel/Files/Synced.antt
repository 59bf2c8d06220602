-- ===== src/Kernel/Files/Synced.antt =====
-- The files hold what the store holds (src/kernel/plugin/storage/file/mod.rs).
use mistake_agent.Prelude.{
  ℕ, ◌≡◌, refl, Option, none, some, true, false, List, [], ◌∷◌, ◌++◌, ◌==◌, ==_iff, lookup, put,
  Bool-cases, inl, inr, ap, sym, subst, ◌∙◌, All, All-map, All-remove_other, ◌⊎◌, remove,
  lookup-put, lookup-put_other,
}
use mathlib.Core.List.{append_assoc}
use mistake_agent.Prelude.Results.{Result, ok, err}
use mistake_agent.Relay.Text.{Text}
use mistake_agent.Kernel.Messages.{Message, SessionMeta}
use mistake_agent.Kernel.Store.{Inner, StorageError, push_message, append_message}
use mistake_agent.Kernel.Store.Local.{
  FitsAt, Fits, IsPresent, IsUntouched, IsLocal, IsPresent-messages,
}
use mistake_agent.Kernel.Files.{
  SessionJson, FileStorage, succeeds, FileError, storage, io_error, write_messages,
  serialize_session, persist_session_meta, persist_found, then_persist, then_append, append_found,
  answer,
}
use mistake_agent.Kernel.Files

module _ (J : SessionJson) where
  -- The file that a session has.
  abbrev pub text_of : Option SessionMeta → Option (List Message) → Option Text
  text_of (some m) (some ms) = some (serialize_session J m ms)
  text_of (some m) none = none
  text_of none p = none

  abbrev pub IsWritten : ℕ × Text → Type 0
  IsWritten e =
      (m : SessionMeta) × (ms : List Message) × (e.1 ≡ serialize_session J m ms) × (m.key ≡ e.0)

  abbrev pub SyncedAt : ℕ → Option Text → Option SessionMeta → Option (List Message) → Type 0
  SyncedAt k text o p = FitsAt k o p × (text ≡ text_of o p)

  abbrev pub IsSyncedAt : ℕ → FileStorage → Type 0
  IsSyncedAt k fs =
      SyncedAt k (lookup ◌==◌ k fs.files) (lookup ◌==◌ k fs.inner.sessions)
        (lookup ◌==◌ k fs.inner.messages)

  -- Each file was written by the store under its session's key, and each session has its file.
  abbrev pub IsSynced : FileStorage → Type 0
  IsSynced fs = All IsWritten fs.files × ((k : ℕ) → IsSyncedAt k fs)

  abbrev pub IsWrittenBut : ℕ → ℕ × Text → Type 0
  IsWrittenBut key e = ((e.0 == key) ≡ true) ⊎ IsWritten e

  -- The same but for the session with the key: its file may hold anything.
  abbrev pub IsBehind : ℕ → FileStorage → Type 0
  IsBehind key fs =
      All (IsWrittenBut key) fs.files
      × Fits fs.inner
      × ((k : ℕ) → (key == k) ≡ false → IsSyncedAt k fs)

  pub IsSynced-Fits : (fs : FileStorage) → IsSynced fs → Fits fs.inner
  IsSynced-Fits fs synced k = (synced.1 k).0

  pub IsSynced-IsBehind : (key : ℕ) (fs : FileStorage) → IsSynced fs → IsBehind key fs
  IsSynced-IsBehind key fs synced = (
    All-map IsWritten (IsWrittenBut key) fs.files (λ e w. inr w) synced.0,
    IsSynced-Fits fs synced,
    λ k _. synced.1 k,
  )

  rest-IsWritten :
      (key : ℕ) (files : List (ℕ × Text))
      → All (IsWrittenBut key) files
      → All IsWritten (remove ◌==◌ key files)
  rest-IsWritten key files h =
      All-remove_other ◌==◌ (IsWrittenBut key) IsWritten key
        (λ e other h. elim h [
          | inl same ↦ absurd (let no : true ≡ false = sym same ∙ other in cc)
          | inr w ↦ w
        ])
        files h

  -- A session is changed and its file written.
  pub written-IsSynced :
      (key : ℕ) (fs : FileStorage) (t : Inner) (m : SessionMeta) (ms : List Message)
      → IsBehind key fs
      → IsUntouched key fs.inner t
      → lookup ◌==◌ key t.sessions ≡ some m
      → lookup ◌==◌ key t.messages ≡ some ms
      → m.key ≡ key
      → IsSynced (record { inner = t; files = put ◌==◌ key (serialize_session J m ms) fs.files })
  written-IsSynced key fs t m ms (written, fits, behind) others found messages keyed = (
    ((m, ms, refl, keyed), rest-IsWritten key fs.files written),
    λ k. elim (Bool-cases (key == k)) [
      | inl same ↦ subst (λ j. IsSyncedAt j after) ((==_iff key k).0 same) here
      | inr other ↦
          rw
            (
              lookup-put_other ◌==◌ ==_iff k key (serialize_session J m ms) fs.files other,
              (others k other).0,
              (others k other).1,
            )
            (behind k other)
    ],
  )
    where
      after : FileStorage
      after = record { inner = t; files = put ◌==◌ key (serialize_session J m ms) fs.files }

      here : IsSyncedAt key after
      here =
          rw (lookup-put ◌==◌ ==_iff key (serialize_session J m ms) fs.files, found, messages)
            (keyed, refl)

  -- What a call on the files owes to the same call in memory: the same answer and the same change.
  abbrev pub lift : {A : Type 0} → Result StorageError A → Result FileError A
  lift (err e) = err (storage e)
  lift (ok a) = ok a

  abbrev pub Follows :
      {A : Type 0} → Result FileError A × FileStorage → Result StorageError A × Inner → Type 0
  Follows r s = (r.0 ≡ lift s.0) × (r.1.inner ≡ s.1) × IsSynced r.1

  pub persist-IsSynced :
      {A : Type 0} (key : ℕ) (fs : FileStorage) (a : A) (t : Inner)
      → IsBehind key fs
      → IsPresent key t × IsUntouched key fs.inner t
      → Follows (then_persist J key succeeds fs (ok a, t)) (ok a, t)
  unfolding persist_session_meta serialize_session
  persist-IsSynced key fs a t behind (((m, found, keyed), (ms, messages)), others) =
      rw (found, messages)
        (refl, refl, written-IsSynced key fs t m ms behind others found messages keyed)

  pub then_persist-Follows :
      {A : Type 0} (key : ℕ) (fs : FileStorage) (r : Result StorageError A × Inner)
      → IsSynced fs
      → IsLocal key fs.inner r
      → Follows (then_persist J key succeeds fs r) r
  then_persist-Follows key fs (err e, t) synced same =
      (refl, refl, subst (λ u. IsSynced (record fs { inner = u })) (sym same) synced)
  then_persist-Follows key fs (ok a, t) synced local =
      persist-IsSynced key fs a t (IsSynced-IsBehind key fs synced) local

  write_messages-append :
      (ms : List Message) (msg : Message)
      → write_messages J (ms ++ (msg ∷ []))
        ≡ write_messages J ms ++ (J.write_message msg ++ 10 ∷ [])
  write_messages-append [] msg = refl
  write_messages-append (m ∷ ms) msg =
      ap (λ t. J.write_message m ++ 10 ∷ t) (write_messages-append ms msg)
      ∙ sym (
          append_assoc (J.write_message m) (10 ∷ write_messages J ms)
            (J.write_message msg ++ 10 ∷ []))

  -- A message that is appended to the file gives the file of the longer session.
  serialize_session-append :
      (m : SessionMeta) (ms : List Message) (msg : Message)
      → serialize_session J m ms ++ (J.write_message msg ++ 10 ∷ [])
        ≡ serialize_session J m (ms ++ (msg ∷ []))
  unfolding serialize_session
  serialize_session-append m ms msg =
      append_assoc (J.write_meta m) (10 ∷ write_messages J ms) (J.write_message msg ++ 10 ∷ [])
      ∙ ap (λ t. J.write_meta m ++ 10 ∷ t) (sym (write_messages-append ms msg))

  append-Follows_found :
      (key : ℕ) (msg : Message) (fs : FileStorage) (found : Option (List Message))
      → lookup ◌==◌ key fs.inner.messages ≡ found
      → IsSynced fs
      → Follows
          (then_append J key
            (J.write_message msg ++ 10 ∷ [])
            succeeds
            fs
            (push_message key msg found fs.inner))
          (push_message key msg found fs.inner)
  append-Follows_found key msg fs none e synced = (refl, refl, synced)
  append-Follows_found key msg fs (some path) e synced =
      let ((m, found, keyed), there) =
        IsPresent-messages key fs.inner path (IsSynced-Fits fs synced) e in
      let file : lookup ◌==◌ key fs.files ≡ some (serialize_session J m path) =
        (synced.1 key).1 ∙ rw (found, e) refl in
      rw (file, serialize_session-append m path msg)
        (
          refl,
          refl,
          written-IsSynced key fs
              (record fs.inner { messages = put ◌==◌ key (path ++ (msg ∷ [])) fs.inner.messages }) m
              (path ++ (msg ∷ [])) (IsSynced-IsBehind key fs synced)
              (λ k d.
                (refl, lookup-put_other ◌==◌ ==_iff k key (path ++ (msg ∷ [])) fs.inner.messages d))
              found (lookup-put ◌==◌ ==_iff key (path ++ (msg ∷ [])) fs.inner.messages) keyed,
        )

  pub append-Follows :
      (key : ℕ) (msg : Message) (fs : FileStorage)
      → IsSynced fs
      → Follows (Files.append_message J key msg succeeds fs) (append_message key msg fs.inner)
  unfolding Files.append_message append_message
  append-Follows key msg fs =
      append-Follows_found key msg fs (lookup ◌==◌ key fs.inner.messages) refl
