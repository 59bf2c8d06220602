-- ===== src/Kernel/Files/Unwritten.antt =====
-- Writes of the session store that fail (src/kernel/plugin/storage/file/mod.rs).
use mistake_agent.Prelude.{
  ℕ, ◌≡◌, refl, Option, none, some, Bool, true, false, List, [], ◌∷◌, ◌++◌, ◌==◌, ==_iff, ==_refl,
  lookup, lookup-put, lookup-put_other, inl, inr, ap, sym, subst, All, All-map, All-remove_other,
}
use mathlib.Core.List.{append-nil}
use mistake_agent.Prelude.Results.{Result, ok, err}
use mistake_agent.Relay.Text.{Text}
use mistake_agent.Kernel.Messages.{Message}
use mistake_agent.Kernel.Store.{Inner, StorageError}
use mistake_agent.Kernel.Store
use mistake_agent.Kernel.Store.Local.{Fits, IsLocal, IsLocal-Fits}
use mistake_agent.Kernel.Files.{
  SessionJson, FileStorage, Io, succeeds, succeeded, appended, FileError, storage, io_error,
  then_persist, persist_session_meta,
}
use mistake_agent.Kernel.Files
use mistake_agent.Kernel.Files.Calls.{
  Call, appends, key_of, IsKeyedCall, reply, file_reply, in_memory, in_files, in_memory-IsLocal,
}
use mistake_agent.Kernel.Files.Synced.{
  IsWritten, IsWrittenBut, IsSynced, IsSyncedAt, IsBehind, IsSynced-Fits, persist-IsSynced,
}
use mistake_agent.Kernel.Files.Follows.{Persists, Call-cases}
use mistake_agent.Kernel.Files.Writes.{IsWrite, in_files-IsWrite}

-- The old text, if there is one, is still there, at the beginning.
abbrev pub Extends : Option Text → Option Text → Type 0
Extends none new = Unit
Extends (some old) new = (rest : Text) × (new ≡ some (old ++ rest))

Extends-refl : (o : Option Text) → Extends o o
Extends-refl none = tt
Extends-refl (some old) = ([], ap some (sym (append-nil old)))

module _ (J : SessionJson) where
  -- The answer after a failed write, unless the call failed before.
  abbrev pub fails_writing : {A : Type 0} → Result StorageError A → Result FileError A
  fails_writing (err e) = err (storage e)
  fails_writing (ok a) = err io_error

  abbrev pub IsSafe : ℕ → List (ℕ × Text) → List (ℕ × Text) → Type 0
  IsSafe key files after =
      ((k : ℕ) → (key == k) ≡ false → lookup ◌==◌ k after ≡ lookup ◌==◌ k files)
      × Extends (lookup ◌==◌ key files) (lookup ◌==◌ key after)

  abbrev pub Unwritten :
      {A : Type 0}
      → ℕ
      → FileStorage
      → Result FileError A × FileStorage
      → Result StorageError A × Inner
      → Type 0
  Unwritten key fs r s =
      (r.0 ≡ fails_writing s.0) × (r.1.inner ≡ s.1) × IsSafe key fs.files r.1.files

  untouched : (key : ℕ) (files : List (ℕ × Text)) → IsSafe key files files
  untouched key files = (λ k other. refl, Extends-refl (lookup ◌==◌ key files))

  then_persist-Unwritten :
      {A : Type 0} (key : ℕ) (io : Io) (fs : FileStorage) (r : Result StorageError A × Inner)
      → succeeded io ≡ false
      → IsLocal key fs.inner r
      → Unwritten key fs (then_persist J key io fs r) r
  unfolding persist_session_meta
  then_persist-Unwritten key io fs (err e, t) failed local = (refl, refl, untouched key fs.files)
  then_persist-Unwritten key io fs (ok a, t) failed (((m, found, keyed), messages), others) =
      rw (found, failed) (refl, refl, untouched key fs.files)

  append_line-IsSafe :
      (key : ℕ) (part : Option Text) (files : List (ℕ × Text))
      → IsSafe key files (Files.append_line J key part files)
  append_line-IsSafe key none files = untouched key files
  append_line-IsSafe key (some part) files = (
    λ k other. lookup-put_other ◌==◌ ==_iff k key _ files other,
    subst (Extends (lookup ◌==◌ key files)) (sym (lookup-put ◌==◌ ==_iff key _ files))
        (longer (lookup ◌==◌ key files)),
  )
    where
      longer : (o : Option Text) → Extends o (some (Files.append_found J key part o))
      longer none = tt
      longer (some text) = (part, refl)

  appends-Unwritten :
      (key : ℕ) (msg : Message) (io : Io) (fs : FileStorage)
      → succeeded io ≡ false
      → Unwritten key fs (in_files J (appends key msg) io fs) (in_memory (appends key msg) fs.inner)
  unfolding in_files in_memory Files.append_message
  appends-Unwritten key msg io fs failed = by_result (Store.append_message key msg fs.inner)
    where
      line : Text
      line = J.write_message msg ++ 10 ∷ []

      by_result :
          (r : Result StorageError (Unit {0}) × Inner)
          → Unwritten key fs (file_reply (Files.then_append J key line io fs r)) (reply r)
      by_result (err e, t) = (refl, refl, untouched key fs.files)
      by_result (ok u, t) =
          rw failed (refl, refl, append_line-IsSafe key (appended io line) fs.files)

  -- A call whose write fails, however that ends, answers the error of the same call in memory, or
  -- else that the write failed; in memory the change is made, the files of the other sessions are as
  -- they were, and that of its own session, where there was one, still begins with all it had. Before
  -- the call each session has its own key and its messages, and a created session carries its own
  -- key.
  pub in_files-Unwritten :
      (c : Call) (io : Io) (fs : FileStorage)
      → succeeded io ≡ false
      → IsKeyedCall c
      → Fits fs.inner
      → Unwritten (key_of c) fs (in_files J c io fs) (in_memory c fs.inner)
  in_files-Unwritten c io fs failed keyed fits = elim (Call-cases J c) [
    | inl append ↦
        subst (λ d. Unwritten (key_of d) fs (in_files J d io fs) (in_memory d fs.inner))
          (sym append.2) (appends-Unwritten append.0 append.1 io fs failed)
    | inr whole ↦
        subst (λ r. Unwritten (key_of c) fs r (in_memory c fs.inner)) (sym (whole io fs))
          (then_persist-Unwritten (key_of c) io fs (in_memory c fs.inner) failed
            (in_memory-IsLocal c fs.inner keyed fits))
  ]

  IsWrite-IsWrittenBut :
      (key : ℕ) (files after : List (ℕ × Text))
      → IsWrite key files after
      → All (IsWritten J) files
      → All (IsWrittenBut J key) after
  IsWrite-IsWrittenBut key files after (inl same) h =
      subst (All (IsWrittenBut J key)) (sym same)
        (All-map (IsWritten J) (IsWrittenBut J key) files (λ e w. inr w) h)
  IsWrite-IsWrittenBut key files after (inr (text, write)) h =
      subst (All (IsWrittenBut J key)) (sym write) (
        inl (==_refl key),
        All-remove_other ◌==◌ (IsWritten J) (IsWrittenBut J key) key (λ e other w. inr w) files h,
      )

  IsLocal-other :
      {A : Type 0} (key k : ℕ) (fs : FileStorage) (files : List (ℕ × Text))
      (r : Result StorageError A × Inner)
      → IsLocal key fs.inner r
      → (key == k) ≡ false
      → lookup ◌==◌ k files ≡ lookup ◌==◌ k fs.files
      → IsSyncedAt J k fs
      → IsSyncedAt J k (record { inner = r.1; files = files })
  IsLocal-other key k fs files (err e, t) local other same synced =
      subst (λ u. IsSyncedAt J k (record { inner = u; files = files })) (sym local) (rw same synced)
  IsLocal-other key k fs files (ok a, t) local other same synced =
      rw (same, (local.1 k other).0, (local.1 k other).1) synced

  -- After a failed write only the file of the call's own session can be behind.
  failed-IsBehind :
      (c : Call) (io : Io) (fs : FileStorage)
      → succeeded io ≡ false
      → IsKeyedCall c
      → IsSynced J fs
      → IsBehind J (key_of c) (in_files J c io fs).1
  failed-IsBehind c io fs failed keyed synced =
      let fits = IsSynced-Fits J fs synced in
      let local = in_memory-IsLocal c fs.inner keyed fits in
      let after = in_files-Unwritten c io fs failed keyed fits in
      let files = (in_files J c io fs).1.files in
      subst (λ t. IsBehind J (key_of c) (record { inner = t; files = files })) (sym after.1)
        (
          IsWrite-IsWrittenBut (key_of c) fs.files files (in_files-IsWrite J c io fs) synced.0,
          IsLocal-Fits (key_of c) fs.inner (in_memory c fs.inner) local fits,
          λ k other.
              IsLocal-other (key_of c) k fs files (in_memory c fs.inner) local other
                (after.2.0 k other) (synced.1 k),
        )

  then_persist-heals :
      {A : Type 0} (key : ℕ) (fs : FileStorage) (r : Result StorageError A × Inner) (a : A)
      → IsBehind J key fs
      → IsLocal key fs.inner r
      → (then_persist J key succeeds fs r).0 ≡ ok a
      → IsSynced J (then_persist J key succeeds fs r).1
  then_persist-heals key fs (err e, t) a behind local answer = absurd (cc answer)
  then_persist-heals key fs (ok b, t) a behind local answer =
      (persist-IsSynced J key fs b t behind local).2

  -- The whole file is written by every call but that which appends a message.
  abbrev pub is_append : Call → Bool
  is_append (appends key msg) = true
  is_append _ = false

  whole_call : (c : Call) → is_append c ≡ false → Persists J c
  whole_call c h = elim (Call-cases J c) [
    | inl append ↦ absurd (cc (subst (λ d. is_append d ≡ false) append.2 h))
    | inr whole ↦ whole
  ]

  -- A write that failed, however that ended, is made good by the next call on the same session that
  -- succeeds and is not an append: each file is again the text of what is in memory. The files held
  -- what the store held before the failed call, and a created session carries its own key.
  pub in_files-heals :
      (c d : Call) (io : Io) (fs : FileStorage) (answer : List Message)
      → succeeded io ≡ false
      → IsKeyedCall c
      → IsKeyedCall d
      → IsSynced J fs
      → key_of d ≡ key_of c
      → is_append d ≡ false
      → (in_files J d succeeds (in_files J c io fs).1).0 ≡ ok answer
      → IsSynced J (in_files J d succeeds (in_files J c io fs).1).1
  in_files-heals c d io fs answer failed keyed keyed' synced same whole =
      let middle = (in_files J c io fs).1 in
      let behind =
        subst (λ k. IsBehind J k middle) (sym same) (failed-IsBehind c io fs failed keyed synced) in
      subst (λ r. r.0 ≡ ok answer → IsSynced J r.1) (sym (whole_call d whole succeeds middle))
        (then_persist-heals (key_of d) middle (in_memory d middle.inner) answer behind
          (in_memory-IsLocal d middle.inner keyed' behind.1))
