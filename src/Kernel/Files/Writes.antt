-- ===== src/Kernel/Files/Writes.antt =====
-- What a call does to the files (src/kernel/plugin/storage/file/mod.rs).
use mistake_agent.Prelude.{
  ℕ, ◌≡◌, ◌⊎◌, refl, Option, none, some, false, List, ◌∷◌, [], ◌++◌, ◌==◌, ==_iff, lookup, put,
  remove, Bool-cases, inl, inr, sym, subst, ◌∙◌, arith, All, All-remove_other, lookup-put,
  lookup-put_other, lookup-remove_other,
}
use mistake_agent.Prelude.Results.{Result, ok, err}
use mistake_agent.Relay.Text.{Text}
use mistake_agent.Kernel.Messages.{Message, SessionMeta}
use mistake_agent.Kernel.Store.{Inner, StorageError}
use mistake_agent.Kernel.Store
use mistake_agent.Kernel.Files.{
  SessionJson, FileStorage, Io, succeeded, appended, then_persist, persist_found,
  persist_session_meta,
}
use mistake_agent.Kernel.Files
use mistake_agent.Kernel.Files.Calls.{Call, appends, key_of, file_reply, in_files, in_memory}
use mistake_agent.Kernel.Files.Follows.{Call-cases, run_files}

-- Nothing is written, or the file of the key is there with some text.
abbrev pub IsWrite : ℕ → List (ℕ × Text) → List (ℕ × Text) → Type 0
IsWrite key files after = (after ≡ files) ⊎ ((text : Text) × (after ≡ put ◌==◌ key text files))

-- Each file is the only one with its name.
abbrev pub IsMap : List (ℕ × Text) → Type 0
IsMap files = All (λ e. lookup ◌==◌ e.0 files ≡ some e.1) files

turned : (a b : ℕ) → (a == b) ≡ false → (b == a) ≡ false
turned a b h = ground arith

put-IsMap :
    (key : ℕ) (text : Text) (files : List (ℕ × Text))
    → IsMap files
    → IsMap (put ◌==◌ key text files)
put-IsMap key text files h = (
  lookup-put ◌==◌ ==_iff key text files,
  All-remove_other ◌==◌ (λ e. lookup ◌==◌ e.0 files ≡ some e.1)
      (λ e. lookup ◌==◌ e.0 (put ◌==◌ key text files) ≡ some e.1) key
      (λ e other found.
        lookup-put_other ◌==◌ ==_iff e.0 key text files (turned e.0 key other) ∙ found)
      files h,
)

pub remove-IsMap : (key : ℕ) (files : List (ℕ × Text)) → IsMap files → IsMap (remove ◌==◌ key files)
remove-IsMap key files h =
    All-remove_other ◌==◌ (λ e. lookup ◌==◌ e.0 files ≡ some e.1)
      (λ e. lookup ◌==◌ e.0 (remove ◌==◌ key files) ≡ some e.1) key
      (λ e other found.
        lookup-remove_other ◌==◌ ==_iff e.0 key files (turned e.0 key other) ∙ found)
      files h

module _ (J : SessionJson) where
  then_persist-IsWrite :
      {A : Type 0} (key : ℕ) (io : Io) (fs : FileStorage) (r : Result StorageError A × Inner)
      → IsWrite key fs.files (then_persist J key io fs r).1.files
  unfolding persist_session_meta
  then_persist-IsWrite key io fs (err e, t) = inl refl
  then_persist-IsWrite key io fs (ok a, t) = by_found (lookup ◌==◌ key t.sessions)
    where
      by_found :
          (o : Option SessionMeta)
          → IsWrite key fs.files
              (Files.answer J a (persist_found J key io (record fs { inner = t }) o)).1.files
      by_found none = inl refl
      by_found (some m) = elim (Bool-cases (succeeded io)) [
        | inl done ↦ rw done (inr (_, refl))
        | inr failed ↦ rw failed (inl refl)
      ]

  appends-IsWrite :
      (key : ℕ) (msg : Message) (io : Io) (fs : FileStorage)
      → IsWrite key fs.files (in_files J (appends key msg) io fs).1.files
  unfolding in_files Files.append_message
  appends-IsWrite key msg io fs = by_result (Store.append_message key msg fs.inner)
    where
      line : Text
      line = J.write_message msg ++ 10 ∷ []

      by_part : (o : Option Text) → IsWrite key fs.files (Files.append_line J key o fs.files)
      by_part none = inl refl
      by_part (some part) = inr (_, refl)

      by_result :
          (r : Result StorageError (Unit {0}) × Inner)
          → IsWrite key fs.files (file_reply (Files.then_append J key line io fs r)).1.files
      by_result (err e, t) = inl refl
      by_result (ok u, t) = elim (Bool-cases (succeeded io)) [
        | inl done ↦ rw done (by_part (appended io line))
        | inr failed ↦ rw failed (by_part (appended io line))
      ]

  pub in_files-IsWrite :
      (c : Call) (io : Io) (fs : FileStorage)
      → IsWrite (key_of c) fs.files (in_files J c io fs).1.files
  in_files-IsWrite c io fs = elim (Call-cases J c) [
    | inl append ↦
        subst (λ d. IsWrite (key_of d) fs.files (in_files J d io fs).1.files) (sym append.2)
          (appends-IsWrite append.0 append.1 io fs)
    | inr whole ↦
        subst (λ r. IsWrite (key_of c) fs.files r.1.files) (sym (whole io fs))
          (then_persist-IsWrite (key_of c) io fs (in_memory c fs.inner))
  ]

  in_files-IsMap :
      (c : Call) (io : Io) (fs : FileStorage) → IsMap fs.files → IsMap (in_files J c io fs).1.files
  in_files-IsMap c io fs h = elim (in_files-IsWrite c io fs) [
    | inl same ↦ subst IsMap (sym same) h
    | inr write ↦ subst IsMap (sym write.1) (put-IsMap (key_of c) write.0 fs.files h)
  ]

  pub run_files-IsMap :
      (cs : List Call) (fs : FileStorage) → IsMap fs.files → IsMap (run_files J cs fs).1.files
  run_files-IsMap [] fs h = h
  run_files-IsMap (c ∷ cs) fs h =
      run_files-IsMap cs (in_files J c Files.succeeds fs).1 (in_files-IsMap c Files.succeeds fs h)
