-- ===== src/Kernel/Tests/Files.antt =====
-- Runs of the session store in files (src/kernel/plugin/storage/file/mod.rs).
use mistake_agent.Prelude.{
  ℕ, suc, ◌+◌, ◌*◌, ◌≤◌, ◌≡◌, refl, none, some, List, [], ◌∷◌, ◌==◌, lookup, map, Bool-cases, inl,
  inr, subst, arith, ==_iff,
}
use mistake_agent.Prelude.Results.{ok, err}
use mistake_agent.Relay.Text.{codes}
use mistake_agent.Kernel.Messages.{Message, SessionMeta, active, assistant}
use mistake_agent.Kernel.Store.{session_not_found}
use mistake_agent.Kernel.Store.Local.{IsLocal}
use mistake_agent.Kernel.Files.{
  FileStorage, succeeds, fails, breaks_off, io_error, remove_session, serialize_session,
}
use mistake_agent.Kernel.Files.Calls.{
  Call, creates, appends, sets_title, archives, in_memory, in_files, run_memory, in_memory-IsLocal,
}
use mistake_agent.Kernel.Files.Synced.{IsSynced, IsSynced-Fits, lift}
use mistake_agent.Kernel.Files.Follows.{run_files, run_files-Follows}
use mistake_agent.Kernel.Files.Opening.{topics, open_files}
use mistake_agent.Kernel.Files.Reload.{run_files-reload}
use mistake_agent.Kernel.Files.Removing.{remove_session-returns}
use mistake_agent.Kernel.Files.Unwritten.{Unwritten, in_files-Unwritten, in_files-heals}
use mistake_agent.Kernel.Tests.Codec.{sample_json, sample_json-IsFaithful}

abbrev said : Message
said = record { id = 7; parent_id = none; kind = assistant (codes "yes"); created_at = 4 }

abbrev meta : SessionMeta
meta = record {
  key = 1;
  goal = none;
  title = none;
  status = active;
  created_at = 3;
  archived_at = none;
  last_activity_at = 3;
  active_path = none;
}

abbrev empty : FileStorage
empty = record { inner = record { sessions = []; messages = [] }; files = [] }

abbrev history : List Call
history = creates 1 meta ∷ appends 1 said ∷ sets_title 1 (some (codes " a ")) ∷ archives 9 2 ∷ []

-- The archive call names a session that is not there.
history_answers :
    (run_memory history empty.inner).0 ≡ ok [] ∷ ok [] ∷ ok [] ∷ err (session_not_found 2) ∷ []
unfolding in_memory
history_answers = refl

history_keeps :
    lookup ◌==◌ 1 (run_memory history empty.inner).1.sessions
    ≡ some (record meta { title = some (codes "a") })
unfolding in_memory
history_keeps = refl

run_files-Follows_example :
    ((run_files sample_json history empty).0
      ≡ map (lift sample_json) (run_memory history empty.inner).0)
    × ((run_files sample_json history empty).1.inner ≡ (run_memory history empty.inner).1)
    × IsSynced sample_json (run_files sample_json history empty).1
run_files-Follows_example =
    run_files-Follows sample_json history empty (refl, (tt, (tt, (tt, tt)))) (tt, λ k. (tt, refl))

abbrev fresh_key : ℕ → ℕ → ℕ
fresh_key name idx = name * 100 + suc idx

only_said :
    (k : ℕ) (ms : List Message) → lookup ◌==◌ k ((1, said ∷ []) ∷ []) ≡ some ms → topics ms ≤ 1
unfolding topics
only_said k ms found = elim (Bool-cases (1 == k)) [
  | inl same ↦
      let here : some (said ∷ []) ≡ some ms = rw same at found in
      let only : (said ∷ []) ≡ ms = cc here in subst (λ l. topics l ≤ 1) only (omega arith)
  | inr other ↦ absurd (cc (rw other at found))
]

run_files-reload_example :
    (lookup ◌==◌ 1
        (open_files sample_json fresh_key 9 (run_files sample_json history empty).1.files).sessions
      ≡ lookup ◌==◌ 1 (run_memory history empty.inner).1.sessions)
    × (lookup ◌==◌ 1
          (open_files sample_json fresh_key 9
            (run_files sample_json history empty).1.files).messages
        ≡ lookup ◌==◌ 1 (run_memory history empty.inner).1.messages)
unfolding in_memory
run_files-reload_example =
    run_files-reload sample_json sample_json-IsFaithful fresh_key 9 history empty 1
      (refl, (tt, (tt, (tt, tt)))) (tt, λ k. (tt, refl)) tt only_said

in_memory-IsLocal_example : IsLocal 1 empty.inner (in_memory (creates 1 meta) empty.inner)
in_memory-IsLocal_example = in_memory-IsLocal (creates 1 meta) empty.inner refl (λ k. tt)

abbrev one_session : FileStorage
one_session = record {
  inner = record { sessions = (1, meta) ∷ []; messages = (1, said ∷ []) ∷ [] };
  files = (1, serialize_session sample_json meta (said ∷ [])) ∷ [];
}

one_session-IsSynced : IsSynced sample_json one_session
one_session-IsSynced = (
  ((meta, said ∷ [], refl, refl), tt),
  λ k. elim (Bool-cases (1 == k)) [
    | inl same ↦ rw same ((==_iff 1 k).0 same, refl)
    | inr other ↦ rw other (tt, refl)
  ],
)

-- The disk is full after three characters of the line.
in_files-Unwritten_example :
    Unwritten sample_json 1 one_session
      (in_files sample_json (appends 1 said) (breaks_off 3) one_session)
      (in_memory (appends 1 said) one_session.inner)
in_files-Unwritten_example =
    in_files-Unwritten sample_json (appends 1 said) (breaks_off 3) one_session refl tt
      (IsSynced-Fits sample_json one_session one_session-IsSynced)

in_files-heals_example :
    IsSynced sample_json
      (in_files sample_json
        (sets_title 1 none)
        succeeds
        (in_files sample_json (appends 1 said) (breaks_off 3) one_session).1).1
unfolding in_files in_memory
in_files-heals_example =
    in_files-heals sample_json (appends 1 said) (sets_title 1 none) (breaks_off 3) one_session []
      refl tt tt one_session-IsSynced refl refl refl

remove_session-returns_example :
    ((remove_session 1 fails one_session).0 ≡ err io_error)
    × (lookup ◌==◌ 1 (remove_session 1 fails one_session).1.inner.sessions ≡ none)
    × (lookup ◌==◌ 1
          (open_files sample_json fresh_key 9 (remove_session 1 fails one_session).1.files).sessions
        ≡ some meta)
remove_session-returns_example =
    remove_session-returns sample_json sample_json-IsFaithful fresh_key 9 1 fails one_session meta
      refl one_session-IsSynced (refl, tt) only_said refl
