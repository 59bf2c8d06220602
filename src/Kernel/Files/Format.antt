-- ===== src/Kernel/Files/Format.antt =====
-- The format of a session file, there and back (src/kernel/plugin/storage/file/mod.rs).
use mistake_agent.Prelude.{
  ℕ, ◌≤◌, subst, ◌≡◌, refl, some, false, List, [], ◌∷◌, ◌++◌, ◌==◌, arith, All, Bool-cases, inl,
  inr, sym,
}
use mistake_agent.Relay.Text.{Text, is_empty, trim, lines, drop_end, is_whitespace}
use mistake_agent.Relay.Probe.{split_line}
use mistake_agent.Relay.Probe.Chunks.{IsOneLine, split_line-some}
use mistake_agent.Kernel.Messages.{Message, SessionMeta}
use mistake_agent.Kernel.Files.{
  SessionJson, write_messages, serialize_session, read_messages, load_file,
}

-- A JSON object as serde_json writes it: an opening brace, and no control character anywhere.
abbrev pub IsObject : Text → Type 0
IsObject t = (rest : Text) × (t ≡ 123 ∷ rest) × All (λ c. 32 ≤ c) rest

-- What the code relies on of serde_json: what is written is an object and reads back as it was.
pub record IsFaithful (J : SessionJson) : Type 0 where
  pub meta_object : (m : SessionMeta) → IsObject (J.write_meta m)
  pub message_object : (m : Message) → IsObject (J.write_message m)
  pub meta_back : (m : SessionMeta) → J.read_meta (J.write_meta m) ≡ some m
  pub message_back : (m : Message) → J.read_message (J.write_message m) ≡ some m

-- A character that ends no line.
not_line_feed : (c : ℕ) → 32 ≤ c → (c == 10) ≡ false
not_line_feed c h = ground arith

not_return : (c : ℕ) → 32 ≤ c → (c == 13) ≡ false
not_return c h = ground arith

lines-line :
    (line rest : Text) → All (λ c. 32 ≤ c) line → lines (line ++ 10 ∷ rest) ≡ line ∷ lines rest
lines-line [] rest h = refl
lines-line (c ∷ line) rest (h, hs) =
    rw (not_line_feed c h, not_return c h, lines-line line rest hs) refl

IsObject-printable : (t : Text) → IsObject t → All (λ c. 32 ≤ c) t
IsObject-printable t (rest, e, h) = subst (All (λ c. 32 ≤ c)) (sym e) (omega arith, h)

printable-IsOneLine : (t : Text) → All (λ c. 32 ≤ c) t → IsOneLine t
printable-IsOneLine [] h = tt
printable-IsOneLine (c ∷ t) (h, hs) = (not_line_feed c h, printable-IsOneLine t hs)

pub lines-object : (t rest : Text) → IsObject t → lines (t ++ 10 ∷ rest) ≡ t ∷ lines rest
lines-object t rest o = lines-line t rest (IsObject-printable t o)

split_line-object : (t rest : Text) → IsObject t → split_line (t ++ 10 ∷ rest) ≡ some (t, rest)
split_line-object t rest o = split_line-some t rest (printable-IsOneLine t (IsObject-printable t o))

is_empty-trim_brace : (rest : Text) → is_empty (trim (123 ∷ rest)) ≡ false
is_empty-trim_brace rest = elim (Bool-cases (is_empty (drop_end is_whitespace rest))) [
  | inl t ↦ rw t refl
  | inr f ↦ rw f refl
]

is_empty-trim_object : (t : Text) → IsObject t → is_empty (trim t) ≡ false
is_empty-trim_object t (rest, e, h) =
    subst (λ u. is_empty (trim u) ≡ false) (sym e) (is_empty-trim_brace rest)

module _ (J : SessionJson) (faithful : IsFaithful J) where
  pub read_messages-write : (ms : List Message) → read_messages J (lines (write_messages J ms)) ≡ ms
  read_messages-write [] = refl
  read_messages-write (m ∷ ms) =
      rw
        (
          lines-object (J.write_message m) (write_messages J ms) (faithful.message_object m),
          is_empty-trim_object (J.write_message m) (faithful.message_object m),
          faithful.message_back m,
          read_messages-write ms,
        )
        refl

  -- A session file that is read gives the session and all the messages that were written, in their
  -- order, if the JSON of a session and of a message is an object on one line that reads back as it
  -- was.
  pub load_file-serialize_session :
      (meta : SessionMeta) (ms : List Message)
      → load_file J (serialize_session J meta ms) ≡ some (meta, ms)
  unfolding load_file serialize_session
  load_file-serialize_session meta ms =
      rw
        (
          split_line-object (J.write_meta meta) (write_messages J ms) (faithful.meta_object meta),
          faithful.meta_back meta,
          lines-object (J.write_meta meta) (write_messages J ms) (faithful.meta_object meta),
          read_messages-write ms,
        )
        refl
