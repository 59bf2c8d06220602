-- ===== src/Relay/Probe/Chunks.antt =====
-- How the upstream's bytes are cut into chunks does not matter (server/src/relay/sse.rs).
use mistake_agent.Prelude.{
  ℕ, suc, zero, ◌≤◌, ◌≡◌, refl, Option, none, some, false, ◌&&◌, List, [], ◌∷◌, ◌++◌, arith, ◌==◌,
  ==_iff, if◌then◌else◌, length, length-append, All, All-append, Bool-cases, inl, inr, sym, ap,
  subst, ◌∙◌,
}
use mathlib.Core.List.{append-nil, append_assoc}
use mistake_agent.Relay.Text.{Text, codes, is_empty, strip_prefix}
use mistake_agent.Relay.Json.{Json}
use mistake_agent.Relay.Probe.{
  UsageProbe, Protocol, new_probe, line_feed, split_line, dispatch, data_line, field_line,
  is_comment, take_line, line_text, drain_lines, push,
}

-- The bytes have no line feed.
abbrev pub IsOneLine : List ℕ → Type 0
IsOneLine = All (λ b. (b == line_feed) ≡ false)

with_buffer : List ℕ → UsageProbe → UsageProbe
with_buffer bytes p = record p { buffer = bytes }

split_line-none : (bytes : List ℕ) → IsOneLine bytes → split_line bytes ≡ none
split_line-none [] h = refl
split_line-none (b ∷ bytes) (f, h) = rw (f, split_line-none bytes h) refl

pub split_line-some :
    (line rest : List ℕ)
    → IsOneLine line
    → split_line (line ++ line_feed ∷ rest) ≡ some (line, rest)
split_line-some [] rest h = refl
split_line-some (b ∷ line) rest (f, h) = rw (f, split_line-some line rest h) refl

module _ (J : Json) where
  -- One byte at a time: the probe that a reader of the format would write first.
  abbrev pub feed_byte : UsageProbe → ℕ → UsageProbe
  feed_byte p b =
      if b == line_feed
      then take_line J (line_text p.buffer) (record p { buffer = [] })
      else record p { buffer = p.buffer ++ (b ∷ []) }

  abbrev pub feed : UsageProbe → List ℕ → UsageProbe
  feed p [] = p
  feed p (b ∷ bytes) = feed (feed_byte p b) bytes

  -- A line is taken without a look at the bytes behind it.
  take_line-buffer :
      (line : Text) (p : UsageProbe) (bytes : List ℕ)
      → take_line J line (record p { buffer = bytes })
        ≡ record (take_line J line p) { buffer = bytes }
  unfolding take_line dispatch
  take_line-buffer line p bytes = elim (Bool-cases (is_empty line)) [
    | inl e ↦ rw e (elim (Bool-cases (is_empty p.event && is_empty p.data_text)) [
      | inl t ↦ rw t refl
      | inr f ↦ rw f refl
    ])
    | inr e ↦ rw e (elim (Bool-cases (is_comment line)) [
      | inl t ↦ rw t refl
      | inr f ↦ rw f (field (strip_prefix (codes "event:") line))
    ])
  ]
    where
      datum :
          (o : Option Text)
          → data_line o (record p { buffer = bytes }) ≡ record (data_line o p) { buffer = bytes }
      datum none = refl
      datum (some value) = refl

      field :
          (o : Option Text)
          → field_line line o (record p { buffer = bytes })
            ≡ record (field_line line o p) { buffer = bytes }
      field none = datum (strip_prefix (codes "data:") line)
      field (some value) = refl

  take_line-same : (line : Text) (p : UsageProbe) → (take_line J line p).buffer ≡ p.buffer
  take_line-same line p = ap (λ q. q.buffer) (take_line-buffer line p p.buffer)

  feed-drain :
      (fuel : ℕ) (p : UsageProbe) (chunk : List ℕ)
      → IsOneLine p.buffer
      → length chunk ≤ fuel
      → drain_lines J fuel (record p { buffer = p.buffer ++ chunk }) ≡ feed p chunk
  unfolding drain_lines
  feed-drain fuel p [] h le =
      ap (λ bytes. drain_lines J fuel (record p { buffer = bytes })) (append-nil p.buffer)
      ∙ stop fuel
    where
      stop : (fuel : ℕ) → drain_lines J fuel p ≡ p
      stop zero = refl
      stop (suc fuel) = rw (split_line-none p.buffer h, drain_lines) refl
  feed-drain zero p (b ∷ chunk) h le = absurd (omega arith)
  feed-drain (suc fuel) p (b ∷ chunk) h le = elim (Bool-cases (b == line_feed)) [
    | inl t ↦
        let cut : split_line (p.buffer ++ b ∷ chunk) ≡ some (p.buffer, chunk) =
          subst (λ n. split_line (p.buffer ++ n ∷ chunk) ≡ some (p.buffer, chunk))
            (sym ((==_iff b line_feed).0 t)) (split_line-some p.buffer chunk h) in
        rw t (
          round cut
          ∙ ap (drain_lines J fuel) (behind chunk)
          ∙ feed-drain fuel (taken) chunk one_line (omega arith))
    | inr f ↦ rw f (
        ap (λ bytes. drain_lines J (suc fuel) (record p { buffer = bytes }))
          (sym (append_assoc p.buffer (b ∷ []) chunk))
        ∙ feed-drain (suc fuel) (record p { buffer = p.buffer ++ (b ∷ []) }) chunk
            (All-append _ p.buffer (b ∷ []) h (f, tt)) (omega arith))
  ]
    where
      taken : UsageProbe
      taken = take_line J (line_text p.buffer) (record p { buffer = [] })

      round :
          split_line (p.buffer ++ b ∷ chunk) ≡ some (p.buffer, chunk)
          → drain_lines J (suc fuel) (record p { buffer = p.buffer ++ b ∷ chunk })
            ≡ drain_lines J fuel (take_line J (line_text p.buffer) (record p { buffer = chunk }))
      round cut = rw (cut, drain_lines) refl

      none_left : taken.buffer ≡ []
      none_left = take_line-same (line_text p.buffer) (record p { buffer = [] })

      behind :
          (bytes : List ℕ)
          → take_line J (line_text p.buffer) (record p { buffer = bytes })
            ≡ record taken { buffer = taken.buffer ++ bytes }
      behind bytes =
          take_line-buffer (line_text p.buffer) (record p { buffer = [] }) bytes
          ∙ ap (λ front. record taken { buffer = front ++ bytes }) (sym none_left)

      one_line : IsOneLine taken.buffer
      one_line = rw none_left tt

  pub push-feed :
      (p : UsageProbe) (chunk : List ℕ) → IsOneLine p.buffer → push J p chunk ≡ feed p chunk
  unfolding push
  push-feed p chunk h =
      feed-drain (length (p.buffer ++ chunk)) p chunk h
        (let size = length-append p.buffer chunk in omega arith)

  feed-append : (p : UsageProbe) (a b : List ℕ) → feed p (a ++ b) ≡ feed (feed p a) b
  feed-append p [] b = refl
  feed-append p (x ∷ a) b = feed-append (feed_byte p x) a b

  feed-IsOneLine :
      (p : UsageProbe) (bytes : List ℕ) → IsOneLine p.buffer → IsOneLine (feed p bytes).buffer
  feed-IsOneLine p [] h = h
  feed-IsOneLine p (b ∷ bytes) h =
      feed-IsOneLine (feed_byte p b) bytes (elim (Bool-cases (b == line_feed)) [
        | inl t ↦ rw t (rw (take_line-same (line_text p.buffer) (record p { buffer = [] })) tt)
        | inr f ↦ rw f (All-append _ p.buffer (b ∷ []) h (f, tt))
      ])

  -- The relay's loop over the chunks that the upstream sends.
  abbrev pub push_all : UsageProbe → List (List ℕ) → UsageProbe
  push_all p [] = p
  push_all p (chunk ∷ chunks) = push_all (push J p chunk) chunks

  abbrev pub concat : List (List ℕ) → List ℕ
  concat [] = []
  concat (chunk ∷ chunks) = chunk ++ concat chunks

  push_all-feed :
      (p : UsageProbe) (chunks : List (List ℕ))
      → IsOneLine p.buffer
      → push_all p chunks ≡ feed p (concat chunks)
  push_all-feed p [] h = refl
  push_all-feed p (chunk ∷ chunks) h =
      ap (λ q. push_all q chunks) (push-feed p chunk h)
      ∙ push_all-feed (feed p chunk) chunks (feed-IsOneLine p chunk h)
      ∙ sym (feed-append p chunk (concat chunks))

  -- The probe of a stream depends on its bytes alone and not on the chunks that they arrive in: two
  -- cuts of the same bytes, in the middle of a line or of a character included, give the same probe,
  -- which is that of reading the bytes one by one.
  pub push_all-concat :
      (protocol : Protocol) (chunks others : List (List ℕ))
      → concat chunks ≡ concat others
      → (push_all (new_probe protocol) chunks ≡ push_all (new_probe protocol) others)
        × (push_all (new_probe protocol) chunks ≡ feed (new_probe protocol) (concat chunks))
  unfolding new_probe
  push_all-concat protocol chunks others e =
      let cut = λ (cs : List (List ℕ)). push_all-feed (new_probe protocol) cs tt in
      (cut chunks ∙ ap (feed (new_probe protocol)) e ∙ sym (cut others), cut chunks)
