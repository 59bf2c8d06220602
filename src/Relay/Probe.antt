-- ===== src/Relay/Probe.antt =====
-- server/src/relay/sse.rs: the probe that parses the stream while it is relayed.
pub mod Chunks
pub mod Silence
use mistake_agent.Prelude.{
  ℕ, suc, zero, Option, none, some, Bool, true, false, ◌&&◌, List, [], ◌∷◌, ◌++◌, ◌==◌,
  if◌then◌else◌, length,
}
use mistake_agent.Relay.Text.{
  Text, codes, is_empty, trim, trim_start, drop_end, strip_prefix, from_utf8_lossy,
}
use mistake_agent.Relay.Json.{Json}
use mistake_agent.Relay.Observe.{
  ProbeResult, no_result, observe_responses, observe_chat, observe_anthropic,
}

-- server/src/relay/protocol.rs.
pub data Protocol : Type 0 where
  responses chat_completions anthropic : Protocol

-- The field `data` of the source is `data_text` here.
pub record UsageProbe : Type 0 where
  pub protocol : Protocol
  pub buffer : List ℕ
  pub event : Text
  pub data_text : Text
  pub result : ProbeResult

unfoldable pub new_probe : Protocol → UsageProbe
new_probe protocol = record {
  protocol = protocol;
  buffer = [];
  event = [];
  data_text = [];
  result = no_result;
}

abbrev pub line_feed : ℕ
line_feed = 10

abbrev pub cons_line : ℕ → Option (List ℕ × List ℕ) → Option (List ℕ × List ℕ)
cons_line b none = none
cons_line b (some (line, rest)) = some (b ∷ line, rest)

-- The bytes before the first line feed, and those after it: `position` and `drain`.
abbrev pub split_line : List ℕ → Option (List ℕ × List ℕ)
split_line [] = none
split_line (b ∷ bytes) =
    let rest = split_line bytes in if b == line_feed then some ([], bytes) else cons_line b rest

-- `finish`: what is left of a line is dropped.
abbrev pub finish : UsageProbe → ProbeResult
finish p = p.result

abbrev pub add_data : Text → UsageProbe → UsageProbe
add_data value p = record p {
  data_text =
      (if is_empty p.data_text then p.data_text else p.data_text ++ (line_feed ∷ []))
      ++ trim_start value;
}

abbrev pub data_line : Option Text → UsageProbe → UsageProbe
data_line none p = p
data_line (some value) p = add_data value p

abbrev pub field_line : Text → Option Text → UsageProbe → UsageProbe
field_line line none p = data_line (strip_prefix (codes "data:") line) p
field_line line (some value) p = record p { event = trim value }

abbrev pub is_comment : Text → Bool
is_comment [] = false
is_comment (c ∷ line) = c == 58

-- The text of a line: the carriage returns at its end are dropped.
unfoldable pub line_text : List ℕ → Text
unfolding from_utf8_lossy
line_text bytes = drop_end (λ c. c == 13) (from_utf8_lossy bytes)

module _ (J : Json) where
  abbrev pub observe : Protocol → Text → Text → ProbeResult → ProbeResult
  observe responses event data_text r = observe_responses J data_text r
  observe chat_completions event data_text r = observe_chat J data_text r
  observe anthropic event data_text r = observe_anthropic J event data_text r

  unfoldable pub dispatch : UsageProbe → UsageProbe
  dispatch p = if is_empty p.event && is_empty p.data_text then p else record p {
    event = [];
    data_text = [];
    result = observe p.protocol p.event p.data_text (record p.result { saw_event = true });
  }

  unfoldable pub take_line : Text → UsageProbe → UsageProbe
  unfolding dispatch
  take_line line p =
      if is_empty line
      then dispatch p
      else if is_comment line
      then p
      else field_line line (strip_prefix (codes "event:") line) p

  -- The loop of `push`, on fuel; each round takes a line feed off the buffer.
  unfoldable pub drain_lines : ℕ → UsageProbe → UsageProbe
  unfolding take_line line_text
  drain_lines zero p = p
  drain_lines (suc fuel) p = elim (split_line p.buffer) [
    | none ↦ p
    | some (line, rest) ↦ drain_lines fuel (take_line (line_text line) (record p { buffer = rest }))
  ]

  unfoldable pub push : UsageProbe → List ℕ → UsageProbe
  unfolding drain_lines
  push p chunk =
      let buffer = p.buffer ++ chunk in drain_lines (length buffer) (record p { buffer = buffer })
