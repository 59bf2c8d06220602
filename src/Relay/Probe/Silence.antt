-- ===== src/Relay/Probe/Silence.antt =====
-- What the probe knows of a stream without an event (server/src/relay/sse.rs).
use mistake_agent.Prelude.{
  ℕ, ◌≡◌, refl, Option, none, some, Bool, true, false, ◌&&◌, List, [], ◌∷◌, ◌==◌, if◌then◌else◌,
  any, Bool-cases, Option-cases, inl, inr, ◌⊎◌,
}
use mistake_agent.Billing.Model.{TokenUsage}
use mistake_agent.Relay.Text.{Text, codes, is_empty, same_text, trim, ends_with, strip_prefix}
use mistake_agent.Relay.Json.{Json}
use mistake_agent.Relay.Observe.{
  Terminal, ProbeResult, no_result, set_usage, set_terminal, set_output, response_kind,
  anthropic_usage_at, responses_usage_of, chat_usage_of, chat_output, response_type,
  observe_responses, chat_error, chat_value, observe_chat, anthropic_value, observe_anthropic,
}
use mistake_agent.Relay.Probe.{
  UsageProbe, Protocol, responses, chat_completions, anthropic, new_probe, observe, dispatch,
  data_line, field_line, is_comment, take_line, line_text,
}
use mistake_agent.Relay.Probe.Chunks.{feed_byte, feed, concat, push_all, push_all-concat}

-- Either an event was seen, or nothing is known.
abbrev pub IsHonest : ProbeResult → Type 0
IsHonest r = (r.saw_event ≡ true) ⊎ (r ≡ no_result)

abbrev Seen : ProbeResult → Type 0
Seen r = r.saw_event ≡ true

set_usage-Seen : (o : Option TokenUsage) (r : ProbeResult) → Seen r → Seen (set_usage o r)
set_usage-Seen none r h = h
set_usage-Seen (some u) r h = h

set_output-Seen : (b : Bool) (r : ProbeResult) → Seen r → Seen (set_output b r)
set_output-Seen false r h = h
set_output-Seen true r h = h

choose_Seen : (b : Bool) (q r : ProbeResult) → Seen q → Seen r → Seen (if b then q else r)
choose_Seen true q r h k = h
choose_Seen false q r h k = k

module _ (J : Json) where
  response_kind-Seen : (o : Option Text) (r : ProbeResult) → Seen r → Seen (response_kind J o r)
  response_kind-Seen none r h = h
  response_kind-Seen (some kind) r h =
      by_cases
        (any (λ k. same_text kind (codes k))
          ("response.completed" ∷ "response.done" ∷ "response.incomplete" ∷ []))
        (any (λ k. same_text kind (codes k))
          ("response.failed" ∷ "response.cancelled" ∷ "response.canceled" ∷ []))
    where
      by_cases :
          (done lost : Bool)
          → Seen (
              if done
              then set_terminal Terminal.completed r
              else if lost
              then set_terminal Terminal.failed r
              else set_output (ends_with (codes ".delta") kind) r)
      by_cases true lost = h
      by_cases false true = h
      by_cases false false = set_output-Seen (ends_with (codes ".delta") kind) r h

  observe_responses-Seen :
      (data_text : Text) (r : ProbeResult) → Seen r → Seen (observe_responses J data_text r)
  unfolding observe_responses
  observe_responses-Seen data_text r h = elim (Option-cases (J.parse data_text)) [
    | inl e ↦ rw (e, observe_responses) h
    | inr (v, e) ↦
        rw (e, observe_responses)
          (response_kind-Seen (response_type J v) (set_usage (responses_usage_of J v) r)
            (set_usage-Seen (responses_usage_of J v) r h))
  ]

  chat_error-Seen : (o : Option J.Value) (r : ProbeResult) → Seen r → Seen (chat_error J o r)
  chat_error-Seen none r h = h
  chat_error-Seen (some v) r h = h

  observe_chat-Seen :
      (data_text : Text) (r : ProbeResult) → Seen r → Seen (observe_chat J data_text r)
  unfolding observe_chat
  observe_chat-Seen data_text r h =
      choose_Seen (same_text (trim data_text) (codes "[DONE]")) _ _ h (parsed (J.parse data_text))
    where
      parsed : (o : Option J.Value) → Seen (elim o [ none ↦ r | some value ↦ chat_value J value r ])
      parsed none = h
      parsed (some v) =
          set_output-Seen (chat_output J v)
            (chat_error J (J.get "error" v) (set_usage (chat_usage_of J v) r))
            (chat_error-Seen (J.get "error" v) (set_usage (chat_usage_of J v) r)
              (set_usage-Seen (chat_usage_of J v) r h))

  observe_anthropic-Seen :
      (event data_text : Text) (r : ProbeResult)
      → Seen r
      → Seen (observe_anthropic J event data_text r)
  unfolding observe_anthropic
  observe_anthropic-Seen event data_text r h = parsed (J.parse data_text)
    where
      by_cases :
          (start delta stop error : Bool) (first final : Option TokenUsage)
          → Seen (
              if start
              then set_usage first r
              else if delta
              then set_usage final r
              else if stop
              then set_terminal Terminal.completed r
              else if error
              then set_terminal Terminal.failed r
              else set_output (same_text event (codes "content_block_delta")) r)
      by_cases true delta stop error first final = set_usage-Seen first r h
      by_cases false true stop error first final = set_usage-Seen final r h
      by_cases false false true error first final = h
      by_cases false false false true first final = h
      by_cases false false false false first final =
          set_output-Seen (same_text event (codes "content_block_delta")) r h

      parsed :
          (o : Option J.Value)
          → Seen (elim o [ none ↦ r | some value ↦ anthropic_value J event value r ])
      parsed none = h
      parsed (some v) =
          by_cases (same_text event (codes "message_start"))
            (same_text event (codes "message_delta")) (same_text event (codes "message_stop"))
            (same_text event (codes "error")) (anthropic_usage_at J (J.pointer "/message/usage" v))
            (anthropic_usage_at J (J.get "usage" v))

  observe-Seen :
      (protocol : Protocol) (event data_text : Text) (r : ProbeResult)
      → Seen r
      → Seen (observe J protocol event data_text r)
  observe-Seen responses event data_text r h = observe_responses-Seen data_text r h
  observe-Seen chat_completions event data_text r h = observe_chat-Seen data_text r h
  observe-Seen anthropic event data_text r h = observe_anthropic-Seen event data_text r h

  take_line-IsHonest :
      (line : Text) (p : UsageProbe) → IsHonest p.result → IsHonest (take_line J line p).result
  unfolding take_line dispatch
  take_line-IsHonest line p h = elim (Bool-cases (is_empty line)) [
    | inl e ↦ rw e (elim (Bool-cases (is_empty p.event && is_empty p.data_text)) [
      | inl t ↦ rw t h
      | inr f ↦ rw f (
          inl (
            observe-Seen p.protocol p.event p.data_text (record p.result { saw_event = true })
              refl))
    ])
    | inr e ↦ rw e (elim (Bool-cases (is_comment line)) [
      | inl t ↦ rw t h
      | inr f ↦ rw f (field (strip_prefix (codes "event:") line))
    ])
  ]
    where
      datum : (o : Option Text) → IsHonest (data_line o p).result
      datum none = h
      datum (some value) = h

      field : (o : Option Text) → IsHonest (field_line line o p).result
      field none = datum (strip_prefix (codes "data:") line)
      field (some value) = h

  feed-IsHonest :
      (p : UsageProbe) (bytes : List ℕ) → IsHonest p.result → IsHonest (feed J p bytes).result
  feed-IsHonest p [] h = h
  feed-IsHonest p (b ∷ bytes) h =
      feed-IsHonest (feed_byte J p b) bytes (elim (Bool-cases (b == 10)) [
        | inl t ↦ rw t (take_line-IsHonest (line_text p.buffer) (record p { buffer = [] }) h)
        | inr f ↦ rw f h
      ])

  -- Of a stream in which no event was seen, the probe reports nothing: no usage, no output and no
  -- end, whatever the bytes and the chunks are.
  pub push_all-IsHonest :
      (protocol : Protocol) (chunks : List (List ℕ))
      → IsHonest (push_all J (new_probe protocol) chunks).result
  unfolding new_probe
  push_all-IsHonest protocol chunks =
      let read = (push_all-concat J protocol chunks chunks refl).1 in
      rw read (feed-IsHonest (new_probe protocol) (concat J chunks) (inr refl))
