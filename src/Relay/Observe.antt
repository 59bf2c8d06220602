-- ===== src/Relay/Observe.antt =====
-- server/src/relay/sse.rs: what an event of the stream adds to the result, for each protocol.
use mistake_agent.Prelude.{
  ℕ, Option, none, some, Bool, true, false, not, ◌||◌, List, [], ◌∷◌, String, if◌then◌else◌, any,
}
use mistake_agent.Billing.Ladder.{saturating_add_u64}
use mistake_agent.Billing.Model.{TokenUsage}
use mistake_agent.Relay.Text.{Text, codes, is_empty, same_text, trim, ends_with}
use mistake_agent.Relay.Json.{Json}

pub data Terminal : Type 0 where
  pending completed failed : Terminal

pub record ProbeResult : Type 0 where
  pub usage : Option TokenUsage
  pub saw_event : Bool
  pub saw_output : Bool
  pub terminal : Terminal

-- `ProbeResult::default()`.
abbrev pub no_result : ProbeResult
no_result = record { usage = none; saw_event = false; saw_output = false; terminal = pending }

abbrev filter {ℓ} : {A : Type ℓ} → (A → Bool) → Option A → Option A
filter p none = none
filter p (some a) = if p a then some a else none

abbrev or_else {ℓ} : {A : Type ℓ} → Option A → Option A → Option A
or_else none o = o
or_else (some a) o = some a

abbrev and_then {ℓ κ} : {A : Type ℓ} {B : Type κ} → Option A → (A → Option B) → Option B
and_then none f = none
and_then (some a) f = f a

abbrev holds {ℓ} : {A : Type ℓ} → (A → Bool) → Option A → Bool
holds p none = false
holds p (some a) = p a

abbrev or_zero : Option ℕ → ℕ
or_zero none = 0
or_zero (some n) = n

abbrev pub set_usage : Option TokenUsage → ProbeResult → ProbeResult
set_usage none r = r
set_usage (some usage) r = record r { usage = some usage }

abbrev pub set_terminal : Terminal → ProbeResult → ProbeResult
set_terminal t r = record r { terminal = t }

abbrev pub set_output : Bool → ProbeResult → ProbeResult
set_output false r = r
set_output true r = record r { saw_output = true }

module _ (J : Json) where
  abbrev pub u64_field : J.Value → String → ℕ
  u64_field value key = or_zero (and_then (J.get key value) J.as_u64)

  abbrev pub responses_usage : J.Value → TokenUsage
  responses_usage usage = record {
    input_total = u64_field usage "input_tokens";
    cached = u64_field (J.index "input_tokens_details" usage) "cached_tokens";
    output = u64_field usage "output_tokens";
    reasoning = u64_field (J.index "output_tokens_details" usage) "reasoning_tokens";
  }

  abbrev pub chat_cached : J.Value → Option J.Value → ℕ
  chat_cached usage none = u64_field usage "prompt_cache_hit_tokens"
  chat_cached usage (some _) = u64_field (J.index "prompt_tokens_details" usage) "cached_tokens"

  abbrev pub chat_usage : J.Value → TokenUsage
  chat_usage usage = record {
    input_total = u64_field usage "prompt_tokens";
    cached = chat_cached usage (J.get "prompt_tokens_details" usage);
    output = u64_field usage "completion_tokens";
    reasoning = u64_field (J.index "completion_tokens_details" usage) "reasoning_tokens";
  }

  abbrev pub anthropic_usage : J.Value → TokenUsage
  anthropic_usage usage =
      let cache_read = u64_field usage "cache_read_input_tokens" in
      let cache_creation = u64_field usage "cache_creation_input_tokens" in
      record {
        input_total =
            saturating_add_u64 (saturating_add_u64 (u64_field usage "input_tokens") cache_read)
              cache_creation;
        cached = cache_read;
        output = u64_field usage "output_tokens";
        reasoning = 0;
      }

  abbrev map_usage : (J.Value → TokenUsage) → Option J.Value → Option TokenUsage
  map_usage f none = none
  map_usage f (some v) = some (f v)

  abbrev pub response_kind : Option Text → ProbeResult → ProbeResult
  response_kind none r = r
  response_kind (some kind) r =
      if any (λ k. same_text kind (codes k))
        ("response.completed" ∷ "response.done" ∷ "response.incomplete" ∷ [])
      then set_terminal completed r
      else if any (λ k. same_text kind (codes k))
          ("response.failed" ∷ "response.cancelled" ∷ "response.canceled" ∷ [])
      then set_terminal failed r
      else set_output (ends_with (codes ".delta") kind) r

  abbrev pub response_type : J.Value → Option Text
  response_type value = and_then (J.get "type" value) J.as_str

  -- The usage of the response, or else that of the event.
  abbrev pub responses_usage_of : J.Value → Option TokenUsage
  responses_usage_of value = map_usage responses_usage (
      or_else (filter J.is_object (J.pointer "/response/usage" value))
        (filter J.is_object (J.get "usage" value)))

  abbrev pub response_value : J.Value → ProbeResult → ProbeResult
  response_value value r =
      response_kind (response_type value) (set_usage (responses_usage_of value) r)

  unfoldable pub observe_responses : Text → ProbeResult → ProbeResult
  observe_responses data_text r = elim (J.parse data_text) [
    | none ↦ r
    | some value ↦ response_value value r
  ]

  abbrev pub has_text : J.Value → String → Bool
  has_text delta key = holds (λ t. not (is_empty t)) (and_then (J.get key delta) J.as_str)

  -- A choice whose delta has some output.
  abbrev pub choice_has_output : J.Value → Bool
  choice_has_output choice =
      let delta = J.index "delta" choice in
      has_text delta "content"
      || has_text delta "reasoning_content"
      || holds (λ _. true) (J.get "tool_calls" delta)

  abbrev pub chat_choices : Option (List J.Value) → Bool
  chat_choices none = false
  chat_choices (some choices) = any choice_has_output choices

  abbrev pub chat_error : Option J.Value → ProbeResult → ProbeResult
  chat_error none r = r
  chat_error (some _) r = set_terminal failed r

  abbrev pub chat_output : J.Value → Bool
  chat_output value = chat_choices (and_then (J.get "choices" value) J.as_array)

  abbrev pub chat_usage_of : J.Value → Option TokenUsage
  chat_usage_of value = map_usage chat_usage (filter J.is_object (J.get "usage" value))

  abbrev pub chat_value : J.Value → ProbeResult → ProbeResult
  chat_value value r =
      set_output (chat_output value)
        (chat_error (J.get "error" value) (set_usage (chat_usage_of value) r))

  unfoldable pub observe_chat : Text → ProbeResult → ProbeResult
  observe_chat data_text r =
      if same_text (trim data_text) (codes "[DONE]")
      then set_terminal completed r
      else elim (J.parse data_text) [ none ↦ r | some value ↦ chat_value value r ]

  abbrev pub anthropic_usage_at : Option J.Value → Option TokenUsage
  anthropic_usage_at o = map_usage anthropic_usage (filter J.is_object o)

  abbrev pub anthropic_value : Text → J.Value → ProbeResult → ProbeResult
  anthropic_value event value r =
      if same_text event (codes "message_start")
      then set_usage (anthropic_usage_at (J.pointer "/message/usage" value)) r
      else if same_text event (codes "message_delta")
      then set_usage (anthropic_usage_at (J.get "usage" value)) r
      else if same_text event (codes "message_stop")
      then set_terminal completed r
      else if same_text event (codes "error")
      then set_terminal failed r
      else set_output (same_text event (codes "content_block_delta")) r

  unfoldable pub observe_anthropic : Text → Text → ProbeResult → ProbeResult
  observe_anthropic event data_text r = elim (J.parse data_text) [
    | none ↦ r
    | some value ↦ anthropic_value event value r
  ]
