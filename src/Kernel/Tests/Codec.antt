-- ===== src/Kernel/Tests/Codec.antt =====
-- A format of texts that reads back what it writes: it stands for serde_json in the tests.
mod Parts
use mistake_agent.Prelude.{
  ℕ, ◌+◌, ◌-◌, ◌≤◌, ◌≡◌, zero, suc, refl, Option, none, some, List, [], ◌∷◌, ◌==◌, arith,
  if◌then◌else◌, All, ap, length, false,
}
use mistake_agent.Relay.Text.{Text}
use mistake_agent.Kernel.Messages.{
  AttachmentRef, MessageKind, user, assistant, tool_call, reasoning, system, Message, Goal,
  SessionMeta, SessionStatus, active, archived,
}
use mistake_agent.Kernel.Files.{SessionJson}
use mistake_agent.Kernel.Files.Format.{IsFaithful}
use mistake_agent.Kernel.Tests.Codec.Parts.{
  Codec, nat_codec, text_codec, pair_codec, via_codec, option_codec, list_codec,
}

ref_codec : Codec AttachmentRef
ref_codec =
    via_codec {A = (Text × Text) × Option Text}
      (λ p. record { name = p.0.0; mime = p.0.1; display_name = p.1 })
      (λ r. ((r.name, r.mime), r.display_name)) (λ r. refl)
      (pair_codec (pair_codec text_codec text_codec) (option_codec text_codec))

-- The fields of every kind of message, behind a number for the kind.
abbrev Fields : Type 0
Fields = ((ℕ × (Text × Text)) × Option Text) × List AttachmentRef

abbrev of_fields : Fields → MessageKind
of_fields (((zero, (a, b)), o), refs) = user a o refs
of_fields (((suc zero, (a, b)), o), refs) = assistant a
of_fields (((suc (suc zero), (a, b)), o), refs) = tool_call a b
of_fields (((suc (suc (suc zero)), (a, b)), o), refs) = reasoning a b
of_fields (((suc (suc (suc (suc n))), (a, b)), o), refs) = system a o

abbrev to_fields : MessageKind → Fields
to_fields (user a o refs) = (((0, (a, [])), o), refs)
to_fields (assistant a) = (((1, (a, [])), none), [])
to_fields (tool_call a b) = (((2, (a, b)), none), [])
to_fields (reasoning a b) = (((3, (a, b)), none), [])
to_fields (system a o) = (((4, (a, [])), o), [])

fields_back : (k : MessageKind) → of_fields (to_fields k) ≡ k
fields_back (user a o refs) = refl
fields_back (assistant a) = refl
fields_back (tool_call a b) = refl
fields_back (reasoning a b) = refl
fields_back (system a o) = refl

kind_codec : Codec MessageKind
kind_codec = via_codec of_fields to_fields fields_back (
    pair_codec
      (pair_codec (pair_codec nat_codec (pair_codec text_codec text_codec))
        (option_codec text_codec))
      (list_codec ref_codec))

message_codec : Codec Message
message_codec =
    via_codec {A = ((ℕ × Option ℕ) × MessageKind) × ℕ}
      (λ p. record { id = p.0.0.0; parent_id = p.0.0.1; kind = p.0.1; created_at = p.1 })
      (λ m. (((m.id, m.parent_id), m.kind), m.created_at)) (λ m. refl)
      (pair_codec (pair_codec (pair_codec nat_codec (option_codec nat_codec)) kind_codec) nat_codec)

abbrev status_of : ℕ → SessionStatus
status_of zero = active
status_of (suc n) = archived

abbrev status_number : SessionStatus → ℕ
status_number active = 0
status_number archived = 1

status_back : (s : SessionStatus) → status_of (status_number s) ≡ s
status_back active = refl
status_back archived = refl

abbrev MetaFields : Type 0
MetaFields = (((ℕ × Option Text) × Option Text) × SessionStatus) × (((ℕ × Option ℕ) × ℕ) × Option ℕ)

abbrev goal_text : Option Goal → Option Text
goal_text none = none
goal_text (some g) = some g.text

abbrev goal_from : Option Text → Option Goal
goal_from none = none
goal_from (some t) = some (record { text = t })

goal_back : (g : Option Goal) → goal_from (goal_text g) ≡ g
goal_back none = refl
goal_back (some g) = refl

meta_codec : Codec SessionMeta
meta_codec =
    via_codec {A = MetaFields}
      (λ p. record {
        key = p.0.0.0.0;
        goal = goal_from p.0.0.0.1;
        title = p.0.0.1;
        status = p.0.1;
        created_at = p.1.0.0.0;
        archived_at = p.1.0.0.1;
        last_activity_at = p.1.0.1;
        active_path = p.1.1;
      })
      (λ m. (
        (((m.key, goal_text m.goal), m.title), m.status),
        (((m.created_at, m.archived_at), m.last_activity_at), m.active_path),
      ))
      (λ m. ap (λ g. record m { goal = g }) (goal_back m.goal))
      (pair_codec
        (pair_codec
          (pair_codec (pair_codec nat_codec (option_codec text_codec)) (option_codec text_codec))
          (via_codec status_of status_number status_back nat_codec))
        (pair_codec (pair_codec (pair_codec nat_codec (option_codec nat_codec)) nat_codec)
          (option_codec nat_codec)))

abbrev value_of : {A : Type 0} → Option (A × Text) → Option A
value_of none = none
value_of (some (a, t)) = some a

abbrev read_braced : {A : Type 0} → Codec A → Text → Option A
read_braced C [] = none
read_braced C (c ∷ t) = value_of (C.read t)

pub sample_json : SessionJson
sample_json = record {
  write_meta = λ m. 123 ∷ meta_codec.write m [];
  read_meta = read_braced meta_codec;
  write_message = λ m. 123 ∷ message_codec.write m [];
  read_message = read_braced message_codec;
}

pub sample_json-IsFaithful : IsFaithful sample_json
unfolding sample_json
sample_json-IsFaithful = record {
  meta_object = λ m. (meta_codec.write m [], refl, meta_codec.printable m [] tt);
  message_object = λ m. (message_codec.write m [], refl, message_codec.printable m [] tt);
  meta_back = λ m. rw (meta_codec.back m []) refl;
  message_back = λ m. rw (message_codec.back m []) refl;
}
