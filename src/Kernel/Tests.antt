-- ===== src/Kernel/Tests.antt =====
-- Runs of src/kernel/ at concrete data.
mod Codec
mod Files
mod Loop
mod Migration
mod Plugins
use mistake_agent.Prelude.{
  ℕ, ◌≡◌, refl, Option, none, some, true, List, [], ◌∷◌, ◌==◌, arith, lookup, Bool-cases, inl, inr,
  ap, ◌∙◌, ==_iff, if◌then◌else◌, ◌+◌, false, true,
}
use mistake_agent.Prelude.Results.{err}
use mistake_agent.Relay.Text.{Text, codes}
use mistake_agent.Kernel.Messages.{Message, Goal, SessionMeta, assistant, active}
use mistake_agent.Kernel.Chain.{active_chain}
use mistake_agent.Kernel.Chain.Paths.{IsPathTo, Falls, active_chain-IsPathTo}
use mistake_agent.Kernel.Store.{Inner, create_session}
use mistake_agent.Kernel.Mistakes.{
  Mistake, MistakePatch, get, update, save, remove_many, mistake_not_found,
}
use mistake_agent.Kernel.Mistakes.Figures.{live_count, remove_many-live}
use mistake_agent.Kernel.Mistakes.Deleting.{IsDeleted, done, then_call, saves, get-deleted}
use mistake_agent.Kernel.Scheduler.{Said, on_new_message, create_new_session}
use mistake_agent.Kernel.Scheduler.Steps.{Reach, fresh, next, says, starts, Reach-single}

abbrev silent : List Message → Option Goal → Text
silent messages goal = []

abbrev hello : Said
hello = record {
  id = 10;
  text = codes "hi";
  display_text = none;
  attachment_refs = [];
  created_at = 5;
}

abbrev nothing_yet : Inner
nothing_yet = record { sessions = []; messages = [] }

abbrev one_session : Inner
one_session = (on_new_message hello 1 5 nothing_yet).1

abbrev two_sessions : Inner
two_sessions = (create_new_session silent none true 2 20 6 one_session).1

reached : Reach silent two_sessions
reached = next (next fresh (says hello 1 5)) (starts none true 2 20 6)

abbrev second_meta : SessionMeta
second_meta = record {
  key = 2;
  goal = none;
  title = none;
  status = active;
  created_at = 6;
  archived_at = none;
  last_activity_at = 6;
  active_path = none;
}

second : lookup ◌==◌ 2 two_sessions.sessions ≡ some second_meta
unfolding create_new_session on_new_message create_session
second = refl

Reach-single_example : (second_meta.key ≡ second_meta.key) × (second_meta.key ≡ second_meta.key)
Reach-single_example =
    Reach-single silent 2 2 second_meta second_meta reached second second refl refl

abbrev question : Message
question = record { id = 1; parent_id = none; kind = assistant []; created_at = 1 }

abbrev answer : Message
answer = record { id = 2; parent_id = some 1; kind = assistant []; created_at = 2 }

abbrev tree : List Message
tree = question ∷ answer ∷ []

-- The rank of a message: 2 for the answer, 1 for every other.
abbrev height : ℕ → ℕ
height id = if id == 2 then 2 else 1

falling : Falls tree height
falling id p m e q = elim (Bool-cases (2 == id)) [
  | inl t ↦
      let u : some answer ≡ some m = rw t at e in
      let same : answer ≡ m = cc u in
      let up : some 1 ≡ some p = ap (λ x. x.parent_id) same ∙ q in
      let one : 1 ≡ p = cc up in
      let two : 2 ≡ id = (==_iff 2 id).0 t in rw (← one, ← two) (omega arith)
  | inr f ↦ elim (Bool-cases (1 == id)) [
    | inl t ↦
        let u : some question ≡ some m = rw (f, t) at e in
        let same : question ≡ m = cc u in
        let up : none ≡ some p = ap (λ x. x.parent_id) same ∙ q in absurd (cc up)
    | inr g ↦ (let u : none ≡ some m = rw (f, g) at e in absurd (cc u))
  ]
]

active_chain-IsPathTo_example :
    (chain : List Message) × (active_chain tree (some 2) ≡ some chain)
    × IsPathTo tree (some 2) chain
active_chain-IsPathTo_example =
    active_chain-IsPathTo tree height falling 2 answer (λ id. ground arith) refl

abbrev wrong_sum : Mistake
wrong_sum = record {
  id = 1;
  subject = codes "math";
  knowledge_point = codes "sums";
  title = none;
  question = codes "1+1";
  student_answer = codes "3";
  reference_answer = none;
  is_correct = false;
  analysis = [];
  created_at = 4;
  pinned = false;
  deleted_at = none;
}

abbrev book : List Mistake
book = wrong_sum ∷ record wrong_sum { id = 2 } ∷ []

remove_many-live_example :
    live_count (remove_many (1 ∷ 3 ∷ 1 ∷ []) 9 book).1 + (remove_many (1 ∷ 3 ∷ 1 ∷ []) 9 book).0
    ≡ live_count book
remove_many-live_example = remove_many-live (1 ∷ 3 ∷ 1 ∷ []) 9 book

one_deleted : (remove_many (1 ∷ 3 ∷ 1 ∷ []) 9 book).0 ≡ 1
unfolding remove_many
one_deleted = refl

abbrev struck : List Mistake
struck = record wrong_sum { deleted_at = some 9 } ∷ record wrong_sum { id = 2 } ∷ []

abbrev no_change : MistakePatch
no_change = record {
  subject = none;
  knowledge_point = none;
  title = none;
  question = none;
  student_answer = none;
  reference_answer = none;
  analysis = none;
  is_correct = none;
  pinned = some true;
}

struck_one : IsDeleted 1 struck
struck_one = (refl, ((λ _. refl), ((λ e. absurd (cc e)), tt)))

get-deleted_example :
    (get 1 (save wrong_sum struck).1 ≡ none)
    × (update 1 no_change (save wrong_sum struck).1
        ≡ (err (mistake_not_found 1), (save wrong_sum struck).1))
get-deleted_example = get-deleted 1 no_change struck_one (then_call done (saves wrong_sum))
