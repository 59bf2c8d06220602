-- ===== src/Kernel/Migration.antt =====
-- src/kernel/plugin/storage/file/migrate.rs: at a start, a session file with several topics is split
-- into sessions of their own. `HashMap` is a list of entries; a `none` of the groups stands for the
-- panic of an index out of range. New keys and the current time are arguments.
pub mod Partition
use mistake_agent.Prelude.{
  ℕ, suc, zero, ◌+◌, Option, none, some, Bool, true, false, not, List, [], ◌∷◌, ◌++◌, ◌==◌,
  if◌then◌else◌, any, find, retain, max, lookup, put, length,
}
use mistake_agent.Relay.Text.{Text, codes, is_empty, trim, strip_prefix}
use mistake_agent.Kernel.Messages.{
  MessageKind, user, assistant, tool_call, reasoning, system, Message, Goal, SessionStatus, active,
  archived, SessionMeta, new_meta,
}
use mistake_agent.Kernel.Scheduler.{take_chars}

abbrev boundary_prefix : Text
boundary_prefix = codes "上一会话梗概："

abbrev summary_in : MessageKind → Option Text
summary_in (system text display) = strip_prefix boundary_prefix text
summary_in _ = none

unfoldable pub boundary_summary : Message → Option Text
boundary_summary msg = summary_in msg.kind

abbrev pub is_some {ℓ} : {A : Type ℓ} → Option A → Bool
is_some none = false
is_some (some a) = true

abbrev pub Parents : Type 0
Parents = List (ℕ × Option ℕ)

abbrev pub Segments : Type 0
Segments = List (ℕ × ℕ)

abbrev pub has_id {ℓ} : {A : Type ℓ} → ℕ → List (ℕ × A) → Bool
has_id id m = any (λ e. e.0 == id) m

-- What the first loop has found: the parents, the segments of the boundaries and their number.
pub record Marks : Type 0 where
  pub parent_of : Parents
  pub segment_of : Segments
  pub boundary_count : ℕ

abbrev pub mark_one : Message → Marks → Marks
mark_one m s =
    let parents = put ◌==◌ m.id m.parent_id s.parent_of in
    if is_some (boundary_summary m)
    then record {
      parent_of = parents;
      segment_of = put ◌==◌ m.id (suc s.boundary_count) s.segment_of;
      boundary_count = suc s.boundary_count;
    }
    else record s { parent_of = parents }

unfoldable pub mark_boundaries : List Message → Marks → Marks
unfolding boundary_summary
mark_boundaries [] s = s
mark_boundaries (m ∷ ms) s = mark_boundaries ms (mark_one m s)

abbrev pub flatten : Option (Option ℕ) → Option ℕ
flatten none = none
flatten (some o) = o

-- Up the parents to the first message whose segment is known; 0 where there is none, or where the
-- walk comes to a message again.
unfoldable pub climb : ℕ → Parents → Segments → List ℕ → Option ℕ → Option ℕ
climb zero parents segments seen cur = none
climb (suc fuel) parents segments seen none = some 0
climb (suc fuel) parents segments seen (some p) =
    let above = climb fuel parents segments (p ∷ seen) (flatten (lookup ◌==◌ p parents)) in
    if any (λ q. q == p) seen then some 0 else known (lookup ◌==◌ p segments) above
  where
    known : Option ℕ → Option ℕ → Option ℕ
    known (some s) above = some s
    known none above = above

abbrev pub and_then {ℓ κ} : {A : Type ℓ} {B : Type κ} → Option A → (A → Option B) → Option B
and_then none f = none
and_then (some a) f = f a

-- The second loop, over the messages that are no boundaries.
unfoldable pub assign : Parents → List Message → Segments → Option Segments
unfolding climb
assign parents [] segments = some segments
assign parents (m ∷ ms) segments =
    if has_id m.id segments
    then assign parents ms segments
    else and_then (climb (suc (suc (length parents))) parents segments [] m.parent_id)
        (λ s. assign parents ms (put ◌==◌ m.id s segments))

abbrev pub push_at : ℕ → Message → List (List Message) → Option (List (List Message))
push_at i m [] = none
push_at zero m (g ∷ gs) = some ((g ++ (m ∷ [])) ∷ gs)
push_at (suc i) m (g ∷ gs) = and_then (push_at i m gs) (λ hs. some (g ∷ hs))

unfoldable pub place : Segments → List Message → List (List Message) → Option (List (List Message))
place segments [] groups = some groups
place segments (m ∷ ms) groups =
    and_then (lookup ◌==◌ m.id segments) (λ s. and_then (push_at s m groups) (place segments ms))

abbrev pub empty_groups : ℕ → List (List Message)
empty_groups zero = []
empty_groups (suc n) = [] ∷ empty_groups n

abbrev pub no_marks : Marks
no_marks = record { parent_of = []; segment_of = []; boundary_count = 0 }

unfoldable pub split_segments : List Message → Option (List (List Message))
unfolding mark_boundaries assign place
split_segments messages =
    let marks = mark_boundaries messages no_marks in
    and_then (assign marks.parent_of messages marks.segment_of)
      (λ segments. place segments messages (empty_groups (suc marks.boundary_count)))

abbrev pub is_blank : List Message → Bool
is_blank [] = true
is_blank (m ∷ ms) = false

-- The number of segments with messages; a file with at most one is left alone.
abbrev pub filled : List (List Message) → ℕ
filled groups = length (retain (λ g. not (is_blank g)) groups)

-- `visible_text` of a user's message (src/kernel/message.rs).
abbrev shown_text : Text → Option Text → Text
shown_text text none = text
shown_text text (some display) = if is_empty (trim display) then text else display

abbrev non_empty : Text → Option Text
non_empty t = if is_empty t then none else some t

abbrev user_text : MessageKind → Option Text
user_text (user text display refs) = non_empty (trim (shown_text text display))
user_text _ = none

abbrev first_user_text : List Message → Option Text
first_user_text [] = none
first_user_text (m ∷ ms) = or_next (user_text m.kind) (first_user_text ms)
  where
    or_next : Option Text → Option Text → Option Text
    or_next (some t) rest = some t
    or_next none rest = rest

abbrev derive_chars : Option Text → Option Text
derive_chars none = none
derive_chars (some t) = some (take_chars 40 t)

abbrev goal_from : Option Text → Option Goal
goal_from none = none
goal_from (some t) = some (record { text = take_chars 40 t })

abbrev inside : List Message → Option ℕ → Option ℕ
inside messages none = none
inside messages (some id) = if any (λ m. m.id == id) messages then some id else none

abbrev detach : List Message → List Message → List Message
detach all [] = []
detach all (m ∷ ms) = record m { parent_id = inside all m.parent_id } ∷ detach all ms

abbrev first_time : ℕ → List Message → ℕ
first_time now [] = now
first_time now (m ∷ ms) = m.created_at

abbrev last_time : ℕ → List Message → ℕ
last_time default [] = default
last_time default (m ∷ []) = m.created_at
last_time default (m ∷ (n ∷ ms)) = max m.created_at (last_time default (n ∷ ms))

abbrev archived_since : SessionStatus → Option ℕ → ℕ → Option ℕ
archived_since active at now = none
archived_since archived none now = some now
archived_since archived (some at) now = some at

abbrev segment_goal : ℕ → List Message → SessionMeta → Option Goal
segment_goal zero messages old = old.goal
segment_goal (suc idx) [] old = none
segment_goal (suc idx) (m ∷ ms) old = goal_from (boundary_summary m)

abbrev segment_title : SessionStatus → List Message → Option Text
segment_title active messages = none
segment_title archived messages = derive_chars (first_user_text messages)

-- The session of one segment: it keeps the old status only where the old active path ends in it.
unfoldable pub build_segment : ℕ → List Message → SessionMeta → ℕ → ℕ → SessionMeta × List Message
unfolding new_meta boundary_summary
build_segment idx group old key now =
    let messages = detach group group in
    let path = inside group old.active_path in
    let status = if is_some path then old.status else archived in
    (
      record (new_meta key now) {
        status = status;
        archived_at =
            if is_some path then archived_since old.status old.archived_at now else some now;
        created_at = first_time now messages;
        last_activity_at = last_time (first_time now messages) messages;
        active_path = path;
        goal = segment_goal idx messages old;
        title = segment_title status messages;
      },
      messages,
    )
