-- ===== src/Kernel/Mistakes.antt =====
-- src/mistake.rs and src/kernel/plugin/storage/mem.rs: the book of mistakes, kept in memory. The mutex
-- makes each call atomic; the book is the vector behind it. A mistake is deleted by a mark.
pub mod Figures
pub mod Deleting
use mistake_agent.Prelude.{
  ℕ, suc, ◌+◌, Option, none, some, Bool, true, false, not, ◌&&◌, List, [], ◌∷◌, ◌++◌, ◌==◌,
  if◌then◌else◌, any, find, retain,
}
use mistake_agent.Prelude.Results.{Result, ok, err}
use mistake_agent.Relay.Text.{Text, same_text, is_empty, trim}

pub record Mistake : Type 0 where
  pub id : ℕ
  pub subject : Text
  pub knowledge_point : Text
  pub title : Option Text
  pub question : Text
  pub student_answer : Text
  pub reference_answer : Option Text
  pub is_correct : Bool
  pub analysis : Text
  pub created_at : ℕ
  pub pinned : Bool
  pub deleted_at : Option ℕ

pub record MistakeFilter : Type 0 where
  pub subject : Option Text
  pub knowledge_point : Option Text
  pub is_correct : Option Bool

pub record MistakePatch : Type 0 where
  pub subject : Option Text
  pub knowledge_point : Option Text
  pub title : Option Text
  pub question : Option Text
  pub student_answer : Option Text
  pub reference_answer : Option (Option Text)
  pub analysis : Option Text
  pub is_correct : Option Bool
  pub pinned : Option Bool

pub data BookError : Type 0 where
  mistake_not_found mistake_exists : ℕ → BookError

abbrev pub normalize_title : Option Text → Option Text
normalize_title none = none
normalize_title (some raw) = if is_empty (trim raw) then none else some (trim raw)

abbrev pub is_live : Mistake → Bool
is_live m = unmarked m.deleted_at
  where
    unmarked : Option ℕ → Bool
    unmarked none = true
    unmarked (some at) = false

unfoldable pub save : Mistake → List Mistake → Result BookError ℕ × List Mistake
save mistake book =
    if any (λ m. m.id == mistake.id) book
    then (err (mistake_exists mistake.id), book)
    else (ok mistake.id, book ++ (mistake ∷ []))

unfoldable pub get : ℕ → List Mistake → Option Mistake
get id book = find (λ m. m.id == id && is_live m) book

-- `map(|x| …).unwrap_or(true)`.
abbrev pub matches : {A : Type 0} → (A → Bool) → Option A → Bool
matches p none = true
matches p (some a) = p a

abbrev pub same_bool : Bool → Bool → Bool
same_bool true b = b
same_bool false b = not b

unfoldable pub list : MistakeFilter → List Mistake → List Mistake
list filter book =
    retain
      (λ m.
        matches (same_text m.subject) filter.subject
        && matches (same_text m.knowledge_point) filter.knowledge_point
        && matches (same_bool m.is_correct) filter.is_correct
        && is_live m)
      book

abbrev pub patched {ℓ} : {A : Type ℓ} → Option A → A → A
patched none old = old
patched (some new) old = new

abbrev pub patched_title : Option Text → Option Text → Option Text
patched_title none old = old
patched_title (some new) old = normalize_title (some new)

abbrev pub apply_patch : MistakePatch → Mistake → Mistake
apply_patch p m = record m {
  subject = patched p.subject m.subject;
  knowledge_point = patched p.knowledge_point m.knowledge_point;
  title = patched_title p.title m.title;
  question = patched p.question m.question;
  student_answer = patched p.student_answer m.student_answer;
  reference_answer = patched p.reference_answer m.reference_answer;
  analysis = patched p.analysis m.analysis;
  is_correct = patched p.is_correct m.is_correct;
  pinned = patched p.pinned m.pinned;
}

-- A change of the first mistake with the id: `iter_mut().find`.
abbrev pub change_first : ℕ → (Mistake → Mistake) → List Mistake → List Mistake
change_first id f [] = []
change_first id f (m ∷ book) =
    let rest = change_first id f book in if m.id == id then f m ∷ book else m ∷ rest

abbrev pub update_found :
    ℕ → MistakePatch → List Mistake → Option Mistake → Result BookError (Unit {0}) × List Mistake
update_found id patch book none = (err (mistake_not_found id), book)
update_found id patch book (some m) =
    if is_live m
    then (ok tt, change_first id (apply_patch patch) book)
    else (err (mistake_not_found id), book)

unfoldable pub update : ℕ → MistakePatch → List Mistake → Result BookError (Unit {0}) × List Mistake
update id patch book = update_found id patch book (find (λ m. m.id == id) book)

-- A mark that is there stays.
abbrev pub mark_deleted : ℕ → Mistake → Mistake
mark_deleted now m = if is_live m then record m { deleted_at = some now } else m

abbrev pub remove_found :
    ℕ → ℕ → List Mistake → Option Mistake → Result BookError (Unit {0}) × List Mistake
remove_found id now book none = (err (mistake_not_found id), book)
remove_found id now book (some m) = (ok tt, change_first id (mark_deleted now) book)

unfoldable pub remove : ℕ → ℕ → List Mistake → Result BookError (Unit {0}) × List Mistake
remove id now book = remove_found id now book (find (λ m. m.id == id) book)

-- One round of the loop: 1 where a mistake was deleted.
abbrev pub counted_round : ℕ → ℕ → List Mistake → Option Mistake → ℕ × List Mistake
counted_round id now book none = (0, book)
counted_round id now book (some m) =
    if is_live m then (1, change_first id (mark_deleted now) book) else (0, book)

unfoldable pub remove_many : List ℕ → ℕ → List Mistake → ℕ × List Mistake
remove_many [] now book = (0, book)
remove_many (id ∷ ids) now book =
    let (one, book') = counted_round id now book (find (λ m. m.id == id) book) in
    let (deleted, book'') = remove_many ids now book' in (one + deleted, book'')
