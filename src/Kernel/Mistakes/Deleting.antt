-- ===== src/Kernel/Mistakes/Deleting.antt =====
-- What deleting does to the book of mistakes (src/kernel/plugin/storage/mem.rs).
use mistake_agent.Prelude.{
  ℕ, ◌≡◌, refl, Option, none, some, true, false, ◌&&◌, ◌||◌, List, [], ◌∷◌, ◌++◌, ◌==◌, any, find,
  All, All-append, Bool-cases, inl, inr, find-some, All-find, ==_iff, ap, sym, ◌∙◌,
}
use mistake_agent.Prelude.Results.{err}
use mistake_agent.Kernel.Mistakes.{
  Mistake, MistakePatch, is_live, save, get, apply_patch, change_first, update_found, update,
  mark_deleted, remove_found, remove, counted_round, remove_many, mistake_not_found,
}

-- There is a mistake with the id, and each one that has it is deleted.
abbrev pub IsDeleted : ℕ → List Mistake → Type 0
IsDeleted id book =
    (any (λ m. m.id == id) book ≡ true) × All (λ m. (m.id == id) ≡ true → is_live m ≡ false) book

-- One call on the book.
pub data Call (book : List Mistake) : List Mistake → Type 0 where
  saves : (m : Mistake) → Call book (save m book).1
  updates : (id : ℕ) (patch : MistakePatch) → Call book (update id patch book).1
  removes : (id now : ℕ) → Call book (remove id now book).1
  removes_many : (ids : List ℕ) (now : ℕ) → Call book (remove_many ids now book).1

pub data Calls (book : List Mistake) : List Mistake → Type 0 where
  done : Calls book book
  then_call : {b c : List Mistake} → Calls book b → Call b c → Calls book c

-- A change of one mistake that keeps its identifier and does not bring it back.
record IsHarmless (f : Mistake → Mistake) : Type 0 where
  same_id : (m : Mistake) → (f m).id ≡ m.id
  stays : (m : Mistake) → is_live m ≡ false → is_live (f m) ≡ false

change_first-IsDeleted :
    (id other : ℕ) (f : Mistake → Mistake) (book : List Mistake)
    → IsHarmless f
    → IsDeleted id book
    → IsDeleted id (change_first other f book)
change_first-IsDeleted id other f book harmless (there, gone) = (kept book ∙ there, all book gone)
  where
    kept :
        (ms : List Mistake)
        → any (λ m. m.id == id) (change_first other f ms) ≡ any (λ m. m.id == id) ms
    kept [] = refl
    kept (m ∷ ms) = elim (Bool-cases (m.id == other)) [
      | inl t ↦ rw (t, harmless.same_id m) refl
      | inr n ↦ rw n (ap (λ b. (m.id == id) || b) (kept ms))
    ]

    all :
        (ms : List Mistake)
        → All (λ m. (m.id == id) ≡ true → is_live m ≡ false) ms
        → All (λ m. (m.id == id) ≡ true → is_live m ≡ false) (change_first other f ms)
    all [] h = tt
    all (m ∷ ms) h = elim (Bool-cases (m.id == other)) [
      | inl t ↦ rw t ((λ q. harmless.stays m (h.0 (rw (harmless.same_id m) at q))), h.1)
      | inr n ↦ rw n (h.0, all ms h.1)
    ]

mark_deleted-IsHarmless : (now : ℕ) → IsHarmless (mark_deleted now)
mark_deleted-IsHarmless now = record {
  same_id = λ m. elim (Bool-cases (is_live m)) [ inl t ↦ rw t refl | inr f ↦ rw f refl ];
  stays = λ m q. rw (q, q) refl;
}

update-IsDeleted :
    (id other : ℕ) (patch : MistakePatch) (book : List Mistake)
    → IsDeleted id book
    → IsDeleted id (update other patch book).1
unfolding update
update-IsDeleted id other patch book h = found (find (λ m. m.id == other) book)
  where
    found : (o : Option Mistake) → IsDeleted id (update_found other patch book o).1
    found none = h
    found (some m) = elim (Bool-cases (is_live m)) [
      | inl t ↦ rw t (
          change_first-IsDeleted id other (apply_patch patch) book
            (record { same_id = λ x. refl; stays = λ x q. q }) h)
      | inr f ↦ rw f h
    ]

remove-IsDeleted :
    (id other now : ℕ) (book : List Mistake)
    → IsDeleted id book
    → IsDeleted id (remove other now book).1
unfolding remove
remove-IsDeleted id other now book h = found (find (λ m. m.id == other) book)
  where
    found : (o : Option Mistake) → IsDeleted id (remove_found other now book o).1
    found none = h
    found (some m) =
        change_first-IsDeleted id other (mark_deleted now) book (mark_deleted-IsHarmless now) h

remove_many-IsDeleted :
    (id : ℕ) (ids : List ℕ) (now : ℕ) (book : List Mistake)
    → IsDeleted id book
    → IsDeleted id (remove_many ids now book).1
unfolding remove_many
remove_many-IsDeleted id [] now book h = h
remove_many-IsDeleted id (other ∷ ids) now book h =
    remove_many-IsDeleted id ids now
      (counted_round other now book (find (λ m. m.id == other) book)).1
      (round (find (λ m. m.id == other) book))
  where
    round : (o : Option Mistake) → IsDeleted id (counted_round other now book o).1
    round none = h
    round (some m) = elim (Bool-cases (is_live m)) [
      | inl t ↦
          rw t (
            change_first-IsDeleted id other (mark_deleted now) book (mark_deleted-IsHarmless now) h)
      | inr f ↦ rw f h
    ]

save-IsDeleted :
    (id : ℕ) (m : Mistake) (book : List Mistake) → IsDeleted id book → IsDeleted id (save m book).1
unfolding save
save-IsDeleted id m book (there, gone) = elim (Bool-cases (any (λ x. x.id == m.id) book)) [
  | inl t ↦ rw t (there, gone)
  | inr f ↦ rw f (
    any_more book there,
    All-append (λ x. (x.id == id) ≡ true → is_live x ≡ false) book (m ∷ []) gone
        ((λ q. absurd (taken q f)), tt),
  )
]
  where
    any_more :
        (ms : List Mistake)
        → any (λ x. x.id == id) ms ≡ true
        → any (λ x. x.id == id) (ms ++ (m ∷ [])) ≡ true
    any_more [] e = absurd (cc e)
    any_more (x ∷ ms) e = elim (Bool-cases (x.id == id)) [
      | inl t ↦ rw t refl
      | inr n ↦ rw n (any_more ms (rw n at e))
    ]

    taken : (m.id == id) ≡ true → any (λ x. x.id == m.id) book ≡ false → ⊥
    taken q free =
        let same : m.id ≡ id = (==_iff m.id id).0 q in
        let yes : any (λ x. x.id == m.id) book ≡ true = rw same there in cc (sym yes ∙ free)

Calls-IsDeleted :
    (id : ℕ) {book after : List Mistake} → IsDeleted id book → Calls book after → IsDeleted id after
Calls-IsDeleted id h done = h
Calls-IsDeleted id h (then_call {b = b} cs (saves m)) =
    save-IsDeleted id m b (Calls-IsDeleted id h cs)
Calls-IsDeleted id h (then_call {b = b} cs (updates other patch)) =
    update-IsDeleted id other patch b (Calls-IsDeleted id h cs)
Calls-IsDeleted id h (then_call {b = b} cs (removes other now)) =
    remove-IsDeleted id other now b (Calls-IsDeleted id h cs)
Calls-IsDeleted id h (then_call {b = b} cs (removes_many ids now)) =
    remove_many-IsDeleted id ids now b (Calls-IsDeleted id h cs)

-- A deleted mistake never comes back: after any further calls, saving a mistake with the same
-- identifier included, it is not found, and an update of it fails and changes nothing.
pub get-deleted :
    (id : ℕ) (patch : MistakePatch) {book after : List Mistake}
    → IsDeleted id book
    → Calls book after
    → (get id after ≡ none) × (update id patch after ≡ (err (mistake_not_found id), after))
unfolding get update
get-deleted id patch {after = after} h cs =
    let (there, gone) = Calls-IsDeleted id h cs in
    (hidden after gone, found (find (λ m. m.id == id) after) refl gone)
  where
    hidden :
        (ms : List Mistake)
        → All (λ m. (m.id == id) ≡ true → is_live m ≡ false) ms
        → find (λ m. m.id == id && is_live m) ms ≡ none
    hidden [] h = refl
    hidden (m ∷ ms) h = elim (Bool-cases (m.id == id)) [
      | inl t ↦ rw (t, h.0 t) (hidden ms h.1)
      | inr n ↦ rw n (hidden ms h.1)
    ]

    found :
        (o : Option Mistake)
        → find (λ m. m.id == id) after ≡ o
        → All (λ m. (m.id == id) ≡ true → is_live m ≡ false) after
        → update_found id patch after o ≡ (err (mistake_not_found id), after)
    found none e g = refl
    found (some m) e g =
        let dead : is_live m ≡ false =
          All-find (λ x. (x.id == id) ≡ true → is_live x ≡ false) (λ x. x.id == id) after g e
            (find-some (λ x. x.id == id) after e) in
        rw dead refl
