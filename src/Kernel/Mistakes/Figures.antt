-- ===== src/Kernel/Mistakes/Figures.antt =====
-- The figure of a bulk deletion (src/kernel/plugin/storage/mem.rs).
use mistake_agent.Prelude.{
  ℕ, ◌+◌, ◌≡◌, refl, Option, none, some, true, List, [], ◌∷◌, arith, ◌==◌, if◌then◌else◌, find,
  sum_by, Bool-cases, inl, inr,
}
use mistake_agent.Kernel.Mistakes.{
  Mistake, is_live, change_first, mark_deleted, counted_round, remove_many,
}

-- The number of mistakes that are there for the user.
abbrev pub live_count : List Mistake → ℕ
live_count book = sum_by (λ m. if is_live m then 1 else 0) book

change_first-live :
    (id now : ℕ) (book : List Mistake) {m : Mistake}
    → find (λ x. x.id == id) book ≡ some m
    → is_live m ≡ true
    → live_count (change_first id (mark_deleted now) book) + 1 ≡ live_count book
change_first-live id now [] e l = absurd (cc e)
change_first-live id now (x ∷ book) {m = m} e l = elim (Bool-cases (x.id == id)) [
  | inl t ↦
      let s : some x ≡ some m = rw t at e in
      let same : x ≡ m = cc s in
      let live : is_live x ≡ true = rw same l in rw (t, live) (omega arith)
  | inr f ↦ let rest = change_first-live id now book (rw f at e) l in rw f (omega (arith, rest))
]

-- The figure that a bulk deletion reports is the number of mistakes that are gone by it: a missing
-- id, one deleted before and one that is given twice are not counted again.
pub remove_many-live :
    (ids : List ℕ) (now : ℕ) (book : List Mistake)
    → let (deleted, book') = remove_many ids now book in
      live_count book' + deleted ≡ live_count book
unfolding remove_many
remove_many-live [] now book = omega arith
remove_many-live (id ∷ ids) now book =
    let one = round (find (λ m. m.id == id) book) refl in
    let rest =
      remove_many-live ids now (counted_round id now book (find (λ m. m.id == id) book)).1 in
    omega (arith, one, rest)
  where
    round :
        (o : Option Mistake)
        → find (λ m. m.id == id) book ≡ o
        → live_count (counted_round id now book o).1 + (counted_round id now book o).0
          ≡ live_count book
    round none e = omega arith
    round (some m) e = elim (Bool-cases (is_live m)) [
      | inl t ↦ rw t (change_first-live id now book e t)
      | inr f ↦ rw f (omega arith)
    ]
