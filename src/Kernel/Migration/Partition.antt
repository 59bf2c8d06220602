-- ===== src/Kernel/Migration/Partition.antt =====
-- The split of a session file loses no message (src/kernel/plugin/storage/file/migrate.rs).
pub mod Climbing
pub use mistake_agent.Kernel.Migration.Partition.Climbing.{
  AreUpTo, lookup-AreUpTo, unseen, unseen-start, climb-answers,
}
use mistake_agent.Prelude.{
  ℕ, suc, zero, ◌+◌, ◌≤◌, ◌≡◌, refl, Option, none, some, Bool, true, false, List, [], ◌∷◌, ◌++◌,
  ◌==◌, ==_iff, if◌then◌else◌, any, arith, length, lookup, put, lookup-any, lookup-any-none,
  lookup-remove_other, remove, All, All-map, All-put, Bool-cases, inl, inr, ap, sym, subst, ◌∙◌,
  sum_by, sum_by-append,
}
use mistake_agent.Kernel.Messages.{Message}
use mistake_agent.Kernel.Migration.{
  is_some, boundary_summary, Parents, Segments, has_id, Marks, mark_one, mark_boundaries, flatten,
  climb, assign, push_at, place, empty_groups, no_marks, split_segments,
}

has_id-put :
    {A : Type 0} (id k : ℕ) (v : A) (m : List (ℕ × A))
    → has_id id m ≡ true
    → has_id id (put ◌==◌ k v m) ≡ true
has_id-put id k v m h = elim (Bool-cases (k == id)) [
  | inl t ↦ rw t refl
  | inr f ↦ rw f (elim (Bool-cases (has_id id (remove ◌==◌ k m))) [
    | inl t ↦ t
    | inr n ↦
        let (w, found) = lookup-any ◌==◌ id m h in
        absurd (
          cc (
            lookup-any-none ◌==◌ id (remove ◌==◌ k m) n,
            lookup-remove_other ◌==◌ ==_iff id k m f,
            found,
          ))
  ])
]

-- The second loop gives each message a segment.
assign-answers :
    (n : ℕ) (parents : Parents) (ms : List Message) (segments : Segments)
    → AreUpTo n segments
    → (after : Segments) × (assign parents ms segments ≡ some after)
      × AreUpTo n after
      × All (λ m. has_id m.id after ≡ true) ms
      × ((id : ℕ) → has_id id segments ≡ true → has_id id after ≡ true)
unfolding assign
assign-answers n parents [] segments h = (segments, refl, h, tt, λ id t. t)
assign-answers n parents (m ∷ ms) segments h = elim (Bool-cases (has_id m.id segments)) [
  | inl t ↦
      let (after, answer, bound, rest, kept) = assign-answers n parents ms segments h in
      (after, rw t answer, bound, (kept m.id t, rest), kept)
  | inr f ↦
      let (s, climbed, low) =
        climb-answers n (suc (suc (length parents))) parents segments [] m.parent_id h
          (omega (arith, unseen-start parents)) in
      let (after, answer, bound, rest, kept) =
        assign-answers n parents ms (put ◌==◌ m.id s segments)
          (All-put ◌==◌ (λ e. e.1 ≤ n) m.id s segments low h) in
      (
        after,
        rw (f, climbed) answer,
        bound,
        (kept m.id (rw ((==_iff m.id m.id).1 refl) refl), rest),
        λ id t. kept id (has_id-put id m.id s segments t),
      )
]

-- How many of the messages pass a test, in a list and in all the groups.
abbrev pub tally : (Message → Bool) → List Message → ℕ
tally p ms = sum_by (λ m. if p m then 1 else 0) ms

abbrev pub total : (Message → Bool) → List (List Message) → ℕ
total p groups = sum_by (tally p) groups

push_at-answers :
    (i : ℕ) (m : Message) (groups : List (List Message))
    → suc i ≤ length groups
    → (after : List (List Message)) × (push_at i m groups ≡ some after)
      × (length after ≡ length groups)
      × ((p : Message → Bool) → total p after ≡ total p groups + (if p m then 1 else 0))
push_at-answers i m [] h = absurd (omega arith)
push_at-answers zero m (g ∷ gs) h = (
  (g ++ (m ∷ [])) ∷ gs,
  refl,
  refl,
  λ p. omega (arith, sum_by-append (λ m. if p m then 1 else 0) g (m ∷ [])),
)
push_at-answers (suc i) m (g ∷ gs) h =
    let (after, answer, same, more) = push_at-answers i m gs (omega arith) in
    (g ∷ after, rw answer refl, ap suc same, λ p. omega (arith, more p))

place-answers :
    (n : ℕ) (segments : Segments) (ms : List Message) (groups : List (List Message))
    → AreUpTo n segments
    → All (λ m. has_id m.id segments ≡ true) ms
    → length groups ≡ suc n
    → (after : List (List Message)) × (place segments ms groups ≡ some after)
      × (length after ≡ suc n)
      × ((p : Message → Bool) → total p after ≡ total p groups + tally p ms)
unfolding place
place-answers n segments [] groups h known size = (groups, refl, size, λ p. omega arith)
place-answers n segments (m ∷ ms) groups h (here, known) size =
    let (s, found) = lookup-any ◌==◌ m.id segments here in
    let (pushed, answer, same, more) =
      push_at-answers s m groups (omega (arith, size, lookup-AreUpTo n m.id segments h found)) in
    let (after, placed, size', sums) = place-answers n segments ms pushed h known (same ∙ size) in
    (after, rw (found, answer) placed, size', λ p. omega (arith, more p, sums p))

-- The first loop numbers the boundaries.
mark_boundaries-AreUpTo :
    (ms : List Message) (s : Marks)
    → AreUpTo s.boundary_count s.segment_of
    → AreUpTo (mark_boundaries ms s).boundary_count (mark_boundaries ms s).segment_of
unfolding mark_boundaries
mark_boundaries-AreUpTo [] s h = h
mark_boundaries-AreUpTo (m ∷ ms) s h =
    mark_boundaries-AreUpTo ms (mark_one m s) (elim (Bool-cases (is_some (boundary_summary m))) [
      | inl t ↦ rw t (
          All-put ◌==◌ (λ e. e.1 ≤ suc s.boundary_count) m.id (suc s.boundary_count) s.segment_of
            (omega arith)
            (All-map (λ e. e.1 ≤ s.boundary_count) (λ e. e.1 ≤ suc s.boundary_count) s.segment_of
              (λ e l. omega arith) h))
      | inr f ↦ rw f h
    ])

length-empty_groups : (n : ℕ) → length (empty_groups n) ≡ n
length-empty_groups zero = refl
length-empty_groups (suc n) = ap suc (length-empty_groups n)

total-empty_groups : (p : Message → Bool) (n : ℕ) → total p (empty_groups n) ≡ 0
total-empty_groups p zero = refl
total-empty_groups p (suc n) = omega (arith, total-empty_groups p n)

-- The split of any messages gives its groups, without an index out of range and without an endless
-- walk, and for every test on messages as many messages pass it in all the groups together as in the
-- file: none is lost, and none is doubled.
pub split_segments-total :
    (messages : List Message)
    → (groups : List (List Message)) × (split_segments messages ≡ some groups)
      × (length groups ≡ suc (mark_boundaries messages no_marks).boundary_count)
      × ((p : Message → Bool) → total p groups ≡ tally p messages)
unfolding split_segments
split_segments-total messages =
    let marks = mark_boundaries messages no_marks in
    let (segments, assigned, bound, known, kept) =
      assign-answers marks.boundary_count marks.parent_of messages marks.segment_of
        (mark_boundaries-AreUpTo messages no_marks tt) in
    let (groups, placed, size, sums) =
      place-answers marks.boundary_count segments messages (empty_groups (suc marks.boundary_count))
        bound known (length-empty_groups (suc marks.boundary_count)) in
    (
      groups,
      rw assigned placed,
      size,
      λ p. omega (arith, sums p, total-empty_groups p (suc marks.boundary_count)),
    )
