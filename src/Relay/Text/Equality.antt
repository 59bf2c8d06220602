-- ===== src/Relay/Text/Equality.antt =====
-- The test for equal texts.
use mistake_agent.Prelude.{
  ◌≡◌, ◌↔◌, refl, true, [], ◌∷◌, ◌==◌, ==_iff, Bool-cases, inl, inr, some, List, All, lookup, subst,
}
use mistake_agent.Relay.Text.{Text, same_text}

pub same_text_refl : (t : Text) → same_text t t ≡ true
same_text_refl [] = refl
same_text_refl (c ∷ t) = rw ((==_iff c c).1 refl) (same_text_refl t)

same_text_sound : (t u : Text) → same_text t u ≡ true → t ≡ u
same_text_sound [] [] h = refl
same_text_sound [] (d ∷ u) h = absurd (cc h)
same_text_sound (c ∷ t) [] h = absurd (cc h)
same_text_sound (c ∷ t) (d ∷ u) h = elim (Bool-cases (c == d)) [
  | inl e ↦ λ i. (==_iff c d).0 e i ∷ same_text_sound t u (rw e at h) i
  | inr e ↦ absurd (cc (rw e at h))
]

pub same_text_iff : (t u : Text) → (same_text t u ≡ true) ↔ (t ≡ u)
same_text_iff t u = (same_text_sound t u, λ e. rw e (same_text_refl u))

-- An entry that a lookup finds is one of the entries.
pub lookup-All :
    {A : Type 0} (P : Text × A → Type 0) (k : Text) (m : List (Text × A)) (v : A)
    → All P m
    → lookup same_text k m ≡ some v
    → P (k, v)
lookup-All P k [] v h e = absurd (cc e)
lookup-All P k (x ∷ m) v (h, hs) e = elim (Bool-cases (same_text x.0 k)) [
  | inl t ↦
      let q : some x.1 ≡ some v = rw t at e in
      let value : x.1 ≡ v = cc q in
      subst (λ w. P (k, w)) value (subst (λ j. P (j, x.1)) ((same_text_iff x.0 k).0 t) h)
  | inr n ↦ lookup-All P k m v hs (rw n at e)
]
