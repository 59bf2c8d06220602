-- ===== src/Kernel/Scheduler/Switch.antt =====
-- Archiving the active sessions and starting another one (src/kernel/agent/session/scheduler.rs).
use mistake_agent.Prelude.{
  ℕ, ◌≡◌, refl, arith, Option, none, some, true, false, not, List, [], ◌∷◌, map, ◌==◌, ==_iff,
  ==_refl, if◌then◌else◌, any, retain, All, All-map, All-update_where, All-updated, All-retain,
  Bool-cases, inl, inr, sym, subst,
}
use mistake_agent.Kernel.Messages.{Goal, active, archived, SessionMeta, new_meta, is_active}
use mistake_agent.Kernel.Store.{
  Inner, StorageError, Action, return, fail, continue, ◌>>=◌, ok_or, has_key, with_sessions,
  update_meta, get_session, push_message, append_message, read_path, read_all, set_active_path,
  archive, activate, list_sessions, set_last_activity,
}
use mistake_agent.Kernel.Store as Store
use mistake_agent.Kernel.Scheduler.{create_session, archive_each, actives, archive_all_active}
use mistake_agent.Kernel.Scheduler.Single.{
  Entry, IsSingle, IsQuiet, IsLeft, Leaves, continue-Leaves, IsQuiet-IsSingle,
}

-- Archiving the first of the sessions leaves the others.
archive-Left :
    (now : ℕ) (m : SessionMeta) (metas : List SessionMeta) (s : Inner)
    → IsLeft (m ∷ metas) s
    → Leaves (λ _ t. IsLeft metas t) (archive now m.key s)
unfolding archive update_meta
archive-Left now m metas s ((keyed, (k, single)), left) = elim (Bool-cases (has_key m.key s)) [
  | inl t ↦ rw t (
    (
      All-update_where (λ (e : Entry). e.1.key ≡ e.0) (λ e. e.0 == m.key)
          (λ e. (e.0, record e.1 { status = archived; archived_at = some now })) s.sessions
          (λ e q. q) keyed,
      (
        k,
        All-update_where (λ (e : Entry). is_active e.1.status ≡ true → e.0 ≡ k) (λ e. e.0 == m.key)
            (λ e. (e.0, record e.1 { status = archived; archived_at = some now })) s.sessions
            (λ e q h. absurd (cc h)) single,
      ),
    ),
    All-updated
        (λ (e : Entry). is_active e.1.status ≡ true → any (λ n. n.key == e.0) (m ∷ metas) ≡ true)
        (λ (e : Entry). is_active e.1.status ≡ true → any (λ n. n.key == e.0) metas ≡ true)
        (λ e. e.0 == m.key) (λ e. (e.0, record e.1 { status = archived; archived_at = some now }))
        s.sessions (λ e q. others e q) left,
  )
  | inr absent ↦ rw absent (keyed, (k, single))
]
  where
    stamp : Entry → Entry
    stamp e = (e.0, record e.1 { status = archived; archived_at = some now })

    others :
        (e : Entry)
        → (is_active e.1.status ≡ true → any (λ n. n.key == e.0) (m ∷ metas) ≡ true)
        → is_active (if e.0 == m.key then stamp e else e).1.status ≡ true
        → any (λ n. n.key == (if e.0 == m.key then stamp e else e).0) metas ≡ true
    others e q = elim (Bool-cases (e.0 == m.key)) [
      | inl t ↦ rw t (λ h. absurd (cc h))
      | inr f ↦ let away : (m.key == e.0) ≡ false = ground arith in rw f (λ h. rw away at (q h))
    ]

archive_each-Quiet :
    (now : ℕ) (metas : List SessionMeta) (s : Inner)
    → IsLeft metas s
    → Leaves (λ _ t. IsQuiet t) (archive_each now metas s)
unfolding archive_each
archive_each-Quiet now [] s ((keyed, single), left) = (
  keyed,
  All-map (λ (e : Entry). is_active e.1.status ≡ true → false ≡ true)
      (λ (e : Entry). is_active e.1.status ≡ false) s.sessions
      (λ e h. elim (Bool-cases (is_active e.1.status)) [ inl t ↦ absurd (cc (h t)) | inr f ↦ f ])
      left,
)
archive_each-Quiet now (m ∷ metas) s h =
    continue-Leaves (λ _ t. IsLeft metas t) (λ _ t. IsQuiet t) (λ _. archive_each now metas)
      (archive now m.key s) (archive-Left now m metas s h)
      (λ _ t w. archive_each-Quiet now metas t w)

-- Every active session is among those that the loop goes through.
abbrev Among : List SessionMeta → List Entry → Type 0
Among metas es =
    All (λ (e : Entry). is_active e.1.status ≡ true → any (λ m. m.key == e.0) metas ≡ true) es

Among-more :
    (m : SessionMeta) (metas : List SessionMeta) (es : List Entry)
    → Among metas es
    → Among (m ∷ metas) es
Among-more m metas es =
    All-map (λ (e : Entry). is_active e.1.status ≡ true → any (λ n. n.key == e.0) metas ≡ true)
      (λ (e : Entry). is_active e.1.status ≡ true → any (λ n. n.key == e.0) (m ∷ metas) ≡ true) es
      (λ e q a. elim (Bool-cases (m.key == e.0)) [ inl y ↦ rw y refl | inr n ↦ rw n (q a) ])

among :
    (es : List Entry)
    → All (λ (e : Entry). e.1.key ≡ e.0) es
    → Among (actives (map (λ e. e.1) es)) es
among [] h = tt
among (e ∷ es) (same, h) = elim (Bool-cases (is_active e.1.status)) [
  | inl t ↦
      let here : actives (map (λ x. x.1) (e ∷ es)) ≡ e.1 ∷ actives (map (λ x. x.1) es) =
        rw t refl in
      subst (λ l. Among l (e ∷ es)) (sym here)
        (
          (λ _. rw (same, ==_refl e.0) refl),
          Among-more e.1 (actives (map (λ x. x.1) es)) es (among es h),
        )
  | inr f ↦
      let here : actives (map (λ x. x.1) (e ∷ es)) ≡ actives (map (λ x. x.1) es) = rw f refl in
      subst (λ l. Among l (e ∷ es)) (sym here) ((λ t. absurd (cc (f, t))), among es h)
]

actives-Left : (s : Inner) → IsSingle s → IsLeft (actives (map (λ e. e.1) s.sessions)) s
actives-Left s (keyed, single) = ((keyed, single), among s.sessions keyed)

pub archive_all_active-Quiet :
    (now : ℕ) (s : Inner) → IsSingle s → Leaves (λ _ t. IsQuiet t) (archive_all_active now s)
unfolding archive_all_active list_sessions
archive_all_active-Quiet now s v =
    archive_each-Quiet now (actives (map (λ e. e.1) s.sessions)) s (actives-Left s v)

pub activate-Single :
    (key : ℕ) (s : Inner) → IsQuiet s → Leaves (λ _ t. IsSingle t) (activate key s)
unfolding activate update_meta
activate-Single key s (keyed, quiet) = elim (Bool-cases (has_key key s)) [
  | inl t ↦ rw t (
    All-update_where (λ (e : Entry). e.1.key ≡ e.0) (λ e. e.0 == key)
        (λ e. (e.0, record e.1 { status = active; archived_at = none })) s.sessions (λ e q. q)
        keyed,
    (
      key,
      All-updated (λ (e : Entry). is_active e.1.status ≡ false)
          (λ (e : Entry). is_active e.1.status ≡ true → e.0 ≡ key) (λ e. e.0 == key)
          (λ e. (e.0, record e.1 { status = active; archived_at = none })) s.sessions
          (λ e q. only e q) quiet,
    ),
  )
  | inr absent ↦ rw absent (IsQuiet-IsSingle s (keyed, quiet))
]
  where
    opened : Entry → Entry
    opened e = (e.0, record e.1 { status = active; archived_at = none })

    only :
        (e : Entry)
        → is_active e.1.status ≡ false
        → is_active (if e.0 == key then opened e else e).1.status ≡ true
        → (if e.0 == key then opened e else e).0 ≡ key
    only e q = elim (Bool-cases (e.0 == key)) [
      | inl t ↦ rw t (λ _. (==_iff e.0 key).0 t)
      | inr f ↦ rw f (λ h. absurd (cc (h, q)))
    ]

pub create-Single :
    (key : ℕ) (goal : Option Goal) (now : ℕ) (s : Inner)
    → IsQuiet s
    → Leaves (λ _ t. IsSingle t) (create_session key goal now s)
unfolding create_session Store.create_session new_meta
create-Single key goal now s (keyed, quiet) = elim (Bool-cases (has_key key s)) [
  | inl t ↦ rw t (IsQuiet-IsSingle s (keyed, quiet))
  | inr fresh ↦ rw fresh (
    (refl, All-retain (λ (e : Entry). e.1.key ≡ e.0) (λ e. not (e.0 == key)) s.sessions keyed),
    (
      key,
      (
        (λ _. refl),
        All-map (λ (e : Entry). is_active e.1.status ≡ false)
            (λ (e : Entry). is_active e.1.status ≡ true → e.0 ≡ key)
            (retain (λ e. not (e.0 == key)) s.sessions) (λ e f t. absurd (cc (f, t)))
            (All-retain (λ (e : Entry). is_active e.1.status ≡ false) (λ e. not (e.0 == key))
              s.sessions quiet),
      ),
    ),
  )
]
