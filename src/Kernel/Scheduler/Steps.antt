-- ===== src/Kernel/Scheduler/Steps.antt =====
-- The calls of src/kernel/agent/session/scheduler.rs, one after the other.
use mistake_agent.Prelude.{
  ℕ, ◌≡◌, refl, Option, none, some, Bool, true, false, List, [], ◌∷◌, map, ◌==◌, ==_iff, find,
  lookup, All, Bool-cases, inl, inr, sym, ap, ◌∙◌,
}
use mistake_agent.Prelude.Results.{Result, ok, err}
use mistake_agent.Relay.Text.{Text}
use mistake_agent.Kernel.Messages.{Message, Goal, SessionMeta, is_active}
use mistake_agent.Kernel.Store.{
  Inner, StorageError, return, get_session, append_message, read_all, set_active_path, activate,
  list_sessions, set_last_activity,
}
use mistake_agent.Kernel.Scheduler.{
  Said, create_session, append_user, continue_in, said_in, on_new_message, actives,
  archive_all_active, open_found, open_existing, handoff, summary_of, goal_for, attach,
  summary_message, goal_of, create_new_session,
}
use mistake_agent.Kernel.Scheduler.Single.{
  Entry, IsSingle, IsQuiet, Leaves, Keeps, continue-Leaves, bind-Keeps, return-Keeps,
  append_message-Keeps, read_all-Keeps, set_active_path-Keeps, set_last_activity-Keeps,
  append_user-Keeps,
}
use mistake_agent.Kernel.Scheduler.Switch.{archive_all_active-Quiet, activate-Single, create-Single}

-- What a user does: say something, open another session, or start a new one.
pub data Step (summarize : List Message → Option Goal → Text) (s : Inner) : Inner → Type 0 where
  says : (said : Said) (new_key now : ℕ) → Step summarize s (on_new_message said new_key now s).1
  opens : (key now : ℕ) → Step summarize s (open_existing key now s).1
  starts :
      (goal : Option Goal) (carry : Bool) (key id now : ℕ)
      → Step summarize s (create_new_session summarize goal carry key id now s).1

pub data Reach (summarize : List Message → Option Goal → Text) : Inner → Type 0 where
  fresh : Reach summarize (record { sessions = []; messages = [] })
  next : {s t : Inner} → Reach summarize s → Step summarize s t → Reach summarize t

Leaves-IsSingle :
    {A : Type 0} (r : Result StorageError A × Inner) → Leaves (λ _ t. IsSingle t) r → IsSingle r.1
Leaves-IsSingle (err e, s) h = h
Leaves-IsSingle (ok a, s) h = h

-- Without an active session, a new one is made.
find-Quiet :
    (s : Inner)
    → find (λ m. is_active m.status) (map (λ e. e.1) s.sessions) ≡ none
    → IsSingle s
    → IsQuiet s
find-Quiet s e (keyed, single) = (keyed, idle s.sessions e)
  where
    idle :
        (es : List Entry)
        → find (λ m. is_active m.status) (map (λ e. e.1) es) ≡ none
        → All (λ (e : Entry). is_active e.1.status ≡ false) es
    idle [] h = tt
    idle (e ∷ es) h = elim (Bool-cases (is_active e.1.status)) [
      | inl t ↦ (let found : some e.1 ≡ none = rw t at h in absurd (cc found))
      | inr f ↦ (f, idle es (rw f at h))
    ]

says-Single :
    (said : Said) (new_key now : ℕ) (s : Inner)
    → IsSingle s
    → Leaves (λ _ t. IsSingle t) (on_new_message said new_key now s)
unfolding on_new_message list_sessions continue_in
says-Single said new_key now s v =
    by_found (find (λ m. is_active m.status) (map (λ e. e.1) s.sessions)) refl
  where
    by_found :
        (o : Option SessionMeta)
        → find (λ m. is_active m.status) (map (λ e. e.1) s.sessions) ≡ o
        → Leaves (λ _ t. IsSingle t) (said_in o said new_key now s)
    by_found none e =
        continue-Leaves (λ _ t. IsSingle t) (λ _ t. IsSingle t) (λ _. append_user new_key said)
          (create_session new_key (some (goal_of said.text)) now s)
          (create-Single new_key (some (goal_of said.text)) now s (find-Quiet s e v))
          (λ _ t w. append_user-Keeps new_key said t w)
    by_found (some meta) e =
        bind-Keeps (set_last_activity meta.key now) (λ _. append_user meta.key said)
          (set_last_activity-Keeps meta.key now) (λ _. append_user-Keeps meta.key said) s v

opens-Single :
    (key now : ℕ) (s : Inner) → IsSingle s → Leaves (λ _ t. IsSingle t) (open_existing key now s)
unfolding open_existing get_session
opens-Single key now s v = by_found (lookup ◌==◌ key s.sessions)
  where
    by_found : (o : Option SessionMeta) → Leaves (λ _ t. IsSingle t) (open_found key now o s)
    by_found none = v
    by_found (some m) =
        continue-Leaves (λ _ t. IsQuiet t) (λ _ t. IsSingle t) (λ _. activate key)
          (archive_all_active now s) (archive_all_active-Quiet now s v)
          (λ _ t w. activate-Single key t w)

module _ (summarize : List Message → Option Goal → Text) where
  handoff-Keeps : (carry : Bool) (metas : List SessionMeta) → Keeps (handoff summarize carry metas)
  handoff-Keeps false metas s v = v
  handoff-Keeps true [] s v = v
  handoff-Keeps true (old ∷ metas) s v =
      bind-Keeps (read_all old.key) (λ all. return (summary_of summarize old.goal all))
        (read_all-Keeps old.key) (λ all. return-Keeps (summary_of summarize old.goal all)) s v

  attach-Keeps : (key : ℕ) (o : Option Text) (id now : ℕ) → Keeps (attach summarize key o id now)
  attach-Keeps key none id now s v = v
  attach-Keeps key (some text) id now s v =
      bind-Keeps (append_message key (summary_message summarize text id now)) _
        (append_message-Keeps key (summary_message summarize text id now))
        (λ _.
          bind-Keeps (set_active_path key (some id)) (λ _. return true)
            (set_active_path-Keeps key (some id)) (λ _. return-Keeps true))
        s v

  starts-Single :
      (goal : Option Goal) (carry : Bool) (key id now : ℕ) (s : Inner)
      → IsSingle s
      → Leaves (λ _ t. IsSingle t) (create_new_session summarize goal carry key id now s)
  unfolding create_new_session list_sessions
  starts-Single goal carry key id now s v =
      continue-Leaves single single _ (handoff summarize carry metas s)
        (handoff-Keeps carry metas s v)
        (λ summary t w.
          continue-Leaves (λ _ u. IsQuiet u) single _ (archive_all_active now t)
            (archive_all_active-Quiet now t w)
            (λ _ u q.
              continue-Leaves single single _
                (create_session key (goal_for summarize goal summary) now u)
                (create-Single key (goal_for summarize goal summary) now u q)
                (λ _ x y.
                  continue-Leaves single single _ (attach summarize key summary id now x)
                    (attach-Keeps key summary id now x y) (λ attached z h. h))))
    where
      single : {A : Type 0} → A → Inner → Type 0
      single a t = IsSingle t

      metas : List SessionMeta
      metas = actives (map (λ e. e.1) s.sessions)

  Step-IsSingle : {s t : Inner} → IsSingle s → Step summarize s t → IsSingle t
  Step-IsSingle {s = s} v (says said new_key now) =
      Leaves-IsSingle (on_new_message said new_key now s) (says-Single said new_key now s v)
  Step-IsSingle {s = s} v (opens key now) =
      Leaves-IsSingle (open_existing key now s) (opens-Single key now s v)
  Step-IsSingle {s = s} v (starts goal carry key id now) =
      Leaves-IsSingle (create_new_session summarize goal carry key id now s)
        (starts-Single goal carry key id now s v)

  Reach-IsSingle : {s : Inner} → Reach summarize s → IsSingle s
  Reach-IsSingle fresh = (tt, (0, tt))
  Reach-IsSingle (next r step) = Step-IsSingle (Reach-IsSingle r) step

  -- From an empty store, whatever messages are said, sessions opened and new ones started, one call
  -- after the other and whether each succeeds or fails on the way, two sessions that are both active
  -- are the same one.
  pub Reach-single :
      {s : Inner} (j k : ℕ) (m n : SessionMeta)
      → Reach summarize s
      → lookup ◌==◌ j s.sessions ≡ some m
      → lookup ◌==◌ k s.sessions ≡ some n
      → is_active m.status ≡ true
      → is_active n.status ≡ true
      → (j ≡ k) × (m.key ≡ n.key)
  Reach-single {s = s} j k m n r ej ek am an =
      let (keyed, (only, all)) = Reach-IsSingle r in
      let (mj, oj) = entry s.sessions j keyed only all ej am in
      let (nk, ok') = entry s.sessions k keyed only all ek an in
      (oj ∙ sym ok', mj ∙ oj ∙ sym ok' ∙ sym nk)
    where
      entry :
          (es : List Entry) (i : ℕ) {x : SessionMeta}
          → All (λ (e : Entry). e.1.key ≡ e.0) es
          → (only : ℕ) → All (λ (e : Entry). is_active e.1.status ≡ true → e.0 ≡ only) es
          → lookup ◌==◌ i es ≡ some x
          → is_active x.status ≡ true
          → (x.key ≡ i) × (i ≡ only)
      entry [] i h only a e t = absurd (cc e)
      entry (y ∷ es) i {x = x} h only a e t = elim (Bool-cases (y.0 == i)) [
        | inl here ↦
            let q : some y.1 ≡ some x = rw here at e in
            let same : y.1 ≡ x = cc q in
            let at : y.0 ≡ i = (==_iff y.0 i).0 here in
            (ap (λ z. z.key) (sym same) ∙ h.0 ∙ at, sym at ∙ a.0 (rw same t))
        | inr away ↦ entry es i h.1 only a.1 (rw away at e) t
      ]
