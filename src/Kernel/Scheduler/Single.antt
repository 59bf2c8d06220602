-- ===== src/Kernel/Scheduler/Single.antt =====
-- At most one session is active (src/kernel/agent/session/scheduler.rs).
use mistake_agent.Prelude.{
  ℕ, ◌≡◌, refl, Option, none, some, true, false, List, ◌==◌, any, lookup, All, All-map,
  All-update_where, Bool-cases, inl, inr, ◌∙◌,
}
use mistake_agent.Prelude.Results.{Result, ok, err}
use mistake_agent.Kernel.Messages.{Message, SessionMeta, is_active}
use mistake_agent.Kernel.Store.{
  Inner, StorageError, Action, return, continue, ◌>>=◌, ok_or, has_key, update_meta, push_message,
  append_message, read_path, read_all, set_active_path, set_last_activity,
}
use mistake_agent.Kernel.Scheduler.{Said, TurnContext, append_user, user_message}

abbrev pub Entry : Type 0
Entry = ℕ × SessionMeta

abbrev pub IsKeyed : Inner → Type 0
IsKeyed s = All (λ (e : Entry). e.1.key ≡ e.0) s.sessions

-- Each entry stands under its own key, and there is a key under which every active session stands.
abbrev pub IsSingle : Inner → Type 0
IsSingle s =
    IsKeyed s × ((k : ℕ) × All (λ (e : Entry). is_active e.1.status ≡ true → e.0 ≡ k) s.sessions)

-- No session is active.
abbrev pub IsQuiet : Inner → Type 0
IsQuiet s = IsKeyed s × All (λ (e : Entry). is_active e.1.status ≡ false) s.sessions

-- The sessions that are still active are among these.
abbrev pub IsLeft : List SessionMeta → Inner → Type 0
IsLeft metas s =
    IsSingle s
    × All (λ (e : Entry). is_active e.1.status ≡ true → any (λ m. m.key == e.0) metas ≡ true)
        s.sessions

-- What a call leaves: `Q` where it succeeds, and a single active session where it fails.
abbrev pub Leaves : {A : Type 0} → (A → Inner → Type 0) → Result StorageError A × Inner → Type 0
Leaves Q (err e, s) = IsSingle s
Leaves Q (ok a, s) = Q a s

abbrev pub Keeps : {A : Type 0} → Action A → Type 0
Keeps m = (s : Inner) → IsSingle s → Leaves (λ _ t. IsSingle t) (m s)

pub continue-Leaves :
    {A B : Type 0} (Q : A → Inner → Type 0) (R : B → Inner → Type 0) (k : A → Action B)
    (r : Result StorageError A × Inner)
    → Leaves Q r
    → ((a : A) (s : Inner) → Q a s → Leaves R (k a s))
    → Leaves R (continue r k)
continue-Leaves Q R k (err e, s) h f = h
continue-Leaves Q R k (ok a, s) h f = f a s h

-- Two calls that keep a single active session do so one after the other.
pub bind-Keeps :
    {A B : Type 0} (m : Action A) (k : A → Action B)
    → Keeps m
    → ((a : A) → Keeps (k a))
    → Keeps (m >>= k)
bind-Keeps m k h f s v =
    continue-Leaves (λ _ t. IsSingle t) (λ _ t. IsSingle t) k (m s) (h s v) (λ a t w. f a t w)

pub return-Keeps : {A : Type 0} (a : A) → Keeps (return a)
return-Keeps a s v = v

ok_or-Keeps : {A : Type 0} (e : StorageError) (o : Option A) → Keeps (ok_or e o)
ok_or-Keeps e none s v = v
ok_or-Keeps e (some a) s v = v

pub IsQuiet-IsSingle : (s : Inner) → IsQuiet s → IsSingle s
IsQuiet-IsSingle s (keyed, quiet) = (
  keyed,
  (
    0,
    All-map (λ (e : Entry). is_active e.1.status ≡ false)
        (λ (e : Entry). is_active e.1.status ≡ true → e.0 ≡ 0) s.sessions
        (λ e f t. absurd (cc (f, t))) quiet,
  ),
)

-- A change of an entry that keeps its key and its status.
update_meta-Keeps :
    (key : ℕ) (f : SessionMeta → SessionMeta)
    → ((m : SessionMeta) → (f m).key ≡ m.key)
    → ((m : SessionMeta) → (f m).status ≡ m.status)
    → Keeps (update_meta key f)
unfolding update_meta
update_meta-Keeps key f same_key same_status s (keyed, (k, single)) =
    elim (Bool-cases (has_key key s)) [
      | inl t ↦ rw t (
        All-update_where (λ (e : Entry). e.1.key ≡ e.0) (λ e. e.0 == key) (λ e. (e.0, f e.1))
            s.sessions (λ e q. same_key e.1 ∙ q) keyed,
        (
          k,
          All-update_where (λ (e : Entry). is_active e.1.status ≡ true → e.0 ≡ k) (λ e. e.0 == key)
              (λ e. (e.0, f e.1)) s.sessions (λ e q h. q (rw (same_status e.1) at h)) single,
        ),
      )
      | inr absent ↦ rw absent (keyed, (k, single))
    ]

push_message-Keeps :
    (key : ℕ) (msg : Message) (o : Option (List Message)) → Keeps (push_message key msg o)
push_message-Keeps key msg none s v = v
push_message-Keeps key msg (some path) s v = v

pub append_message-Keeps : (key : ℕ) (msg : Message) → Keeps (append_message key msg)
unfolding append_message
append_message-Keeps key msg s v = push_message-Keeps key msg (lookup ◌==◌ key s.messages) s v

read_path-Keeps : (key : ℕ) → Keeps (read_path key)
unfolding read_path
read_path-Keeps key s v =
    bind-Keeps (ok_or _ (lookup ◌==◌ key s.messages)) _ (ok_or-Keeps _ (lookup ◌==◌ key s.messages))
      (λ messages. ok_or-Keeps _ _) s v

pub read_all-Keeps : (key : ℕ) → Keeps (read_all key)
unfolding read_all
read_all-Keeps key s v = v

pub set_active_path-Keeps : (key : ℕ) (o : Option ℕ) → Keeps (set_active_path key o)
unfolding set_active_path
set_active_path-Keeps key o = update_meta-Keeps key _ (λ m. refl) (λ m. refl)

pub set_last_activity-Keeps : (key at : ℕ) → Keeps (set_last_activity key at)
unfolding set_last_activity
set_last_activity-Keeps key at = update_meta-Keeps key _ (λ m. refl) (λ m. refl)

pub append_user-Keeps : (key : ℕ) (said : Said) → Keeps (append_user key said)
unfolding append_user
append_user-Keeps key said = bind-Keeps (read_path key) _ (read_path-Keeps key) (λ path.
    bind-Keeps (append_message key (user_message said path)) _
      (append_message-Keeps key (user_message said path))
      (λ _.
        bind-Keeps (set_active_path key (some said.id)) _ (set_active_path-Keeps key (some said.id))
          (λ _. bind-Keeps (read_path key) _ (read_path-Keeps key) (λ messages.
            return-Keeps {A = TurnContext} (record { session_key = key; messages = messages })))))
