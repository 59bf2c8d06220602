-- ===== src/Kernel/Store.antt =====
-- src/kernel/plugin/storage/mem.rs: the session store in memory. The mutex makes each call atomic.
-- `Inner` has the two maps that these operations use; new identifiers and the current time are
-- arguments.
pub mod Local
use mistake_agent.Prelude.{
  ℕ, Option, none, some, Bool, List, [], ◌∷◌, ◌++◌, map, ◌==◌, if◌then◌else◌, any, update_where,
  lookup, put, remove,
}
use mistake_agent.Prelude.Results.{Result, ok, err}
use mistake_agent.Relay.Text.{Text, is_empty, trim}
use mistake_agent.Kernel.Messages.{Message, Goal, SessionMeta, active, archived}
use mistake_agent.Kernel.Chain.{active_chain}

pub record Inner : Type 0 where
  pub sessions : List (ℕ × SessionMeta)
  pub messages : List (ℕ × List Message)

-- The errors of `StorageError` that occur here, and no result within the fuel of `active_chain`.
pub data StorageError : Type 0 where
  session_not_found already_exists : ℕ → StorageError
  not_on_active_path only_user_messages no_such_message no_tail out_of_fuel : StorageError

-- A call: it may change the store also where it fails.
abbrev pub Action {ℓ} : Type ℓ → Type ℓ
Action A = Inner → Result StorageError A × Inner

abbrev pub return {ℓ} : {A : Type ℓ} → A → Action A
return a s = (ok a, s)

abbrev pub fail {ℓ} : {A : Type ℓ} → StorageError → Action A
fail e s = (err e, s)

abbrev pub continue {ℓ κ} :
    {A : Type ℓ} {B : Type κ}
    → Result StorageError A × Inner
    → (A → Action B)
    → Result StorageError B × Inner
continue (err e, s) k = (err e, s)
continue (ok a, s) k = k a s

infixl 5 ◌>>=◌
abbrev pub ◌>>=◌ {ℓ κ} : {A : Type ℓ} {B : Type κ} → Action A → (A → Action B) → Action B
(m >>= k) s = continue (m s) k

-- `ok_or(error)?`.
abbrev pub ok_or {ℓ} : {A : Type ℓ} → StorageError → Option A → Action A
ok_or e none = fail e
ok_or e (some a) = return a

abbrev pub has_key : ℕ → Inner → Bool
has_key key s = any (λ e. e.0 == key) s.sessions

abbrev pub with_sessions : (List (ℕ × SessionMeta) → List (ℕ × SessionMeta)) → Inner → Inner
with_sessions f s = record s { sessions = f s.sessions }

-- `sessions.get_mut(key).ok_or(SessionNotFound)?` and a change of the entry.
unfoldable pub update_meta : ℕ → (SessionMeta → SessionMeta) → Action (Unit {0})
update_meta key f s =
    if has_key key s
    then (ok tt, with_sessions (update_where (λ e. e.0 == key) (λ e. (e.0, f e.1))) s)
    else (err (session_not_found key), s)

unfoldable pub create_session : ℕ → SessionMeta → Action (Unit {0})
create_session key meta s = if has_key key s then (err (already_exists key), s) else (
  ok tt,
  record { sessions = put ◌==◌ key meta s.sessions; messages = put ◌==◌ key [] s.messages },
)

unfoldable pub get_session : ℕ → Action (Option SessionMeta)
get_session key s = (ok (lookup ◌==◌ key s.sessions), s)

abbrev pub push_message : ℕ → Message → Option (List Message) → Action (Unit {0})
push_message key msg none s = (err (session_not_found key), s)
push_message key msg (some path) s =
    (ok tt, record s { messages = put ◌==◌ key (path ++ (msg ∷ [])) s.messages })

unfoldable pub append_message : ℕ → Message → Action (Unit {0})
append_message key msg s = push_message key msg (lookup ◌==◌ key s.messages) s

abbrev pub path_of : Option SessionMeta → Option ℕ
path_of none = none
path_of (some m) = m.active_path

unfoldable pub read_path : ℕ → Action (List Message)
unfolding active_chain
read_path key s =
    (ok_or (session_not_found key) (lookup ◌==◌ key s.messages) >>= λ messages.
    ok_or out_of_fuel (active_chain messages (path_of (lookup ◌==◌ key s.sessions))))
      s

abbrev pub or_empty : Option (List Message) → List Message
or_empty none = []
or_empty (some ms) = ms

unfoldable pub read_all : ℕ → Action (List Message)
read_all key s = (ok (or_empty (lookup ◌==◌ key s.messages)), s)

unfoldable pub set_active_path : ℕ → Option ℕ → Action (Unit {0})
unfolding update_meta
set_active_path key message_id = update_meta key (λ m. record m { active_path = message_id })

unfoldable pub set_goal : ℕ → Goal → Action (Unit {0})
unfolding update_meta
set_goal key goal = update_meta key (λ m. record m { goal = some goal })

-- `title.map(str::trim).filter(|t| !t.is_empty())`.
abbrev pub clean_title : Option Text → Option Text
clean_title none = none
clean_title (some t) = if is_empty (trim t) then none else some (trim t)

unfoldable pub set_title : ℕ → Option Text → Action (Unit {0})
unfolding update_meta
set_title key title = update_meta key (λ m. record m { title = clean_title title })

unfoldable pub archive : ℕ → ℕ → Action (Unit {0})
unfolding update_meta
archive now key = update_meta key (λ m. record m { status = archived; archived_at = some now })

unfoldable pub activate : ℕ → Action (Unit {0})
unfolding update_meta
activate key = update_meta key (λ m. record m { status = active; archived_at = none })

unfoldable pub remove_session : ℕ → Action (Unit {0})
remove_session key s =
    if has_key key s
    then (
      ok tt,
      record { sessions = remove ◌==◌ key s.sessions; messages = remove ◌==◌ key s.messages },
    )
    else (err (session_not_found key), s)

-- The map's values, in an order of its own; here that of the entries.
unfoldable pub list_sessions : Action (List SessionMeta)
list_sessions s = (ok (map (λ e. e.1) s.sessions), s)

unfoldable pub set_last_activity : ℕ → ℕ → Action (Unit {0})
unfolding update_meta
set_last_activity key at = update_meta key (λ m. record m { last_activity_at = at })
