-- ===== src/Kernel/Store/Local.antt =====
-- A call on a session leaves every other session alone (src/kernel/plugin/storage/mem.rs).
pub mod Calls
use mistake_agent.Prelude.{
  ℕ, ◌≡◌, refl, Option, none, some, true, false, List, [], ◌∷◌, ◌++◌, ◌==◌, ==_iff, any, lookup,
  put, remove, Bool-cases, inl, inr, ap, sym, subst, ◌∙◌, map_some, lookup-change_at,
  lookup-change_at_other, lookup-any, lookup-any-none, lookup-put, lookup-put_other, lookup-remove,
  lookup-remove_other, if◌then◌else◌,
}
use mistake_agent.Prelude.Results.{Result, ok, err}
use mistake_agent.Relay.Text.{Text}
use mistake_agent.Kernel.Messages.{Message, Goal, SessionMeta, MessageKind, active, archived}
use mistake_agent.Kernel.Chain.{active_chain}
use mistake_agent.Kernel.Store.{
  Inner, StorageError, session_not_found, Action, return, fail, continue, ◌>>=◌, ok_or, has_key,
  update_meta, create_session, push_message, append_message, set_active_path, set_goal, set_title,
  clean_title, archive, activate, remove_session, set_last_activity, or_empty, path_of, read_all,
  not_on_active_path, only_user_messages, no_such_message, no_tail, out_of_fuel,
}
use mistake_agent.Kernel.Branches.{
  derive_branch, switch_branch, splice_compaction, split_at, edited, rehang, switch_to,
  switch_found,
}

-- What the two maps have at a key: nothing, or a session with that key and its messages.
abbrev pub FitsAt : ℕ → Option SessionMeta → Option (List Message) → Type 0
FitsAt k none none = Unit {0}
FitsAt k none (some ms) = true ≡ false
FitsAt k (some m) none = true ≡ false
FitsAt k (some m) (some ms) = m.key ≡ k

abbrev pub Fits : Inner → Type 0
Fits s = (k : ℕ) → FitsAt k (lookup ◌==◌ k s.sessions) (lookup ◌==◌ k s.messages)

abbrev pub IsPresent : ℕ → Inner → Type 0
IsPresent key s =
    ((m : SessionMeta) × (lookup ◌==◌ key s.sessions ≡ some m) × (m.key ≡ key))
    × ((ms : List Message) × (lookup ◌==◌ key s.messages ≡ some ms))

abbrev pub IsUntouched : ℕ → Inner → Inner → Type 0
IsUntouched key s t =
    (k : ℕ)
    → (key == k) ≡ false
    → (lookup ◌==◌ k t.sessions ≡ lookup ◌==◌ k s.sessions)
      × (lookup ◌==◌ k t.messages ≡ lookup ◌==◌ k s.messages)

-- A call that fails changes nothing; one that succeeds has the session, and only it may differ.
abbrev pub IsLocal : {A : Type 0} → ℕ → Inner → Result StorageError A × Inner → Type 0
IsLocal key s (err e, t) = t ≡ s
IsLocal key s (ok a, t) = IsPresent key t × IsUntouched key s t

abbrev pub IsDone : {A : Type 0} → ℕ → Inner → Result StorageError A × Inner → Type 0
IsDone key s (err e, t) = true ≡ false
IsDone key s (ok a, t) = IsPresent key t × IsUntouched key s t

pub IsUntouched-refl : (key : ℕ) (s : Inner) → IsUntouched key s s
IsUntouched-refl key s k d = (refl, refl)

IsUntouched-trans :
    (key : ℕ) (s t u : Inner) → IsUntouched key s t → IsUntouched key t u → IsUntouched key s u
IsUntouched-trans key s t u f g k d = ((g k d).0 ∙ (f k d).0, (g k d).1 ∙ (f k d).1)

-- A session that is there, from either of the maps.
pub IsPresent-meta :
    (key : ℕ) (s : Inner) (m : SessionMeta)
    → Fits s
    → lookup ◌==◌ key s.sessions ≡ some m
    → IsPresent key s
IsPresent-meta key s m fits found = by_messages (lookup ◌==◌ key s.messages) refl
  where
    fact : FitsAt key (some m) (lookup ◌==◌ key s.messages)
    fact = subst (λ o. FitsAt key o (lookup ◌==◌ key s.messages)) found (fits key)

    by_messages : (o : Option (List Message)) → lookup ◌==◌ key s.messages ≡ o → IsPresent key s
    by_messages none e = absurd (cc (subst (λ o. FitsAt key (some m) o) e fact))
    by_messages (some ms) e = ((m, found, subst (λ o. FitsAt key (some m) o) e fact), (ms, e))

pub IsPresent-messages :
    (key : ℕ) (s : Inner) (ms : List Message)
    → Fits s
    → lookup ◌==◌ key s.messages ≡ some ms
    → IsPresent key s
IsPresent-messages key s ms fits found = by_meta (lookup ◌==◌ key s.sessions) refl
  where
    fact : FitsAt key (lookup ◌==◌ key s.sessions) (some ms)
    fact = subst (λ o. FitsAt key (lookup ◌==◌ key s.sessions) o) found (fits key)

    by_meta : (o : Option SessionMeta) → lookup ◌==◌ key s.sessions ≡ o → IsPresent key s
    by_meta none e = absurd (cc (subst (λ o. FitsAt key o (some ms)) e fact))
    by_meta (some m) e = ((m, e, subst (λ o. FitsAt key o (some ms)) e fact), (ms, found))

-- Two calls, the second of which goes through where the session is there.
IsDone-next :
    {B : Type 0} (key : ℕ) (s t : Inner) (r : Result StorageError B × Inner)
    → IsUntouched key s t
    → IsDone key t r
    → IsDone key s r
IsDone-next key s t (err e, u) f d = d
IsDone-next key s t (ok a, u) f (p, g) = (p, IsUntouched-trans key s t u f g)

pub done-IsLocal :
    {A : Type 0} (key : ℕ) (s : Inner) (r : Result StorageError A × Inner)
    → IsDone key s r
    → IsLocal key s r
done-IsLocal key s (err e, t) d = absurd (cc d)
done-IsLocal key s (ok a, t) d = d

pub IsDone-continue :
    {A B : Type 0} (key : ℕ) (s : Inner) (r : Result StorageError A × Inner) (k : A → Action B)
    → IsDone key s r
    → ((a : A) (t : Inner) → IsPresent key t → IsDone key t (k a t))
    → IsDone key s (continue r k)
IsDone-continue key s (err e, t) k d f = d
IsDone-continue key s (ok a, t) k (p, g) f = IsDone-next key s t (k a t) g (f a t p)

pub IsPresent-has_key : (key : ℕ) (s : Inner) → IsPresent key s → has_key key s ≡ true
IsPresent-has_key key s ((m, found, keyed), messages) = elim (Bool-cases (has_key key s)) [
  | inl t ↦ t
  | inr n ↦ absurd (cc (lookup-any-none ◌==◌ key s.sessions n, found))
]

-- A change of the session's entry.
pub update_meta-IsDone :
    (key : ℕ) (f : SessionMeta → SessionMeta) (s : Inner)
    → ((m : SessionMeta) → (f m).key ≡ m.key)
    → IsPresent key s
    → IsDone key s (update_meta key f s)
unfolding update_meta
update_meta-IsDone key f s same present = rw (IsPresent-has_key key s present) (
  (
    (
      f present.0.0,
      lookup-change_at ◌==◌ key f s.sessions ∙ ap (map_some ◌==◌ f) present.0.1,
      same present.0.0 ∙ present.0.2,
    ),
    present.1,
  ),
  λ k d. (lookup-change_at_other ◌==◌ ==_iff k key f s.sessions d, refl),
)

pub update_meta-IsLocal :
    (key : ℕ) (f : SessionMeta → SessionMeta) (s : Inner)
    → ((m : SessionMeta) → (f m).key ≡ m.key)
    → Fits s
    → IsLocal key s (update_meta key f s)
unfolding update_meta
update_meta-IsLocal key f s same fits = elim (Bool-cases (has_key key s)) [
  | inl t ↦
      let (m, found) = lookup-any ◌==◌ key s.sessions t in
      done-IsLocal key s (update_meta key f s)
        (update_meta-IsDone key f s same (IsPresent-meta key s m fits found))
  | inr n ↦ rw n refl
]

pub IsPresent-put :
    (key : ℕ) (messages : List Message) (s : Inner)
    → IsPresent key s
    → IsPresent key (record s { messages = put ◌==◌ key messages s.messages })
IsPresent-put key messages s present =
    (present.0, (messages, lookup-put ◌==◌ ==_iff key messages s.messages))

pub IsUntouched-put :
    (key : ℕ) (messages : List Message) (s : Inner)
    → IsUntouched key s (record s { messages = put ◌==◌ key messages s.messages })
IsUntouched-put key messages s k d =
    (refl, lookup-put_other ◌==◌ ==_iff k key messages s.messages d)

-- Where the maps fit before a call of one session, they fit after it.
pub IsLocal-Fits :
    {A : Type 0} (key : ℕ) (s : Inner) (r : Result StorageError A × Inner)
    → IsLocal key s r
    → Fits s
    → Fits r.1
IsLocal-Fits key s (err e, t) local fits = subst Fits (sym local) fits
IsLocal-Fits key s (ok a, t) (((m, found, keyed), (ms, messages)), others) fits = λ k.
    elim (Bool-cases (key == k)) [
      | inl same ↦
          subst (λ j. FitsAt j (lookup ◌==◌ j t.sessions) (lookup ◌==◌ j t.messages))
            ((==_iff key k).0 same) (rw (found, messages) keyed)
      | inr other ↦ rw ((others k other).0, (others k other).1) (fits k)
    ]
