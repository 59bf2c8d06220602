-- ===== src/Kernel/Registry/Unique/Checks.antt =====
-- What the checks of a registration say (src/kernel/registry/mod.rs).
use mistake_agent.Prelude.{
  ◌≡◌, ◌↔◌, refl, Bool, true, false, List, [], ◌∷◌, ◌++◌, map, any, Bool-cases, inl, inr, sym,
  subst, IsDistinct, IsDistinct-insert, IsDistinct-move,
}
use mistake_agent.Prelude.Results.{ok, >>=-eq-ok}
use mistake_agent.Relay.Text.{Text, same_text}
use mistake_agent.Relay.Text.Equality.{same_text_iff}
use mistake_agent.Kernel.Contract.{
  ServiceId, storage, memory, compute, model, same_service, Info, full_name, full_to_wire,
}
use mistake_agent.Kernel.Registry.{PluginEntry, Registry, has_name}
use mistake_agent.Kernel.Registry.Loading.{
  member, has_service, short_names, wires_of, infos, declared_wires, provided, check_provides,
  check_names, check_free, check_services, check_requires, check_plugin,
}
use mistake_agent.Kernel.Registry.Unchanged.{IsKeyed}

service_iff : (a b : ServiceId) → (same_service a b ≡ true) ↔ (a ≡ b)
service_iff a b = (sound a b, λ e. rw e (same b))
  where
    same : (a : ServiceId) → same_service a a ≡ true
    same storage = refl
    same memory = refl
    same compute = refl
    same model = refl

    sound : (a b : ServiceId) → same_service a b ≡ true → a ≡ b
    sound storage storage h = refl
    sound memory memory h = refl
    sound compute compute h = refl
    sound model model h = refl
    sound storage memory h = absurd (cc h)
    sound storage compute h = absurd (cc h)
    sound storage model h = absurd (cc h)
    sound memory storage h = absurd (cc h)
    sound memory compute h = absurd (cc h)
    sound memory model h = absurd (cc h)
    sound compute storage h = absurd (cc h)
    sound compute memory h = absurd (cc h)
    sound compute model h = absurd (cc h)
    sound model storage h = absurd (cc h)
    sound model memory h = absurd (cc h)
    sound model compute h = absurd (cc h)

check_names-IsDistinct :
    (namespace : Text) (fulls wires names : List Text)
    → check_names namespace fulls wires names ≡ ok tt
    → IsDistinct same_text wires
    → IsDistinct same_text (wires_of namespace names ++ wires)
check_names-IsDistinct namespace fulls wires [] h d = d
check_names-IsDistinct namespace fulls wires (short ∷ names) h d =
    elim (Bool-cases (member full fulls)) [
      | inl t ↦ absurd (cc (rw t at h))
      | inr n ↦ elim (Bool-cases (member wire wires)) [
        | inl t ↦ absurd (cc (rw (n, t) at h))
        | inr fresh ↦ IsDistinct-move same_text wire (wires_of namespace names) wires (
            check_names-IsDistinct namespace (full ∷ fulls) (wire ∷ wires) names
              (rw (n, fresh) at h) (IsDistinct-insert same_text same_text_iff wire wires fresh d))
      ]
    ]
  where
    full : Text
    full = full_name namespace short

    wire : Text
    wire = full_to_wire full

check_provides-IsDistinct :
    (taken ids : List ServiceId)
    → check_provides taken ids ≡ ok tt
    → IsDistinct same_service taken
    → IsDistinct same_service (ids ++ taken)
check_provides-IsDistinct taken [] h d = d
check_provides-IsDistinct taken (id ∷ ids) h d = elim (Bool-cases (has_service id taken)) [
  | inl t ↦ absurd (cc (rw t at h))
  | inr fresh ↦ IsDistinct-move same_service id ids taken (
      check_provides-IsDistinct (id ∷ taken) ids (rw fresh at h)
        (IsDistinct-insert same_service service_iff id taken fresh d))
]

-- Each plugin stands under its namespace, and neither two namespaces, nor two declared names on the
-- wire, nor two provided services are equal.
abbrev pub AreUnique : List Info → Type 0
AreUnique is =
    IsDistinct same_text (map (λ (i : Info). i.namespace) is)
    × IsDistinct same_text (declared_wires is)
    × IsDistinct same_service (provided is)

abbrev pub IsUnique : Registry → Type 0
IsUnique r = IsKeyed r.entries × AreUnique (infos r.entries)

same_text-flip : (a b : Text) → same_text a b ≡ false → same_text b a ≡ false
same_text-flip a b n = elim (Bool-cases (same_text b a)) [
  | inl t ↦ absurd (cc (n, (same_text_iff a b).1 (sym ((same_text_iff b a).0 t))))
  | inr m ↦ m
]

absent-namespace :
    (ns : Text) (entries : List (Text × PluginEntry))
    → IsKeyed entries
    → has_name ns entries ≡ false
    → any (same_text ns) (map (λ (i : Info). i.namespace) (infos entries)) ≡ false
absent-namespace ns [] keyed h = refl
absent-namespace ns (e ∷ es) (k, ks) h = elim (Bool-cases (same_text e.0 ns)) [
  | inl t ↦ absurd (cc (rw t at h))
  | inr n ↦
      let m : same_text ns e.1.info.namespace ≡ false =
        subst (λ z. same_text ns z ≡ false) (sym k) (same_text-flip e.0 ns n) in
      rw m (absent-namespace ns es ks (rw n at h))
]

check_free-absent :
    (r : Registry) (info : Info)
    → check_free r info ≡ ok tt
    → has_name info.namespace r.entries ≡ false
check_free-absent r info h = elim (Bool-cases (has_name info.namespace r.entries)) [
  | inl t ↦ absurd (cc (rw t at h))
  | inr n ↦ n
]

check_services-IsDistinct :
    (r : Registry) (info : Info) (kernel : Bool)
    → check_services r info kernel ≡ ok tt
    → IsDistinct same_service (provided (infos r.entries))
    → IsDistinct same_service (info.provides ++ provided (infos r.entries))
check_services-IsDistinct r info true h d =
    check_provides-IsDistinct (provided (infos r.entries)) info.provides h d
check_services-IsDistinct r info false h d = by_provides info.provides refl
  where
    by_provides :
        (l : List ServiceId)
        → info.provides ≡ l
        → IsDistinct same_service (info.provides ++ provided (infos r.entries))
    by_provides [] e = rw e d
    by_provides (id ∷ ids) e = absurd (cc (rw e at h))

pub check_plugin-absent :
    (r : Registry) (info : Info) (kernel : Bool)
    → check_plugin r info kernel ≡ ok tt
    → has_name info.namespace r.entries ≡ false
unfolding check_plugin
check_plugin-absent r info kernel h =
    let (u, free, rest) = >>=-eq-ok (check_free r info) _ h in check_free-absent r info free

-- A plugin that passes the checks is new in its namespace and in each of its names and services.
pub check_plugin-AreUnique :
    (r : Registry) (info : Info) (kernel : Bool)
    → IsUnique r
    → check_plugin r info kernel ≡ ok tt
    → (has_name info.namespace r.entries ≡ false) × AreUnique (info ∷ infos r.entries)
unfolding check_plugin
check_plugin-AreUnique r info kernel (keyed, (namespaces, wires, services)) h =
    let (u, free, after_free) = >>=-eq-ok (check_free r info) _ h in
    let (v, offered, after_offered) = >>=-eq-ok (check_services r info kernel) _ after_free in
    let (w, required, named) = >>=-eq-ok (check_requires r info kernel) _ after_offered in
    let absent = check_free-absent r info free in
    (
      absent,
      (
        IsDistinct-insert same_text same_text_iff info.namespace _
            (absent-namespace info.namespace r.entries keyed absent) namespaces,
        check_names-IsDistinct info.namespace [] (declared_wires (infos r.entries))
            (short_names info) named wires,
        check_services-IsDistinct r info kernel offered services,
      ),
    )
