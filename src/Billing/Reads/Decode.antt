-- ===== src/Billing/Reads/Decode.antt =====
-- `BillingRow::split` (server/src/billing/store.rs) and the strings behind the enums of
-- server/src/billing/model.rs.
use mistake_agent.Prelude.{
  ℕ, ◌≡◌, refl, subst, Option, none, some, List, [], ◌∷◌, arith, if◌then◌else◌, find, All, All-find,
  Option-cases, Bool-cases, inl, inr, ◌⊎◌, All-append, ◌==◌,
}
use mistake_agent.Prelude.Results.{ok, >>=-eq-ok}
use mistake_agent.Billing.Model.{
  Plan, Entitlement, PlanKind, experience, monthly, PlanKind_as_str, PlanKind_parse,
  EntitlementSource, redeem, grant, payment, EntitlementSource_as_str,
}
use mistake_agent.Billing.Tables.{PlanRow, EntitlementRow, Db}
use mistake_agent.Billing.Reads.{
  BillingRow, parse_source, parse_kind, decoded, split, is_effective, effective_rows, sooner,
  earliest, split_found, find_entitlement,
}

-- What a decoded entitlement and plan take over from their row.
pub record Decoded (row : BillingRow) (e : Entitlement) (p : Plan) : Type 0 where
  pub same_id : e.id ≡ row.e.id
  pub same_expiry : e.expires_at ≡ row.e.expires_at
  pub same_total : e.total_uses ≡ row.e.total_uses
  pub same_used : e.used_uses ≡ row.e.used_uses
  pub same_5h : p.limit_5h ≡ row.p.limit_5h
  pub same_week : p.limit_week ≡ row.p.limit_week
  pub same_month : p.limit_month ≡ row.p.limit_month

pub split-Decoded :
    (row : BillingRow) (e : Entitlement) (p : Plan) → split row ≡ ok (e, p) → Decoded row e p
unfolding split
split-Decoded row e p h =
    let (source, _, h') = >>=-eq-ok (parse_source row.e.source) _ h in
    let (kind, _, h'') = >>=-eq-ok (parse_kind row.p.kind) _ h' in ground arith

parse_source-as_str : (k : EntitlementSource) → parse_source (EntitlementSource_as_str k) ≡ ok k
unfolding parse_source EntitlementSource_as_str
parse_source-as_str redeem = refl
parse_source-as_str grant = refl
parse_source-as_str payment = refl

parse_kind-as_str : (k : PlanKind) → parse_kind (PlanKind_as_str k) ≡ ok k
unfolding parse_kind PlanKind_parse PlanKind_as_str
parse_kind-as_str experience = refl
parse_kind-as_str monthly = refl

-- The CHECK constraints on `entitlements.source` and `plans.kind`.
pub record IsChecked (db : Db) : Type 0 where
  pub sources :
      All (λ e. (k : EntitlementSource) × (e.source ≡ EntitlementSource_as_str k)) db.entitlements
  pub kinds : All (λ p. (k : PlanKind) × (p.kind ≡ PlanKind_as_str k)) db.plans

abbrev RowChecked : BillingRow → Type 0
RowChecked row =
    ((k : EntitlementSource) × (row.e.source ≡ EntitlementSource_as_str k))
    × ((k : PlanKind) × (row.p.kind ≡ PlanKind_as_str k))

split_total : (row : BillingRow) → RowChecked row → (r : Entitlement × Plan) × (split row ≡ ok r)
unfolding split
split_total row ((s, p), (k, q)) =
    let e : parse_source row.e.source ≡ ok s = rw p (parse_source-as_str s) in
    let f : parse_kind row.p.kind ≡ ok k = rw q (parse_kind-as_str k) in
    (decoded row s k, split_at e f)
  where
    split_at :
        {s : EntitlementSource} {k : PlanKind}
        → parse_source row.e.source ≡ ok s
        → parse_kind row.p.kind ≡ ok k
        → split row ≡ ok (decoded row s k)
    split_at e f = rw (e, f, split)

effective_rows-RowChecked :
    (plans : List PlanRow) (now user : ℕ) (es : List EntitlementRow)
    → All (λ p. (k : PlanKind) × (p.kind ≡ PlanKind_as_str k)) plans
    → All (λ e. (k : EntitlementSource) × (e.source ≡ EntitlementSource_as_str k)) es
    → All RowChecked (effective_rows plans now user es)
unfolding effective_rows
effective_rows-RowChecked plans now user [] hp h = tt
effective_rows-RowChecked plans now user (e ∷ es) hp h =
    let rest = effective_rows-RowChecked plans now user es hp h.1 in
    elim (Option-cases (find (λ p. p.id == e.plan_id) plans)) [
      | inl q ↦ rw (q, effective_rows) rest
      | inr (p, q) ↦
          rw (q, effective_rows)
            (All-append RowChecked _ _
              (only (record { e = e; p = p }) (h.0, All-find _ _ plans hp q)) rest)
    ]
  where
    only :
        (row : BillingRow)
        → RowChecked row
        → All RowChecked (if is_effective now user row then row ∷ [] else [])
    only row c = elim (Bool-cases (is_effective now user row)) [
      | inl t ↦ rw t (c, tt)
      | inr f ↦ rw f tt
    ]

-- Whatever holds of all rows holds of the one that expires first.
All-earliest {ℓ} :
    (P : BillingRow → Type ℓ) (rows : List BillingRow) {row : BillingRow}
    → All P rows
    → earliest rows ≡ some row
    → P row
unfolding earliest
All-earliest P [] a h = absurd (cc h)
All-earliest P (x ∷ rows) a h = elim (sooner_one x (earliest rows) h) [
  | inl e ↦ subst P e a.0
  | inr e ↦ All-earliest P rows a.1 e
]
  where
    sooner_one :
        (x : BillingRow) (o : Option BillingRow) {row : BillingRow}
        → sooner x o ≡ some row
        → (x ≡ row) ⊎ (o ≡ some row)
    sooner_one x none h = ground arith
    sooner_one x (some b) h = ground arith

-- Under the CHECK constraints the query for the paying entitlement never meets a row that it
-- cannot decode.
pub find_entitlement_total :
    (db : Db) (now user : ℕ)
    → IsChecked db
    → (found : Option (Entitlement × Plan)) × (find_entitlement db now user ≡ ok found)
unfolding find_entitlement
find_entitlement_total db now user c =
    decode (earliest (effective_rows db.plans now user db.entitlements)) refl
  where
    decode :
        (o : Option BillingRow)
        → earliest (effective_rows db.plans now user db.entitlements) ≡ o
        → (found : Option (Entitlement × Plan)) × (split_found o ≡ ok found)
    decode none q = (none, refl)
    decode (some row) q =
        let rows = effective_rows-RowChecked db.plans now user db.entitlements c.kinds c.sources in
        let (r, s) = split_total row (All-earliest RowChecked _ rows q) in (some r, rw s)
