-- ===== src/Auth/References.antt =====
-- The constraints of `users`: ids and names stand once, and a user's tenant is in the table.
use multi_tenant_messaging.Auth.{find_user, has_user_id}
use multi_tenant_messaging.Base.{
  List, ℕ, String, Option, ◌∷◌, ◌≡◌, Option-cases, arith, false, if◌then◌else◌, none, some, true,
  Bool-cases, inl, refl, inr, ◌∙◌, ◌==◌, All, is_some,
}
use multi_tenant_messaging.Base.Int.{ℤ}
use multi_tenant_messaging.Tenants.{
  find_tenant, keep_tenants, set_concurrency_rows, unset_tenant, is_tenant,
}
use multi_tenant_messaging.Db.{TenantRow, UserRow}
use mathlib.Core.List.{[]}
use multi_tenant_messaging.Tenants.Rows.{find_tenant-set, find_tenant-keep}
use multi_tenant_messaging.Auth.Ids.{IsUserTable}

-- A reference to a tenant: none, or one that is there.
abbrev pub IsPlaced : List TenantRow → Option ℕ → Type 0
IsPlaced tenants none = Unit
IsPlaced tenants (some t) = is_some (find_tenant t tenants) ≡ true

-- Every user's reference is one.
abbrev pub IsReferring : List TenantRow → List UserRow → Type 0
IsReferring tenants = All λ user. IsPlaced tenants user.tenant_id

-- A change to the tenants that loses none of them.
abbrev Keeps : List TenantRow → List TenantRow → Type 0
Keeps before after =
    (t : ℕ) → is_some (find_tenant t before) ≡ true → is_some (find_tenant t after) ≡ true

Keeps-IsPlaced :
    (before after : List TenantRow) (t : Option ℕ)
    → Keeps before after
    → IsPlaced before t
    → IsPlaced after t
Keeps-IsPlaced before after none keeps p = tt
Keeps-IsPlaced before after (some t) keeps p = keeps t p

Keeps-IsReferring :
    (before after : List TenantRow) (users : List UserRow)
    → Keeps before after
    → IsReferring before users
    → IsReferring after users
Keeps-IsReferring before after [] keeps v = tt
Keeps-IsReferring before after (user ∷ users) keeps (placed, v) = (
  Keeps-IsPlaced before after user.tenant_id keeps placed,
  Keeps-IsReferring before after users keeps v,
)

pub add_tenant-IsReferring :
    (row : TenantRow) (tenants : List TenantRow) (users : List UserRow)
    → IsReferring tenants users
    → IsReferring (row ∷ tenants) users
unfolding find_tenant
add_tenant-IsReferring row tenants users v =
    Keeps-IsReferring tenants (row ∷ tenants) users (λ t there. ground (arith, there)) v

pub set_concurrency-IsReferring :
    (n : ℤ) (now i : ℕ) (tenants : List TenantRow) (users : List UserRow)
    → IsReferring tenants users
    → IsReferring (set_concurrency_rows n now i tenants) users
set_concurrency-IsReferring n now i tenants users v =
    Keeps-IsReferring tenants (set_concurrency_rows n now i tenants) users
      (λ t there. elim (Option-cases (find_tenant t tenants)) [
        | inl e ↦ absurd (ground (arith, there))
        | inr (row, e) ↦ ground (arith, e, find_tenant-set n now i t tenants)
      ])
      v

unset-has_user_id :
    (i j : ℕ) (users : List UserRow) → has_user_id j (unset_tenant i users) ≡ has_user_id j users
unset-has_user_id i j [] = refl
unset-has_user_id i j (user ∷ users) = ground (arith, unset-has_user_id i j users)

unset-find_user :
    (i : ℕ) (name : String) (users : List UserRow)
    → is_some (find_user name users) ≡ false
    → is_some (find_user name (unset_tenant i users)) ≡ false
unfolding find_user
unset-find_user i name [] e = refl
unset-find_user i name (user ∷ users) e = ground (arith, e, unset-find_user i name users)

-- The rows that refer to the deleted tenant are set to NULL first.
unset-IsPlaced :
    (i : ℕ) (tenants : List TenantRow) (user : UserRow)
    → IsPlaced tenants user.tenant_id
    → IsPlaced
        (keep_tenants i tenants)
        (if is_tenant i user.tenant_id then none else user.tenant_id)
unset-IsPlaced i tenants user p = elim (Option-cases user.tenant_id) [
  | inl e ↦ rw e tt
  | inr (t, e) ↦ elim (Bool-cases (t == i)) [
    | inl same ↦ rw (e, same) tt
    | inr other ↦ rw (e, other) (ground (arith, p, e, other, find_tenant-keep i t tenants))
  ]
]

pub unset_tenant-IsUserTable :
    (i : ℕ) (users : List UserRow) → IsUserTable users → IsUserTable (unset_tenant i users)
unset_tenant-IsUserTable i [] v = tt
unset_tenant-IsUserTable i (user ∷ users) (fresh, new, v) =
    let ids = unset-has_user_id i user.id users ∙ fresh in
    let names = unset-find_user i user.username users new in
    let rest = unset_tenant-IsUserTable i users v in
    elim (Bool-cases (is_tenant i user.tenant_id)) [
      | inl e ↦ rw e (ids, names, rest)
      | inr e ↦ rw e (ids, names, rest)
    ]

pub remove_tenant-IsReferring :
    (i : ℕ) (tenants : List TenantRow) (users : List UserRow)
    → IsReferring tenants users
    → IsReferring (keep_tenants i tenants) (unset_tenant i users)
remove_tenant-IsReferring i tenants [] v = tt
remove_tenant-IsReferring i tenants (user ∷ users) (placed, v) =
    let here = unset-IsPlaced i tenants user placed in
    let rest = remove_tenant-IsReferring i tenants users v in
    elim (Bool-cases (is_tenant i user.tenant_id)) [
      | inl e ↦ rw e (tt, rest)
      | inr e ↦ rw e (rw e at here, rest)
    ]
