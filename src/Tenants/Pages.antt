-- ===== src/Tenants/Pages.antt =====
-- A client of `ListTenants` that raises the offset by the limit from page to page.
use multi_tenant_messaging.Base.{
  ℕ, List, drop, map, ◌<◌, ◌∷◌, ◌≤◌, [], true, ◌≡◌, arith, suc, take, ◌+◌, ◌++◌, ap, refl, length,
  ◌∙◌, sym, ◌*◌, ◌-◌, ap₂,
}
use mathlib.Core.List.{Perm, []}
use multi_tenant_messaging.Db.{TenantRow, UuidFormat, Db}
use multi_tenant_messaging.Tenants.{
  Answer, by_creation, list_tenants, page_limit, TenantResponse, good, tenant_response, bad,
}
use multi_tenant_messaging.Base.Int.{pos}
use Prim.Native.Nat.{zero}
use multi_tenant_messaging.Tenants.Creation.{
  IsNewestFirst, AreDistinct, by_creation-perm, length-by_creation, by_creation-IsNewestFirst,
  by_creation_same,
}

abbrev tenants_or_none : Answer (List TenantResponse) → List TenantResponse
tenants_or_none (good ts) = ts
tenants_or_none (bad e) = []

-- The tenants of so many pages from an offset on; every query has ties of its own.
pub page_through : UuidFormat → (ℕ → ℕ → ℕ) → ℕ → Db → ℕ → ℕ → List TenantResponse
page_through u ties limit db offset zero = []
page_through u ties limit db offset (suc pages) =
    tenants_or_none (list_tenants u (ties offset) true (pos limit) (pos offset) db)
    ++ page_through u ties limit db (offset + limit) pages

take-drop :
    (u : UuidFormat) (n : ℕ) (rows : List TenantRow)
    → map (tenant_response u) (take n rows) ++ map (tenant_response u) (drop n rows)
      ≡ map (tenant_response u) rows
take-drop u zero rows = refl
take-drop u (suc n) [] = refl
take-drop u (suc n) (row ∷ rows) = ap (λ ts. tenant_response u row ∷ ts) (take-drop u n rows)

drop_nil : (n : ℕ) → drop {A = TenantRow} n [] ≡ []
drop_nil zero = refl
drop_nil (suc n) = refl

length-drop : (n : ℕ) (rows : List TenantRow) → length (drop n rows) ≡ length rows - n
length-drop zero rows = omega arith
length-drop (suc n) [] = omega arith
length-drop (suc n) (row ∷ rows) = omega (arith, length-drop n rows)

drop-drop : (k n : ℕ) (rows : List TenantRow) → drop n (drop k rows) ≡ drop (k + n) rows
drop-drop zero n rows = ap (λ m. drop m rows) (omega arith)
drop-drop (suc k) n [] = drop_nil n ∙ sym (drop_nil (suc k + n))
drop-drop (suc k) n (row ∷ rows) =
    let same : suc (k + n) ≡ suc k + n = omega arith in
    drop-drop k n rows ∙ ap (λ m. drop m (row ∷ rows)) same

limit_kept : (n : ℕ) → 0 < n → n ≤ 100 → page_limit (pos n) ≡ n
unfolding page_limit
limit_kept n low high = ground arith

no_rows_left : (rows : List TenantRow) → length rows ≤ 0 → [] ≡ rows
no_rows_left [] h = refl
no_rows_left (row ∷ rows) h = absurd (omega (arith, h))

module _ (u : UuidFormat) (ties : ℕ → ℕ → ℕ) (n : ℕ) (db : Db) (rank : ℕ → ℕ) (low : 0 < n)
    (high : n ≤ 100) (distinct : AreDistinct db.tenants) where
  one_page :
      (offset : ℕ)
      → list_tenants u (ties offset) true (pos n) (pos offset) db
        ≡ good (map (tenant_response u) (take n (drop offset (by_creation rank db.tenants))))
  unfolding list_tenants page_limit
  one_page offset =
      ap
        (λ l.
          good
            (map (tenant_response u) (take l (drop offset (by_creation (ties offset) db.tenants)))))
        (limit_kept n low high)
      ∙ ap (λ rows. good (map (tenant_response u) (take n (drop offset rows))))
          (by_creation_same (ties offset) rank db.tenants distinct)

  pages_from :
      (offset pages : ℕ)
      → length (drop offset (by_creation rank db.tenants)) ≤ pages * n
      → page_through u ties n db offset pages
        ≡ map (tenant_response u) (drop offset (by_creation rank db.tenants))
  unfolding page_through
  pages_from offset zero enough =
      ap (map (tenant_response u))
        (no_rows_left (drop offset (by_creation rank db.tenants)) (omega arith))
  pages_from offset (suc pages) enough =
      let rows = drop offset (by_creation rank db.tenants) in
      let further = drop-drop offset n (by_creation rank db.tenants) in
      let left : length (drop (offset + n) (by_creation rank db.tenants)) ≤ pages * n =
        omega (arith, enough, ap length further, length-drop n rows) in
      ap₂ (λ xs ys. xs ++ ys) (ap tenants_or_none (one_page offset))
        (pages_from (offset + n) pages left ∙ ap (map (tenant_response u)) (sym further))
      ∙ take-drop u n rows

-- A client that reads pages of `limit` tenants, from 1 to 100, at the offsets 0, `limit`, twice `limit` and so
-- on, while the table stays, gets every tenant exactly once, newest first, as soon as the pages are enough
-- for the number of tenants, where no two tenants were created at the same time: then it does not matter how
-- each query orders tenants of the same time.
pub page_through_complete :
    (u : UuidFormat) (ties : ℕ → ℕ → ℕ) (limit pages : ℕ) (db : Db) (rank : ℕ → ℕ)
    → 0 < limit
    → limit ≤ 100
    → AreDistinct db.tenants
    → length db.tenants ≤ pages * limit
    → (page_through u ties limit db 0 pages ≡ map (tenant_response u) (by_creation rank db.tenants))
      × IsNewestFirst (by_creation rank db.tenants)
      × Perm (by_creation rank db.tenants) db.tenants
page_through_complete u ties limit pages db rank low high distinct enough = (
  pages_from u ties limit db rank low high distinct 0 pages
      (omega (arith, enough, length-by_creation rank db.tenants)),
  by_creation-IsNewestFirst rank db.tenants,
  by_creation-perm rank db.tenants,
)
