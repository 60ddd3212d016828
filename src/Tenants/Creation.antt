-- ===== src/Tenants/Creation.antt =====
-- The order in which `ListTenants` answers.
use multi_tenant_messaging.Base.{
  ℕ, List, ◌∷◌, ◌≤◌, All, [], if_elim, ◌≡◌, arith, suc, ◌≢◌, ap, refl, length, ◌∙◌, All-map,
  if◌then◌else◌,
}
use mathlib.Core.List.{Perm, []}
use multi_tenant_messaging.Db.{TenantRow}
use multi_tenant_messaging.Tenants.{by_creation, newest_first, is_newer}
use mathlib.Core.List.Perm

abbrev pub IsNewestFirst : List TenantRow → Type 0
IsNewestFirst [] = Unit
IsNewestFirst (row ∷ rows) = All (λ r. r.created_at ≤ row.created_at) rows × IsNewestFirst rows

module _ (ties : ℕ → ℕ) where
  newest_first-perm :
      (row : TenantRow) (rows : List TenantRow) → Perm (newest_first ties row rows) (row ∷ rows)
  newest_first-perm row [] = Perm.rfl
  newest_first-perm row (r ∷ rows) =
      if_elim (λ l. Perm l (row ∷ r ∷ rows)) (is_newer ties row r) (λ _. Perm.rfl)
        (λ _. Perm.trans (Perm.cons r (newest_first-perm row rows)) (Perm.swap row r rows))

  pub by_creation-perm : (rows : List TenantRow) → Perm (by_creation ties rows) rows
  unfolding by_creation
  by_creation-perm [] = Perm.nil
  by_creation-perm (row ∷ rows) =
      Perm.trans (newest_first-perm row (by_creation ties rows))
        (Perm.cons row (by_creation-perm rows))

  length-newest_first :
      (row : TenantRow) (rows : List TenantRow)
      → length (newest_first ties row rows) ≡ suc (length rows)
  length-newest_first row [] = refl
  length-newest_first row (r ∷ rows) =
      if_elim (λ l. length l ≡ suc (suc (length rows))) (is_newer ties row r) (λ _. refl)
        (λ _. ap suc (length-newest_first row rows))

  pub length-by_creation : (rows : List TenantRow) → length (by_creation ties rows) ≡ length rows
  unfolding by_creation
  length-by_creation [] = refl
  length-by_creation (row ∷ rows) =
      length-newest_first row (by_creation ties rows) ∙ ap suc (length-by_creation rows)

  newest_first-All :
      (P : TenantRow → Type 0) (row : TenantRow) (rows : List TenantRow)
      → P row
      → All P rows
      → All P (newest_first ties row rows)
  newest_first-All P row [] p ps = (p, tt)
  newest_first-All P row (r ∷ rows) p (q, ps) =
      if_elim (All P) (is_newer ties row r) (λ _. (p, (q, ps)))
        (λ _. (q, newest_first-All P row rows p ps))

  by_creation-All :
      (P : TenantRow → Type 0) (rows : List TenantRow) → All P rows → All P (by_creation ties rows)
  unfolding by_creation
  by_creation-All P [] ps = tt
  by_creation-All P (row ∷ rows) (p, ps) =
      newest_first-All P row (by_creation ties rows) p (by_creation-All P rows ps)

  newest_first-IsNewestFirst :
      (row : TenantRow) (rows : List TenantRow)
      → IsNewestFirst rows
      → IsNewestFirst (newest_first ties row rows)
  newest_first-IsNewestFirst row [] v = (tt, tt)
  newest_first-IsNewestFirst row (r ∷ rows) (below, v) =
      if_elim IsNewestFirst (is_newer ties row r)
        (λ later.
          let le : r.created_at ≤ row.created_at = ground (arith, later) in
          (
            (
              le,
              All-map (λ (x : TenantRow) (h : x.created_at ≤ r.created_at). omega (arith, h, le))
                  rows below,
            ),
            (below, v),
          ))
        (λ earlier. (
          newest_first-All (λ x. x.created_at ≤ r.created_at) row rows (ground (arith, earlier))
              below,
          newest_first-IsNewestFirst row rows v,
        ))

  pub by_creation-IsNewestFirst : (rows : List TenantRow) → IsNewestFirst (by_creation ties rows)
  unfolding by_creation
  by_creation-IsNewestFirst [] = tt
  by_creation-IsNewestFirst (row ∷ rows) =
      newest_first-IsNewestFirst row (by_creation ties rows) (by_creation-IsNewestFirst rows)

-- No two tenants were created in the same microsecond.
abbrev pub AreDistinct : List TenantRow → Type 0
AreDistinct [] = Unit
AreDistinct (row ∷ rows) = All (λ r. r.created_at ≢ row.created_at) rows × AreDistinct rows

-- Then ties do not matter.
newest_first_same :
    (s t : ℕ → ℕ) (row : TenantRow) (rows : List TenantRow)
    → All (λ r. r.created_at ≢ row.created_at) rows
    → newest_first s row rows ≡ newest_first t row rows
newest_first_same s t row [] ne = refl
newest_first_same s t row (r ∷ rows) (ne, nes) =
    let same : is_newer s row r ≡ is_newer t row r = ground (arith, ne) in
    ap (λ b. if b then row ∷ r ∷ rows else r ∷ newest_first s row rows) same
    ∙ ap (λ l. if is_newer t row r then row ∷ r ∷ rows else r ∷ l)
        (newest_first_same s t row rows nes)

pub by_creation_same :
    (s t : ℕ → ℕ) (rows : List TenantRow)
    → AreDistinct rows
    → by_creation s rows ≡ by_creation t rows
unfolding by_creation
by_creation_same s t [] v = refl
by_creation_same s t (row ∷ rows) (ne, v) =
    ap (newest_first s row) (by_creation_same s t rows v)
    ∙ newest_first_same s t row (by_creation t rows)
        (by_creation-All t (λ r. r.created_at ≢ row.created_at) rows ne)
