-- ===== src/Messages/Page.antt =====
-- What one call of `ListMessages` returns.
use multi_tenant_messaging.Base.{
  ℕ, List, All, Option, String, ltb, take, length, map, suc, ◌∷◌, Bool-cases, ◌≡◌, ap, arith, false,
  inl, true, inr, length-take, refl, some, sym, ◌<◌, ◌≤◌,
}
use multi_tenant_messaging.Db.{MessageRow, UuidFormat, Db}
use multi_tenant_messaging.Messages.{
  list_messages, matching, CursorPaginationResponse, order_rows, page, place, Cursor,
  message_response, cursor_after, comes_first, tenant_filter, cursor_time, instant, no_cursor,
  unreadable,
}
use multi_tenant_messaging.Tenants.{page_limit, good}
use multi_tenant_messaging.Base.Int.{ℤ, pos, negsuc}
use Prim.Native.Nat.{zero}
use mathlib.Core.List.{[]}

take-take : (n : ℕ) (rows : List MessageRow) → take n (take (suc n) rows) ≡ take n rows
take-take zero rows = refl
take-take (suc n) [] = refl
take-take (suc n) (x ∷ rows) = ap (λ r. x ∷ r) (take-take n rows)

take_short :
    (n : ℕ) (rows : List MessageRow)
    → ltb n (length (take (suc n) rows)) ≡ false
    → take (suc n) rows ≡ take n rows
take_short zero [] e = refl
take_short zero (x ∷ rows) e = absurd (ground (arith, e))
take_short (suc n) [] e = refl
take_short (suc n) (x ∷ rows) e = ap (λ r. x ∷ r) (take_short n rows (ground (arith, e)))

more_rows :
    (n : ℕ) (rows : List MessageRow) → ltb n (length (take (suc n) rows)) ≡ ltb n (length rows)
more_rows n rows = ground (arith, length-take (suc n) rows)

-- The page that the rows in order should give: the first `limit` of them, the time of the last, cut
-- to the second, and whether there are more.
abbrev pub first_page : UuidFormat → ℕ → List MessageRow → CursorPaginationResponse
first_page u limit rows = record {
  data_page = map (message_response u) (take limit rows);
  next_cursor = cursor_after (take limit rows);
  has_more = ltb limit (length rows);
}

page-take :
    (u : UuidFormat) (n : ℕ) (rows : List MessageRow)
    → page u n (take (suc n) rows) ≡ first_page u n rows
page-take u n rows = elim (Bool-cases (ltb n (length (take (suc n) rows)))) [
  | inl more ↦ rw (more, take-take n rows, sym (more_rows n rows), more) refl
  | inr last ↦ rw (last, take_short n rows last, sym (more_rows n rows), last) refl
]

page_limit_bounds : (limit : ℤ) → (0 < page_limit limit) × (page_limit limit ≤ 100)
unfolding page_limit
page_limit_bounds (pos zero) = (omega arith, omega arith)
page_limit_bounds (pos (suc n)) = ground arith
page_limit_bounds (negsuc n) = ground arith

-- `ListMessages` fetches one row more than a page holds. Its answer is the first page of all the
-- matching rows, newest first: at most the limit, which is from 1 to 100, with `has_more` exactly if
-- another row is left.
pub list_messages_page :
    (u : UuidFormat) (tenant_id : String) (cursor : Cursor) (limit : ℤ) (db : Db)
    {tenant : Option ℕ}
    → tenant_filter u tenant_id ≡ some tenant
    → let rows = order_rows (matching tenant (cursor_time cursor) db.messages) in
      (list_messages u true tenant_id cursor limit db ≡ good (first_page u (page_limit limit) rows))
      × (0 < page_limit limit)
      × (page_limit limit ≤ 100)
unfolding list_messages page_limit
list_messages_page u tenant_id cursor limit db {tenant} e = (
  rw
      (
        e,
        list_messages,
        page-take u (page_limit limit)
            (order_rows (matching tenant (cursor_time cursor) db.messages)),
      )
      refl,
  (page_limit_bounds limit).0,
  (page_limit_bounds limit).1,
)

module _ {κ} (P : MessageRow → Type κ) where
  pub place-All :
      (row : MessageRow) (rows : List MessageRow) → P row → All P rows → All P (place row rows)
  unfolding place
  place-All row [] p ps = (p, tt)
  place-All row (r ∷ rows) p (q, ps) = elim (Bool-cases (comes_first row r)) [
    | inl e ↦ rw e (p, (q, ps))
    | inr e ↦ rw e (q, place-All row rows p ps)
  ]

  pub order_rows-All : (rows : List MessageRow) → All P rows → All P (order_rows rows)
  unfolding order_rows
  order_rows-All [] ps = tt
  order_rows-All (row ∷ rows) (p, ps) = place-All row (order_rows rows) p (order_rows-All rows ps)

-- Created before the cursor, where it is a time.
abbrev pub IsEarlier : Cursor → ℕ → Type 0
IsEarlier (instant time) created_at = created_at < time
IsEarlier no_cursor created_at = Unit
IsEarlier unreadable created_at = Unit
