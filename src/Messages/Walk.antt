-- ===== src/Messages/Walk.antt =====
-- A client of `ListMessages` that follows the cursors from page to page.
use multi_tenant_messaging.Base.{
  ℕ, List, Option, String, ltb, some, ◌∷◌, ◌≡◌, ◌≤◌, Bool-cases, false, if◌then◌else◌, none, true,
  ◌<◌, arith, inl, inr, refl, ◌∙◌, ap, suc, ◌++◌, drop, length, map, take, sym, subst,
}
use multi_tenant_messaging.Db.{UuidFormat, MessageRow, Db}
use multi_tenant_messaging.Messages.{
  matching, order_rows, whole_second, MessageResponse, CursorPaginationResponse, list_messages,
  no_cursor, cursor_after, message_response, instant, tenant_filter,
}
use multi_tenant_messaging.Base.Int.{ℤ}
use mathlib.Core.List.{[], append-nil, append_assoc}
use multi_tenant_messaging.Messages.Page.{order_rows-All, first_page, list_messages_page}
use multi_tenant_messaging.Tenants.{Answer, bad, good, page_limit}
use Prim.Native.Nat.{zero}
use multi_tenant_messaging.Messages.Order.{
  HaveOwnSeconds, IsDescending, AllWhole, matching_before, order-IsDescending, All-middle,
  before-order, own_whole, before_rows, before_split,
}

-- The messages of at most `fuel` pages, from a cursor on, until a page says that there are no more.
pub follow :
    UuidFormat → String → ℤ → Db → ℕ → Answer CursorPaginationResponse → List MessageResponse
follow u tenant_id limit db fuel (bad e) = []
follow u tenant_id limit db zero (good p) = p.data_page
follow u tenant_id limit db (suc fuel) (good p) =
    p.data_page
    ++ (if p.has_more
        then follow u tenant_id limit db fuel
            (list_messages u true tenant_id p.next_cursor limit db)
        else [])

abbrev pub walk : UuidFormat → String → ℤ → Db → ℕ → List MessageResponse
walk u tenant_id limit db fuel =
    follow u tenant_id limit db fuel (list_messages u true tenant_id no_cursor limit db)

-- The last row of a page that is not empty, and the rows before and behind it.
last_of_page :
    (n : ℕ) (x : MessageRow) (rows : List MessageRow)
    → (front : List MessageRow) × (y : MessageRow) × (x ∷ rows ≡ front ++ (y ∷ drop n rows))
      × (cursor_after (x ∷ take n rows) ≡ instant (whole_second y.created_at))
last_of_page zero x rows = ([], x, refl, refl)
last_of_page (suc n) x [] = ([], x, refl, refl)
last_of_page (suc n) x (r ∷ rows) =
    let (front, y, split, cursor) = last_of_page n r rows in
    (x ∷ front, y, ap (λ rs. x ∷ rs) split, cursor)

map-take-drop :
    (u : UuidFormat) (n : ℕ) (rows : List MessageRow)
    → map (message_response u) (take n rows) ++ map (message_response u) (drop n rows)
      ≡ map (message_response u) rows
map-take-drop u zero rows = refl
map-take-drop u (suc n) [] = refl
map-take-drop u (suc n) (x ∷ rows) = ap (λ ms. message_response u x ∷ ms) (map-take-drop u n rows)

take_all : (n : ℕ) (rows : List MessageRow) → ltb n (length rows) ≡ false → take n rows ≡ rows
take_all zero [] e = refl
take_all (suc n) [] e = refl
take_all zero (x ∷ rows) e = absurd (ground (arith, e))
take_all (suc n) (x ∷ rows) e = ap (λ rs. x ∷ rs) (take_all n rows (ground (arith, e)))

length-drop : (n : ℕ) (rows : List MessageRow) → length (drop n rows) ≤ length rows
length-drop zero rows = omega arith
length-drop (suc n) [] = omega arith
length-drop (suc n) (x ∷ rows) = omega (arith, length-drop n rows)

positive : (n : ℕ) → 0 < n → (m : ℕ) × (n ≡ suc m)
positive zero h = absurd (omega (arith, h))
positive (suc m) h = (m, refl)

module _ (u : UuidFormat) (tenant_id : String) (limit : ℤ) (db : Db) {tenant : Option ℕ}
    (reads : tenant_filter u tenant_id ≡ some tenant) where
  abbrev listed : List MessageRow
  listed = order_rows (matching tenant none db.messages)

  -- The page behind a row of the list.
  page_behind :
      (front back : List MessageRow) (y : MessageRow)
      → listed ≡ front ++ (y ∷ back)
      → IsDescending listed
      → list_messages u true tenant_id (instant y.created_at) limit db
        ≡ good (first_page u (page_limit limit) back)
  page_behind front back y split v =
      (list_messages_page u tenant_id (instant y.created_at) limit db reads).0
      ∙ ap (λ rows. good (first_page u (page_limit limit) rows))
          (ap order_rows (matching_before tenant y.created_at db.messages)
            ∙ sym (before-order y.created_at (matching tenant none db.messages))
            ∙ ap (before_rows y.created_at) split
            ∙ before_split front back y (subst IsDescending split v))

  follow_rest :
      (m fuel : ℕ) (front rows : List MessageRow)
      → page_limit limit ≡ suc m
      → listed ≡ front ++ rows
      → IsDescending listed
      → AllWhole listed
      → length rows ≤ fuel
      → follow u tenant_id limit db fuel (good (first_page u (suc m) rows))
        ≡ map (message_response u) rows
  unfolding follow
  follow_rest m zero front [] size split v whole enough = refl
  follow_rest m zero front (x ∷ rows) size split v whole enough = absurd (omega (arith, enough))
  follow_rest m (suc fuel) front [] size split v whole enough = ground arith
  follow_rest m (suc fuel) front (x ∷ rows) size split v whole enough =
      let (inner, y, cut, cursor) = last_of_page m x rows in
      elim (Bool-cases (ltb (suc m) (length (x ∷ rows)))) [
        | inr last ↦ rw (last, append-nil, take_all m rows (ground (arith, last))) refl
        | inl more ↦
            let split' : listed ≡ (front ++ inner) ++ (y ∷ drop m rows) =
              split
              ∙ ap (λ rs. front ++ rs) cut
              ∙ sym (append_assoc front inner (y ∷ drop m rows)) in
            let whole_y : whole_second y.created_at ≡ y.created_at =
              All-middle (λ r. whole_second r.created_at ≡ r.created_at) (front ++ inner)
                (drop m rows) y (subst AllWhole split' whole) in
            let rest =
              follow_rest m fuel ((front ++ inner) ++ y ∷ []) (drop m rows) size
                (split' ∙ sym (append_assoc (front ++ inner) (y ∷ []) (drop m rows))) v whole
                (omega (arith, length-drop m rows, enough)) in
            ap (λ ms. map (message_response u) (take (suc m) (x ∷ rows)) ++ ms)
              (rw
                (more, cursor, whole_y, page_behind (front ++ inner) (drop m rows) y split' v, size)
                rest)
            ∙ map-take-drop u (suc m) (x ∷ rows)
      ]

  -- Where the messages that a query is about are created at whole seconds, no two in the same, a client
  -- that follows the cursors gets each of them once, newest first. As many pages as there are messages
  -- are enough.
  pub walk_complete :
      (fuel : ℕ)
      → HaveOwnSeconds (matching tenant none db.messages)
      → length (order_rows (matching tenant none db.messages)) ≤ fuel
      → walk u tenant_id limit db fuel
        ≡ map (message_response u) (order_rows (matching tenant none db.messages))
  walk_complete fuel own enough =
      let (m, size) =
        positive (page_limit limit) (list_messages_page u tenant_id no_cursor limit db reads).1 in
      rw ((list_messages_page u tenant_id no_cursor limit db reads).0, size)
        (follow_rest m fuel [] listed size refl
          (order-IsDescending (matching tenant none db.messages) own)
          (order_rows-All _ (matching tenant none db.messages)
            (own_whole (matching tenant none db.messages) own))
          enough)
