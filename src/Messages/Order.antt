-- ===== src/Messages/Order.antt =====
-- The rows of a query in their order: newest first, so those before a time are a tail of them.
use multi_tenant_messaging.Base.{
  ℕ, List, All, Option, ltb, ◌++◌, ◌∷◌, ◌≡◌, ◌≢◌, ◌≤◌, All-map, Bool-cases, arith, false,
  if◌then◌else◌, some, true, ◌<◌, inl, none, refl, inr, ◌∙◌, ap,
}
use multi_tenant_messaging.Db.{MessageRow}
use multi_tenant_messaging.Messages.{matching, order_rows, place, comes_first, whole_second}
use mathlib.Core.List.{[]}
use multi_tenant_messaging.Messages.Page.{order_rows-All, place-All}

-- Rows created before a time, in their order.
pub before_rows : ℕ → List MessageRow → List MessageRow
before_rows time [] = []
before_rows time (row ∷ rows) =
    if ltb row.created_at time then row ∷ before_rows time rows else before_rows time rows

pub matching_before :
    (tenant : Option ℕ) (time : ℕ) (rows : List MessageRow)
    → matching tenant (some time) rows ≡ before_rows time (matching tenant none rows)
unfolding matching before_rows
matching_before tenant time [] = refl
matching_before tenant time (row ∷ rows) = ground (arith, matching_before tenant time rows)

before-place-out :
    (time : ℕ) (x : MessageRow) (rows : List MessageRow)
    → ltb x.created_at time ≡ false
    → before_rows time (place x rows) ≡ before_rows time rows
unfolding before_rows place
before-place-out time x [] late = rw late refl
before-place-out time x (r ∷ rows) late = ground (arith, late, before-place-out time x rows late)

before-place-in :
    (time : ℕ) (x : MessageRow) (rows : List MessageRow)
    → ltb x.created_at time ≡ true
    → before_rows time (place x rows) ≡ place x (before_rows time rows)
unfolding before_rows place
before-place-in time x [] early = rw early refl
before-place-in time x (r ∷ rows) early = ground (arith, early, before-place-in time x rows early)

pub before-order :
    (time : ℕ) (rows : List MessageRow)
    → before_rows time (order_rows rows) ≡ order_rows (before_rows time rows)
unfolding before_rows order_rows
before-order time [] = refl
before-order time (x ∷ rows) = elim (Bool-cases (ltb x.created_at time)) [
  | inl early ↦
      rw early
        (before-place-in time x (order_rows rows) early ∙ ap (place x) (before-order time rows))
  | inr late ↦ rw late (before-place-out time x (order_rows rows) late ∙ before-order time rows)
]

-- All created before a time; and each created before those in front of it.
abbrev pub AllBefore : ℕ → List MessageRow → Type 0
AllBefore time rows = All (λ r. r.created_at < time) rows

abbrev pub IsDescending : List MessageRow → Type 0
IsDescending [] = Unit
IsDescending (x ∷ rows) = AllBefore x.created_at rows × IsDescending rows

-- Created at whole seconds, no two in the same.
abbrev pub HaveOwnSeconds : List MessageRow → Type 0
HaveOwnSeconds [] = Unit
HaveOwnSeconds (x ∷ rows) =
    (whole_second x.created_at ≡ x.created_at)
    × All (λ r. r.created_at ≢ x.created_at) rows
    × HaveOwnSeconds rows

abbrev pub AllWhole : List MessageRow → Type 0
AllWhole rows = All (λ r. whole_second r.created_at ≡ r.created_at) rows

pub own_whole : (rows : List MessageRow) → HaveOwnSeconds rows → AllWhole rows
own_whole [] v = tt
own_whole (x ∷ rows) (whole, _, v) = (whole, own_whole rows v)

before_mono : {s t : ℕ} (rows : List MessageRow) → s ≤ t → AllBefore s rows → AllBefore t rows
before_mono rows h v = All-map (λ r early. omega (arith, early)) rows v

front_later :
    (x r : MessageRow)
    → r.created_at ≢ x.created_at
    → comes_first x r ≡ true
    → r.created_at < x.created_at
front_later x r differs e = ground (arith, differs, e)

back_earlier :
    (x r : MessageRow)
    → r.created_at ≢ x.created_at
    → comes_first x r ≡ false
    → x.created_at < r.created_at
back_earlier x r differs e = ground (arith, differs, e)

place-IsDescending :
    (x : MessageRow) (rows : List MessageRow)
    → All (λ r. r.created_at ≢ x.created_at) rows
    → IsDescending rows
    → IsDescending (place x rows)
unfolding place
place-IsDescending x [] apart v = (tt, tt)
place-IsDescending x (r ∷ rows) (differs, apart) (below, v) = elim (Bool-cases (comes_first x r)) [
  | inl e ↦ rw e (
    (front_later x r differs e, before_mono rows (omega (arith, front_later x r differs e)) below),
    (below, v),
  )
  | inr e ↦
      rw e
        (place-All _ x rows (back_earlier x r differs e) below, place-IsDescending x rows apart v)
]

pub order-IsDescending :
    (rows : List MessageRow) → HaveOwnSeconds rows → IsDescending (order_rows rows)
unfolding order_rows
order-IsDescending [] v = tt
order-IsDescending (x ∷ rows) (_, apart, v) =
    place-IsDescending x (order_rows rows) (order_rows-All _ rows apart) (order-IsDescending rows v)

before_all :
    (time : ℕ) (rows : List MessageRow) → AllBefore time rows → before_rows time rows ≡ rows
unfolding before_rows
before_all time [] v = refl
before_all time (r ∷ rows) (early, v) = ground (arith, early, before_all time rows v)

pub All-middle {κ} :
    (Q : MessageRow → Type κ) (front back : List MessageRow) (y : MessageRow)
    → All Q (front ++ (y ∷ back))
    → Q y
All-middle Q [] back y (q, _) = q
All-middle Q (x ∷ front) back y (_, qs) = All-middle Q front back y qs

-- In a list in order, the rows before a row's time are those behind it.
pub before_split :
    (front back : List MessageRow) (y : MessageRow)
    → IsDescending (front ++ (y ∷ back))
    → before_rows y.created_at (front ++ (y ∷ back)) ≡ back
unfolding before_rows
before_split [] back y (below, v) = ground (arith, before_all y.created_at back below)
before_split (x ∷ front) back y (below, v) = ground (
  arith,
  before_split front back y v,
  All-middle (λ r. r.created_at < x.created_at) front back y below,
)
