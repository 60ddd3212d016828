-- ===== src/Handlers/Limits.antt =====
-- The pages that `ListMessages` answers, and its two tests on `limit` before those of the service.
use multi_tenant_messaging.Base.{
  ℕ, ◌<◌, String, suc, ◌≡◌, ◌≤◌, ap, arith, min, ◌∙◌, refl, Option, true, some,
}
use multi_tenant_messaging.Base.Int.{ℤ, pos, negsuc}
use multi_tenant_messaging.Handlers.Messages.{list_messages_handler, clamp_limit, page_or}
use multi_tenant_messaging.Tenants.{page_limit}
use multi_tenant_messaging.Db.{UuidFormat, Db}
use multi_tenant_messaging.Messages.{Cursor, tenant_filter, order_rows, matching, cursor_time}
use multi_tenant_messaging.Http.Request.{Moment, Request}
use Prim.Native.Nat.{zero}
use multi_tenant_messaging.Http.{answer, ok_200, page_body}
use multi_tenant_messaging.Messages.Page.{first_page, list_messages_page}

-- The limit of the query, from 1 up to 100.
abbrev pub within : ℤ → ℕ
within (pos zero) = 1
within (pos (suc n)) = min (suc n) 100
within (negsuc n) = 1

clamp_within : (n : ℤ) → clamp_limit n ≡ pos (within n)
clamp_within (pos zero) = refl
clamp_within (pos (suc n)) = ground arith
clamp_within (negsuc n) = ground arith

page_limit_of : (n : ℕ) → 0 < n → n ≤ 100 → page_limit (pos n) ≡ n
unfolding page_limit
page_limit_of n low high = ground arith

within_bounds : (n : ℤ) → (0 < within n) × (within n ≤ 100)
within_bounds (pos zero) = ground arith
within_bounds (pos (suc n)) = omega arith
within_bounds (negsuc n) = ground arith

-- The service then uses this limit as it is.
limit_used : (n : ℤ) → page_limit (clamp_limit n) ≡ within n
limit_used n =
    ap page_limit (clamp_within n)
    ∙ page_limit_of (within n) (within_bounds n).0 (within_bounds n).1

-- Where the tenant of the query is empty or reads as an id and the database answers, `GET /messages` answers
-- 200 with the first page of the matching messages, newest first, at the query's limit brought
-- between 1 and 100: a limit of 0 or less asks for one message, not for the service's default.
pub list_messages_handler_page :
    (u : UuidFormat) (read_cursor : String → Cursor) (x : Moment) (req : Request) (db : Db)
    {tenant : Option ℕ}
    → x.served ≡ true
    → tenant_filter u (req.query "tenant_id") ≡ some tenant
    → let rows =
        order_rows (matching tenant (cursor_time (read_cursor (req.query "cursor"))) db.messages) in
      list_messages_handler u read_cursor x req db
      ≡ answer ok_200 (page_body (first_page u (within (req.query_int "limit" (pos 20))) rows))
unfolding list_messages_handler
list_messages_handler_page u read_cursor x req db {tenant} up own =
    let limit = req.query_int "limit" (pos 20) in
    let cursor = read_cursor (req.query "cursor") in
    rw up (
      ap page_or
        (list_messages_page u (req.query "tenant_id") cursor (clamp_limit limit) db
          {tenant = tenant} own).0
      ∙ ap
          (λ n. answer ok_200 (
            page_body
              (first_page u n (order_rows (matching tenant (cursor_time cursor) db.messages)))))
          (limit_used limit))
